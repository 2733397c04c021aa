-- ===== src/Detection/Sigma.antt =====
-- detection/sigma.py: a rule and `matches`. The rule's `source_path` is left out. The fields of a match are
-- a dict in its order of insertion.
pub mod Conditions
use security_agent.Prelude.{
  Bool, true, false, not, ◌&&◌, ◌||◌, List, [], ◌∷◌, ◌++◌, map, Option, none, some, String, codes,
  starts_with, contains, ◌==◌, if◌then◌else◌, any,
}
use security_agent.Detection.{
  Value, null, bool, number, text, list, dict, Runtime, get, event_get, truthy,
}

pub data RuleLevel : Type 0 where
  informational low medium high critical : RuleLevel

pub data Operator : Type 0 where
  eq neq gt gte lt lte includes startswith exists : Operator

-- "selection", "1of" and "all"
pub data Mode : Type 0 where
  selected one_of all_of : Mode

pub record FieldPredicate (N : Type 0) : Type 0 where
  pub field : String
  pub op : Operator
  pub value : Value N

pub record SigmaRule (N : Type 0) : Type 0 where
  pub rule_id : String
  pub title : String
  pub description : String
  pub level : RuleLevel
  pub product : String
  pub service : String
  pub category : String
  pub detection_fields : List String
  pub selection : List (FieldPredicate N)
  pub pred_lists : List (List (FieldPredicate N))
  pub condition_mode : Mode
  pub tags : List String

-- `matched_fields`
abbrev pub Fields : Type 0 → Type 0
Fields N = List (String × Value N)

-- An order that raises is false.
raises_false : Option Bool → Bool
raises_false none = false
raises_false (some b) = b

module _ {N : Type 0} where
  -- fields[k] = v
  pub put : String → Value N → Fields N → Fields N
  put k v [] = (k, v) ∷ []
  put k v ((j, w) ∷ fields) = if j == k then (j, v) ∷ fields else (j, w) ∷ put k v fields

  -- fields.update(others)
  pub update : Fields N → Fields N → Fields N
  unfolding put
  update fields [] = fields
  update fields ((k, v) ∷ others) = update (put k v fields) others

  pub in_fields : String → Fields N → Bool
  in_fields k fields = any (λ (j, v). j == k) fields

  pub coerce : Runtime N → Value N → Value N
  coerce py (text t) =
      elim (if contains (codes t) (codes ".") then py.float_of t else py.int_of t) [
        | none ↦ text t
        | some n ↦ number n
      ]
  coerce py v = v

  -- Of an `actual` that is not None.
  pub compare : Runtime N → Value N → Operator → Value N → Bool
  unfolding coerce raises_false
  compare py actual eq expected = py.same actual expected
  compare py actual neq expected = not (py.same actual expected)
  compare py actual gt expected = raises_false (py.greater (coerce py actual) (coerce py expected))
  compare py actual gte expected =
      raises_false (py.greater_equal (coerce py actual) (coerce py expected))
  compare py actual lt expected = raises_false (py.less (coerce py actual) (coerce py expected))
  compare py actual lte expected =
      raises_false (py.less_equal (coerce py actual) (coerce py expected))
  compare py actual includes expected =
      contains (codes (py.lower (py.str actual))) (codes (py.lower (py.str expected)))
  compare py actual startswith expected =
      starts_with (codes (py.lower (py.str actual))) (codes (py.lower (py.str expected)))
  compare py actual exists expected = true

  pub block_loop : Runtime N → Value N → List (FieldPredicate N) → Fields N → Option (Fields N)
  unfolding event_get compare put
  block_loop py event [] matched = some matched
  block_loop py event (p ∷ block) matched = elim (event_get event p.field) [
    | none ↦ none
    | some actual ↦ elim (compare py actual p.op p.value) [
      | true ↦ block_loop py event block (put p.field actual matched)
      | false ↦ none
    ]
  ]

  pub block_matches : Runtime N → Value N → List (FieldPredicate N) → Option (Fields N)
  unfolding block_loop
  block_matches py event block = block_loop py event block []

  pub finish_match : Value N → List String → Fields N → Fields N
  unfolding event_get in_fields put
  finish_match event [] matched = matched
  finish_match event (path ∷ paths) matched = elim (event_get event path) [
    | none ↦ finish_match event paths matched
    | some v ↦
        finish_match event paths (if in_fields path matched then matched else put path v matched)
  ]

  -- `event_logsource.get(key)`, of a logsource that is a dict.
  of_logsource : String → Option (Value N) → Option (Value N)
  unfolding get
  of_logsource key (some (dict es)) = get key es
  of_logsource key _ = none

  is_text : String → Value N → Bool
  is_text t (text u) = u == t
  is_text t v = false

  -- Whether an event's product or service is the rule's: `wanted` is the rule's.
  agrees : Runtime N → String → Option (Value N) → Bool
  unfolding truthy is_text
  agrees py wanted none = true
  agrees py wanted (some v) = wanted == "" || not (truthy py v) || is_text wanted v

  pub logsource_agrees : Runtime N → SigmaRule N → Value N → Bool
  unfolding agrees of_logsource event_get
  logsource_agrees py rule event =
      let logsource = event_get event "logsource" in
      agrees py rule.product (of_logsource "product" logsource)
      && agrees py rule.service (of_logsource "service" logsource)

  unfoldable pub blocks_of : SigmaRule N → List (List (FieldPredicate N))
  blocks_of rule = elim rule.pred_lists [ [] ↦ rule.selection ∷ [] | b ∷ bs ↦ b ∷ bs ]

  pub first_match : Runtime N → Value N → List (List (FieldPredicate N)) → Option (Fields N)
  unfolding block_matches
  first_match py event [] = none
  first_match py event (b ∷ blocks) = elim (block_matches py event b) [
    | none ↦ first_match py event blocks
    | some matched ↦ some matched
  ]

  pub merge_matches :
      Runtime N → Value N → List (List (FieldPredicate N)) → Fields N → Option (Fields N)
  unfolding block_matches update
  merge_matches py event [] merged = some merged
  merge_matches py event (b ∷ blocks) merged = elim (block_matches py event b) [
    | none ↦ none
    | some matched ↦ merge_matches py event blocks (update merged matched)
  ]

  -- The first block.
  unfoldable pub leading : List (List (FieldPredicate N)) → List (FieldPredicate N)
  leading [] = []
  leading (b ∷ bs) = b

  pub condition_match :
      Runtime N → Value N → Mode → List (List (FieldPredicate N)) → Option (Fields N)
  unfolding first_match merge_matches block_matches leading
  condition_match py event one_of blocks = first_match py event blocks
  condition_match py event all_of blocks = merge_matches py event blocks []
  condition_match py event selected blocks = block_matches py event (leading blocks)

  -- `matches`: the fields of a match.
  unfoldable pub matches : Runtime N → SigmaRule N → Value N → Option (Fields N)
  unfolding condition_match blocks_of logsource_agrees finish_match
  matches py rule event = elim rule.selection [
    | [] ↦ none
    | p ∷ block ↦ elim (logsource_agrees py rule event) [
      | false ↦ none
      | true ↦ elim (condition_match py event rule.condition_mode (blocks_of rule)) [
        | none ↦ none
        | some matched ↦ some (finish_match event rule.detection_fields matched)
      ]
    ]
  ]
