-- ===== src/Detection/Parse.antt =====
-- detection/sigma.py: the rule of a YAML mapping. The texts of the errors are left out; a ValueError is the
-- code's own, an AttributeError or a TypeError that of a value of another kind than expected.
pub mod Rule
use Prim.Native.Char.{code}
use security_agent.Prelude.{
  Bool, true, false, not, ◌&&◌, ◌||◌, List, [], ◌∷◌, ◌++◌, map, Option, none, some, String, ◌⊎◌,
  inl, inr, eqb, drop, codes, starts_with, get_or, ◌==◌, if◌then◌else◌, all,
}
use security_agent.Detection.{
  Value, Values, Entries, null, bool, number, text, list, dict, nil, cons, empty, entry, Runtime,
  get, truthy,
}
use security_agent.Detection.Sigma.{
  RuleLevel, informational, low, medium, high, critical, Operator, eq, neq, gt, gte, lt, lte,
  includes, startswith, exists, Mode, selected, one_of, all_of, FieldPredicate, SigmaRule,
}

pub data Error : Type 0 where
  value_error attribute_error type_error : Error

unfoldable pub and_then : {A B : Type 0} → Error ⊎ A → (A → Error ⊎ B) → Error ⊎ B
and_then (inl e) f = inl e
and_then (inr a) f = f a

abbrev is : String → String → Bool
is t u = t == u

-- `RuleLevel(t)` and `Operator(t)`, or the default.
level_of : String → RuleLevel
level_of t =
    if is t "informational"
    then informational
    else if is t "low"
    then low
    else if is t "high"
    then high
    else if is t "critical"
    then critical
    else medium

operator_of : String → Operator
operator_of t =
    if is t "neq"
    then neq
    else if is t "gt"
    then gt
    else if is t "gte"
    then gte
    else if is t "lt"
    then lt
    else if is t "lte"
    then lte
    else if is t "contains"
    then includes
    else if is t "startswith"
    then startswith
    else if is t "exists"
    then exists
    else eq

-- The parts of a text in front of its first "|" and behind it.
before_bar : String → String
before_bar String.[] = String.[]
before_bar (String.◌∷◌ c s) = if eqb (code c) 124 then String.[] else String.◌∷◌ c (before_bar s)

after_bar : String → Option String
after_bar String.[] = none
after_bar (String.◌∷◌ c s) = if eqb (code c) 124 then some s else after_bar s

-- The characters of a text, as texts.
characters : String → List String
characters String.[] = []
characters (String.◌∷◌ c s) = String.◌∷◌ c String.[] ∷ characters s

module _ {N : Type 0} where
  pub from_yaml : Runtime N → String → Value N → FieldPredicate N
  unfolding after_bar before_bar operator_of
  from_yaml py raw v = elim (after_bar raw) [
    | none ↦ record { field = raw; op = eq; value = v }
    | some op ↦ record { field = before_bar raw; op = operator_of (py.lower op); value = v }
  ]

  -- A block's predicates.
  pub block_of : Runtime N → Entries N → List (FieldPredicate N)
  unfolding from_yaml
  block_of py empty = []
  block_of py (entry k v es) = from_yaml py k v ∷ block_of py es

  is_dict : Value N → Bool
  is_dict (dict es) = true
  is_dict v = false

  -- all(isinstance(v, dict) for v in selection.values())
  pub named : Entries N → Bool
  unfolding is_dict
  named empty = true
  named (entry k v es) = is_dict v && named es

  -- The blocks of a selection whose values are dicts, those whose name the test takes.
  pub blocks_where : Runtime N → (String → Bool) → Entries N → List (List (FieldPredicate N))
  unfolding block_of
  blocks_where py takes empty = []
  blocks_where py takes (entry k (dict es) rest) =
      if takes k then block_of py es ∷ blocks_where py takes rest else blocks_where py takes rest
  blocks_where py takes (entry k v rest) = blocks_where py takes rest

  pub selection_blocks : Runtime N → Entries N → List (List (FieldPredicate N))
  unfolding blocks_where named block_of
  selection_blocks py empty = []
  selection_blocks py (entry k v es) =
      if named (entry k v es)
      then blocks_where py (λ k. true) (entry k v es)
      else block_of py (entry k v es) ∷ []

  -- d.get(k) or the default
  pub get_truthy : Runtime N → String → Value N → Entries N → Value N
  unfolding get truthy
  get_truthy py k default es = elim (get k es) [
    | none ↦ default
    | some v ↦ if truthy py v then v else default
  ]

  -- `str` of each thing in it, in `for`.
  pub texts_of : Runtime N → Values N → List String
  texts_of py nil = []
  texts_of py (cons v vs) = py.str v ∷ texts_of py vs

  keys : Entries N → List String
  keys empty = []
  keys (entry k v es) = k ∷ keys es

  pub iterate : Runtime N → Value N → Error ⊎ List String
  unfolding texts_of keys characters
  iterate py (list vs) = inr (texts_of py vs)
  iterate py (dict es) = inr (keys es)
  iterate py (text t) = inr (characters t)
  iterate py v = inl type_error

  pub fields_of : Runtime N → Value N → Error ⊎ List String
  unfolding iterate
  fields_of py (text t) = inr (t ∷ [])
  fields_of py v = iterate py v

  -- A value whose `.get`, `.values` or `.items` is used.
  pub as_dict : Value N → Error ⊎ Entries N
  as_dict (dict es) = inr es
  as_dict v = inl attribute_error

  pub level : Runtime N → Option (Value N) → Error ⊎ RuleLevel
  unfolding truthy level_of
  level py none = inr medium
  level py (some (text t)) = inr (if is t "" then medium else level_of (py.lower t))
  level py (some v) = if truthy py v then inl attribute_error else inr medium
