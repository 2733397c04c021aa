-- ===== src/Detection/Parse/Rule/Shape.antt =====
-- The rules that `parse_sigma_dict` of detection/sigma.py gives.
use security_agent.Prelude.{
  ◌≡◌, ◌≢◌, refl, sym, ap, ◌∙◌, ◌⊎◌, inl, inr, List, [], ◌∷◌, String, Bool-cases, List-cases, ◌==◌,
  ◌||◌,
}
use security_agent.Detection.{Value, Entries, null, bool, number, text, list, dict, empty, Runtime}
use security_agent.Detection.Sigma.{
  Mode, selected, one_of, all_of, FieldPredicate, SigmaRule, leading, blocks_of,
}
use security_agent.Detection.Parse.{
  Error, and_then, named, blocks_where, selection_blocks, get_truthy, as_dict,
}
use security_agent.Detection.Parse.Rule.{
  Resolved, some_block, starts_one_of, takes, drop_text, resolve, resolve_condition,
  parse_sigma_dict, build_rule,
}

and_then-cases :
    {A B : Type 0} (first : Error ⊎ A) (next : A → Error ⊎ B) (b : B)
    → and_then first next ≡ inr b
    → (a : A) × (first ≡ inr a) × (next a ≡ inr b)
unfolding and_then
and_then-cases (inl e) next b h = absurd (cc)
and_then-cases (inr a) next b h = (a, refl, h)

inr-Injective : {A B : Type 0} {b c : B} → Path (A ⊎ B) (inr b) (inr c) → b ≡ c
inr-Injective h = cc

and_then-All :
    {A B : Type 0} (P : B → Type 0) (first : Error ⊎ A) (next : A → Error ⊎ B)
    → ((a : A) (b : B) → first ≡ inr a → next a ≡ inr b → P b)
    → (b : B) → and_then first next ≡ inr b
    → P b
unfolding and_then
and_then-All P (inl e) next f b h = absurd (cc)
and_then-All P (inr a) next f b h = f a b refl h

module _ {N : Type 0} where
  -- There is a block, but for the mode of one block.
  abbrev pub Filled : Mode → List (List (FieldPredicate N)) → Type 0
  Filled selected blocks = Unit
  Filled one_of blocks = blocks ≢ []
  Filled all_of blocks = blocks ≢ []

  some_block-Filled :
      (blocks out : List (List (FieldPredicate N))) → some_block blocks ≡ inr out → out ≢ []
  unfolding some_block
  some_block-Filled [] out h = absurd (cc)
  some_block-Filled (b ∷ bs) out h = λ e. absurd (cc)

  -- Blocks that have to be, under a mode.
  checked-Filled :
      (mode : Mode) (blocks : List (List (FieldPredicate N))) (out : Resolved N)
      → and_then (some_block blocks) (λ bs. inr (mode, bs)) ≡ inr out
      → Filled out.0 out.1
  checked-Filled mode blocks out h =
      let (found, e, g) = and_then-cases (some_block blocks) (λ bs. inr (mode, bs)) out h in
      let same : (mode, found) ≡ out = cc in
      rw (sym same) (filled mode (some_block-Filled blocks found e))
    where
      filled : (mode : Mode) {bs : List (List (FieldPredicate N))} → bs ≢ [] → Filled mode bs
      filled selected h = tt
      filled one_of h = h
      filled all_of h = h

  resolve-Filled :
      (py : Runtime N) (condition : String) (selection : Entries N) (out : Resolved N)
      → resolve py condition selection ≡ inr out
      → Filled out.0 out.1
  unfolding resolve
  resolve-Filled py condition selection out h = elim (Bool-cases (condition == "all of them")) [
    | inl a ↦ checked-Filled all_of (selection_blocks py selection) out (rw (a, resolve) at h)
    | inr a ↦ elim (Bool-cases (starts_one_of condition)) [
      | inl o ↦ elim (Bool-cases (named selection)) [
        | inl n ↦
            checked-Filled one_of
              (blocks_where py (takes (py.strip (drop_text 5 condition))) selection) out
              (rw (a, o, n, resolve) at h)
        | inr n ↦ absurd (cc (rw (a, o, n, resolve) at h))
      ]
      | inr o ↦
          let over : inr (selected, selection_blocks py selection) ≡ inr out =
            rw (a, o, resolve) at h in
          let same : (selected, selection_blocks py selection) ≡ out = cc in rw (sym same) tt
    ]
  ]

  resolve_condition-Filled :
      (py : Runtime N) (condition selection : Value N) (out : Resolved N)
      → resolve_condition py condition selection ≡ inr out
      → Filled out.0 out.1
  unfolding resolve_condition
  resolve_condition-Filled py (text condition) selection out h =
      elim (Bool-cases
        (condition == "selection" || (starts_one_of condition || condition == "all of them"))) [
          | inl t ↦
              let (entries, e, g) =
                and_then-cases (as_dict selection) (resolve py condition) out
                  (rw (t, resolve_condition) at h) in
              resolve-Filled py condition entries out g
          | inr t ↦ absurd (cc (rw (t, resolve_condition) at h))
        ]
  resolve_condition-Filled py null selection out h = absurd (cc)
  resolve_condition-Filled py (bool b) selection out h = absurd (cc)
  resolve_condition-Filled py (number n) selection out h = absurd (cc)
  resolve_condition-Filled py (list vs) selection out h = absurd (cc)
  resolve_condition-Filled py (dict es) selection out h = absurd (cc)

  -- A rule of a file: its first block is the selection, and what a match runs through is the file's blocks.
  abbrev pub Settled : SigmaRule N → Type 0
  Settled rule =
      Filled rule.condition_mode rule.pred_lists
      × (rule.selection ≡ leading rule.pred_lists)
      × ((rule.selection ≡ []) ⊎ (blocks_of rule ≡ rule.pred_lists))

  own_blocks :
      (rule : SigmaRule N)
      → rule.selection ≡ leading rule.pred_lists
      → (rule.selection ≡ []) ⊎ (blocks_of rule ≡ rule.pred_lists)
  unfolding blocks_of leading
  own_blocks rule e = elim (List-cases rule.pred_lists) [
    | inl bare ↦ inl (rw (bare, leading) at e)
    | inr (b, bs, full) ↦ inr (rw (full, blocks_of) refl)
  ]

  -- A rule has the blocks and the mode that its condition is resolved to.
  abbrev Blocks : Resolved N → SigmaRule N → Type 0
  Blocks resolved rule =
      (resolved.0 ≡ rule.condition_mode)
      × (resolved.1 ≡ rule.pred_lists)
      × (rule.selection ≡ leading rule.pred_lists)

  build_rule-Blocks :
      (py : Runtime N) (mapping : Entries N) (resolved : Resolved N) (rule : SigmaRule N)
      → build_rule py mapping resolved ≡ inr rule
      → Blocks resolved rule
  unfolding build_rule
  build_rule-Blocks py mapping resolved = and_then-All (Blocks resolved) _ _ (λ own_level r1 e1.
      and_then-All (Blocks resolved) _ _
        (λ logsource r2 e2.
          and_then-All (Blocks resolved) _ _
            (λ detection_fields r3 e3.
              and_then-All (Blocks resolved) _ _
                (λ tags r4 e4 h. (
                  ap (λ r. r.condition_mode) (inr-Injective h),
                  ap (λ r. r.pred_lists) (inr-Injective h),
                  sym (ap (λ r. r.selection) (inr-Injective h))
                      ∙ ap (λ r. leading r.pred_lists) (inr-Injective h),
                ))
                r3)
            r2)
        r1)

-- A rule that is parsed has blocks if its condition is over several, its selection is the first of its blocks, and
-- `matches` runs through the file's blocks, or the selection is empty.
pub parse_sigma_dict-Settled :
    {N : Type 0} (py : Runtime N) (mapping : Value N) (rule : SigmaRule N)
    → parse_sigma_dict py mapping ≡ inr rule
    → Settled rule
unfolding parse_sigma_dict
parse_sigma_dict-Settled py (dict mapping) rule h =
    and_then-All Settled _ _
      (λ detection r found h1.
        and_then-All Settled _ (build_rule py mapping)
          (λ resolved r e2 h2.
            let (mode, blocks, first) = build_rule-Blocks py mapping resolved r h2 in
            (
              rw (sym mode, sym blocks)
                  (resolve_condition-Filled py
                    (get_truthy py "condition" (text "selection") detection)
                    (get_truthy py "selection" (dict empty) detection) resolved e2),
              first,
              own_blocks r first,
            ))
          r h1)
      rule h
parse_sigma_dict-Settled py null rule h = absurd (cc)
parse_sigma_dict-Settled py (bool b) rule h = absurd (cc)
parse_sigma_dict-Settled py (number n) rule h = absurd (cc)
parse_sigma_dict-Settled py (text t) rule h = absurd (cc)
parse_sigma_dict-Settled py (list vs) rule h = absurd (cc)
