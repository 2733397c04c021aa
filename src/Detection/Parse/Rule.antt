-- ===== src/Detection/Parse/Rule.antt =====
-- `parse_sigma_dict` of detection/sigma.py.
pub mod Shape
use Prim.Native.Char.{code}
use security_agent.Prelude.{
  ℕ, zero, suc, Bool, true, false, not, ◌&&◌, ◌||◌, List, [], ◌∷◌, Option, none, some, String, ◌⊎◌,
  inl, inr, eqb, codes, starts_with, ◌==◌, if◌then◌else◌,
}
use security_agent.Detection.{
  Value, Values, Entries, null, bool, number, text, list, dict, nil, empty, Runtime, get,
}
use security_agent.Detection.Sigma.{
  RuleLevel, Mode, selected, one_of, all_of, FieldPredicate, SigmaRule, leading,
}
use security_agent.Detection.Parse.{
  Error, value_error, attribute_error, and_then, named, blocks_where, selection_blocks, get_truthy,
  iterate, fields_of, as_dict, level,
}

drop_text : ℕ → String → String
drop_text zero s = s
drop_text (suc n) String.[] = String.[]
drop_text (suc n) (String.◌∷◌ c s) = drop_text n s

-- s.rstrip("*")
rstrip_stars : String → String
rstrip_stars String.[] = String.[]
rstrip_stars (String.◌∷◌ c s) =
    let rest = rstrip_stars s in
    if eqb (code c) 42 && rest == "" then String.[] else String.◌∷◌ c rest

-- The names that a "1 of …" condition takes, by what stands behind "1 of ".
takes : String → String → Bool
unfolding rstrip_stars
takes prefix k = prefix == "them" || starts_with (codes k) (codes (rstrip_stars prefix))

-- Blocks, of which there has to be one.
some_block : {A : Type 0} → List A → Error ⊎ List A
some_block [] = inl value_error
some_block (b ∷ bs) = inr (b ∷ bs)

starts_one_of : String → Bool
starts_one_of condition = starts_with (codes condition) (codes "1 of ")

-- A mode and the blocks.
abbrev pub Resolved : Type 0 → Type 0
Resolved N = Mode × List (List (FieldPredicate N))

module _ {N : Type 0} where
  -- A condition that is a text, on a selection that is a dict.
  resolve : Runtime N → String → Entries N → Error ⊎ Resolved N
  unfolding selection_blocks some_block starts_one_of blocks_where named takes drop_text
  resolve py condition selection =
      if condition == "all of them"
      then and_then (some_block (selection_blocks py selection)) (λ blocks. inr (all_of, blocks))
      else if starts_one_of condition
      then (if named selection
          then and_then
              (some_block (blocks_where py (takes (py.strip (drop_text 5 condition))) selection))
              (λ blocks. inr (one_of, blocks))
          else inl value_error)
      else inr (selected, selection_blocks py selection)

  -- The condition's own checks come before those of the selection.
  pub resolve_condition : Runtime N → Value N → Value N → Error ⊎ Resolved N
  unfolding resolve starts_one_of as_dict
  resolve_condition py (text condition) selection =
      if condition == "selection" || (starts_one_of condition || condition == "all of them")
      then and_then (as_dict selection) (resolve py condition)
      else inl value_error
  resolve_condition py condition selection = inl attribute_error

  -- The rule of a file whose condition is resolved.
  pub build_rule : Runtime N → Entries N → Resolved N → Error ⊎ SigmaRule N
  unfolding get_truthy fields_of iterate as_dict level get leading
  build_rule py mapping resolved = and_then (level py (get "level" mapping)) (λ own_level.
      and_then (as_dict (get_truthy py "logsource" (dict empty) mapping)) (λ logsource.
        and_then (fields_of py (get_truthy py "fields" (list nil) mapping)) (λ detection_fields.
          and_then (iterate py (get_truthy py "tags" (list nil) mapping)) (λ tags. inr (record {
            rule_id =
                py.str
                  (get_truthy py "id" (get_truthy py "title" (text "unknown") mapping) mapping);
            title = py.str (get_truthy py "title" (text "untitled") mapping);
            description = py.str (get_truthy py "description" (text "") mapping);
            level = own_level;
            product = py.str (get_truthy py "product" (text "") logsource);
            service = py.str (get_truthy py "service" (text "") logsource);
            category = py.str (get_truthy py "category" (text "") logsource);
            detection_fields = detection_fields;
            selection = leading resolved.1;
            pred_lists = resolved.1;
            condition_mode = resolved.0;
            tags = tags;
          })))))

  unfoldable pub parse_sigma_dict : Runtime N → Value N → Error ⊎ SigmaRule N
  unfolding get_truthy resolve_condition as_dict build_rule
  parse_sigma_dict py (dict mapping) =
      and_then (as_dict (get_truthy py "detection" (dict empty) mapping)) (λ detection.
        and_then
          (resolve_condition py (get_truthy py "condition" (text "selection") detection)
            (get_truthy py "selection" (dict empty) detection))
          (build_rule py mapping))
  parse_sigma_dict py v = inl value_error
