-- ===== src/Detection/Examples.antt =====
-- A rule of two blocks, on an event with numbers and texts. The runtime is that of whole numbers.
use security_agent.Prelude.{
  ℕ, ◌≡◌, refl, ◌↔◌, ◌⊎◌, inl, inr, Bool, false, not, [], ◌∷◌, Option, some, none, String, ltb, leb,
  eqb, ◌==◌,
}
use security_agent.Detection.{Value, number, text, dict, empty, entry, Runtime}
use security_agent.Detection.Sigma.{SigmaRule, Fields, selected, critical, matches}
use security_agent.Detection.Sigma.Conditions.{Matches, matches-Matches}
use security_agent.Detection.Parse.{Error, value_error, and_then}
use security_agent.Detection.Parse.Rule.{parse_sigma_dict}

abbrev same : Value ℕ → Value ℕ → Bool
same (number m) (number n) = eqb m n
same (text s) (text t) = s == t
same _ _ = false

abbrev less : Value ℕ → Value ℕ → Option Bool
less (number m) (number n) = some (ltb m n)
less _ _ = none

abbrev less_equal : Value ℕ → Value ℕ → Option Bool
less_equal (number m) (number n) = some (leb m n)
less_equal _ _ = none

abbrev str : Value ℕ → String
str (text t) = t
str _ = ""

abbrev whole : Runtime ℕ
whole = record {
  int_of = λ t. none;
  float_of = λ t. none;
  nonzero = λ n. not (eqb n 0);
  same = same;
  greater = λ v w. less w v;
  greater_equal = λ v w. less_equal w v;
  less = less;
  less_equal = less_equal;
  str = str;
  lower = λ t. t;
  strip = λ t. t;
  upper = λ t. t;
  isdigit = λ t. false;
}

abbrev event : Value ℕ
event = dict (
    entry "rule" (dict (entry "level" (number 12) empty))
      (entry "data" (dict (entry "srcip" (text "10.0.0.1") empty)) empty))

-- 1 of them: a level of 15, or an address that starts with "10."
abbrev file : Value ℕ
file = dict (
    entry "id" (text "r1") (
      entry "level" (text "critical") (
        entry "detection"
          (dict (
            entry "condition" (text "1 of them") (
              entry "selection"
                (dict (
                  entry "high" (dict (entry "rule.level|gte" (number 15) empty)) (
                    entry "inside" (dict (entry "data.srcip|startswith" (text "10.") empty))
                      empty)))
                empty)))
          empty)))

abbrev no_rule : SigmaRule ℕ
no_rule = record {
  rule_id = "";
  title = "";
  description = "";
  level = critical;
  product = "";
  service = "";
  category = "";
  detection_fields = [];
  selection = [];
  pred_lists = [];
  condition_mode = selected;
  tags = [];
}

abbrev rule_of : Error ⊎ SigmaRule ℕ → SigmaRule ℕ
rule_of (inr r) = r
rule_of (inl e) = no_rule

abbrev rule : SigmaRule ℕ
rule = rule_of (parse_sigma_dict whole file)

abbrev fields_of : Option (Fields ℕ) → Fields ℕ
fields_of none = []
fields_of (some fields) = fields

-- The second block decides.
hit : matches whole rule event ≡ some (("data.srcip", text "10.0.0.1") ∷ [])
unfolding matches parse_sigma_dict and_then
hit = refl

-- A "1 of" condition that takes no block.
refused :
    parse_sigma_dict whole
      (dict (entry "detection" (dict (entry "condition" (text "1 of x*") empty)) empty))
    ≡ inl value_error
unfolding parse_sigma_dict and_then
refused = refl

matches-Matches_example :
    ((out : Fields ℕ) × (matches whole rule event ≡ some out)) ↔ Matches whole rule event
matches-Matches_example = matches-Matches whole rule event
