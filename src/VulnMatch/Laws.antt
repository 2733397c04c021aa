-- ===== src/VulnMatch/Laws.antt =====
-- `match_by_cpe` against the plain enumeration of all pairs that match.
use security_agent.Prelude.{
  ℕ, zero, suc, ◌≤◌, ◌≡◌, refl, sym, ap, ◌∙◌, Bool, true, false, List, [], ◌∷◌, ◌++◌, length, take,
  arith, length-append, leb, if◌then◌else◌, Bool-cases, inl, inr,
}
use mathlib.Core.List.{append-nil, append_assoc}
use security_agent.VulnMatch.{
  Service, Rule, Match, max_matches_per_task, applies, make_match, match_rules, is_skipped,
  match_services, match_by_cpe,
}

-- All matches, in the order of the loops, with no cap.
pub matches_of : Service → List Rule → List Match
matches_of svc [] = []
matches_of svc (rule ∷ rules) =
    let rest = matches_of svc rules in if applies svc rule then make_match svc rule ∷ rest else rest

pub all_matches : List Service → List Rule → List Match
all_matches [] rules = []
all_matches (svc ∷ svcs) rules =
    let rest = all_matches svcs rules in
    if is_skipped svc then rest else matches_of svc rules ++ rest

take-all : {A : Type 0} (n : ℕ) (xs : List A) → length xs ≤ n → take n xs ≡ xs
take-all zero [] h = refl
take-all zero (x ∷ xs) h = absurd (omega arith)
take-all (suc n) [] h = refl
take-all (suc n) (x ∷ xs) h = ap (λ l. x ∷ l) (take-all n xs (omega arith))

take-append_full : {A : Type 0} (n : ℕ) (xs ys : List A) → length xs ≡ n → take n (xs ++ ys) ≡ xs
take-append_full zero [] ys h = refl
take-append_full zero (x ∷ xs) ys h = absurd (omega arith)
take-append_full (suc n) [] ys h = absurd (omega arith)
take-append_full (suc n) (x ∷ xs) ys h = ap (λ l. x ∷ l) (take-append_full n xs ys (omega arith))

grow :
    (svc : Service) (out : List Match) (rule : Rule) (rest : List Match)
    → (if applies svc rule then out ++ make_match svc rule ∷ [] else out) ++ rest
      ≡ out ++ (if applies svc rule then make_match svc rule ∷ rest else rest)
grow svc out rule rest = elim (Bool-cases (applies svc rule)) [
  | inl e ↦ rw e (append_assoc out (make_match svc rule ∷ []) rest)
  | inr e ↦ rw e
]

grow-length :
    (svc : Service) (out : List Match) (rule : Rule)
    → length (if applies svc rule then out ++ make_match svc rule ∷ [] else out) ≤ suc (length out)
grow-length svc out rule = elim (Bool-cases (applies svc rule)) [
  | inl e ↦ rw e (omega (arith, length-append out (make_match svc rule ∷ [])))
  | inr e ↦ rw e (omega arith)
]

if-append :
    (b : Bool) (m : Match) (xs ys : List Match)
    → (if b then m ∷ xs else xs) ++ ys ≡ (if b then m ∷ (xs ++ ys) else xs ++ ys)
if-append true m xs ys = refl
if-append false m xs ys = refl

length-match_rules :
    (cap : ℕ) (svc : Service) (out : List Match) (rules : List Rule)
    → length out ≤ cap
    → length (match_rules cap svc out rules).0 ≤ cap
unfolding match_rules
length-match_rules cap svc out [] h = h
length-match_rules cap svc out (rule ∷ rules) h = elim (Bool-cases (leb cap (length out))) [
  | inl e ↦ rw e h
  | inr e ↦ rw e (
      length-match_rules cap svc (if applies svc rule then out ++ make_match svc rule ∷ [] else out)
        rules (ground (arith, grow-length svc out rule)))
]

match_rules_lem :
    (cap : ℕ) (svc : Service) (out : List Match) (rules : List Rule) (rest : List Match)
    → length out ≤ cap
    → take cap (out ++ (matches_of svc rules ++ rest)) ≡ (
        if (match_rules cap svc out rules).1
        then (match_rules cap svc out rules).0
        else take cap ((match_rules cap svc out rules).0 ++ rest))
unfolding match_rules matches_of
match_rules_lem cap svc out [] rest h = refl
match_rules_lem cap svc out (rule ∷ rules) rest h = elim (Bool-cases (leb cap (length out))) [
  | inl e ↦ rw e (take-append_full cap out (matches_of svc (rule ∷ rules) ++ rest) (ground arith))
  | inr e ↦ rw e (
      rw (if-append, ← grow)
        (match_rules_lem cap svc (if applies svc rule then out ++ make_match svc rule ∷ [] else out)
          rules rest (ground (arith, grow-length svc out rule))))
]

match_services_lem :
    (cap : ℕ) (out : List Match) (svcs : List Service) (rules : List Rule)
    → length out ≤ cap
    → match_services cap out svcs rules ≡ take cap (out ++ all_matches svcs rules)
unfolding match_services all_matches
match_services_lem cap out [] rules h = rw append-nil (sym (take-all cap out h))
match_services_lem cap out (svc ∷ svcs) rules h = elim (Bool-cases (is_skipped svc)) [
  | inl e ↦ rw e (match_services_lem cap out svcs rules h)
  | inr e ↦ rw e (
      let (out', stop) = match_rules cap svc out rules in
      let whole = match_rules_lem cap svc out rules (all_matches svcs rules) h in
      let ih =
        match_services_lem cap (match_rules cap svc out rules).0 svcs rules
          (length-match_rules cap svc out rules h) in
      elim (Bool-cases (match_rules cap svc out rules).1) [
        | inl s ↦ rw s (rw s at (sym whole))
        | inr s ↦ rw s (ih ∙ rw s at (sym whole))
      ])
]

-- `match_by_cpe` returns the first 2000 of all pairs of a service and a rule that match, in the
-- order of the two loops: none of them is left out, doubled or reordered below the cap, and the early
-- return is never taken too soon.
pub match_by_cpe-eq-take :
    (services : List Service) (rules : List Rule)
    → match_by_cpe services rules ≡ take max_matches_per_task (all_matches services rules)
unfolding match_by_cpe
match_by_cpe-eq-take services rules =
    match_services_lem max_matches_per_task [] services rules (omega arith)
