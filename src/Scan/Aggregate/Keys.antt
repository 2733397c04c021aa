-- ===== src/Scan/Aggregate/Keys.antt =====
-- The keys of findings, and the findings of a scan under them, in `aggregate` of orchestration/subgraphs/vulnscan/nodes.py.
use security_agent.Prelude.{
  ◌≡◌, refl, sym, ap, ◌∙◌, true, ◌&&◌, ◌||◌, List, [], ◌∷◌, ◌++◌, String, ◌==◌, eq_iff, same_text,
  get_or, All, All-append, Bool-cases, inl, inr, arith,
}
use security_agent.Scan.Aggregate.{
  Finding, ScanResult, same_key, has_key, add_finding, add_findings, first_by_key,
}

same_key-parts :
    (f g : Finding)
    → same_key f g ≡ true
    → (f.agent_id ≡ g.agent_id) × (get_or f.cve "" ≡ get_or g.cve "") × (f.name ≡ g.name)
unfolding same_key
same_key-parts f g h = (
  (eq_iff f.agent_id g.agent_id).0 (ground arith),
  (eq_iff (get_or f.cve "") (get_or g.cve "")).0 (ground arith),
  (eq_iff f.name g.name).0 (ground arith),
)

pub same_key-right : (f g x : Finding) → same_key f g ≡ true → same_key x g ≡ same_key x f
unfolding same_key
same_key-right f g x h =
    let (a, c, n) = same_key-parts f g h in
    ap (λ u. (x.agent_id == u) && ((get_or x.cve "" == get_or g.cve "") && (x.name == g.name)))
      (sym a)
    ∙ ap (λ u. (x.agent_id == f.agent_id) && ((get_or x.cve "" == u) && (x.name == g.name))) (sym c)
    ∙ ap
        (λ u. (x.agent_id == f.agent_id) && ((get_or x.cve "" == get_or f.cve "") && (x.name == u)))
        (sym n)

pub same_key-left : (f g x : Finding) → same_key f g ≡ true → same_key g x ≡ same_key f x
unfolding same_key
same_key-left f g x h =
    let (a, c, n) = same_key-parts f g h in
    ap (λ u. (u == x.agent_id) && ((get_or g.cve "" == get_or x.cve "") && (g.name == x.name)))
      (sym a)
    ∙ ap (λ u. (f.agent_id == x.agent_id) && ((u == get_or x.cve "") && (g.name == x.name))) (sym c)
    ∙ ap
        (λ u. (f.agent_id == x.agent_id) && ((get_or f.cve "" == get_or x.cve "") && (u == x.name)))
        (sym n)

pub same_key_self : (f : Finding) → same_key f f ≡ true
unfolding same_key
same_key_self f = rw (same_text f.agent_id, same_text (get_or f.cve ""), same_text f.name) refl

has_key-append :
    (x f : Finding) (ts : String) (first : List (Finding × String))
    → has_key x (first ++ (f, ts) ∷ []) ≡ (has_key x first || same_key f x)
unfolding has_key
has_key-append x f ts [] = ground arith
has_key-append x f ts ((g, t) ∷ first) = rw (has_key-append x f ts first) (ground arith)

pub has_key-same :
    (f g : Finding) (first : List (Finding × String))
    → same_key f g ≡ true
    → has_key g first ≡ has_key f first
unfolding has_key
has_key-same f g [] h = refl
has_key-same f g ((x, t) ∷ first) h = rw (same_key-right f g x h, has_key-same f g first h) refl

add_finding-keeps :
    (x f : Finding) (ts : String) (first : List (Finding × String))
    → has_key x first ≡ true
    → has_key x (add_finding ts f first) ≡ true
unfolding add_finding
add_finding-keeps x f ts first h = elim (Bool-cases (has_key f first)) [
  | inl e ↦ rw e h
  | inr e ↦ rw (e, has_key-append x f ts first, h) refl
]

add_finding-has :
    (f : Finding) (ts : String) (first : List (Finding × String))
    → has_key f (add_finding ts f first) ≡ true
unfolding add_finding
add_finding-has f ts first = elim (Bool-cases (has_key f first)) [
  | inl e ↦ rw (e, e) refl
  | inr e ↦ rw (e, has_key-append f f ts first, e, same_key_self f) refl
]

add_findings-keeps :
    (x : Finding) (ts : String) (findings : List Finding) (first : List (Finding × String))
    → has_key x first ≡ true
    → has_key x (add_findings ts findings first) ≡ true
unfolding add_findings
add_findings-keeps x ts [] first h = h
add_findings-keeps x ts (f ∷ findings) first h =
    add_findings-keeps x ts findings (add_finding ts f first) (add_finding-keeps x f ts first h)

add_findings-has :
    (ts : String) (findings : List Finding) (first : List (Finding × String))
    → All (λ f. has_key f (add_findings ts findings first) ≡ true) findings
unfolding add_findings
add_findings-has ts [] first = tt
add_findings-has ts (f ∷ findings) first = (
  add_findings-keeps f ts findings (add_finding ts f first) (add_finding-has f ts first),
  add_findings-has ts findings (add_finding ts f first),
)

first_by_key-keeps :
    (x : Finding) (results : List ScanResult) (first : List (Finding × String))
    → has_key x first ≡ true
    → has_key x (first_by_key results first) ≡ true
unfolding first_by_key
first_by_key-keeps x [] first h = h
first_by_key-keeps x (r ∷ results) first h =
    first_by_key-keeps x results (add_findings r.ts r.findings first)
      (add_findings-keeps x r.ts r.findings first h)

first_by_key-keeps_row :
    (results : List ScanResult) (first : List (Finding × String)) (findings : List Finding)
    → All (λ f. has_key f first ≡ true) findings
    → All (λ f. has_key f (first_by_key results first) ≡ true) findings
first_by_key-keeps_row results first [] h = tt
first_by_key-keeps_row results first (f ∷ findings) (h, rest) =
    (first_by_key-keeps f results first h, first_by_key-keeps_row results first findings rest)

-- Every finding of the scan is under its key.
pub first_by_key-has :
    (results : List ScanResult) (first : List (Finding × String))
    → All (λ r. All (λ f. has_key f (first_by_key results first) ≡ true) r.findings) results
unfolding first_by_key
first_by_key-has [] first = tt
first_by_key-has (r ∷ results) first = (
  first_by_key-keeps_row results (add_findings r.ts r.findings first) r.findings
      (add_findings-has r.ts r.findings first),
  first_by_key-has results (add_findings r.ts r.findings first),
)

module _ (Q : Finding → Type 0) where
  abbrev pub AllFirst : List (Finding × String) → Type 0
  AllFirst first = All (λ p. Q p.0) first

  add_findings-All :
      (ts : String) (findings : List Finding) (first : List (Finding × String))
      → All Q findings
      → AllFirst first
      → AllFirst (add_findings ts findings first)
  unfolding add_findings add_finding
  add_findings-All ts [] first hs h = h
  add_findings-All ts (f ∷ findings) first (q, hs) h = elim (Bool-cases (has_key f first)) [
    | inl e ↦ rw e (add_findings-All ts findings first hs h)
    | inr e ↦ rw e (
        add_findings-All ts findings (first ++ (f, ts) ∷ []) hs
          (All-append (λ p. Q p.0) first ((f, ts) ∷ []) h (q, tt)))
  ]

  -- What is under the keys are findings of the scan.
  pub first_by_key-All :
      (results : List ScanResult) (first : List (Finding × String))
      → All (λ r. All Q r.findings) results
      → AllFirst first
      → AllFirst (first_by_key results first)
  unfolding first_by_key
  first_by_key-All [] first hs h = h
  first_by_key-All (r ∷ results) first (q, hs) h =
      first_by_key-All results (add_findings r.ts r.findings first) hs
        (add_findings-All r.ts r.findings first q h)
