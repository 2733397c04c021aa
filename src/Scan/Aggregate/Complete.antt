-- ===== src/Scan/Aggregate/Complete.antt =====
-- That `aggregate` of orchestration/subgraphs/vulnscan/nodes.py loses no finding of a scan.
use security_agent.Prelude.{
  ◌≡◌, refl, Bool, true, List, [], ◌∷◌, ◌++◌, map, String, All, All-map, Bool-cases, Option-cases,
  inl, inr,
}
use security_agent.Scan.Targets.{Some}
use security_agent.Scan.Aggregate.{
  Finding, ScanResult, Action, update, index, fix, delete, same_key, has_key, first_by_key,
  find_key, index_existing, merge_finding, reconcile,
}
use security_agent.Scan.Aggregate.Keys.{first_by_key-has}

-- An action that writes the finding's key, an update with the status open or a new document.
abbrev pub Writes : Finding → Action → Type 0
Writes f (update i g status history) = (same_key g f ≡ true) × (status ≡ "open")
Writes f (index g) = same_key g f ≡ true
Writes f (fix i first last) = ⊥
Writes f (delete i) = ⊥

Some-append : {A : Type 0} (P : A → Type 0) (xs ys : List A) → Some P xs → Some P (xs ++ ys)
Some-append P [] ys h = absurd h
Some-append P (x ∷ xs) ys (inl p) = inl p
Some-append P (x ∷ xs) ys (inr h) = inr (Some-append P xs ys h)

module _ (sort : List String → List String) (now_iso : String)
    (existing canonical : List Finding) where
  merge-Writes :
      (f : Finding) (p : Finding × String)
      → same_key p.0 f ≡ true
      → Writes f (merge_finding sort now_iso existing canonical p).1
  unfolding merge_finding same_key
  merge-Writes f (g, ts) same = elim (Option-cases (find_key g canonical)) [
    | inl e ↦ rw (e, merge_finding) same
    | inr (ex, e) ↦ rw (e, merge_finding) (same, refl)
  ]

  map-Writes :
      (f : Finding) (first : List (Finding × String))
      → has_key f first ≡ true
      → Some (Writes f) (map (λ p. (merge_finding sort now_iso existing canonical p).1) first)
  unfolding has_key
  map-Writes f [] h = absurd (cc)
  map-Writes f ((g, ts) ∷ first) h = elim (Bool-cases (same_key g f)) [
    | inl y ↦ inl (merge-Writes f (g, ts) y)
    | inr n ↦ inr (map-Writes f first (rw n at h))
  ]

-- For every finding of every batch there is an action that writes its key: an update that sets the status open, or a
-- new document.
pub reconcile-Writes :
    (sort : List String → List String) (now_iso : String) (later : String → String → Bool)
    (results : List ScanResult) (existing : List Finding)
    → All
        (λ r.
          All (λ f. Some (Writes f) (reconcile sort now_iso later results existing).0) r.findings)
        results
unfolding reconcile
reconcile-Writes sort now_iso later results existing =
    let ix = index_existing later existing (record { canonical = []; dup_ids = [] }) in
    All-map (λ r. All (λ f. has_key f (first_by_key results []) ≡ true) r.findings) _ results
      (λ r has.
        All-map (λ f. has_key f (first_by_key results []) ≡ true) _ r.findings
          (λ f here.
            Some-append (Writes f) _ _
              (map-Writes sort now_iso existing ix.canonical f (first_by_key results []) here))
          has)
      (first_by_key-has results [])
