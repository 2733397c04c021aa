-- ===== src/Scan/Aggregate/Justified.antt =====
-- What `aggregate` of orchestration/subgraphs/vulnscan/nodes.py writes, and that it leaves no finding of the scan out.
use security_agent.Prelude.{
  ◌≡◌, refl, ap, ◌∙◌, Bool, true, false, not, ◌&&◌, List, [], ◌∷◌, map, String, ◌==◌, eq_iff, mem,
  All, All-append, All-map, Bool-cases, Option-cases, inl, inr, arith,
}
use security_agent.Scan.Targets.{Some, Some-map, All-Some}
use security_agent.Scan.Aggregate.{
  Finding, ScanResult, Action, update, index, fix, delete, same_key, has_key, first_by_key, covered,
  Index, find_key, index_existing, merge_finding, auto_fix, reconcile,
}
use security_agent.Scan.Aggregate.Keys.{
  same_key_self, has_key-same, first_by_key-has, first_by_key-All,
}
use security_agent.Scan.Aggregate.Stored.{
  IsKept, find_key-some, find_key-none, index-IsKept, index-All,
}
use security_agent.Scan.Aggregate.Copies.{Pair, IsCopy, All-Pairs, none_yet, index-copies}

-- A finding of the scan with this key, and none.
abbrev pub IsReported : List ScanResult → Finding → Type 0
IsReported results f = Some (λ r. Some (λ g. same_key g f ≡ true) r.findings) results

abbrev pub IsUnreported : List ScanResult → Finding → Type 0
IsUnreported results f = All (λ r. All (λ g. same_key g f ≡ false) r.findings) results

-- A batch of the finding's agent names the finding's category.
abbrev pub IsCovered : List ScanResult → Finding → Type 0
IsCovered results v =
    Some (λ r. (r.agent_id ≡ v.agent_id) × (mem v.category r.scanned_categories ≡ true)) results

-- What allows an action, among the findings of the scan and the stored ones.
abbrev pub IsJustified : (String → String → Bool) → List ScanResult → List Finding → Action → Type 0
IsJustified later results existing (update i f status history) =
    IsReported results f × Some (λ v. (v.finding_id ≡ i) × (same_key v f ≡ true)) existing
IsJustified later results existing (index f) =
    IsReported results f × All (λ v. same_key v f ≡ false) existing
IsJustified later results existing (fix i first last) =
    Some
      (λ v. (v.finding_id ≡ i) × (v.status ≡ "open") × IsUnreported results v × IsCovered results v)
      existing
IsJustified later results existing (delete i) = Pair (IsCopy later i) existing

covered_sound :
    (v : Finding) (results : List ScanResult)
    → covered v.agent_id v.category results ≡ true
    → IsCovered results v
unfolding covered
covered_sound v [] h = absurd (cc)
covered_sound v (r ∷ results) h =
    elim (Bool-cases ((r.agent_id == v.agent_id) && mem v.category r.scanned_categories)) [
      | inl e ↦ inl ((eq_iff r.agent_id v.agent_id).0 (ground arith), ground arith)
      | inr e ↦ inr (covered_sound v results (rw e at h))
    ]

unreported_row :
    (v : Finding) (first : List (Finding × String)) (findings : List Finding)
    → has_key v first ≡ false
    → All (λ f. has_key f first ≡ true) findings
    → All (λ g. same_key g v ≡ false) findings
unreported_row v first [] new h = tt
unreported_row v first (g ∷ findings) new (has, h) = (
  elim (Bool-cases (same_key g v)) [
    | inr n ↦ n
    | inl y ↦ let both = has_key-same g v first y in absurd (cc)
  ],
  unreported_row v first findings new h,
)

unreported :
    (v : Finding) (results : List ScanResult) (first : List (Finding × String))
    → has_key v first ≡ false
    → All (λ r. All (λ f. has_key f first ≡ true) r.findings) results
    → IsUnreported results v
unreported v [] first new h = tt
unreported v (r ∷ results) first new (has, h) =
    (unreported_row v first r.findings new has, unreported v results first new h)

IsReported-row :
    (results : List ScanResult)
    → All
        (λ r. (f : Finding) → Some (λ g. same_key g f ≡ true) r.findings → IsReported results f)
        results
IsReported-row results =
    All-Some (λ (f : Finding) (r : ScanResult). Some (λ g. same_key g f ≡ true) r.findings) results

All-IsReported :
    (results : List ScanResult) → All (λ r. All (IsReported results) r.findings) results
All-IsReported results =
    All-map (λ r. (f : Finding) → Some (λ g. same_key g f ≡ true) r.findings → IsReported results f)
      (λ r. All (IsReported results) r.findings) results
      (λ r rule.
        All-map
          (λ x. (f : Finding) → same_key x f ≡ true → Some (λ g. same_key g f ≡ true) r.findings)
          (IsReported results) r.findings (λ x here. rule x (here x (same_key_self x)))
          (All-Some (λ (f g : Finding). same_key g f ≡ true) r.findings))
      (IsReported-row results)

auto_fix-Justified :
    (later : String → String → Bool) (now_iso : String) (sort : List String → List String)
    (first : List (Finding × String)) (results : List ScanResult) (all existing : List Finding)
    → All (λ r. All (λ f. has_key f first ≡ true) r.findings) results
    → All
        (λ v.
          (i : String)
          → (v.finding_id ≡ i) × (v.status ≡ "open") × IsUnreported results v × IsCovered results v
          → IsJustified later results all (fix i "" ""))
        existing
    → All (IsJustified later results all) (auto_fix sort now_iso first results existing)
unfolding auto_fix
auto_fix-Justified later now_iso sort first results all [] has h = tt
auto_fix-Justified later now_iso sort first results all (v ∷ existing) has (rule, h) =
    let rest = auto_fix-Justified later now_iso sort first results all existing has h in
    elim (Bool-cases
      ((v.status == "open") && (not (has_key v first) && covered v.agent_id v.category results))) [
        | inr n ↦ rw n rest
        | inl y ↦
            let is_open : (v.status == "open") ≡ true = ground arith in
            let new : has_key v first ≡ false = ground arith in
            let category : covered v.agent_id v.category results ≡ true = ground arith in
            rw y (
              rule v.finding_id (
                refl,
                (eq_iff v.status "open").0 is_open,
                unreported v results first new has,
                covered_sound v results category,
              ),
              rest,
            )
      ]

map-All :
    {A B : Type 0} (P : A → Type 0) (Q : B → Type 0) (g : A → B) (xs : List A)
    → ((x : A) → P x → Q (g x))
    → All P xs
    → All Q (map g xs)
map-All P Q g [] f h = tt
map-All P Q g (x ∷ xs) f (p, h) = (f x p, map-All P Q g xs f h)

module _ (later : String → String → Bool) (sort : List String → List String) (now_iso : String)
    (results : List ScanResult) (existing canonical : List Finding)
    (kept : All (IsKept canonical) existing)
    (stored : All (λ c. Some (λ v. v ≡ c) existing) canonical) where
  merge-Justified :
      (p : Finding × String)
      → IsReported results p.0
      → IsJustified later results existing (merge_finding sort now_iso existing canonical p).1
  unfolding merge_finding same_key
  merge-Justified (f, ts) reported = elim (Option-cases (find_key f canonical)) [
    | inl e ↦
        rw (e, merge_finding)
          (
            reported,
            All-map (IsKept canonical) (λ v. same_key v f ≡ false) existing
                (λ v here. find_key-none f v canonical e here) kept,
          )
    | inr (ex, e) ↦
        let (same, there) =
          find_key-some (λ c. Some (λ v. v ≡ c) existing) f ex canonical e stored in
        rw (e, merge_finding)
          (
            reported,
            Some-map (λ v. v ≡ ex) (λ v. (v.finding_id ≡ ex.finding_id) × (same_key v f ≡ true))
                existing
                (λ v is_ex. (ap (λ u. u.finding_id) is_ex, ap (λ u. same_key u f) is_ex ∙ same))
                there,
          )
  ]

abbrev no_index : Index
no_index = record { canonical = []; dup_ids = [] }

All-stored : (existing : List Finding) → All (λ c. Some (λ v. v ≡ c) existing) existing
All-stored existing =
    All-map (λ x. (c : Finding) → x ≡ c → Some (λ v. v ≡ c) existing)
      (λ c. Some (λ v. v ≡ c) existing) existing (λ x rule. rule x refl)
      (All-Some (λ (c v : Finding). v ≡ c) existing)

-- Every action is called for. An update or a new document is for a finding of the scan: an update goes to a stored
-- finding of its key, and a document is new only where no stored finding has the key. A finding is set to fixed only
-- if it was open, the scan has no finding of its key, and a batch of its agent names its category. A finding is deleted
-- only if another stored one has its key: that one is then newer, or stands before it and is no older, whatever the
-- status of the deleted one.
pub reconcile-IsJustified :
    (sort : List String → List String) (now_iso : String) (later : String → String → Bool)
    (results : List ScanResult) (existing : List Finding)
    → All (IsJustified later results existing) (reconcile sort now_iso later results existing).0
unfolding reconcile
reconcile-IsJustified sort now_iso later results existing =
    let first = first_by_key results [] in
    let ix = index_existing later existing no_index in
    let stored =
      index-All later (λ c. Some (λ v. v ≡ c) existing) existing no_index (All-stored existing)
        tt in
    let copies =
      index-copies later (λ i. Pair (IsCopy later i) existing) existing no_index
        (All-Pairs (IsCopy later) existing)
        (none_yet later (λ i. Pair (IsCopy later i) existing) existing) tt in
    All-append (IsJustified later results existing) _ _
      (map-All (λ p. IsReported results p.0) (IsJustified later results existing) _ first
        (λ p reported.
          merge-Justified later sort now_iso results existing ix.canonical
            (index-IsKept later existing no_index) stored p reported)
        (first_by_key-All (IsReported results) results [] (All-IsReported results) tt))
      (All-append (IsJustified later results existing) _ _
        (auto_fix-Justified later now_iso sort first results existing existing
          (first_by_key-has results [])
          (All-map
            (λ v.
              (i : String)
              → (v.finding_id ≡ i)
                × (v.status ≡ "open")
                × IsUnreported results v
                × IsCovered results v
              → Some
                  (λ w.
                    (w.finding_id ≡ i)
                    × (w.status ≡ "open")
                    × IsUnreported results w
                    × IsCovered results w)
                  existing)
            _ existing (λ v rule i why. rule i why)
            (All-Some
              (λ (i : String) (v : Finding).
                (v.finding_id ≡ i)
                × (v.status ≡ "open")
                × IsUnreported results v
                × IsCovered results v)
              existing)))
        (map-All (λ i. Pair (IsCopy later i) existing) (IsJustified later results existing) delete
          ix.dup_ids (λ i there. there) copies))
