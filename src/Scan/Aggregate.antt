-- ===== src/Scan/Aggregate.antt =====
-- `aggregate` of orchestration/subgraphs/vulnscan/nodes.py: the findings of a scan beside the stored ones, as the list of
-- actions for the index. The stored findings are what `list_vulns_all` gave for the agents, newest first. Python's
-- order of texts, the sort by `detected_sort_key` and the clock are parameters; the fields of the model's analysis, the
-- audit entry and the log are left out.
pub mod Keys
pub mod Stored
pub mod Copies
pub mod Justified
pub mod Complete
mod Examples
use security_agent.Prelude.{
  Bool, true, false, not, ◌&&◌, ◌||◌, List, [], ◌∷◌, ◌++◌, map, Option, none, some, String, ◌==◌,
  mem, get_or, if◌then◌else◌,
}

pub record Finding : Type 0 where
  pub finding_id : String
  pub task_id : String
  pub agent_id : String
  pub hostname : String
  pub category : String
  pub cve : Option String
  pub name : String
  pub severity : String
  pub evidence : String
  pub fix_advice : Option String
  pub status : String
  pub detected_at : String
  pub scan_history : List String
  pub last_seen_task_id : Option String
  pub first_fixed_at : Option String
  pub last_fixed_at : Option String

pub record ScanResult : Type 0 where
  pub agent_id : String
  pub ts : String
  pub findings : List Finding
  pub scanned_categories : List String

pub data Action : Type 0 where
  -- the id, the finding with its time, the status and the history; and the new document
  update : String → Finding → String → List String → Action
  index : Finding → Action
  -- the id, the first and the last time
  fix : String → String → String → Action
  delete : String → Action

-- One host and one vulnerability: (agent_id, cve or "", name).
pub same_key : Finding → Finding → Bool
same_key f g =
    (f.agent_id == g.agent_id) && ((get_or f.cve "" == get_or g.cve "") && (f.name == g.name))

pub has_key : Finding → List (Finding × String) → Bool
unfolding same_key
has_key f [] = false
has_key f ((g, ts) ∷ first) = same_key g f || has_key f first

pub add_finding : String → Finding → List (Finding × String) → List (Finding × String)
unfolding has_key
add_finding ts f first = if has_key f first then first else first ++ (f, ts) ∷ []

pub add_findings : String → List Finding → List (Finding × String) → List (Finding × String)
unfolding add_finding
add_findings ts [] first = first
add_findings ts (f ∷ findings) first = add_findings ts findings (add_finding ts f first)

-- `first_by_key`, in the order of its keys.
pub first_by_key : List ScanResult → List (Finding × String) → List (Finding × String)
unfolding add_findings
first_by_key [] first = first
first_by_key (r ∷ results) first = first_by_key results (add_findings r.ts r.findings first)

-- Whether an agent's batches cover a category.
pub covered : String → String → List ScanResult → Bool
covered agent_id category [] = false
covered agent_id category (r ∷ results) =
    ((r.agent_id == agent_id) && mem category r.scanned_categories)
    || covered agent_id category results

-- `existing_by_key`, in the order of its keys, and the ids of the copies.
pub record Index : Type 0 where
  pub canonical : List Finding
  pub dup_ids : List String

pub without : String → List String → List String
without t [] = []
without t (u ∷ times) = if u == t then without t times else u ∷ without t times

-- list(dict.fromkeys(…)), where the first of equal texts stays.
pub dedupe : List String → List String → List String
dedupe seen [] = []
dedupe seen (u ∷ times) =
    let skip = dedupe seen times in
    let keep = u ∷ dedupe (u ∷ seen) times in if mem u seen then skip else keep

pub first_text : List String → String
first_text [] = ""
first_text (t ∷ texts) = if t == "" then first_text texts else t

-- The times at which the stored copies of a key were detected.
pub existing_times : Finding → List Finding → List String
unfolding same_key
existing_times f [] = []
existing_times f (v ∷ existing) =
    let rest = existing_times f existing in
    if same_key v f && not (v.detected_at == "") then v.detected_at ∷ rest else rest

pub find_key : Finding → List Finding → Option Finding
unfolding same_key
find_key f [] = none
find_key f (v ∷ canonical) = if same_key v f then some v else find_key f canonical

module _ (later : String → String → Bool) where
  -- One stored finding, and the id that becomes a copy's.
  pub place : Finding → List Finding → List Finding × Option String
  unfolding same_key
  place v [] = (v ∷ [], none)
  place v (c ∷ canonical) =
      let rest = place v canonical in
      if same_key c v
      then if later v.detected_at c.detected_at
        then (v ∷ canonical, some c.finding_id)
        else (c ∷ canonical, some v.finding_id)
      else (c ∷ rest.0, rest.1)

  pub add_id : Option String → List String → List String
  add_id none ids = ids
  add_id (some i) ids = if mem i ids then ids else ids ++ i ∷ []

  pub index_existing : List Finding → Index → Index
  unfolding place add_id
  index_existing [] ix = ix
  index_existing (v ∷ existing) ix =
      let (canonical, dup) = place v ix.canonical in
      index_existing existing (record { canonical = canonical; dup_ids = add_id dup ix.dup_ids })

module _ (sort : List String → List String) (now_iso : String) where
  -- The finding as it is from now on, and its action.
  pub merge_finding : List Finding → List Finding → Finding × String → Finding × Action
  unfolding find_key existing_times without dedupe first_text
  merge_finding existing canonical (f, ts) =
      let detected_at = first_text (f.detected_at ∷ ts ∷ now_iso ∷ []) in
      let f' = record f { detected_at = detected_at } in
      elim (find_key f canonical) [
        | none ↦ (f', index f')
        | some ex ↦ (
          record f' { finding_id = ex.finding_id },
          update ex.finding_id f' "open" (
              sort
                (dedupe [] (without detected_at (ex.scan_history ++ existing_times f existing)))),
        )
      ]

  pub auto_fix : List (Finding × String) → List ScanResult → List Finding → List Action
  unfolding has_key covered
  auto_fix first results [] = []
  auto_fix first results (v ∷ existing) =
      let rest = auto_fix first results existing in
      if (v.status == "open") && (not (has_key v first) && covered v.agent_id v.category results)
      then fix v.finding_id (first_text (get_or v.first_fixed_at "" ∷ now_iso ∷ [])) now_iso ∷ rest
      else rest

  abbrev pub reconciled :
      Index → List (Finding × String) → List ScanResult → List Finding → List Action
  reconciled ix first results existing =
      map (λ p. (merge_finding existing ix.canonical p).1) first
      ++ (auto_fix first results existing ++ map delete ix.dup_ids)

  pub reconcile :
      (String → String → Bool) → List ScanResult → List Finding → List Action × List Finding
  unfolding merge_finding auto_fix first_by_key index_existing
  reconcile later results existing =
      let first = first_by_key results [] in
      let ix = index_existing later existing (record { canonical = []; dup_ids = [] }) in
      (
        reconciled ix first results existing,
        map (λ p. (merge_finding existing ix.canonical p).0) first,
      )

-- What the node returns and does.
pub data Outcome : Type 0 where
  cancelled : Outcome
  saved : List Finding → Outcome
  merged : List Action × List Finding → Outcome

abbrev pub is_nil : List ScanResult → Bool
is_nil [] = true
is_nil (r ∷ results) = false

pub aggregate :
    (String → String → Bool)
    → (List String → List String)
    → String
    → Bool
    → Bool
    → List ScanResult
    → List Finding
    → Outcome
unfolding reconcile
aggregate later sort now_iso is_cancelled merge_enabled results existing =
    if is_cancelled
    then cancelled
    else if not merge_enabled || is_nil results
    then saved (map (λ p. p.0) (first_by_key results []))
    else merged (reconcile sort now_iso later results existing)
