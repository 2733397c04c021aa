-- ===== src/Rescan.antt =====
-- orchestration/subgraphs/vulnscan/rescan.py with `remove_retry_batch` and `mark_analysis_outcome` of
-- scan_engine/llm_analysis.py, for one task. The queue is the task's hash of findings with the attempts so far, in the order of
-- HGETALL; Redis works. The store gives `VulnFinding` objects, on which the code calls `get`, a method that
-- they do not have.
pub mod Batch
pub mod Progress
mod Examples
use security_agent.Prelude.{
  ℕ, zero, suc, ◌+◌, Bool, true, false, not, ◌&&◌, List, [], ◌∷◌, map, Option, none, some, String,
  ltb, leb, length, mem, take, all, ◌==◌, if◌then◌else◌,
}

pub record Entry : Type 0 where
  pub finding_id : String
  pub attempts : ℕ

abbrev pub batch_size : ℕ
batch_size = 15

-- "AI全部分析失败" and "AI部分分析失败"
pub data Outcome : Type 0 where
  all_failed : Outcome
  partly_failed : Outcome

-- `mark_analysis_outcome`
pub mark_analysis_outcome : ℕ → ℕ → Option Outcome
mark_analysis_outcome total succeeded =
    if leb succeeded 0
    then some all_failed
    else if ltb succeeded total
    then some partly_failed
    else none

-- What a comprehension over the store's findings gives that calls `get` on each: `none` is its AttributeError.
pub get_each : List String → Option (List String)
get_each [] = some []
get_each (v ∷ vulns) = none

-- `_mark_final`: the outcome of a task whose queue it deletes. The store has the task's findings, or raises. The number of
-- processed findings is taken, and so is the total, only where the comprehension returns.
pub mark_final : ℕ → Option (List String) → Option Outcome
unfolding mark_analysis_outcome get_each
mark_final pending none = mark_analysis_outcome pending 0
mark_final pending (some vulns) = elim (get_each vulns) [
  | none ↦ mark_analysis_outcome pending 0
  | some processed ↦
      mark_analysis_outcome (if ltb pending (length vulns) then length vulns else pending)
        (length processed)
]

-- `remove_retry_batch`
pub remove : List String → List Entry → List Entry
remove ids [] = []
remove ids (e ∷ entries) =
    let rest = remove ids entries in if mem e.finding_id ids then rest else e ∷ rest

-- Both sorts together: by attempts, equals in the order of the hash.
pub insert : Entry → List Entry → List Entry
insert e [] = e ∷ []
insert e (d ∷ entries) =
    let rest = insert e entries in if leb e.attempts d.attempts then e ∷ d ∷ entries else d ∷ rest

pub sort_by_attempts : List Entry → List Entry
unfolding insert
sort_by_attempts [] = []
sort_by_attempts (e ∷ entries) = insert e (sort_by_attempts entries)

pub below : ℕ → List Entry → List Entry
below max [] = []
below max (e ∷ entries) =
    let rest = below max entries in if ltb e.attempts max then e ∷ rest else rest

ids_of : List Entry → List String
ids_of [] = []
ids_of (e ∷ entries) = e.finding_id ∷ ids_of entries

-- The findings of the next call.
pub next_batch : ℕ → List Entry → List String
unfolding sort_by_attempts below ids_of
next_batch max entries = ids_of (take batch_size (below max (sort_by_attempts entries)))

pub exhausted : ℕ → List Entry → Bool
exhausted max entries = all (λ e. leb max e.attempts) entries

-- Whether the task goes on, and its queue. The findings of the batch are those that the store's mapping has: where
-- the mapping is built it is empty, so the code behind, with the call of the model, is never run.
pub rescan_one_batch : ℕ → Option (List String) → List Entry → Bool × List Entry
unfolding exhausted next_batch remove get_each
rescan_one_batch max stored [] = (false, [])
rescan_one_batch max stored (e ∷ entries) =
    let queue = e ∷ entries in
    if exhausted max queue then (false, []) else elim stored [
      | none ↦ (false, queue)
      | some vulns ↦ elim (get_each vulns) [
        | none ↦ (false, queue)
        | some vuln_map ↦ (true, remove (next_batch max queue) queue)
      ]
    ]
