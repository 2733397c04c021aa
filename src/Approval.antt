-- ===== src/Approval.antt =====
-- orchestration/subgraphs/responder/approval_store.py, over the tables `approvals` and
-- `approval_votes` of common/db/pg.py. The SQL statements of the code are written out as functions on
-- the rows, in the order of their insertion. An approval's id is a number. Published messages are
-- kept in a list, and the times of creation and resolution are left out.
pub mod Votes
pub mod Quorum
pub mod Terminal
mod Examples
use security_agent.Prelude.{
  ℕ, ◌+◌, Bool, true, false, ◌&&◌, ◌||◌, not, List, [], ◌∷◌, ◌++◌, map, Option, none, some, String,
  ◌==◌, eqb, leb, if◌then◌else◌,
}

pub data Status : Type 0 where
  pending approved rejected timeout : Status

-- The text of a vote; the code tells 'approved' and 'rejected' from all others.
pub data Decision : Type 0 where
  approve reject : Decision
  other : String → Decision

pub data Level : Type 0 where
  l1 l2 l3 l4 l5 : Level

pub record Approval : Type 0 where
  pub id : ℕ
  pub event_id : String
  pub status : Status
  pub required : ℕ
  pub level : Level

pub record Vote : Type 0 where
  pub approval : ℕ
  pub voter : String
  pub decision : Decision

pub record Store : Type 0 where
  pub approvals : List Approval
  pub votes : List Vote
  pub published : List (ℕ × Status)

abbrev pub is_pending : Status → Bool
is_pending pending = true
is_pending _ = false

abbrev pub is_approve : Decision → Bool
is_approve approve = true
is_approve _ = false

abbrev pub is_reject : Decision → Bool
is_reject reject = true
is_reject _ = false

-- SELECT … WHERE approval_id = $1
pub find : ℕ → List Approval → Option Approval
find i [] = none
find i (a ∷ rows) = if eqb a.id i then some a else find i rows

-- SELECT status FROM approvals WHERE approval_id = $1
pub status_in : ℕ → List Approval → Option Status
status_in i [] = none
status_in i (a ∷ rows) = if eqb a.id i then some a.status else status_in i rows

abbrev pub new_row : ℕ → String → Level → ℕ → Approval
new_row i event level n_required = record {
  id = i;
  event_id = event;
  status = pending;
  required = n_required;
  level = level;
}

abbrev pub insert_row : Approval → Store → Store
insert_row a s = record s { approvals = s.approvals ++ a ∷ [] }

-- INSERT INTO approvals …; `none` is the violation of the primary key.
pub create : ℕ → String → Level → ℕ → Store → Option Store
unfolding find
create i event level n_required s = elim (find i s.approvals) [
  | none ↦ some (insert_row (new_row i event level n_required) s)
  | some a ↦ none
]

-- SELECT … WHERE event_id = $1 AND status = 'pending' LIMIT 1
-- The SELECT has LIMIT 1 and no ORDER BY: which one of several pending rows it finds is PostgreSQL's choice, here the
-- first in the table.
pub find_pending : String → List Approval → Option Approval
find_pending event [] = none
find_pending event (a ∷ rows) =
    if (a.event_id == event) && is_pending a.status then some a else find_pending event rows

pub has_voted : ℕ → String → List Vote → Bool
has_voted i actor [] = false
has_voted i actor (v ∷ vs) = eqb v.approval i && (v.voter == actor) || has_voted i actor vs

-- INSERT INTO approval_votes …, the violation of UNIQUE (approval_id, voter) caught and passed over.
pub insert_vote : ℕ → String → Decision → List Vote → List Vote
unfolding has_voted
insert_vote i actor decision votes =
    if has_voted i actor votes
    then votes
    else votes ++ record { approval = i; voter = actor; decision = decision } ∷ []

-- SELECT COUNT(*) … WHERE approval_id = $1 AND decision = 'approved'
pub count_approved : ℕ → List Vote → ℕ
count_approved i [] = 0
count_approved i (v ∷ vs) =
    let rest = count_approved i vs in
    if eqb v.approval i && is_approve v.decision then 1 + rest else rest

-- UPDATE approvals SET status = $2 WHERE approval_id = $1
pub set_status : ℕ → Status → List Approval → List Approval
set_status i status [] = []
set_status i status (a ∷ rows) =
    (if eqb a.id i then record a { status = status } else a) ∷ set_status i status rows

-- The part of `add_vote` behind the insertion: the new status and the count that it returns.
pub decide : ℕ → ℕ → Decision → List Vote → Status × ℕ
unfolding count_approved
decide i required decision votes = if is_reject decision then (rejected, 0) else (
  if leb required (count_approved i votes) then approved else pending,
  count_approved i votes,
)

-- `none` is the status 'not_found'.
pub add_vote : String → String → Decision → Store → Option (Status × ℕ) × Store
unfolding find_pending insert_vote decide set_status
add_vote event actor decision s = elim (find_pending event s.approvals) [
  | none ↦ (none, s)
  | some row ↦
      let votes = insert_vote row.id actor decision s.votes in
      let (status, count) = decide row.id row.required decision votes in
      (
        some (status, count),
        record {
          approvals =
              if is_pending status then s.approvals else set_status row.id status s.approvals;
          votes = votes;
          published = s.published ++ (row.id, status) ∷ [];
        },
      )
]

-- UPDATE approvals SET status = $1 WHERE approval_id = $2 AND status = 'pending'
pub resolve_rows : ℕ → Status → List Approval → List Approval
resolve_rows i status [] = []
resolve_rows i status (a ∷ rows) =
    (if eqb a.id i && is_pending a.status then record a { status = status } else a)
    ∷ resolve_rows i status rows

pub updates : ℕ → List Approval → Bool
updates i [] = false
updates i (a ∷ rows) = eqb a.id i && is_pending a.status || updates i rows

pub resolve : ℕ → Status → Store → Store
unfolding resolve_rows updates
resolve i status s =
    if updates i s.approvals
    then record s {
      approvals = resolve_rows i status s.approvals;
      published = s.published ++ (i, status) ∷ [];
    }
    else s
