-- ===== src/Approval/Terminal.antt =====
-- Runs of the approval store: their invariant, and what they do to a decision.
use security_agent.Prelude.{
  ℕ, ◌≡◌, ◌≢◌, refl, sym, subst, ap, Bool, true, false, ◌&&◌, List, [], ◌∷◌, ◌++◌, some, String,
  ◌==◌, arith, eqb, ◌∙◌, All, Bool-cases, Option-cases, inl, inr, if◌then◌else◌,
}
use security_agent.Approval.{
  Status, pending, timeout, Decision, Level, Approval, Store, is_pending, status_in, create,
  find_pending, insert_vote, decide, set_status, add_vote, resolve_rows, updates, resolve, find,
  new_row, insert_row,
}
use security_agent.Approval.Votes.{IsSound, found-key}
use security_agent.Approval.Quorum.{add_vote-IsSound, create-IsSound, resolve-IsSound}

-- What the callers do to the store: `hitl_approval_node` creates, the API votes, and a wait or the
-- celery task resolves to 'timeout'.
pub data Step (s s' : Store) : Type 0 where
  creates :
      (i : ℕ) (event : String) (level : Level) (n : ℕ)
      → create i event level n s ≡ some s'
      → Step s s'
  votes : (event actor : String) (d : Decision) → s' ≡ (add_vote event actor d s).1 → Step s s'
  expires : (i : ℕ) → s' ≡ resolve i timeout s → Step s s'

pub data Reach (s : Store) : Store → Type 0 where
  here : Reach s s
  next : {t u : Store} → Reach s t → Step t u → Reach s u

abbrev pub empty : Store
empty = record { approvals = []; votes = []; published = [] }

Step-IsSound : (s s' : Store) → Step s s' → IsSound s → IsSound s'
Step-IsSound s s' (creates i event level n e) h = create-IsSound i event level n s e h
Step-IsSound s s' (votes event actor d e) h = rw e (add_vote-IsSound event actor d s h)
Step-IsSound s s' (expires i e) h = rw e (resolve-IsSound i timeout s (λ k. cc) h)

Reach-IsSound : {s s' : Store} → Reach s s' → IsSound s → IsSound s'
Reach-IsSound here h = h
Reach-IsSound (next {t = t} {u = u} r st) h = Step-IsSound t u st (Reach-IsSound r h)

All-status_in :
    (P : Approval → Type 0) (i : ℕ) (rows : List Approval) {st : Status}
    → status_in i rows ≡ some st
    → All P rows
    → (a : Approval) × P a × (a.id ≡ i) × (a.status ≡ st)
unfolding status_in
All-status_in P i [] e h = absurd (cc)
All-status_in P i (a ∷ rows) e h = elim (Bool-cases (eqb a.id i)) [
  | inl t ↦ (a, h.0, ground arith, cc (rw t at e))
  | inr t ↦ All-status_in P i rows (rw t at e) h.1
]

found-pending :
    (event : String) (rows : List Approval) {row : Approval}
    → find_pending event rows ≡ some row
    → is_pending row.status ≡ true
unfolding find_pending
found-pending event [] e = cc
found-pending event (a ∷ rows) {row} e =
    elim (Bool-cases ((a.event_id == event) && is_pending a.status)) [
      | inl t ↦ let same : a ≡ row = cc (rw t at e) in ground arith
      | inr t ↦ found-pending event rows (rw t at e)
    ]

status_in-append :
    (i : ℕ) (rows : List Approval) (a : Approval) {st : Status}
    → status_in i rows ≡ some st
    → status_in i (rows ++ a ∷ []) ≡ some st
unfolding status_in
status_in-append i [] a e = cc
status_in-append i (b ∷ rows) a e = elim (Bool-cases (eqb b.id i)) [
  | inl t ↦ rw t (rw t at e)
  | inr t ↦ rw t (status_in-append i rows a (rw t at e))
]

status_in-set_ne :
    (i k : ℕ) (new : Status) (rows : List Approval)
    → i ≢ k
    → status_in i (set_status k new rows) ≡ status_in i rows
unfolding status_in set_status
status_in-set_ne i k new [] n = refl
status_in-set_ne i k new (a ∷ rows) n = ground (arith, status_in-set_ne i k new rows n)

status_in-resolve :
    (i k : ℕ) (new : Status) (rows : List Approval) {st : Status}
    → st ≢ pending
    → status_in i rows ≡ some st
    → status_in i (resolve_rows k new rows) ≡ some st
unfolding status_in resolve_rows
status_in-resolve i k new [] n e = cc
status_in-resolve i k new (a ∷ rows) n e = elim (Bool-cases (eqb a.id i)) [
  | inl t ↦ ground arith
  | inr t ↦ ground (arith, status_in-resolve i k new rows n (rw t at e))
]

pending_lem : (x : Status) → is_pending x ≡ true → x ≡ pending
pending_lem x h = ground arith

status_in-if :
    (b : Bool) (i k : ℕ) (new : Status) (rows : List Approval)
    → i ≢ k
    → status_in i (if b then rows else set_status k new rows) ≡ status_in i rows
status_in-if true i k new rows n = refl
status_in-if false i k new rows n = status_in-set_ne i k new rows n

-- The approval that a vote goes to is not the decided one.
found-ne-decided :
    (event : String) (s : Store) (i : ℕ) {st : Status} {row : Approval}
    → IsSound s
    → st ≢ pending
    → status_in i s.approvals ≡ some st
    → find_pending event s.approvals ≡ some row
    → i ≢ row.id
found-ne-decided event s i {st} {row} h n e f k =
    let (a, key, id, status) =
      All-status_in (λ a. a.id ≡ row.id → a ≡ row) i s.approvals e
        (found-key event s.approvals f h.keys) in
    let same : a ≡ row = key (id ∙ k) in
    n (
      sym status
      ∙ (ap (λ (b : Approval). b.status) same
          ∙ pending_lem row.status (found-pending event s.approvals f)))

add_vote-decided :
    (event actor : String) (d : Decision) (s : Store) (i : ℕ) {st : Status}
    → IsSound s
    → st ≢ pending
    → status_in i s.approvals ≡ some st
    → status_in i (add_vote event actor d s).1.approvals ≡ some st
unfolding add_vote
add_vote-decided event actor d s i h n e = elim (Option-cases (find_pending event s.approvals)) [
  | inl f ↦ rw (f, add_vote) e
  | inr (row, f) ↦
      rw (f, add_vote)
        (let (status, count) = decide row.id row.required d (insert_vote row.id actor d s.votes) in
          status_in-if (is_pending status) i row.id status s.approvals
            (found-ne-decided event s i h n e f)
          ∙ e)
]

resolve-decided :
    (k : ℕ) (s : Store) (i : ℕ) {st : Status}
    → st ≢ pending
    → status_in i s.approvals ≡ some st
    → status_in i (resolve k timeout s).approvals ≡ some st
unfolding resolve
resolve-decided k s i n e = elim (Bool-cases (updates k s.approvals)) [
  | inl t ↦ rw (t, resolve) (status_in-resolve i k timeout s.approvals n e)
  | inr t ↦ rw (t, resolve) e
]

create-decided :
    (k : ℕ) (event : String) (level : Level) (n : ℕ) (s s' : Store) (i : ℕ) {st : Status}
    → create k event level n s ≡ some s'
    → status_in i s.approvals ≡ some st
    → status_in i s'.approvals ≡ some st
unfolding create
create-decided k event level n s s' i {st} c e = elim (Option-cases (find k s.approvals)) [
  | inl f ↦
      let a = new_row k event level n in
      let made : insert_row a s ≡ s' = cc (rw (f, create) at c) in
      subst (λ (t : Store). status_in i t.approvals ≡ some st) made
        (status_in-append i s.approvals a e)
  | inr (a, f) ↦ absurd (cc (rw (f, create) at c))
]

Step-decided :
    (s s' : Store) (i : ℕ) {st : Status}
    → IsSound s
    → st ≢ pending
    → status_in i s.approvals ≡ some st
    → Step s s'
    → status_in i s'.approvals ≡ some st
Step-decided s s' i h n e (creates k event level m c) = create-decided k event level m s s' i c e
Step-decided s s' i h n e (votes event actor d c) = rw c (add_vote-decided event actor d s i h n e)
Step-decided s s' i h n e (expires k c) = rw c (resolve-decided k s i n e)

-- A decision is final: from a store that is sound, no sequence of creations, votes and timeouts
-- changes the status of an approval that is approved, rejected or timed out.
pub Reach-decided :
    {s s' : Store} (i : ℕ) {st : Status}
    → Reach s s'
    → IsSound s
    → st ≢ pending
    → status_in i s.approvals ≡ some st
    → status_in i s'.approvals ≡ some st
Reach-decided i here h n e = e
Reach-decided i (next {t = t} {u = u} r step) h n e =
    Step-decided t u i (Reach-IsSound r h) n (Reach-decided i r h n e) step

IsSound-empty : IsSound empty
IsSound-empty = record { quorum = tt; single = tt; keys = tt }

-- In every store that creations, votes and timeouts lead to from the empty one, an approved approval
-- has at least as many votes for it as it requires, no two of them of one voter, and ids are unique.
pub Reach-quorum : {s : Store} → Reach empty s → IsSound s
Reach-quorum r = Reach-IsSound r IsSound-empty
