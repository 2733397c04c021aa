-- ===== src/Approval/Quorum.antt =====
-- `create`, `add_vote` and `resolve` on a sound store.
use security_agent.Prelude.{
  ℕ, ◌≤◌, ◌≡◌, ◌≢◌, sym, subst, Bool, true, false, ◌&&◌, List, [], ◌∷◌, ◌++◌, none, some, String,
  arith, eqb, All, All-append, All-map, Bool-cases, Option-cases, inl, inr, if◌then◌else◌,
}
use security_agent.Approval.{
  Status, approved, Decision, Level, Approval, Vote, Store, is_pending, find, new_row, insert_row,
  create, find_pending, insert_vote, count_approved, set_status, decide, add_vote, resolve_rows,
  updates, resolve,
}
use security_agent.Approval.Votes.{
  HasQuorum, UniqueIds, IsSound, quorum-insert_vote, NoDouble-insert_vote, found-key,
}

quorum-set_status :
    (votes : List Vote) (i : ℕ) (status : Status) (rows : List Approval)
    → All (HasQuorum votes) rows
    → All (λ a. a.id ≡ i → status ≡ approved → a.required ≤ count_approved a.id votes) rows
    → All (HasQuorum votes) (set_status i status rows)
unfolding set_status
quorum-set_status votes i status [] h q = tt
quorum-set_status votes i status (a ∷ rows) h q = elim (Bool-cases (eqb a.id i)) [
  | inl e ↦ rw e (q.0 (ground arith), quorum-set_status votes i status rows h.1 q.1)
  | inr e ↦ rw e (h.0, quorum-set_status votes i status rows h.1 q.1)
]

ids-set_status :
    (i : ℕ) (status : Status) (P : ℕ → Type 0) (rows : List Approval)
    → All (λ b. P b.id) rows
    → All (λ b. P b.id) (set_status i status rows)
unfolding set_status
ids-set_status i status P [] h = tt
ids-set_status i status P (a ∷ rows) h = elim (Bool-cases (eqb a.id i)) [
  | inl e ↦ rw e (h.0, ids-set_status i status P rows h.1)
  | inr e ↦ rw e (h.0, ids-set_status i status P rows h.1)
]

UniqueIds-set_status :
    (i : ℕ) (status : Status) (rows : List Approval)
    → UniqueIds rows
    → UniqueIds (set_status i status rows)
unfolding set_status
UniqueIds-set_status i status [] u = tt
UniqueIds-set_status i status (a ∷ rows) u = elim (Bool-cases (eqb a.id i)) [
  | inl e ↦
      rw e
        (ids-set_status i status (λ k. a.id ≢ k) rows u.0, UniqueIds-set_status i status rows u.1)
  | inr e ↦
      rw e
        (ids-set_status i status (λ k. a.id ≢ k) rows u.0, UniqueIds-set_status i status rows u.1)
]

decide-approved :
    (i required : ℕ) (d : Decision) (votes : List Vote)
    → (decide i required d votes).0 ≡ approved
    → required ≤ count_approved i votes
unfolding decide
decide-approved i required d votes h = ground arith

-- The rows behind a vote: those before it, or those with the new status of one approval.
module _ (event actor : String) (d : Decision) (s : Store) (row : Approval)
    (found : find_pending event s.approvals ≡ some row) (h : IsSound s) where
  abbrev votes : List Vote
  votes = insert_vote row.id actor d s.votes

  abbrev status : Status
  status = (decide row.id row.required d votes).0

  quorum_rows : All (HasQuorum votes) (set_status row.id status s.approvals)
  quorum_rows =
      quorum-set_status votes row.id status s.approvals
        (quorum-insert_vote row.id actor d s.votes s.approvals h.quorum)
        (All-map (λ a. a.id ≡ row.id → a ≡ row)
          (λ a. a.id ≡ row.id → status ≡ approved → a.required ≤ count_approved a.id votes)
          s.approvals
          (λ a key k e.
            subst (λ (b : Approval). b.required ≤ count_approved b.id votes) (sym (key k))
              (decide-approved row.id row.required d votes e))
          (found-key event s.approvals found h.keys))

  voted-IsSound :
      (b : Bool) (published : List (ℕ × Status))
      → IsSound (record {
        approvals = if b then s.approvals else set_status row.id status s.approvals;
        votes = votes;
        published = published;
      })
  voted-IsSound true published = record {
    quorum = quorum-insert_vote row.id actor d s.votes s.approvals h.quorum;
    single = NoDouble-insert_vote row.id actor d s.votes h.single;
    keys = h.keys;
  }
  voted-IsSound false published = record {
    quorum = quorum_rows;
    single = NoDouble-insert_vote row.id actor d s.votes h.single;
    keys = UniqueIds-set_status row.id status s.approvals h.keys;
  }

-- `add_vote` keeps every quorum, lets nobody vote twice and keeps the ids apart.
pub add_vote-IsSound :
    (event actor : String) (d : Decision) (s : Store)
    → IsSound s
    → IsSound (add_vote event actor d s).1
unfolding add_vote
add_vote-IsSound event actor d s h = elim (Option-cases (find_pending event s.approvals)) [
  | inl e ↦ rw (e, add_vote) h
  | inr (row, e) ↦
      rw (e, add_vote)
        (voted-IsSound event actor d s row e h
          (is_pending (decide row.id row.required d (insert_vote row.id actor d s.votes)).0)
          (s.published
            ++ (row.id, (decide row.id row.required d (insert_vote row.id actor d s.votes)).0)
              ∷ []))
]

create-none : (i : ℕ) (rows : List Approval) → find i rows ≡ none → All (λ b. b.id ≢ i) rows
unfolding find
create-none i [] e = tt
create-none i (a ∷ rows) e = elim (Bool-cases (eqb a.id i)) [
  | inl t ↦ absurd (cc (rw t at e))
  | inr t ↦ (ground arith, create-none i rows (rw t at e))
]

UniqueIds-append :
    (rows : List Approval) (a : Approval)
    → All (λ b. b.id ≢ a.id) rows
    → UniqueIds rows
    → UniqueIds (rows ++ a ∷ [])
UniqueIds-append [] a n u = (tt, tt)
UniqueIds-append (b ∷ rows) a n u =
    (All-append (λ c. b.id ≢ c.id) rows (a ∷ []) u.0 (n.0, tt), UniqueIds-append rows a n.1 u.1)

-- A new approval is pending, and its id is new: `create` keeps the store sound.
pub create-IsSound :
    (i : ℕ) (event : String) (level : Level) (n : ℕ) (s : Store) {s' : Store}
    → create i event level n s ≡ some s'
    → IsSound s
    → IsSound s'
unfolding create
create-IsSound i event level n s {s'} e h = elim (Option-cases (find i s.approvals)) [
  | inl f ↦
      let a = new_row i event level n in
      let made : insert_row a s ≡ s' = cc (rw (f, create) at e) in
      subst IsSound made (record {
        quorum =
            All-append (HasQuorum s.votes) s.approvals (a ∷ []) h.quorum
              ((λ p. absurd (ground arith)), tt);
        single = h.single;
        keys = UniqueIds-append s.approvals a (create-none i s.approvals f) h.keys;
      })
  | inr (a, f) ↦ absurd (cc (rw (f, create) at e))
]

quorum-resolve :
    (votes : List Vote) (i : ℕ) (status : Status) (rows : List Approval)
    → status ≢ approved
    → All (HasQuorum votes) rows
    → All (HasQuorum votes) (resolve_rows i status rows)
unfolding resolve_rows
quorum-resolve votes i status [] n h = tt
quorum-resolve votes i status (a ∷ rows) n h =
    elim (Bool-cases (eqb a.id i && is_pending a.status)) [
      | inl e ↦ rw e ((λ k. absurd (n k)), quorum-resolve votes i status rows n h.1)
      | inr e ↦ rw e (h.0, quorum-resolve votes i status rows n h.1)
    ]

ids-resolve :
    (i : ℕ) (status : Status) (P : ℕ → Type 0) (rows : List Approval)
    → All (λ b. P b.id) rows
    → All (λ b. P b.id) (resolve_rows i status rows)
unfolding resolve_rows
ids-resolve i status P [] h = tt
ids-resolve i status P (a ∷ rows) h = elim (Bool-cases (eqb a.id i && is_pending a.status)) [
  | inl e ↦ rw e (h.0, ids-resolve i status P rows h.1)
  | inr e ↦ rw e (h.0, ids-resolve i status P rows h.1)
]

UniqueIds-resolve :
    (i : ℕ) (status : Status) (rows : List Approval)
    → UniqueIds rows
    → UniqueIds (resolve_rows i status rows)
unfolding resolve_rows
UniqueIds-resolve i status [] u = tt
UniqueIds-resolve i status (a ∷ rows) u = elim (Bool-cases (eqb a.id i && is_pending a.status)) [
  | inl e ↦
      rw e (ids-resolve i status (λ k. a.id ≢ k) rows u.0, UniqueIds-resolve i status rows u.1)
  | inr e ↦
      rw e (ids-resolve i status (λ k. a.id ≢ k) rows u.0, UniqueIds-resolve i status rows u.1)
]

-- `resolve` to any status but 'approved', as its callers use it, keeps the store sound.
pub resolve-IsSound :
    (i : ℕ) (status : Status) (s : Store)
    → status ≢ approved
    → IsSound s
    → IsSound (resolve i status s)
unfolding resolve
resolve-IsSound i status s n h = elim (Bool-cases (updates i s.approvals)) [
  | inl e ↦
      rw (e, resolve)
        (record {
          quorum = quorum-resolve s.votes i status s.approvals n h.quorum;
          single = h.single;
          keys = UniqueIds-resolve i status s.approvals h.keys;
        })
  | inr e ↦ rw (e, resolve) h
]
