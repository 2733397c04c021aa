-- ===== src/Approval/Votes.antt =====
-- What makes a store of approvals sound: quorums, single votes and unique ids.
use security_agent.Prelude.{
  ℕ, ◌≤◌, ◌≡◌, ◌≢◌, refl, subst, false, ◌&&◌, ◌||◌, List, [], ◌∷◌, ◌++◌, some, String, ◌==◌, eq_iff,
  arith, eqb, All, All-map, Bool-cases, inl, inr,
}
use security_agent.Approval.{
  approved, Decision, Approval, Vote, Store, is_pending, find_pending, has_voted, insert_vote,
  count_approved,
}

-- An approved row has as many votes for it as it requires.
abbrev pub HasQuorum : List Vote → Approval → Type 0
HasQuorum votes a = a.status ≡ approved → a.required ≤ count_approved a.id votes

-- No two votes are of one voter on one approval.
abbrev pub NoDouble : List Vote → Type 0
NoDouble [] = Unit
NoDouble (v ∷ vs) = (has_voted v.approval v.voter vs ≡ false) × NoDouble vs

abbrev pub UniqueIds : List Approval → Type 0
UniqueIds [] = Unit
UniqueIds (a ∷ rows) = All (λ b. a.id ≢ b.id) rows × UniqueIds rows

pub record IsSound (s : Store) : Type 0 where
  pub quorum : All (HasQuorum s.votes) s.approvals
  pub single : NoDouble s.votes
  pub keys : UniqueIds s.approvals

count-append :
    (i : ℕ) (vs : List Vote) (v : Vote) → count_approved i vs ≤ count_approved i (vs ++ v ∷ [])
unfolding count_approved
count-append i [] v = omega arith
count-append i (w ∷ vs) v = ground (arith, count-append i vs v)

count-insert_vote :
    (i j : ℕ) (actor : String) (d : Decision) (votes : List Vote)
    → count_approved j votes ≤ count_approved j (insert_vote i actor d votes)
unfolding insert_vote
count-insert_vote i j actor d votes =
    ground (arith, count-append j votes (record { approval = i; voter = actor; decision = d }))

-- A vote more takes away no quorum.
pub quorum-insert_vote :
    (i : ℕ) (actor : String) (d : Decision) (votes : List Vote) (rows : List Approval)
    → All (HasQuorum votes) rows
    → All (HasQuorum (insert_vote i actor d votes)) rows
quorum-insert_vote i actor d votes [] h = tt
quorum-insert_vote i actor d votes (a ∷ rows) h = (
  λ e. omega (arith, h.0 e, count-insert_vote i a.id actor d votes),
  quorum-insert_vote i actor d votes rows h.1,
)

has_voted-append :
    (i : ℕ) (actor : String) (vs : List Vote) (v : Vote)
    → has_voted i actor (vs ++ v ∷ [])
      ≡ (has_voted i actor vs || (eqb v.approval i && (v.voter == actor)))
unfolding has_voted
has_voted-append i actor [] v = ground arith
has_voted-append i actor (w ∷ vs) v = ground (arith, has_voted-append i actor vs v)

has_voted-of_same :
    (v w : Vote) (vs : List Vote)
    → has_voted w.approval w.voter (v ∷ vs) ≡ false
    → (eqb w.approval v.approval && (w.voter == v.voter)) ≡ false
unfolding has_voted
has_voted-of_same v w vs h = ground (arith, eq_iff v.voter w.voter, eq_iff w.voter v.voter)

has_voted-tail :
    (i : ℕ) (actor : String) (v : Vote) (vs : List Vote)
    → has_voted i actor (v ∷ vs) ≡ false
    → has_voted i actor vs ≡ false
unfolding has_voted
has_voted-tail i actor v vs h = ground arith

NoDouble-append :
    (vs : List Vote) (w : Vote)
    → has_voted w.approval w.voter vs ≡ false
    → NoDouble vs
    → NoDouble (vs ++ w ∷ [])
NoDouble-append [] w h n = (unfold has_voted in refl, tt)
NoDouble-append (v ∷ vs) w h n = (
  rw has_voted-append (rw (n.0, has_voted-of_same v w vs h)),
  NoDouble-append vs w (has_voted-tail w.approval w.voter v vs h) n.1,
)

pub NoDouble-insert_vote :
    (i : ℕ) (actor : String) (d : Decision) (votes : List Vote)
    → NoDouble votes
    → NoDouble (insert_vote i actor d votes)
unfolding insert_vote
NoDouble-insert_vote i actor d votes n = elim (Bool-cases (has_voted i actor votes)) [
  | inl e ↦ rw e n
  | inr e ↦ rw e (NoDouble-append votes (record { approval = i; voter = actor; decision = d }) e n)
]

All-found :
    (P : Approval → Type 0) (event : String) (rows : List Approval) {row : Approval}
    → find_pending event rows ≡ some row
    → All P rows
    → P row
unfolding find_pending
All-found P event [] e h = cc
All-found P event (a ∷ rows) {row} e h =
    elim (Bool-cases ((a.event_id == event) && is_pending a.status)) [
      | inl t ↦ subst P (cc (rw t at e)) h.0
      | inr t ↦ All-found P event rows (rw t at e) h.1
    ]

-- The row that a vote is for is the only one with its id.
pub found-key :
    (event : String) (rows : List Approval) {row : Approval}
    → find_pending event rows ≡ some row
    → UniqueIds rows
    → All (λ a. a.id ≡ row.id → a ≡ row) rows
unfolding find_pending
found-key event [] e u = tt
found-key event (a ∷ rows) {row} e u =
    elim (Bool-cases ((a.event_id == event) && is_pending a.status)) [
      | inl t ↦
          let same : a ≡ row = cc (rw t at e) in
          (
            (λ _. same),
            All-map (λ b. a.id ≢ b.id) (λ b. b.id ≡ row.id → b ≡ row) rows
                (λ b n k. absurd (n (cc (same, k)))) u.0,
          )
      | inr t ↦
          let found = rw t at e in
          (
            (λ k. absurd (All-found (λ b. a.id ≢ b.id) event rows found u.0 k)),
            found-key event rows found u.1,
          )
    ]
