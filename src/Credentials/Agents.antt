-- ===== src/Credentials/Agents.antt =====
-- The token of an enrolled agent: registration, validation and revocation.
use security_agent.Prelude.{
  ℕ, ◌≡◌, ◌≢◌, refl, sym, ◌∙◌, All, true, false, not, ◌&&◌, List, [], ◌∷◌, none, some, String, ◌==◌,
  eq_iff, same_text, Bool-cases, inl, inr, ◌⊎◌,
}
use security_agent.Credentials.{
  AgentToken, Store, agent_row, upsert, mark_revoked, revoke_agent, register_enroll_token,
  validate_agent_token, validate_enroll_token,
}

agent_row-upsert :
    (i h : String) (rows : List AgentToken)
    → (r : AgentToken) × (agent_row i (upsert i h rows) ≡ some r)
      × (r.token_hash ≡ h)
      × (r.revoked ≡ false)
unfolding agent_row upsert
agent_row-upsert i h [] =
    (record { agent_id = i; token_hash = h; revoked = false }, rw (same_text i), refl, refl)
agent_row-upsert i h (q ∷ rows) = elim (Bool-cases (q.agent_id == i)) [
  | inl e ↦ (record q { token_hash = h; revoked = false }, rw (e, e), refl, refl)
  | inr e ↦ let (r, f, a, b) = agent_row-upsert i h rows in (r, rw (e, e) f, a, b)
]

-- What a revocation leaves of an agent's row.
agent_row-mark_revoked :
    (i : String) (rows : List AgentToken)
    → (agent_row i (mark_revoked i rows) ≡ none)
      ⊎ ((r : AgentToken) × (agent_row i (mark_revoked i rows) ≡ some r) × (r.revoked ≡ true))
unfolding agent_row mark_revoked
agent_row-mark_revoked i [] = inl refl
agent_row-mark_revoked i (q ∷ rows) = elim (Bool-cases (q.agent_id == i)) [
  | inr e ↦ rw (e, e) (agent_row-mark_revoked i rows)
  | inl e ↦ elim (Bool-cases q.revoked) [
    | inl d ↦ inr (q, rw (e, d, e), d)
    | inr d ↦ inr (record q { revoked = true }, rw (e, d, e), refl)
  ]
]

-- A registration of another agent.
agent_row-upsert_other :
    (i j h : String) (rows : List AgentToken)
    → j ≢ i
    → agent_row i (upsert j h rows) ≡ agent_row i rows
unfolding agent_row upsert
agent_row-upsert_other i j h [] n = elim (Bool-cases (j == i)) [
  | inl e ↦ absurd (n ((eq_iff j i).0 e))
  | inr e ↦ rw e
]
agent_row-upsert_other i j h (q ∷ rows) n = elim (Bool-cases (q.agent_id == j)) [
  | inr e ↦ rw (e, agent_row-upsert_other i j h rows n)
  | inl e ↦ elim (Bool-cases (q.agent_id == i)) [
    | inl d ↦ absurd (n (sym ((eq_iff q.agent_id j).0 e) ∙ (eq_iff q.agent_id i).0 d))
    | inr d ↦ rw (e, d)
  ]
]

-- No token is good for the agent.
abbrev pub IsShut : String → List AgentToken → Type 0
IsShut i rows =
    (agent_row i rows ≡ none)
    ⊎ ((r : AgentToken) × (agent_row i rows ≡ some r) × (r.revoked ≡ true))

mark_revoked-IsShut :
    (i j : String) (rows : List AgentToken) → IsShut i rows → IsShut i (mark_revoked j rows)
unfolding agent_row mark_revoked
mark_revoked-IsShut i j [] h = inl refl
mark_revoked-IsShut i j (q ∷ rows) h = elim (Bool-cases (q.agent_id == i)) [
  | inr e ↦ elim (Bool-cases ((q.agent_id == j) && not q.revoked)) [
    | inl d ↦ rw (d, e) (mark_revoked-IsShut i j rows (rw e at h))
    | inr d ↦ rw (d, e) (mark_revoked-IsShut i j rows (rw e at h))
  ]
  | inl e ↦ elim (Bool-cases ((q.agent_id == j) && not q.revoked)) [
    | inl d ↦ rw (d, e) (inr (record q { revoked = true }, refl, refl))
    | inr d ↦ rw (d, e) (rw e at h)
  ]
]

pub revoke_agent-IsShut :
    (i j : String) (s : Store) → IsShut i s.agent_tokens → IsShut i (revoke_agent j s).agent_tokens
unfolding revoke_agent
revoke_agent-IsShut i j s h = mark_revoked-IsShut i j s.agent_tokens h

pub revoke_agent-IsShut_self : (i : String) (s : Store) → IsShut i (revoke_agent i s).agent_tokens
unfolding revoke_agent
revoke_agent-IsShut_self i s = agent_row-mark_revoked i s.agent_tokens

pub register-IsShut :
    (hash : String → String) (i j t : String) (s : Store)
    → j ≢ i
    → IsShut i s.agent_tokens
    → IsShut i (register_enroll_token hash j t s).agent_tokens
unfolding register_enroll_token
register-IsShut hash i j t s other h =
    rw (agent_row-upsert_other i j (hash t) s.agent_tokens other) h

pub validate-register_own :
    (hash : String → String) (i t : String) (s : Store)
    → validate_agent_token hash i t (register_enroll_token hash i t s) ≡ true
unfolding register_enroll_token validate_agent_token
validate-register_own hash i t s =
    let (r, e, same, open_token) = agent_row-upsert i (hash t) s.agent_tokens in
    rw (e, validate_agent_token, open_token, same) (same_text (hash t))

-- The enrolment tokens are another table.
pub agent_tokens-validate_enroll_token :
    (t : String) (now : ℕ) (s : Store)
    → (validate_enroll_token t now s).1.agent_tokens ≡ s.agent_tokens
unfolding validate_enroll_token
agent_tokens-validate_enroll_token t now s = refl

-- What happens to the tokens of agents.
pub data Event : Type 0 where
  registers : String → String → Event
  revokes : String → Event

abbrev pub Spares : String → Event → Type 0
Spares i (registers j t) = j ≢ i
Spares i (revokes j) = Unit

module _ (hash : String → String) where
  pub replay : List Event → Store → Store
  unfolding register_enroll_token revoke_agent
  replay [] s = s
  replay (registers j t ∷ events) s = replay events (register_enroll_token hash j t s)
  replay (revokes j ∷ events) s = replay events (revoke_agent j s)

  pub IsShut-refused :
      (i t : String) (s : Store) → IsShut i s.agent_tokens → validate_agent_token hash i t s ≡ false
  unfolding validate_agent_token
  IsShut-refused i t s (inl e) = rw (e, validate_agent_token)
  IsShut-refused i t s (inr (r, e, d)) = rw (e, validate_agent_token, d)

  replay-IsShut :
      (i : String) (events : List Event) (s : Store)
      → All (Spares i) events
      → IsShut i s.agent_tokens
      → IsShut i (replay events s).agent_tokens
  unfolding replay register_enroll_token revoke_agent
  replay-IsShut i [] s a h = h
  replay-IsShut i (registers j t ∷ events) s a h =
      replay-IsShut i events (register_enroll_token hash j t s) a.1
        (rw (agent_row-upsert_other i j (hash t) s.agent_tokens a.0) h)
  replay-IsShut i (revokes j ∷ events) s a h =
      replay-IsShut i events (revoke_agent j s) a.1 (mark_revoked-IsShut i j s.agent_tokens h)

-- A revoked agent stays out: behind its revocation no token is good for it, through any registrations
-- of other agents and any revocations.
pub revoke_agent-refused :
    (hash : String → String) (i t : String) (events : List Event) (s : Store)
    → All (Spares i) events
    → validate_agent_token hash i t (replay hash events (revoke_agent i s)) ≡ false
unfolding revoke_agent
revoke_agent-refused hash i t events s a =
    IsShut-refused hash i t (replay hash events (revoke_agent i s))
      (replay-IsShut hash i events (revoke_agent i s) a (agent_row-mark_revoked i s.agent_tokens))

-- A registered token reads back: the agent's token is good behind its registration, whatever was stored
-- or revoked before, and a token with another hash is not.
pub validate-register :
    (hash : String → String) (i t u : String) (s : Store)
    → hash t ≢ hash u
    → (validate_agent_token hash i t (register_enroll_token hash i t s) ≡ true)
      × (validate_agent_token hash i u (register_enroll_token hash i t s) ≡ false)
unfolding register_enroll_token validate_agent_token
validate-register hash i t u s n =
    let (r, e, same, open_token) = agent_row-upsert i (hash t) s.agent_tokens in
    let strange : (hash t == hash u) ≡ false = elim (Bool-cases (hash t == hash u)) [
      | inl d ↦ absurd (n ((eq_iff (hash t) (hash u)).0 d))
      | inr d ↦ d
    ] in
    (
      rw (e, validate_agent_token, open_token, same) (same_text (hash t)),
      rw (e, validate_agent_token, open_token, same) strange,
    )
