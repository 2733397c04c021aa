-- ===== src/Credentials.antt =====
-- agents/enroll.py and agents/revoke.py: the tokens that let a host enrol, and those that an enrolled agent
-- shows at its websocket, over the tables `enroll_tokens` and `agent_tokens` of common/db/pg.py. Every SQL
-- statement is a function on the rows. Times are numbers, the hash of a token and a fresh token are
-- parameters, and the install scripts are left out.
pub mod Uses
pub mod Race
pub mod Agents
mod Examples
use security_agent.Prelude.{
  ℕ, zero, suc, ◌+◌, ◌*◌, ◌-◌, Bool, true, false, not, ◌&&◌, List, [], ◌∷◌, ◌++◌, Option, none,
  some, String, ◌==◌, ltb, leb, get_or, if◌then◌else◌,
}

pub record EnrollToken : Type 0 where
  pub token : String
  pub group_name : Option String
  pub expires_at : ℕ
  pub uses_remaining : ℕ

pub record AgentToken : Type 0 where
  pub agent_id : String
  pub token_hash : String
  pub revoked : Bool

-- Both tables, and the ids that were published as revoked.
pub record Store : Type 0 where
  pub enroll_tokens : List EnrollToken
  pub agent_tokens : List AgentToken
  pub revocations : List String

-- SELECT … FROM enroll_tokens WHERE token = $1
unfoldable pub select : String → List EnrollToken → Option EnrollToken
select t [] = none
select t (r ∷ rows) = if r.token == t then some r else select t rows

-- DELETE FROM enroll_tokens WHERE token = $1
pub delete : String → List EnrollToken → List EnrollToken
delete t [] = []
delete t (r ∷ rows) = if r.token == t then delete t rows else r ∷ delete t rows

-- UPDATE … SET uses_remaining = uses_remaining - 1 WHERE token = $1 AND uses_remaining > 0
pub decrement : String → List EnrollToken → List EnrollToken
decrement t [] = []
decrement t (r ∷ rows) =
    (if (r.token == t) && ltb 0 r.uses_remaining
      then record r { uses_remaining = r.uses_remaining - 1 }
      else r)
    ∷ decrement t rows

-- … RETURNING uses_remaining
pub returning : String → List EnrollToken → Option ℕ
returning t [] = none
returning t (r ∷ rows) =
    if (r.token == t) && ltb 0 r.uses_remaining
    then some (r.uses_remaining - 1)
    else returning t rows

abbrev pub seconds_per_hour : ℕ
seconds_per_hour = 3600

-- INSERT INTO enroll_tokens …; `none` is the violation of the primary key.
pub create_enroll_token : String → Option String → ℕ → ℕ → ℕ → Store → Option Store
unfolding select
create_enroll_token t group ttl_hours uses now s = elim (select t s.enroll_tokens) [
  | some r ↦ none
  | none ↦ some (record s {
    enroll_tokens =
        s.enroll_tokens
        ++ record {
          token = t;
          group_name = group;
          expires_at = now + ttl_hours * seconds_per_hour;
          uses_remaining = uses;
        }
          ∷ [];
  })
]

-- The checks that `peek_enroll_token` and `validate_enroll_token` share: the row where it is good, and
-- the rows, from which a token that expired or is used up is deleted.
unfoldable pub admit : String → ℕ → List EnrollToken → Option EnrollToken × List EnrollToken
unfolding select delete
admit t now rows = elim (select t rows) [
  | none ↦ (none, rows)
  | some r ↦
      if ltb r.expires_at now
      then (none, delete t rows)
      else if leb r.uses_remaining 0
      then (none, delete t rows)
      else (some r, rows)
]

abbrev pub group_of : Option EnrollToken → Option String
group_of none = none
group_of (some r) = some (get_or r.group_name "")

pub peek_enroll_token : String → ℕ → Store → Option String × Store
unfolding admit
peek_enroll_token t now s =
    let (found, rows) = admit t now s.enroll_tokens in
    (group_of found, record s { enroll_tokens = rows })

-- The statements of `validate_enroll_token` behind its checks: the UPDATE, and the DELETE of a token that
-- is used up. The result of the checks stands, whatever the UPDATE returns.
pub consume : String → List EnrollToken → List EnrollToken
unfolding decrement returning delete
consume t rows = elim (returning t rows) [
  | none ↦ decrement t rows
  | some left ↦ if leb left 0 then delete t (decrement t rows) else decrement t rows
]

unfoldable pub validate_enroll_token : String → ℕ → Store → Option String × Store
unfolding admit consume
validate_enroll_token t now s =
    let (found, rows) = admit t now s.enroll_tokens in
    (
      group_of found,
      record s { enroll_tokens = elim found [ none ↦ rows | some r ↦ consume t rows ] },
    )

-- SELECT … FROM agent_tokens WHERE agent_id = $1
pub agent_row : String → List AgentToken → Option AgentToken
agent_row i [] = none
agent_row i (r ∷ rows) = if r.agent_id == i then some r else agent_row i rows

-- INSERT INTO agent_tokens … ON CONFLICT (agent_id) DO UPDATE SET token_hash = $2, revoked_at = NULL
pub upsert : String → String → List AgentToken → List AgentToken
upsert i h [] = record { agent_id = i; token_hash = h; revoked = false } ∷ []
upsert i h (r ∷ rows) =
    if r.agent_id == i
    then record r { token_hash = h; revoked = false } ∷ rows
    else r ∷ upsert i h rows

-- UPDATE agent_tokens SET revoked_at = NOW() WHERE agent_id = $1 AND revoked_at IS NULL
pub mark_revoked : String → List AgentToken → List AgentToken
mark_revoked i [] = []
mark_revoked i (r ∷ rows) =
    (if (r.agent_id == i) && not r.revoked then record r { revoked = true } else r)
    ∷ mark_revoked i rows

pub revoke_agent : String → Store → Store
unfolding mark_revoked
revoke_agent i s = record s {
  agent_tokens = mark_revoked i s.agent_tokens;
  revocations = s.revocations ++ i ∷ [];
}

module _ (hash : String → String) where
  pub register_enroll_token : String → String → Store → Store
  unfolding upsert
  register_enroll_token i t s = record s { agent_tokens = upsert i (hash t) s.agent_tokens }

  pub validate_agent_token : String → String → Store → Bool
  unfolding agent_row
  validate_agent_token i t s = elim (agent_row i s.agent_tokens) [
    | none ↦ false
    | some r ↦ if r.revoked then false else r.token_hash == hash t
  ]
