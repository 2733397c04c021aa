-- ===== src/Hosts.antt =====
-- The hosts of agents/store.py: the table `hosts`, which is read first, and its mirror in the index of hosts. Times are
-- numbers, and whether each store answers during a call is a parameter. Of a row the columns stand here that the
-- code tests or that change a host's life; the log is left out.
pub mod Manager
pub mod Swept
pub mod Down
use security_agent.Prelude.{
  ℕ, ◌+◌, ◌*◌, Bool, true, false, not, ◌&&◌, List, [], ◌∷◌, ◌++◌, Option, none, some, String, ◌==◌,
  ltb, length, take, get_or, if◌then◌else◌,
}
use security_agent.Credentials

pub data HostStatus : Type 0 where
  online : HostStatus
  offline : HostStatus
  decommissioned : HostStatus

pub record Host : Type 0 where
  pub agent_id : String
  pub ip : String
  pub status : HostStatus
  pub group : Option String
  pub agent_version : String
  pub last_heartbeat : Option ℕ

-- The table, the index, the keys agent:online:… and agent:conn:…, and the tables of tokens.
pub record State : Type 0 where
  pub pg : List Host
  pub es : List Host
  pub online : String → Bool
  pub conn : String → Option String
  pub tokens : Credentials.Store

-- Whether the table, the index, Redis and a revocation answer while a call runs.
pub record Works : Type 0 where
  pub pg : Bool
  pub es : Bool
  pub redis : Bool
  pub revokes : Bool

-- The fields of an update; a heartbeat is given as the time that `_parse_ts` reads.
pub record Fields : Type 0 where
  pub status : Option HostStatus
  pub last_heartbeat : Option (Option ℕ)
  pub group_name : Option (Option String)
  pub agent_version : Option String

abbrev pub no_fields : Fields
no_fields = record { status = none; last_heartbeat = none; group_name = none; agent_version = none }

abbrev pub is_online : HostStatus → Bool
is_online online = true
is_online _ = false

abbrev pub is_decommissioned : HostStatus → Bool
is_decommissioned decommissioned = true
is_decommissioned _ = false

abbrev pub beat_at : ℕ → Option (Option ℕ) → Option ℕ → Option ℕ
beat_at now none old = old
beat_at now (some none) old = some now
beat_at now (some (some t)) old = some t

-- SET …, with the columns that are given.
pub set_fields : Fields → ℕ → Host → Host
set_fields f now h = record h {
  status = get_or f.status h.status;
  last_heartbeat = beat_at now f.last_heartbeat h.last_heartbeat;
  group = get_or f.group_name h.group;
  agent_version = get_or f.agent_version h.agent_version;
}

-- UPDATE hosts SET … WHERE agent_id=$1
pub update_rows : String → Fields → ℕ → List Host → List Host
update_rows a f now [] = []
update_rows a f now (h ∷ rows) =
    (if h.agent_id == a then set_fields f now h else h) ∷ update_rows a f now rows

pub update_host : Works → String → Fields → ℕ → State → State
update_host w a f now s = record s {
  pg = if w.pg then update_rows a f now s.pg else s.pg;
  es = if w.es then update_rows a f now s.es else s.es;
}

-- INSERT INTO hosts … ON CONFLICT (agent_id) DO UPDATE SET …
pub upsert_row : Host → List Host → List Host
upsert_row new [] = new ∷ []
upsert_row new (h ∷ rows) =
    if h.agent_id == new.agent_id then new ∷ rows else h ∷ upsert_row new rows

-- None where the table's statement raises.
pub save_host : Works → Host → State → Option State
save_host w new s =
    if w.pg
    then some
        (record s { pg = upsert_row new s.pg; es = if w.es then upsert_row new s.es else s.es })
    else none

pub find : String → List Host → Option Host
find a [] = none
find a (h ∷ rows) = if h.agent_id == a then some h else find a rows

pub data Lookup : Type 0 where
  raised : Lookup
  missing : Lookup
  found : Host → Lookup

pub as_lookup : Option Host → Lookup
as_lookup none = missing
as_lookup (some h) = found h

-- The index is asked where the table fails, and also where it has no row.
pub get_host : Works → String → State → Lookup
unfolding find as_lookup
get_host w a s = elim (if w.pg then find a s.pg else none) [
  | some h ↦ found h
  | none ↦ if w.es then as_lookup (find a s.es) else raised
]

pub delete_rows : String → List Host → List Host
delete_rows a [] = []
delete_rows a (h ∷ rows) = if h.agent_id == a then delete_rows a rows else h ∷ delete_rows a rows

pub delete_host : Works → String → State → State
delete_host w a s = record s {
  pg = if w.pg then delete_rows a s.pg else s.pg;
  es = if w.es then delete_rows a s.es else s.es;
}

-- last_heartbeat < now - (2 * timeout + 30); a host without a heartbeat has none that is too old.
pub too_old : ℕ → ℕ → Option ℕ → Bool
too_old timeout now none = false
too_old timeout now (some t) = ltb (t + (timeout * 2 + 30)) now

pub expired : ℕ → ℕ → Host → Bool
unfolding too_old
expired timeout now h = is_online h.status && too_old timeout now h.last_heartbeat

abbrev pub to_offline : Fields
to_offline = record no_fields { status = some offline }

-- UPDATE hosts SET status='offline' WHERE status='online' AND last_heartbeat < cutoff, and its count.
pub expire_rows : ℕ → ℕ → List Host → List Host
unfolding expired
expire_rows timeout now [] = []
expire_rows timeout now (h ∷ rows) =
    (if expired timeout now h then record h { status = offline } else h)
    ∷ expire_rows timeout now rows

pub count_expired : ℕ → ℕ → List Host → ℕ
unfolding expired
count_expired timeout now [] = 0
count_expired timeout now (h ∷ rows) =
    (if expired timeout now h then 1 else 0) + count_expired timeout now rows

-- The ids of the documents that the search of the index finds. The index answers with every write so far, as it does behind
-- a refresh.
pub hits : ℕ → ℕ → List Host → List String
unfolding expired
hits timeout now [] = []
hits timeout now (h ∷ docs) =
    if expired timeout now h then h.agent_id ∷ hits timeout now docs else hits timeout now docs

pub set_offline : Works → ℕ → List String → State → State
unfolding update_host
set_offline w now [] s = s
set_offline w now (a ∷ ids) s = set_offline w now ids (update_host w a to_offline now s)

abbrev pub max_hits : ℕ
max_hits = 1000

-- The count, and none where the search raises, behind the statement on the table.
pub mark_offline_expired : Works → ℕ → ℕ → State → Option ℕ × State
unfolding expire_rows count_expired hits set_offline
mark_offline_expired w timeout now s =
    let s' = record s { pg = if w.pg then expire_rows timeout now s.pg else s.pg } in
    let pg_count = if w.pg then count_expired timeout now s.pg else 0 in
    let found_ids = take max_hits (hits timeout now s.es) in
    if w.es
    then (
      some (if ltb pg_count (length found_ids) then length found_ids else pg_count),
      set_offline w now found_ids s',
    )
    else (none, s')
