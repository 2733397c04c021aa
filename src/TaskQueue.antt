-- ===== src/TaskQueue.antt =====
-- orchestration/task_queue: dequeue.py, and `_process` and `_claim_loop` of worker.py. Redis, the parser
-- of an envelope and the runner of a task are parameters; a call that raises is `none`. What the runner
-- writes lies outside the streams and their groups. The lag metric and the logs are left out.
pub mod Fate
pub mod Claims
mod Examples
use security_agent.Prelude.{
  ℕ, zero, suc, ◌+◌, Bool, true, false, List, [], ◌∷◌, ◌++◌, Option, none, some, String, ◌≡◌, ◌⊎◌,
  ◌≢◌, leb, mem, ◌==◌, get_or, join, inl, inr, if◌then◌else◌,
}

-- The fields of an entry, in the order of the Python dict.
abbrev pub Fields : Type 0
Fields = List (String × String)

-- `payload` as it is read: a field may be missing its value.
abbrev pub Payload : Type 0
Payload = List (String × Option String)

-- What XAUTOCLAIM (count=1) comes to: a ResponseError, another exception, or an entry or none.
pub data Claim (S : Type 0) : Type 0 where
  refused : Claim S
  broken : Claim S
  answered : Option (String × Payload) → S → Claim S

-- The commands that the queue sends: XADD, XACK, XAUTOCLAIM and XPENDING for one entry. `none`
-- is an exception; the last one may also give no count. `entries` and `is_pending` are
-- what a stream and the pending list of a group hold.
pub record Redis (S : Type 0) : Type 0 where
  pub xadd : String → Fields → S → Option S
  pub xack : String → String → String → S → Option S
  pub xautoclaim : String → String → String → S → Claim S
  pub times_delivered : String → String → String → S → Option (Option ℕ)
  pub entries : String → S → List Fields
  pub is_pending : String → String → String → S → Bool

-- What is relied on: XADD appends to one stream and leaves the pending lists alone, XACK takes one
-- entry from one pending list and leaves the streams alone.
pub record RedisLaws {S : Type 0} (redis : Redis S) : Type 0 where
  pub entries-xadd :
      (k : String) (f : Fields) (s s' : S)
      → redis.xadd k f s ≡ some s'
      → redis.entries k s' ≡ redis.entries k s ++ f ∷ []
  pub is_pending-xadd :
      (k : String) (f : Fields) (s s' : S)
      → redis.xadd k f s ≡ some s'
      → (stream group i : String)
      → redis.is_pending stream group i s' ≡ redis.is_pending stream group i s
  pub entries-xack :
      (stream group i : String) (s s' : S)
      → redis.xack stream group i s ≡ some s'
      → (k : String) → redis.entries k s' ≡ redis.entries k s
  pub is_pending-xack :
      (stream group i : String) (s s' : S)
      → redis.xack stream group i s ≡ some s'
      → redis.is_pending stream group i s' ≡ false
  pub is_pending-xack_other :
      (stream group i : String) (s s' : S)
      → redis.xack stream group i s ≡ some s'
      → (stream' group' j : String) → stream ≢ stream'
      → redis.is_pending stream' group' j s' ≡ redis.is_pending stream' group' j s

pub record Queue : Type 0 where
  pub stream : String
  pub group : String
  pub dlq : String

-- STREAM_TASKS, CONSUMER_GROUP and STREAM_DLQ of keys.py.
abbrev pub vulnscan_queue : Queue
vulnscan_queue = record {
  stream = "vulnscan:queue:tasks";
  group = "vulnscan-workers";
  dlq = "vulnscan:queue:dlq";
}

-- MAX_DELIVERY
abbrev pub max_delivery : ℕ
max_delivery = 3

-- d[k] = v
pub put : String → String → Fields → Fields
put k v [] = (k, v) ∷ []
put k v ((j, u) ∷ d) = if j == k then (j, v) ∷ d else (j, u) ∷ put k v d

put_all : Payload → Fields → Fields
unfolding put
put_all [] d = d
put_all ((k, v) ∷ payload) d = put_all payload (put k (get_or v "") d)

-- The fields that `move_to_dlq` writes.
pub dlq_fields : String → Payload → String → Fields
unfolding put_all
dlq_fields entry_id payload reason =
    put_all payload (("original_id", entry_id) ∷ ("dlq_reason", reason) ∷ [])

-- `payload.get("envelope")`, where a missing and an empty one are alike.
pub envelope_of : Payload → Option String
envelope_of [] = none
envelope_of ((k, v) ∷ payload) =
    let rest = envelope_of payload in
    if k == "envelope"
    then (elim v [ none ↦ none | some e ↦ if e == "" then none else some e ])
    else rest

module _ {S : Type 0} (redis : Redis S) where
  pub ack_message : Queue → String → S → S
  ack_message q entry_id s = elim (redis.xack q.stream q.group entry_id s) [
    | none ↦ s
    | some s' ↦ s'
  ]

  -- XADD first, so that an entry whose XADD fails stays pending.
  pub move_to_dlq : Queue → String → Payload → String → S → S
  unfolding ack_message
  move_to_dlq q entry_id payload reason s =
      elim (redis.xadd q.dlq (dlq_fields entry_id payload reason) s) [
        | none ↦ s
        | some s' ↦ ack_message q entry_id s'
      ]

  pub delivery_count : Queue → String → S → ℕ
  delivery_count q entry_id s = elim (redis.times_delivered q.stream q.group entry_id s) [
    | none ↦ 0
    | some none ↦ 0
    | some (some n) ↦ n
  ]

  -- `claim_stale`: a ResponseError is no entry, and any other exception escapes, which is `none`.
  pub claim_stale : Queue → String → S → Option (Option (String × Payload) × S)
  claim_stale q consumer s = elim (redis.xautoclaim q.stream q.group consumer s) [
    | refused ↦ some (none, s)
    | broken ↦ none
    | answered found s' ↦ some (found, s')
  ]

  abbrev pub with_claim :
      String × Payload → Option (List (String × Payload)) × S → Option (List (String × Payload)) × S
  with_claim entry (none, s) = (none, s)
  with_claim entry (some claimed, s) = (some (entry ∷ claimed), s)

  -- The loop of `claim_stale_batch`, with the entries that it may still claim, and those claimed. An exception loses
  -- the list of what was claimed before.
  pub claim_batch : ℕ → Queue → String → List String → S → Option (List (String × Payload)) × S
  unfolding claim_stale
  claim_batch zero q consumer seen s = (some [], s)
  claim_batch (suc n) q consumer seen s = elim (claim_stale q consumer s) [
    | none ↦ (none, s)
    | some (none, s') ↦ (some [], s')
    | some (some (entry_id, payload), s') ↦
        let others = claim_batch n q consumer (entry_id ∷ seen) s' in
        if mem entry_id seen then (some [], s') else with_claim (entry_id, payload) others
  ]

  pub claim_stale_batch : ℕ → Queue → String → S → Option (List (String × Payload)) × S
  unfolding claim_batch
  claim_stale_batch max_claims q consumer s = claim_batch max_claims q consumer [] s

-- The result of a runner: that it came back, or the text of its exception.
pub data Run : Type 0 where
  finished : Run
  failed : String → Run

pub record State (S W : Type 0) : Type 0 where
  pub streams : S
  pub world : W

module _ {S W E : Type 0} (redis : Redis S) (from_json : String → E ⊎ String)
    (runner : E → W → Run × W) where
  -- The part of `_process` behind the runner.
  pub conclude : Queue → String → Payload → Run → S → S
  unfolding ack_message move_to_dlq delivery_count
  conclude q entry_id payload finished s = ack_message redis q entry_id s
  conclude q entry_id payload (failed e) s =
      if leb max_delivery (delivery_count redis q entry_id s)
      then move_to_dlq redis q entry_id payload (join "max_delivery:" e) s
      else s

  -- `_process`. The call for a missing envelope names no queue, and falls to the vulnscan queue.
  pub process : Queue → String → Payload → State S W → State S W
  unfolding move_to_dlq conclude envelope_of
  process q entry_id payload s = elim (envelope_of payload) [
    | none ↦ record s {
      streams = move_to_dlq redis vulnscan_queue entry_id payload "envelope_missing" s.streams;
    }
    | some raw ↦ elim (from_json raw) [
      | inr e ↦ record s {
        streams = move_to_dlq redis q entry_id payload (join "parse:" e) s.streams;
      }
      | inl envelope ↦
          let (result, w) = runner envelope s.world in
          record { streams = conclude q entry_id payload result s.streams; world = w }
    ]
  ]

  -- `_claim_loop`, with the turns that are left; the code has eight. Whether it comes back without an exception.
  pub claim_loop : ℕ → Queue → String → State S W → Bool × State S W
  unfolding claim_stale process
  claim_loop zero q consumer s = (true, s)
  claim_loop (suc n) q consumer s = elim (claim_stale redis q consumer s.streams) [
    | none ↦ (false, s)
    | some (none, s') ↦ (true, record s { streams = s' })
    | some (some (entry_id, payload), s') ↦
        claim_loop n q consumer (process q entry_id payload (record s { streams = s' }))
  ]
