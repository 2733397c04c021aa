-- ===== src/TaskQueue/Fate.antt =====
-- What becomes of an entry that a worker processes.
use security_agent.Prelude.{
  ◌≤◌, ◌≡◌, ◌≢◌, refl, ◌∙◌, true, false, [], ◌∷◌, ◌++◌, none, some, String, ◌⊎◌, inl, inr, leb,
  le→leb, join, Option-cases, Bool-cases,
}
use security_agent.TaskQueue.{
  Payload, Redis, RedisLaws, Queue, vulnscan_queue, max_delivery, dlq_fields, envelope_of,
  ack_message, move_to_dlq, delivery_count, Run, finished, failed, State, conclude, process,
}

module _ {S : Type 0} (redis : Redis S) (laws : RedisLaws redis) where
  ack_message-entries :
      (q : Queue) (i : String) (s : S) (k : String)
      → redis.entries k (ack_message redis q i s) ≡ redis.entries k s
  unfolding ack_message
  ack_message-entries q i s k = elim (Option-cases (redis.xack q.stream q.group i s)) [
    | inl e ↦ rw (e, ack_message)
    | inr (s', e) ↦ rw (e, ack_message) (laws.entries-xack q.stream q.group i s s' e k)
  ]

  -- It wrote to the queue of the dead letters, or it did nothing.
  move_to_dlq-cases :
      (q : Queue) (i : String) (payload : Payload) (reason : String) (s : S)
      → (move_to_dlq redis q i payload reason s ≡ s)
        ⊎ (redis.entries q.dlq (move_to_dlq redis q i payload reason s)
            ≡ redis.entries q.dlq s ++ dlq_fields i payload reason ∷ [])
  unfolding move_to_dlq
  move_to_dlq-cases q i payload reason s =
      elim (Option-cases (redis.xadd q.dlq (dlq_fields i payload reason) s)) [
        | inl e ↦ inl (rw (e, move_to_dlq))
        | inr (s', e) ↦ inr (
            rw (e, move_to_dlq, ack_message-entries q i s' q.dlq)
              (laws.entries-xadd q.dlq (dlq_fields i payload reason) s s' e))
      ]

  move_to_dlq-done :
      (q : Queue) (i : String) (payload : Payload) (reason : String) (s s' s'' : S)
      → redis.xadd q.dlq (dlq_fields i payload reason) s ≡ some s'
      → redis.xack q.stream q.group i s' ≡ some s''
      → (redis.is_pending q.stream q.group i (move_to_dlq redis q i payload reason s) ≡ false)
        × (redis.entries q.dlq (move_to_dlq redis q i payload reason s)
            ≡ redis.entries q.dlq s ++ dlq_fields i payload reason ∷ [])
  unfolding move_to_dlq ack_message
  move_to_dlq-done q i payload reason s s' s'' d e =
      let added = laws.entries-xadd q.dlq (dlq_fields i payload reason) s s' d in
      let kept = laws.entries-xack q.stream q.group i s' s'' e q.dlq in
      (
        rw (d, e, move_to_dlq, ack_message) (laws.is_pending-xack q.stream q.group i s' s'' e),
        rw (d, e, move_to_dlq, ack_message) (kept ∙ added),
      )

  -- A move of another stream's entry.
  move_to_dlq-other :
      (q : Queue) (i : String) (payload : Payload) (reason : String) (s : S)
      (stream group j : String)
      → q.stream ≢ stream
      → redis.is_pending stream group j (move_to_dlq redis q i payload reason s)
        ≡ redis.is_pending stream group j s
  unfolding move_to_dlq ack_message
  move_to_dlq-other q i payload reason s stream group j h =
      let f = dlq_fields i payload reason in
      elim (Option-cases (redis.xadd q.dlq f s)) [
        | inl d ↦ rw (d, move_to_dlq)
        | inr (s', d) ↦
            let added = laws.is_pending-xadd q.dlq f s s' d stream group j in
            elim (Option-cases (redis.xack q.stream q.group i s')) [
              | inl e ↦ rw (d, e, move_to_dlq, ack_message) added
              | inr (s'', e) ↦
                  rw (d, e, move_to_dlq, ack_message)
                    (laws.is_pending-xack_other q.stream q.group i s' s'' e stream group j h
                      ∙ added)
            ]
      ]

-- The runner came back on the entry's envelope.
abbrev pub Ran : {W E : Type 0} → (String → E ⊎ String) → (E → W → Run × W) → Payload → W → Type 0
Ran {W} {E} from_json runner payload w =
    (raw : String) × (envelope : E) × (envelope_of payload ≡ some raw)
    × (from_json raw ≡ inl envelope)
    × ((runner envelope w).0 ≡ finished)

-- A dead-letter stream has the entry's fields, with a reason, behind what it had before.
abbrev pub Buried : {S : Type 0} → Redis S → Queue → String → Payload → S → S → Type 0
Buried redis q i payload s t =
    (k : String) × (reason : String) × ((k ≡ q.dlq) ⊎ (k ≡ vulnscan_queue.dlq))
    × (redis.entries k t ≡ redis.entries k s ++ dlq_fields i payload reason ∷ [])

Run-cases : (r : Run) → (r ≡ finished) ⊎ ((e : String) × (r ≡ failed e))
Run-cases finished = inl refl
Run-cases (failed e) = inr (e, refl)

module _ {S W E : Type 0} (redis : Redis S) (laws : RedisLaws redis)
    (from_json : String → E ⊎ String) (runner : E → W → Run × W) where
  conclude-cases :
      (q : Queue) (i : String) (payload : Payload) (r : Run) (s : S)
      → (r ≡ finished)
        ⊎ ((conclude redis from_json runner q i payload r s ≡ s)
            ⊎ Buried redis q i payload s (conclude redis from_json runner q i payload r s))
  unfolding conclude
  conclude-cases q i payload finished s = inl refl
  conclude-cases q i payload (failed e) s =
      elim (Bool-cases (leb max_delivery (delivery_count redis q i s))) [
        | inl b ↦ elim (move_to_dlq-cases redis laws q i payload (join "max_delivery:" e) s) [
          | inl same ↦ inr (inl (rw (b, same)))
          | inr buried ↦ inr (inr (q.dlq, join "max_delivery:" e, inl refl, rw b buried))
        ]
        | inr b ↦ inr (inl (rw b))
      ]

  -- `process` on its three branches.
  process-missing :
      (q : Queue) (i : String) (payload : Payload) (s : State S W)
      → envelope_of payload ≡ none
      → (process redis from_json runner q i payload s).streams
        ≡ move_to_dlq redis vulnscan_queue i payload "envelope_missing" s.streams
  unfolding process
  process-missing q i payload s e = rw (e, process)

  process-unparsed :
      (q : Queue) (i : String) (payload : Payload) (s : State S W) (raw x : String)
      → envelope_of payload ≡ some raw
      → from_json raw ≡ inr x
      → (process redis from_json runner q i payload s).streams
        ≡ move_to_dlq redis q i payload (join "parse:" x) s.streams
  unfolding process
  process-unparsed q i payload s raw x e f = rw (e, f, process)

  process-run :
      (q : Queue) (i : String) (payload : Payload) (s : State S W) (raw : String) (envelope : E)
      → envelope_of payload ≡ some raw
      → from_json raw ≡ inl envelope
      → (process redis from_json runner q i payload s).streams
        ≡ conclude redis from_json runner q i payload (runner envelope s.world).0 s.streams
  unfolding process
  process-run q i payload s raw envelope e f = rw (e, f, process)

  parsed :
      (raw : String)
      → ((x : E) × (from_json raw ≡ inl x)) ⊎ ((e : String) × (from_json raw ≡ inr e))
  parsed raw =
      elim (from_json raw) as (λ r. ((x : E) × (r ≡ inl x)) ⊎ ((e : String) × (r ≡ inr e))) [
        | inl x ↦ inl (x, refl)
        | inr e ↦ inr (e, refl)
      ]

  process-cases :
      (q : Queue) (i : String) (payload : Payload) (s : State S W)
      → Ran from_json runner payload s.world
        ⊎ (((process redis from_json runner q i payload s).streams ≡ s.streams)
            ⊎ Buried redis q i payload s.streams
                (process redis from_json runner q i payload s).streams)
  process-cases q i payload s = elim (Option-cases (envelope_of payload)) [
    | inl e ↦
        elim (move_to_dlq-cases redis laws vulnscan_queue i payload "envelope_missing" s.streams) [
          | inl same ↦ inr (inl (process-missing q i payload s e ∙ same))
          | inr b ↦ inr (
              inr (
                vulnscan_queue.dlq,
                "envelope_missing",
                inr refl,
                rw (process-missing q i payload s e) b,
              ))
        ]
    | inr (raw, e) ↦ elim (parsed raw) [
      | inr (x, f) ↦ elim (move_to_dlq-cases redis laws q i payload (join "parse:" x) s.streams) [
        | inl same ↦ inr (inl (process-unparsed q i payload s raw x e f ∙ same))
        | inr b ↦ inr (
            inr (q.dlq, join "parse:" x, inl refl, rw (process-unparsed q i payload s raw x e f) b))
      ]
      | inl (envelope, f) ↦
          elim (conclude-cases q i payload (runner envelope s.world).0 s.streams) [
            | inl done ↦ inl (raw, envelope, e, f, done)
            | inr (inl same) ↦ inr (inl (process-run q i payload s raw envelope e f ∙ same))
            | inr (inr b) ↦ inr (inr (rw (process-run q i payload s raw envelope e f) b))
          ]
    ]
  ]

-- No entry is lost. If an entry that was pending is no longer pending behind `process`, then the runner
-- came back on its envelope, or its fields are in a stream of dead letters, even where Redis fails.
pub process-no_loss :
    {S W E : Type 0} (redis : Redis S)
    → RedisLaws redis
    → (from_json : String → E ⊎ String) (runner : E → W → Run × W) (q : Queue) (i : String)
      (payload : Payload) (s : State S W)
    → redis.is_pending q.stream q.group i s.streams ≡ true
    → redis.is_pending q.stream q.group i (process redis from_json runner q i payload s).streams
      ≡ false
    → Ran from_json runner payload s.world
      ⊎ Buried redis q i payload s.streams (process redis from_json runner q i payload s).streams
process-no_loss redis laws from_json runner q i payload s before after =
    elim (process-cases redis laws from_json runner q i payload s) [
      | inl ran ↦ inl ran
      | inr (inl same) ↦ absurd (cc)
      | inr (inr b) ↦ inr b
    ]

-- An entry whose runner fails, at its third delivery or later, is moved to the dead letters of its
-- own queue with the error as the reason, and is no longer pending, where XADD and XACK answer.
pub process-gives_up :
    {S W E : Type 0} (redis : Redis S) (laws : RedisLaws redis) (from_json : String → E ⊎ String)
    (runner : E → W → Run × W) (q : Queue) (i : String) (payload : Payload) (s : State S W)
    (raw error : String) (envelope : E) (s' s'' : S)
    → envelope_of payload ≡ some raw
    → from_json raw ≡ inl envelope
    → (runner envelope s.world).0 ≡ failed error
    → 3 ≤ delivery_count redis q i s.streams
    → redis.xadd q.dlq (dlq_fields i payload (join "max_delivery:" error)) s.streams ≡ some s'
    → redis.xack q.stream q.group i s' ≡ some s''
    → let t = process redis from_json runner q i payload s in
      (redis.is_pending q.stream q.group i t.streams ≡ false)
      × (redis.entries q.dlq t.streams
          ≡ redis.entries q.dlq s.streams ++ dlq_fields i payload (join "max_delivery:" error) ∷ [])
unfolding conclude
process-gives_up redis laws from_json runner q i payload s raw error envelope s' s'' e f r n d a =
    rw
      (
        process-run redis laws from_json runner q i payload s raw envelope e f,
        r,
        conclude,
        le→leb max_delivery (delivery_count redis q i s.streams) n,
      )
      (move_to_dlq-done redis laws q i payload (join "max_delivery:" error) s.streams s' s'' d a)

-- An entry without an envelope, in a queue on another stream than the one of the vulnerability scans,
-- stays pending: `process` never takes it off its own queue, whatever Redis answers.
pub process-stuck :
    {S W E : Type 0} (redis : Redis S) (laws : RedisLaws redis) (from_json : String → E ⊎ String)
    (runner : E → W → Run × W) (q : Queue) (i : String) (payload : Payload) (s : State S W)
    → envelope_of payload ≡ none
    → vulnscan_queue.stream ≢ q.stream
    → redis.is_pending q.stream q.group i (process redis from_json runner q i payload s).streams
      ≡ redis.is_pending q.stream q.group i s.streams
process-stuck redis laws from_json runner q i payload s e h =
    rw (process-missing redis laws from_json runner q i payload s e) (
      move_to_dlq-other redis laws vulnscan_queue i payload "envelope_missing" s.streams q.stream
        q.group i h)
