-- ===== src/TaskQueue/Examples.antt =====
-- A Redis in memory with a list for the entries of all streams and one for the pending entries, and runs of
-- the queue on it.
use security_agent.Prelude.{
  ℕ, suc, ◌≡◌, ◌≢◌, refl, sym, ◌∙◌, Bool, true, false, ◌&&◌, ◌||◌, List, [], ◌∷◌, ◌++◌, Option,
  none, some, String, arith, ◌⊎◌, inl, inr, ◌==◌, eq_iff, if◌then◌else◌, Bool-cases,
}
use security_agent.TaskQueue.{
  Fields, Payload, Redis, RedisLaws, Queue, vulnscan_queue, dlq_fields, Run, finished, failed,
  State, process, claim_stale_batch, answered, envelope_of, conclude, ack_message,
}
use security_agent.TaskQueue.Fate.{Ran, Buried, process-no_loss}
use security_agent.TaskQueue.Claims.{Batched, claim_stale_batch-bounded}

record Entry : Type 0 where
  stream : String
  group : String
  id : String
  times : ℕ

record Memory : Type 0 where
  log : List (String × Fields)
  pel : List Entry

abbrev select : String → List (String × Fields) → List Fields
select k [] = []
select k ((j, f) ∷ log) = if j == k then f ∷ select k log else select k log

abbrev matches : String → String → String → Entry → Bool
matches stream group i e = (e.stream == stream) && ((e.group == group) && (e.id == i))

abbrev pending_in : String → String → String → List Entry → Bool
pending_in stream group i [] = false
pending_in stream group i (e ∷ pel) = matches stream group i e || pending_in stream group i pel

abbrev removed : String → String → String → List Entry → List Entry
removed stream group i [] = []
removed stream group i (e ∷ pel) =
    if matches stream group i e then removed stream group i pel else e ∷ removed stream group i pel

abbrev times_of : String → String → String → List Entry → Option ℕ
times_of stream group i [] = none
times_of stream group i (e ∷ pel) =
    if matches stream group i e then some e.times else times_of stream group i pel

abbrev memory_redis : Redis Memory
memory_redis = record {
  xadd = λ k f s. some (record s { log = s.log ++ (k, f) ∷ [] });
  xack = λ stream group i s. some (record s { pel = removed stream group i s.pel });
  xautoclaim = λ stream group consumer s. answered (some ("5-0", ("envelope", some "good") ∷ [])) s;
  times_delivered = λ stream group i s. some (times_of stream group i s.pel);
  entries = λ k s. select k s.log;
  is_pending = λ stream group i s. pending_in stream group i s.pel;
}

same_text : (k : String) → (k == k) ≡ true
same_text k = (eq_iff k k).1 refl

select-append :
    (k : String) (f : Fields) (log : List (String × Fields))
    → select k (log ++ (k, f) ∷ []) ≡ select k log ++ f ∷ []
select-append k f [] = rw (same_text k)
select-append k f ((j, g) ∷ log) = elim (Bool-cases (j == k)) [
  | inl e ↦ rw (e, select-append k f log)
  | inr e ↦ rw (e, select-append k f log)
]

removed-gone :
    (stream group i : String) (pel : List Entry)
    → pending_in stream group i (removed stream group i pel) ≡ false
removed-gone stream group i [] = refl
removed-gone stream group i (e ∷ pel) = elim (Bool-cases (matches stream group i e)) [
  | inl d ↦ rw d (removed-gone stream group i pel)
  | inr d ↦ rw (d, removed-gone stream group i pel, d)
]

matches-stream :
    (stream group i : String) (e : Entry) → matches stream group i e ≡ true → e.stream ≡ stream
matches-stream stream group i e h =
    let same : (e.stream == stream) ≡ true = ground arith in (eq_iff e.stream stream).0 same

matches-other :
    (stream group i : String) (e : Entry) → e.stream ≢ stream → matches stream group i e ≡ false
matches-other stream group i e h = elim (Bool-cases (matches stream group i e)) [
  | inl d ↦ absurd (h (matches-stream stream group i e d))
  | inr d ↦ d
]

removed-other :
    (stream group i stream' group' j : String) (pel : List Entry)
    → stream ≢ stream'
    → pending_in stream' group' j (removed stream group i pel) ≡ pending_in stream' group' j pel
removed-other stream group i stream' group' j [] h = refl
removed-other stream group i stream' group' j (e ∷ pel) h =
    elim (Bool-cases (matches stream group i e)) [
      | inl d ↦
          let foreign =
            matches-other stream' group' j e
              (λ p. h (sym (matches-stream stream group i e d) ∙ p)) in
          rw (d, foreign) (removed-other stream group i stream' group' j pel h)
      | inr d ↦ rw (d, removed-other stream group i stream' group' j pel h)
    ]

memory_redis-RedisLaws : RedisLaws memory_redis
memory_redis-RedisLaws = record {
  entries-xadd = λ k f s s' e.
      let p : record s { log = s.log ++ (k, f) ∷ [] } ≡ s' = cc in
      rw (sym p) (select-append k f s.log);
  is_pending-xadd = λ k f s s' e stream group i.
      let p : record s { log = s.log ++ (k, f) ∷ [] } ≡ s' = cc in rw (sym p) refl;
  entries-xack = λ stream group i s s' e k.
      let p : record s { pel = removed stream group i s.pel } ≡ s' = cc in rw (sym p) refl;
  is_pending-xack = λ stream group i s s' e.
      let p : record s { pel = removed stream group i s.pel } ≡ s' = cc in
      rw (sym p) (removed-gone stream group i s.pel);
  is_pending-xack_other = λ stream group i s s' e stream' group' j h.
      let p : record s { pel = removed stream group i s.pel } ≡ s' = cc in
      rw (sym p) (removed-other stream group i stream' group' j s.pel h);
}

abbrev good_payload : Payload
good_payload = ("envelope", some "good") ∷ []

-- A runner that fails on what it parses, and one that counts its runs.
abbrev parse : String → String ⊎ String
parse raw = if raw == "good" then inl raw else inr "bad json"

abbrev failing : String → ℕ → Run × ℕ
failing envelope w = (failed "boom", w)

abbrev counting : String → ℕ → Run × ℕ
counting envelope w = (finished, suc w)

abbrev asset_queue : Queue
asset_queue = record {
  stream = "assetscan:queue:tasks";
  group = "assetscan-workers";
  dlq = "assetscan:queue:dlq";
}

-- An entry at its third delivery, and one of another queue.
abbrev busy : State Memory ℕ
busy = record {
  streams = record {
    log = [];
    pel =
        record {
          stream = "vulnscan:queue:tasks";
          group = "vulnscan-workers";
          id = "5-0";
          times = 3;
        }
        ∷ record {
          stream = "assetscan:queue:tasks";
          group = "assetscan-workers";
          id = "6-0";
          times = 1;
        }
        ∷ [];
  };
  world = 0;
}

process-no_loss_example :
    Ran parse counting good_payload 0
    ⊎ Buried memory_redis vulnscan_queue "5-0" good_payload busy.streams
        (process memory_redis parse counting vulnscan_queue "5-0" good_payload busy).streams
unfolding process conclude ack_message envelope_of
process-no_loss_example =
    process-no_loss memory_redis memory_redis-RedisLaws parse counting vulnscan_queue "5-0"
      good_payload busy refl refl

abbrev given_up : Memory
given_up = record {
  log = ("vulnscan:queue:dlq", dlq_fields "5-0" good_payload "max_delivery:boom") ∷ [];
  pel = busy.streams.pel;
}

claim_stale_batch-bounded_example :
    Batched memory_redis 100 asset_queue "worker"
      (claim_stale_batch memory_redis 100 asset_queue "worker" busy.streams).0
claim_stale_batch-bounded_example =
    claim_stale_batch-bounded memory_redis 100 asset_queue "worker" busy.streams
