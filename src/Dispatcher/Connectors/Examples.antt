-- ===== src/Dispatcher/Connectors/Examples.antt =====
-- A playbook that blocks a domain and ends in an exception, with keys that are a list.
use security_agent.Prelude.{◌≡◌, refl, true, false, not, ◌&&◌, List, [], ◌∷◌, some, String, mem}
use security_agent.Dispatcher.{
  Op, success, ActionResult, Redis, State, goes_on, raises, result_of, step, execute_playbook,
}
use security_agent.Dispatcher.Undo.{GoesOn, done, more}
use security_agent.Dispatcher.Connectors.{Services, registry}
use security_agent.Dispatcher.Connectors.Blocklist.{blocked, execute_playbook-releases}

abbrev keys : Redis (List String)
keys = record { exists = λ k s. some (mem k s); set = λ k s. some (k ∷ s) }

abbrev net : Services
net = record {
  sadd = λ x. true;
  expire = λ x. true;
  srem = λ x. true;
  sent_any = λ op. true;
  tagged = λ op. true;
  starts = λ op. false;
}

abbrev by_kind : Op → String
by_kind op = op.kind

abbrev block_op : Op
block_op = record { kind = "dns_block"; params = ("domain", "evil.example") ∷ [] }

abbrev bad_op : Op
bad_op = record { kind = "notify"; params = [] }

abbrev start : State (List String) (List String)
start = record { keys = []; world = "old.example" ∷ [] }

abbrev blocked_state : State (List String) (List String)
blocked_state = record { keys = "dns_block" ∷ []; world = "evil.example" ∷ "old.example" ∷ [] }

abbrev success_of : ActionResult
success_of = result_of by_kind block_op success

first_goes :
    step keys (registry net) by_kind false block_op start ≡ goes_on success_of blocked_state
unfolding step registry
first_goes = refl

goes :
    GoesOn keys (registry net) by_kind false (block_op ∷ []) start (success_of ∷ []) blocked_state
goes = more first_goes done

second_raises : step keys (registry net) by_kind false bad_op blocked_state ≡ raises blocked_state
unfolding step registry
second_raises = refl

execute_playbook-releases_example :
    mem "evil.example"
      (execute_playbook keys
        (registry net)
        by_kind
        false
        (block_op ∷ bad_op ∷ block_op ∷ [])
        start).1.world
    ≡ (not (blocked "evil.example" (success_of ∷ [])) && mem "evil.example" start.world)
execute_playbook-releases_example =
    execute_playbook-releases net keys by_kind bad_op (block_op ∷ []) (λ y. refl) (λ y. refl) goes
      second_raises "evil.example"

-- A domain that was on the list before is released too.
abbrev listed : State (List String) (List String)
listed = record { keys = []; world = "evil.example" ∷ [] }

released :
    (execute_playbook keys (registry net) by_kind false (block_op ∷ bad_op ∷ []) listed).1.world
    ≡ []
unfolding execute_playbook registry
released = refl
