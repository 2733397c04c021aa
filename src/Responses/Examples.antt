-- ===== src/Responses/Examples.antt =====
-- Requests with numbers, texts and dicts, under a scheme whose signature is the key in front of the text.
use security_agent.Prelude.{
  ◌≡◌, refl, Bool, true, false, not, List, [], ◌∷◌, Option, none, some, String, ◌==◌, ◌⊎◌, inl, inr,
  arith, ltb,
}
use security_agent.Signing.{Scheme, get_private_key}
use security_agent.Signing.Examples.{scheme_of, scheme_of-Verifies}
use security_agent.Gateway.Signed.{Every, Authentic}
use security_agent.Responses.{
  ℤ, pos, negsuc, Python, kill_process, ResponseActionRequest, model_validate, model_dump,
  validate_kill, validate_quarantine, lookup, field, pid_in_range, is_signal, path_fits,
  reason_fits, abs_path, has_drive,
}
use security_agent.Responses.Valid.{IsFaithful, model_validate-model_dump}
use security_agent.Responses.Dispatch.{
  Body, Call, Ack, Event, dispatch, ack, run, ack_row, step, set_status, update,
  record_response_ack, get_action_status,
}
use security_agent.Responses.Dispatch.Sent.{Carries, run-Good}
use security_agent.Responses.Dispatch.Status.{unknown_row, WrittenIn, get_action_status-WrittenIn}

mutual
  pub data Json : Type 0 where
    null : Json
    int : ℤ → Json
    str : String → Json
    dict : Items → Json

  pub data Items : Type 0 where
    end : Items
    item : String → Json → Items → Items

abbrev items : Items → List (String × Json)
items end = []
items (item k v d) = (k, v) ∷ items d

abbrev int_of : Json → Option ℤ
int_of (int n) = some n
int_of _ = none

abbrev str_of : Json → Option String
str_of (str s) = some s
str_of _ = none

abbrev truthy : Json → Bool
truthy null = false
truthy (int (pos n)) = ltb 0 n
truthy (int (negsuc n)) = true
truthy (str s) = not (s == "")
truthy (dict end) = false
truthy (dict (item k v d)) = true

abbrev as_dict : Json → Option (List (String × Json))
as_dict (dict d) = some (items d)
as_dict _ = none

abbrev is_str : Json → Bool
is_str (str s) = true
is_str _ = false

abbrev python : Python Json
python = record {
  int_of = int_of;
  str_of = str_of;
  literal_of = str_of;
  truthy = truthy;
  as_dict = as_dict;
  is_str = is_str;
  of_int = int;
  of_str = str;
}

python-IsFaithful : IsFaithful python
python-IsFaithful = record {
  int_of-of_int = λ n. refl;
  str_of-of_str = λ s. refl;
  literal_of-of_str = λ s. refl;
}

refuses_zero : model_validate python "kill_process" (("pid", int (pos 0)) ∷ []) ≡ none
unfolding model_validate validate_kill lookup field pid_in_range is_signal
refuses_zero = refl

kills_by_default :
    model_validate python "kill_process" (("pid", int (pos 7)) ∷ [])
    ≡ some (kill_process (pos 7) "SIGKILL")
unfolding model_validate validate_kill lookup field pid_in_range is_signal
kills_by_default = refl

refuses_relative : model_validate python "quarantine_file" (("path", str "tmp/x") ∷ []) ≡ none
unfolding model_validate validate_quarantine lookup field path_fits reason_fits abs_path has_drive
refuses_relative = refl

model_validate-model_dump_example :
    model_validate python "kill_process" (model_dump python (kill_process (pos 4242) "SIGTERM"))
    ≡ some (kill_process (pos 4242) "SIGTERM")
model_validate-model_dump_example =
    model_validate-model_dump python python-IsFaithful (kill_process (pos 4242) "SIGTERM")
      ((omega arith, omega arith), inr (inl refl))

abbrev id_of : ResponseActionRequest → String
id_of r = r.action_id

abbrev no_request : ResponseActionRequest
no_request = record {
  action_id = "";
  action = "";
  params = kill_process (pos 1) "";
  actor = "";
  issued_at = "";
}

abbrev scheme : Scheme String ResponseActionRequest
scheme = scheme_of id_of no_request

abbrev kill_7 : Body Json
kill_7 = record { params = some (dict (item "pid" (int (pos 7)) end)); reason = none }

abbrev call : Call
call = record {
  actor = "ops";
  action_id = "a1";
  issued_at = "2026-08-01";
  ts = "2026-08-01";
  now = "2026-08-01";
  audit_works = true;
  set_works = true;
  link = record { socket = some true; publish = none; owner = none; set_works = false };
}

abbrev done : Ack
done = record { action_id = "a1"; ok = true; detail = "killed" }

abbrev events : List (Event Json)
events =
    ack "host-1" done 7 true
    ∷ dispatch "host-1" "kill_process" kill_7 call
    ∷ dispatch "host-1" "isolate_host" kill_7 call
    ∷ []

run-Good_example :
    Every
      (λ m. Authentic scheme "00ff" m × Carries m)
      ((run scheme "00ff" python events).boxes "host-1")
unfolding get_private_key
run-Good_example =
    run-Good scheme "00ff" "00ff" python events "host-1" (scheme_of-Verifies id_of no_request) refl

get_action_status-WrittenIn_example :
    (ack_row "host-1" done 7 ≡ unknown_row) ⊎ WrittenIn python "a1" (ack_row "host-1" done 7) events
unfolding run step get_action_status record_response_ack set_status update
get_action_status-WrittenIn_example =
    get_action_status-WrittenIn scheme "00ff" python events true "a1" (ack_row "host-1" done 7) refl
