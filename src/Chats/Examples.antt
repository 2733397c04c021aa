-- ===== src/Chats/Examples.antt =====
-- A conversation whose two messages have the same time.
use security_agent.Prelude.{◌≡◌, refl, List, [], ◌∷◌, none, some, String}
use security_agent.Chats.{
  Message, Conversation, find, sanitize_meta, merge, add_message, patch_message, append_message,
  patch_read, patch_write, patch_last,
}
use security_agent.Chats.Patched.{patch_message-append_message}
use security_agent.Chats.Races.{patch_write-loses}
use security_agent.Chats.Clean.{Event, creates, appends, patches, AllClean, run, run-AllClean}

abbrev asked : Message String
asked = record { role = "user"; content = "scan prod"; ts = "10:00"; meta = [] }

abbrev talk : Conversation String
talk = record { id = "c1"; title = "新对话"; model_id = none; messages = asked ∷ [] }

patch_message-append_message_example :
    find "c1" (
      patch_message "c1" "10:00"
        (("task_id", "t1") ∷ ("role", "admin") ∷ [])
        (append_message "c1" "assistant" "ready" "10:00" (("route", "scan") ∷ []) (talk ∷ [])).1)
    ≡ some (
        add_message
          (record {
            role = "assistant";
            content = "ready";
            ts = "10:00";
            meta =
                merge
                  (sanitize_meta (("route", "scan") ∷ []))
                  (sanitize_meta (("task_id", "t1") ∷ ("role", "admin") ∷ []));
          })
          talk)
unfolding find
patch_message-append_message_example =
    patch_message-append_message "c1" "assistant" "ready" "10:00" (("route", "scan") ∷ [])
      (("task_id", "t1") ∷ ("role", "admin") ∷ []) talk (talk ∷ []) refl

patch_write-loses_example :
    find "c1" (
      patch_write "c1" "10:00"
        (("task_id", "t1") ∷ [])
        (patch_read "c1" (("task_id", "t1") ∷ []) (talk ∷ []))
        (append_message "c1" "user" "stop" "10:01" [] (talk ∷ [])).1)
    ≡ some (record talk { messages = patch_last "10:00" (("task_id", "t1") ∷ []) (asked ∷ []) })
unfolding find
patch_write-loses_example =
    patch_write-loses "c1" "10:00" "user" "stop" "10:01" [] ("task_id", "t1") [] talk asked []
      (talk ∷ []) refl refl

abbrev events : List (Event String)
events =
    patches "c1" "10:00" (("ts", "0") ∷ ("intent", "scan") ∷ [])
    ∷ appends "c1" "user" "scan prod" "10:00" (("debug", "x") ∷ ("route", "scan") ∷ [])
    ∷ creates "c1" "新对话" none
    ∷ []

run-AllClean_example : AllClean (run (λ t. t) events)
run-AllClean_example = run-AllClean (λ t. t) events
