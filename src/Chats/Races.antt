-- ===== src/Chats/Races.antt =====
-- Requests that interleave in agents/conversation.py: each SQL statement is one step.
use security_agent.Prelude.{◌≡◌, refl, ap, ◌∙◌, false, ◌&&◌, List, ◌∷◌, Option, some, String, arith}
use security_agent.Chats.{
  Message, Conversation, find, change, new_message, add_message, append_message, patch_last,
  patch_read, patch_write, read_of, messages_of, is_untitled, finish_title, maybe_generate_title,
}
use security_agent.Chats.Patched.{find-change}

-- A patch reads all messages and writes them all back: a message that another request appends between the two is
-- lost, whatever it is.
pub patch_write-loses :
    {V : Type 0} (i ts role content at : String) (meta : List (String × V)) (kv : String × V)
    (clean : List (String × V)) (c : Conversation V) (m : Message V) (messages : List (Message V))
    (rows : List (Conversation V))
    → find i rows ≡ some c
    → c.messages ≡ m ∷ messages
    → find i (
        patch_write i ts
          (kv ∷ clean)
          (patch_read i (kv ∷ clean) rows)
          (append_message i role content at meta rows).1)
      ≡ some (record c { messages = patch_last ts (kv ∷ clean) (m ∷ messages) })
unfolding patch_write patch_read append_message
patch_write-loses i ts role content at meta kv clean c m messages rows e listed =
    let new = new_message role content at meta in
    let seen : read_of (find i rows) ≡ messages_of (m ∷ messages) =
      ap read_of e
      ∙ (let go : read_of (some c) ≡ messages_of (m ∷ messages) = rw listed refl in go) in
    ap (λ r. find i (patch_write i ts (kv ∷ clean) r (change i (add_message new) rows))) seen
    ∙ find-change i (λ x. record x { messages = patch_last ts (kv ∷ clean) (m ∷ messages) })
        (add_message new c) (change i (add_message new) rows) (λ x. refl)
        (find-change i (add_message new) c rows (λ x. refl) e)

-- A title that is not one of the defaults stays: where the conversation has one when the model has answered, or had one
-- at the start, the generation leaves the rows as they are.
pub maybe_generate_title-keeps :
    {V : Type 0} (strip : String → String) (i : String) (answer : Option String)
    (before rows : List (Conversation V))
    → (is_untitled strip (find i before) && is_untitled strip (find i rows)) ≡ false
    → maybe_generate_title strip i answer before rows ≡ rows
unfolding maybe_generate_title finish_title
maybe_generate_title-keeps strip i answer before rows named = ground arith
