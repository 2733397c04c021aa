-- ===== src/Chats/Patched.antt =====
-- A message of agents/conversation.py that is stored and patched by its time, and the keys of the metadata.
use security_agent.Prelude.{
  ◌≡◌, refl, ap, ◌∙◌, true, List, [], ◌∷◌, ◌++◌, none, some, String, ◌==◌, same_text, Bool-cases,
  inl, inr,
}
use security_agent.Chats.{
  Message, Conversation, sanitize_meta, merge, find, change, new_message, add_message,
  append_message, patch_first, turn, patch_last, messages_of, read_messages, read_of, patch_read,
  patch_write, patch_message,
}

module _ {V : Type 0} where
  turn-append : (xs ys acc : List (Message V)) → turn (xs ++ ys) acc ≡ turn ys (turn xs acc)
  unfolding turn
  turn-append [] ys acc = refl
  turn-append (x ∷ xs) ys acc = turn-append xs ys (x ∷ acc)

  turn-turn : (xs acc ys : List (Message V)) → turn (turn xs acc) ys ≡ turn acc (xs ++ ys)
  unfolding turn
  turn-turn [] acc ys = refl
  turn-turn (x ∷ xs) acc ys = turn-turn xs (x ∷ acc) ys

  -- The last message is patched, if it has the time, whatever times the others have.
  pub patch_last-append :
      (clean : List (String × V)) (messages : List (Message V)) (m : Message V)
      → patch_last m.ts clean (messages ++ m ∷ [])
        ≡ messages ++ record m { meta = merge m.meta clean } ∷ []
  unfolding patch_last patch_first turn
  patch_last-append clean messages m =
      let m' : Message V = record m { meta = merge m.meta clean } in
      let turned : turn (messages ++ m ∷ []) [] ≡ m ∷ turn messages [] =
        turn-append messages (m ∷ []) [] in
      let first : patch_first m.ts clean (m ∷ turn messages []) ≡ m' ∷ turn messages [] =
        rw (same_text m.ts) refl in
      ap (λ l. turn (patch_first m.ts clean l) []) turned
      ∙ ap (λ l. turn l []) first
      ∙ turn-turn messages [] (m' ∷ [])

  pub find-change :
      (i : String) (f : Conversation V → Conversation V) (c : Conversation V)
      (rows : List (Conversation V))
      → ((x : Conversation V) → (f x).id ≡ x.id)
      → find i rows ≡ some c
      → find i (change i f rows) ≡ some (f c)
  unfolding find change
  find-change i f c [] same e = absurd (cc)
  find-change i f c (x ∷ rows) same e = elim (Bool-cases (x.id == i)) [
    | inl y ↦
        let is_c : some x ≡ some c = rw y at e in
        let still : ((f x).id == i) ≡ true = ap (λ u. u == i) (same x) ∙ y in
        rw (y, still) (ap (λ o. elim o [ none ↦ none | some u ↦ some (f u) ]) is_c)
    | inr n ↦ rw (n, n) (find-change i f c rows same (rw n at e))
  ]

  read_messages-append :
      (messages : List (Message V)) (m : Message V)
      → read_messages (messages ++ m ∷ []) ≡ messages_of (messages ++ m ∷ [])
  read_messages-append [] m = refl
  read_messages-append (x ∷ messages) m = refl

  -- What a patch with something to write leaves of a conversation.
  patch_nonempty :
      (i ts : String) (kv : String × V) (clean : List (String × V)) (m : Message V)
      (c : Conversation V) (rows : List (Conversation V))
      → ts ≡ m.ts
      → find i rows ≡ some (add_message m c)
      → find i (patch_write i ts (kv ∷ clean) (patch_read i (kv ∷ clean) rows) rows)
        ≡ some (add_message (record m { meta = merge m.meta (kv ∷ clean) }) c)
  unfolding patch_read patch_write
  patch_nonempty i ts kv clean m c rows at_ts e =
      let seen : read_of (find i rows) ≡ messages_of (c.messages ++ m ∷ []) =
        ap read_of e ∙ read_messages-append c.messages m in
      let patched : patch_last ts (kv ∷ clean) (c.messages ++ m ∷ [])
          ≡ c.messages ++ record m { meta = merge m.meta (kv ∷ clean) } ∷ [] =
        ap (λ t. patch_last t (kv ∷ clean) (c.messages ++ m ∷ [])) at_ts
        ∙ patch_last-append (kv ∷ clean) c.messages m in
      ap (λ r. find i (patch_write i ts (kv ∷ clean) r rows)) seen
      ∙ find-change i
          (λ x. record x { messages = patch_last ts (kv ∷ clean) (c.messages ++ m ∷ []) })
          (add_message m c) rows (λ x. refl) e
      ∙ ap (λ l. some (record c { messages = l })) patched

  patch_clean :
      (i : String) (clean : List (String × V)) (m : Message V) (c : Conversation V)
      (rows : List (Conversation V))
      → find i rows ≡ some (add_message m c)
      → find i (patch_write i m.ts clean (patch_read i clean rows) rows)
        ≡ some (add_message (record m { meta = merge m.meta clean }) c)
  unfolding merge patch_read patch_write
  patch_clean i [] m c rows e = e
  patch_clean i (kv ∷ clean) m c rows e = patch_nonempty i m.ts kv clean m c rows refl e

-- A message that was appended is the one that a patch with its time changes: behind both, the conversation has its
-- old messages and the new one, with the patch's keys of the list written over its own, also where other messages
-- have the same time.
pub patch_message-append_message :
    {V : Type 0} (i role content ts : String) (meta patch : List (String × V)) (c : Conversation V)
    (rows : List (Conversation V))
    → find i rows ≡ some c
    → find i (patch_message i ts patch (append_message i role content ts meta rows).1)
      ≡ some (
          add_message
            (record {
              role = role;
              content = content;
              ts = ts;
              meta = merge (sanitize_meta meta) (sanitize_meta patch);
            })
            c)
unfolding patch_message append_message
patch_message-append_message i role content ts meta patch c rows e =
    let m = new_message role content ts meta in
    patch_clean i (sanitize_meta patch) m c (change i (add_message m) rows)
      (find-change i (add_message m) c rows (λ x. refl) e)
