-- ===== src/Chats/Clean.antt =====
-- The shape of the messages that agents/conversation.py stores.
use security_agent.Prelude.{
  ℕ, ◌≡◌, true, List, [], ◌∷◌, Option, none, some, String, ◌==◌, All, All-append, Bool-cases,
  Option-cases, inl, inr,
}
use security_agent.Chats.{
  Message, Conversation, allowed, sanitize_meta, put, merge, find, change, remove,
  create_conversation, new_message, add_message, append_message, patch_first, turn, patch_last,
  Read, untouched, missing, raised, messages_of, read_messages, read_of, patch_read, patch_write,
  patch_message, update_conversation, is_untitled, finish_title, asks, maybe_generate_title,
}

module _ {V : Type 0} where
  -- Every key of the metadata is one of the list.
  abbrev pub IsClean : List (String × V) → Type 0
  IsClean meta = All (λ kv. allowed kv.0 ≡ true) meta

  abbrev pub AllClean : List (Conversation V) → Type 0
  AllClean rows = All (λ c. All (λ m. IsClean m.meta) c.messages) rows

  sanitize_meta-IsClean : (meta : List (String × V)) → IsClean (sanitize_meta meta)
  unfolding sanitize_meta
  sanitize_meta-IsClean [] = tt
  sanitize_meta-IsClean ((k, v) ∷ meta) = elim (Bool-cases (allowed k)) [
    | inl y ↦ rw y (y, sanitize_meta-IsClean meta)
    | inr n ↦ rw n (sanitize_meta-IsClean meta)
  ]

  put-IsClean :
      (k : String) (v : V) (d : List (String × V))
      → allowed k ≡ true
      → IsClean d
      → IsClean (put k v d)
  unfolding put
  put-IsClean k v [] a h = (a, tt)
  put-IsClean k v ((j, w) ∷ d) a (b, h) = elim (Bool-cases (j == k)) [
    | inl y ↦ rw y (a, h)
    | inr n ↦ rw n (b, put-IsClean k v d a h)
  ]

  merge-IsClean :
      (d clean : List (String × V)) → IsClean d → IsClean clean → IsClean (merge d clean)
  unfolding merge
  merge-IsClean d [] h c = h
  merge-IsClean d ((k, v) ∷ clean) h (a, c) =
      merge-IsClean (put k v d) clean (put-IsClean k v d a h) c

  patch_first-IsClean :
      (ts : String) (clean : List (String × V)) (messages : List (Message V))
      → IsClean clean
      → All (λ m. IsClean m.meta) messages
      → All (λ m. IsClean m.meta) (patch_first ts clean messages)
  unfolding patch_first
  patch_first-IsClean ts clean [] c h = tt
  patch_first-IsClean ts clean (m ∷ messages) c (q, h) = elim (Bool-cases (m.ts == ts)) [
    | inl y ↦ rw y (merge-IsClean m.meta clean q c, h)
    | inr n ↦ rw n (q, patch_first-IsClean ts clean messages c h)
  ]

  turn-IsClean :
      (messages acc : List (Message V))
      → All (λ m. IsClean m.meta) messages
      → All (λ m. IsClean m.meta) acc
      → All (λ m. IsClean m.meta) (turn messages acc)
  unfolding turn
  turn-IsClean [] acc h a = a
  turn-IsClean (m ∷ messages) acc (q, h) a = turn-IsClean messages (m ∷ acc) h (q, a)

  change-AllClean :
      (i : String) (f : Conversation V → Conversation V) (rows : List (Conversation V))
      → ((c : Conversation V)
          → All (λ m. IsClean m.meta) c.messages
          → All (λ m. IsClean m.meta) (f c).messages)
      → AllClean rows
      → AllClean (change i f rows)
  unfolding change
  change-AllClean i f [] keep h = tt
  change-AllClean i f (c ∷ rows) keep (q, h) = elim (Bool-cases (c.id == i)) [
    | inl y ↦ rw y (keep c q, change-AllClean i f rows keep h)
    | inr n ↦ rw n (q, change-AllClean i f rows keep h)
  ]

  remove-AllClean :
      (i : String) (rows : List (Conversation V)) → AllClean rows → AllClean (remove i rows)
  unfolding remove
  remove-AllClean i [] h = tt
  remove-AllClean i (c ∷ rows) (q, h) = elim (Bool-cases (c.id == i)) [
    | inl y ↦ rw y (remove-AllClean i rows h)
    | inr n ↦ rw n (q, remove-AllClean i rows h)
  ]

  abbrev ReadClean : Read V → Type 0
  ReadClean (messages_of messages) = All (λ m. IsClean m.meta) messages
  ReadClean untouched = Unit
  ReadClean missing = Unit
  ReadClean raised = Unit

  read_messages-Clean :
      (messages : List (Message V))
      → All (λ m. IsClean m.meta) messages
      → ReadClean (read_messages messages)
  read_messages-Clean [] h = tt
  read_messages-Clean (m ∷ messages) h = h

  find-Clean :
      (i : String) (rows : List (Conversation V))
      → AllClean rows
      → ReadClean (read_of (find i rows))
  unfolding find
  find-Clean i [] h = tt
  find-Clean i (c ∷ rows) (q, h) = elim (Bool-cases (c.id == i)) [
    | inl y ↦ rw y (read_messages-Clean c.messages q)
    | inr n ↦ rw n (find-Clean i rows h)
  ]

  patch_read-Clean :
      (i : String) (clean : List (String × V)) (rows : List (Conversation V))
      → AllClean rows
      → ReadClean (patch_read i clean rows)
  unfolding patch_read
  patch_read-Clean i [] rows h = tt
  patch_read-Clean i (kv ∷ clean) rows h = find-Clean i rows h

  patch_write-AllClean :
      (i ts : String) (clean : List (String × V)) (r : Read V) (rows : List (Conversation V))
      → IsClean clean
      → ReadClean r
      → AllClean rows
      → AllClean (patch_write i ts clean r rows)
  unfolding patch_write patch_last
  patch_write-AllClean i ts clean (messages_of messages) rows c q h =
      change-AllClean i _ rows
        (λ x old.
          turn-IsClean (patch_first ts clean (turn messages [])) []
            (patch_first-IsClean ts clean (turn messages []) c (turn-IsClean messages [] q tt)) tt)
        h
  patch_write-AllClean i ts clean untouched rows c q h = h
  patch_write-AllClean i ts clean missing rows c q h = h
  patch_write-AllClean i ts clean raised rows c q h = h

-- What happens to the table, each request at once.
pub data Event (V : Type 0) : Type 0 where
  creates : String → String → Option ℕ → Event V
  appends : String → String → String → String → List (String × V) → Event V
  patches : String → String → List (String × V) → Event V
  updates : String → Option String → Option ℕ → Event V
  titles : String → Option String → List (Conversation V) → Event V
  deletes : String → Event V

module _ {V : Type 0} (strip : String → String) where
  pub step : Event V → List (Conversation V) → List (Conversation V)
  step (creates i title model_id) rows = create_conversation i title model_id rows
  step (appends i role content ts meta) rows = (append_message i role content ts meta rows).1
  step (patches i ts patch) rows = patch_message i ts patch rows
  step (updates i title model_id) rows = update_conversation i title model_id rows
  step (titles i answer before) rows = maybe_generate_title strip i answer before rows
  step (deletes i) rows = remove i rows

  pub run : List (Event V) → List (Conversation V)
  run [] = []
  run (e ∷ events) = step e (run events)

  update_conversation-AllClean :
      (i : String) (title : Option String) (model_id : Option ℕ) (rows : List (Conversation V))
      → AllClean rows
      → AllClean (update_conversation i title model_id rows)
  unfolding update_conversation
  update_conversation-AllClean i title model_id rows h = change-AllClean i _ rows (λ c q. q) h

  finish_title-AllClean :
      (i title : String) (rows : List (Conversation V))
      → AllClean rows
      → AllClean (finish_title strip i title rows)
  unfolding finish_title
  finish_title-AllClean i title rows h = elim (Bool-cases (title == "")) [
    | inl e ↦ rw e h
    | inr e ↦ elim (Bool-cases (is_untitled strip (find i rows))) [
      | inl u ↦ rw (e, u) (update_conversation-AllClean i (some title) none rows h)
      | inr u ↦ rw (e, u) h
    ]
  ]

  titles-AllClean :
      (i : String) (answer : Option String) (before rows : List (Conversation V))
      → AllClean rows
      → AllClean (maybe_generate_title strip i answer before rows)
  unfolding maybe_generate_title
  titles-AllClean i answer before rows h = elim (Bool-cases (is_untitled strip (find i before))) [
    | inr e ↦ rw e h
    | inl e ↦ elim (Bool-cases (asks (find i before))) [
      | inr n ↦ rw (e, n) h
      | inl y ↦ elim (Option-cases answer) [
        | inl a ↦ rw (e, y, a) h
        | inr (title, a) ↦ rw (e, y, a) (finish_title-AllClean i title rows h)
      ]
    ]
  ]

-- After any creations, messages, patches, updates, titles and deletions, every key of a stored message beyond its role,
-- content and time is one of the list, whatever metadata the requests carried.
pub run-AllClean :
    {V : Type 0} (strip : String → String) (events : List (Event V)) → AllClean (run strip events)
unfolding run step create_conversation append_message patch_message
run-AllClean strip [] = tt
run-AllClean strip (creates i title model_id ∷ events) =
    All-append (λ c. All (λ m. IsClean m.meta) c.messages) (run strip events) _
      (run-AllClean strip events) (tt, tt)
run-AllClean strip (appends i role content ts meta ∷ events) =
    change-AllClean i (add_message (new_message role content ts meta)) (run strip events)
      (λ c q. All-append (λ m. IsClean m.meta) c.messages _ q (sanitize_meta-IsClean meta, tt))
      (run-AllClean strip events)
run-AllClean strip (patches i ts patch ∷ events) =
    let rows = run strip events in
    patch_write-AllClean i ts (sanitize_meta patch) (patch_read i (sanitize_meta patch) rows) rows
      (sanitize_meta-IsClean patch)
      (patch_read-Clean i (sanitize_meta patch) rows (run-AllClean strip events))
      (run-AllClean strip events)
run-AllClean strip (updates i title model_id ∷ events) =
    update_conversation-AllClean strip i title model_id (run strip events)
      (run-AllClean strip events)
run-AllClean strip (titles i answer before ∷ events) =
    titles-AllClean strip i answer before (run strip events) (run-AllClean strip events)
run-AllClean strip (deletes i ∷ events) =
    remove-AllClean i (run strip events) (run-AllClean strip events)
