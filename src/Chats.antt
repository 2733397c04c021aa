-- ===== src/Chats.antt =====
-- agents/conversation.py: the conversations about scans, in the table scan_conversations. A conversation's id is a text that
-- `validate_conv_id` took; the clock, the model's title and the values of the metadata are parameters, and so is the text of
-- `clean_title`. The lists for display, the prompts, the log and the
-- columns created_at and updated_at are left out.
pub mod Patched
pub mod Races
pub mod Clean
mod Examples
use security_agent.Prelude.{
  ℕ, Bool, true, false, not, List, [], ◌∷◌, ◌++◌, map, Option, none, some, String, ◌==◌, mem,
  get_or, if◌then◌else◌,
}

-- A message, with its keys beyond these three in `meta`.
pub record Message (V : Type 0) : Type 0 where
  pub role : String
  pub content : String
  pub ts : String
  pub meta : List (String × V)

pub record Conversation (V : Type 0) : Type 0 where
  pub id : String
  pub title : String
  pub model_id : Option ℕ
  pub messages : List (Message V)

abbrev pub meta_keys : List String
meta_keys = "route" ∷ "intent" ∷ "sources" ∷ "task_id" ∷ []

abbrev pub default_titles : List String
default_titles = "" ∷ "新对话" ∷ "新会话" ∷ "未命名对话" ∷ "Untitled" ∷ []

pub allowed : String → Bool
allowed k = mem k meta_keys

-- Of a title that was stripped.
pub is_default : String → Bool
is_default title = mem title default_titles

-- What the SELECT of `patch_message` finds.
pub data Read (V : Type 0) : Type 0 where
  untouched : Read V
  missing : Read V
  raised : Read V
  messages_of : List (Message V) → Read V

module _ {V : Type 0} where
  pub sanitize_meta : List (String × V) → List (String × V)
  unfolding allowed
  sanitize_meta [] = []
  sanitize_meta ((k, v) ∷ meta) =
      let rest = sanitize_meta meta in if allowed k then (k, v) ∷ rest else rest

  pub put : String → V → List (String × V) → List (String × V)
  put k v [] = (k, v) ∷ []
  put k v ((j, w) ∷ d) = if j == k then (k, v) ∷ d else (j, w) ∷ put k v d

  -- {**m, **clean}
  pub merge : List (String × V) → List (String × V) → List (String × V)
  unfolding put
  merge d [] = d
  merge d ((k, v) ∷ clean) = merge (put k v d) clean

  -- SELECT * FROM scan_conversations WHERE id=$1
  pub find : String → List (Conversation V) → Option (Conversation V)
  find i [] = none
  find i (c ∷ rows) = if c.id == i then some c else find i rows

  -- UPDATE scan_conversations SET … WHERE id=$1
  pub change :
      String → (Conversation V → Conversation V) → List (Conversation V) → List (Conversation V)
  change i f [] = []
  change i f (c ∷ rows) = (if c.id == i then f c else c) ∷ change i f rows

  -- DELETE FROM scan_conversations WHERE id=$1
  pub remove : String → List (Conversation V) → List (Conversation V)
  remove i [] = []
  remove i (c ∷ rows) = if c.id == i then remove i rows else c ∷ remove i rows

  -- With a fresh id.
  pub create_conversation :
      String → String → Option ℕ → List (Conversation V) → List (Conversation V)
  create_conversation i title model_id rows =
      rows ++ record { id = i; title = title; model_id = model_id; messages = [] } ∷ []

  pub last : List (Message V) → Option (Message V)
  last [] = none
  last (m ∷ []) = some m
  last (m ∷ n ∷ messages) = last (n ∷ messages)

  abbrev pub new_message : String → String → String → List (String × V) → Message V
  new_message role content ts meta = record {
    role = role;
    content = content;
    ts = ts;
    meta = sanitize_meta meta;
  }

  abbrev pub add_message : Message V → Conversation V → Conversation V
  add_message m c = record c { messages = c.messages ++ m ∷ [] }

  abbrev pub persisted : Option (Conversation V) → Option (Message V)
  persisted none = none
  persisted (some c) = last c.messages

  -- The message that was stored, and the rows.
  pub append_message :
      String
      → String
      → String
      → String
      → List (String × V)
      → List (Conversation V)
      → Option (Message V) × List (Conversation V)
  unfolding find change last sanitize_meta
  append_message i role content ts meta rows =
      let rows' = change i (add_message (new_message role content ts meta)) rows in
      (persisted (find i rows'), rows')

  -- The walk from the tail, over the list turned round: the messages, and whether one had the time.
  pub patch_first : String → List (String × V) → List (Message V) → List (Message V)
  unfolding merge
  patch_first ts clean [] = []
  patch_first ts clean (m ∷ messages) =
      let rest = patch_first ts clean messages in
      if m.ts == ts then record m { meta = merge m.meta clean } ∷ messages else m ∷ rest

  pub turn : List (Message V) → List (Message V) → List (Message V)
  turn [] acc = acc
  turn (m ∷ messages) acc = turn messages (m ∷ acc)

  pub patch_last : String → List (String × V) → List (Message V) → List (Message V)
  unfolding turn patch_first
  patch_last ts clean messages = turn (patch_first ts clean (turn messages [])) []

  abbrev pub read_messages : List (Message V) → Read V
  read_messages [] = raised
  read_messages (m ∷ messages) = messages_of (m ∷ messages)

  abbrev pub read_of : Option (Conversation V) → Read V
  read_of none = missing
  read_of (some c) = read_messages c.messages

  -- Without anything to write nothing is read. A row whose list is empty is turned into a dict without its other
  -- columns, which raises.
  pub patch_read : String → List (String × V) → List (Conversation V) → Read V
  unfolding find
  patch_read i [] rows = untouched
  patch_read i (kv ∷ clean) rows = read_of (find i rows)

  -- The UPDATE, of the whole list.
  pub patch_write :
      String → String → List (String × V) → Read V → List (Conversation V) → List (Conversation V)
  unfolding patch_last change
  patch_write i ts clean (messages_of messages) rows =
      change i (λ c. record c { messages = patch_last ts clean messages }) rows
  patch_write i ts clean untouched rows = rows
  patch_write i ts clean missing rows = rows
  patch_write i ts clean raised rows = rows

  pub patch_message :
      String → String → List (String × V) → List (Conversation V) → List (Conversation V)
  unfolding patch_read patch_write
  patch_message i ts patch rows =
      let clean = sanitize_meta patch in patch_write i ts clean (patch_read i clean rows) rows

  pub update_conversation :
      String → Option String → Option ℕ → List (Conversation V) → List (Conversation V)
  unfolding change
  update_conversation i title model_id rows =
      change i
        (λ c. record c {
          title = get_or title c.title;
          model_id = elim model_id [ none ↦ c.model_id | some k ↦ some k ];
        })
        rows

  pub is_untitled : (String → String) → Option (Conversation V) → Bool
  unfolding is_default
  is_untitled strip none = false
  is_untitled strip (some c) = is_default (strip c.title)

  pub has_user : List (Message V) → Bool
  has_user [] = false
  has_user (m ∷ messages) = if m.role == "user" then true else has_user messages

  abbrev pub asks : Option (Conversation V) → Bool
  asks none = false
  asks (some c) = has_user c.messages

  -- The part behind the model's answer, on the rows as they are then.
  pub finish_title :
      (String → String) → String → String → List (Conversation V) → List (Conversation V)
  unfolding is_untitled update_conversation
  finish_title strip i title rows =
      if title == ""
      then rows
      else if is_untitled strip (find i rows)
      then update_conversation i (some title) none rows
      else rows

  -- With the rows at the start and behind the answer, and the cleaned title, or none where the model fails.
  pub maybe_generate_title :
      (String → String)
      → String
      → Option String
      → List (Conversation V)
      → List (Conversation V)
      → List (Conversation V)
  unfolding finish_title has_user
  maybe_generate_title strip i answer before rows =
      if is_untitled strip (find i before)
      then if asks (find i before)
        then elim answer [ none ↦ rows | some title ↦ finish_title strip i title rows ]
        else rows
      else rows
