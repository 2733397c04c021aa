-- ===== src/Responses.antt =====
-- agents/response_actions.py: the actions that an operator sends to one agent, the models that check their
-- parameters, and the message they become. How pydantic reads a value is a parameter; the texts of the errors and
-- the log are left out.
pub mod Dispatch
pub mod Valid
mod Examples
use security_agent.Prelude.{
  ℕ, Bool, true, false, ◌&&◌, ◌||◌, List, [], ◌∷◌, Option, none, some, String, ◌==◌, codes, eqb,
  leb, length, mem, starts_with, if◌then◌else◌,
}
use security_agent.Signing.{Message}

-- `negsuc n` is -(n + 1).
pub data ℤ : Type 0 where
  pos : ℕ → ℤ
  negsuc : ℕ → ℤ

-- What the source asks of a JSON value: the int and the text that a model's field reads from it, the text that it is,
-- whether it is true, its items if it is a dict, whether it is a str, and the values of an int and of a text.
pub record Python (V : Type 0) : Type 0 where
  pub int_of : V → Option ℤ
  pub str_of : V → Option String
  pub literal_of : V → Option String
  pub truthy : V → Bool
  pub as_dict : V → Option (List (String × V))
  pub is_str : V → Bool
  pub of_int : ℤ → V
  pub of_str : String → V

-- The models, as `model_dump` gives them.
pub data Params : Type 0 where
  kill_process : ℤ → String → Params
  quarantine_file : String → String → Params

pub record ResponseActionRequest : Type 0 where
  pub action_id : String
  pub action : String
  pub params : Params
  pub actor : String
  pub issued_at : String

abbrev pub supported_actions : List String
supported_actions = "kill_process" ∷ "quarantine_file" ∷ []

abbrev pub action_msg_type : String
action_msg_type = "response_action"

abbrev pub signals : List String
signals = "SIGKILL" ∷ "SIGTERM" ∷ "SIGABRT" ∷ []

pub supported : String → Bool
supported action = mem action supported_actions

pub is_signal : String → Bool
is_signal s = mem s signals

pub pid_in_range : ℤ → Bool
pid_in_range (pos n) = leb 1 n && leb n 4194304
pid_in_range (negsuc n) = false

-- len(v) >= 2 and v[1] == ":"
pub has_drive : List ℕ → Bool
has_drive [] = false
has_drive (c ∷ []) = false
has_drive (c ∷ d ∷ v) = eqb d b':'

pub abs_path : List ℕ → Bool
unfolding has_drive
abs_path v = starts_with v (codes "/") || has_drive v

pub path_fits : String → Bool
unfolding abs_path
path_fits v = leb 1 (length (codes v)) && (leb (length (codes v)) 4096 && abs_path (codes v))

pub reason_fits : String → Bool
reason_fits v = leb (length (codes v)) 512

abbrev pub keep : {A : Type 0} → (A → Bool) → Option A → Option A
keep test none = none
keep test (some a) = if test a then some a else none

abbrev pub both : {A B C : Type 0} → (A → B → C) → Option A → Option B → Option C
both f none y = none
both f (some a) none = none
both f (some a) (some b) = some (f a b)

module _ {V : Type 0} where
  pub lookup : String → List (String × V) → Option V
  lookup k [] = none
  lookup k ((j, v) ∷ d) = if j == k then some v else lookup k d

  -- A field: its value read and tested, its default where the key is missing, if it has one.
  pub field : {A : Type 0} → (V → Option A) → (A → Bool) → Option A → Option V → Option A
  field read test default none = default
  field read test default (some v) = keep test (read v)

module _ {V : Type 0} (py : Python V) where
  pub validate_kill : List (String × V) → Option Params
  unfolding lookup field pid_in_range is_signal
  validate_kill d =
      both kill_process (field py.int_of pid_in_range none (lookup "pid" d))
        (field py.literal_of is_signal (some "SIGKILL") (lookup "signal" d))

  pub validate_quarantine : List (String × V) → Option Params
  unfolding lookup field path_fits reason_fits
  validate_quarantine d =
      both quarantine_file (field py.str_of path_fits none (lookup "path" d))
        (field py.str_of reason_fits (some "") (lookup "reason" d))

  -- `_PAYLOAD_MODELS[action].model_validate(params)`, with no model for another action.
  pub model_validate : String → List (String × V) → Option Params
  unfolding validate_kill validate_quarantine
  model_validate action d =
      if action == "kill_process"
      then validate_kill d
      else if action == "quarantine_file"
      then validate_quarantine d
      else none

  -- The envelope's `action` and `params`; none where their validation raises.
  pub validate_params : String → List (String × V) → Option Params
  validate_params action params = if supported action then model_validate action params else none

  -- None where the envelope's validation raises.
  pub build_action_message :
      String
      → List (String × V)
      → String
      → String
      → String
      → String
      → Option (Message ResponseActionRequest)
  build_action_message action params actor action_id issued_at ts =
      elim (validate_params action params) [
        | none ↦ none
        | some p ↦ some (record {
          type = some action_msg_type;
          ts = some ts;
          payload = some (record {
            action_id = action_id;
            action = action;
            params = p;
            actor = actor;
            issued_at = issued_at;
          });
          sig = none;
        })
      ]

  -- The first part of the result.
  pub parse_agent_id_from_action : String → List (String × V) → Bool
  parse_agent_id_from_action action params =
      supported action && elim (model_validate action params) [ none ↦ false | some p ↦ true ]

  pub model_dump : Params → List (String × V)
  model_dump (kill_process pid signal) = ("pid", py.of_int pid) ∷ ("signal", py.of_str signal) ∷ []
  model_dump (quarantine_file path reason) =
      ("path", py.of_str path) ∷ ("reason", py.of_str reason) ∷ []
