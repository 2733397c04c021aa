-- ===== src/Signing.antt =====
-- agents/signing.py: the signatures of the messages to the agents. Ed25519 with its base64 and hex forms, `json.dumps` of
-- a payload and the clock are parameters; the log is left out.
pub mod RoundTrip
pub mod Examples
use security_agent.Prelude.{
  Bool, true, false, not, List, [], ◌∷◌, Option, none, some, String, mem, join, get_or, ◌==◌,
  if◌then◌else◌,
}

abbrev pub sensitive_types : List String
sensitive_types =
    "scan_command" ∷ "rule_update" ∷ "agent_upgrade" ∷ "nuclei_upgrade" ∷ "nuclei_templates_update"
    ∷ "scan_cancel" ∷ "config_update" ∷ "response_action" ∷ "agent_shutdown" ∷ []

pub sensitive : String → Bool
sensitive t = mem t sensitive_types

-- A message's keys, none where one is missing.
pub record Message (P : Type 0) : Type 0 where
  pub type : Option String
  pub ts : Option String
  pub payload : Option P
  pub sig : Option String

-- The private key of an agent_signing_key in hex, its signature of a text in base64, the public key in hex, and
-- whether a signature of a text verifies, which is false where reading the key or the signature raises.
pub record Scheme (K P : Type 0) : Type 0 where
  pub private_key : String → Option K
  pub sign : K → String → String
  pub public_key : K → String
  pub verify : String → String → String → Bool
  pub dumps : P → String
  pub no_payload : P

module _ {K P : Type 0} (crypto : Scheme K P) where
  unfoldable pub get_private_key : String → Option K
  get_private_key key_hex = if key_hex == "" then none else crypto.private_key key_hex

  pub sign_bytes : String → String → String
  unfolding get_private_key
  sign_bytes key_hex data_bytes = elim (get_private_key key_hex) [
    | none ↦ ""
    | some k ↦ crypto.sign k data_bytes
  ]

  pub get_public_key_hex : String → String
  unfolding get_private_key
  get_public_key_hex key_hex = elim (get_private_key key_hex) [
    | none ↦ ""
    | some k ↦ crypto.public_key k
  ]

  -- type|ts|payload
  pub canonical : String → String → Option P → String
  canonical msg_type ts payload =
      join msg_type
        (join "|" (join ts (join "|" (crypto.dumps (get_or payload crypto.no_payload)))))

  pub sign_message : String → String → Message P → Message P
  unfolding get_private_key canonical sensitive
  sign_message key_hex now msg =
      let msg_type = get_or msg.type "" in
      if not (sensitive msg_type) then msg else elim (get_private_key key_hex) [
        | none ↦ msg
        | some k ↦
            let ts = get_or msg.ts now in
            record msg {
              sig = some (crypto.sign k (canonical msg_type ts msg.payload));
              ts = some ts;
            }
      ]

  pub verify_message : String → Message P → Bool
  unfolding canonical sensitive
  verify_message public_key_hex msg =
      let msg_type = get_or msg.type "" in
      let sig = get_or msg.sig "" in
      if not (sensitive msg_type)
      then true
      else if sig == ""
      then false
      else crypto.verify public_key_hex sig (canonical msg_type (get_or msg.ts "") msg.payload)
