-- ===== src/Signing/RoundTrip.antt =====
-- `sign_message` and `verify_message` of agents/signing.py, one behind the other.
use security_agent.Prelude.{
  ◌≡◌, refl, true, false, none, some, String, get_or, ◌==◌, Bool-cases, Option-cases, inl, inr,
}
use security_agent.Signing.{
  Message, Scheme, sensitive, get_private_key, get_public_key_hex, canonical, sign_message,
  verify_message,
}

-- What Ed25519 promises: a key's signature of a text verifies with the public key, and is not empty.
abbrev pub Verifies : {K P : Type 0} → Scheme K P → Type 0
Verifies crypto =
    ((k : _) (t : String) → crypto.verify (crypto.public_key k) (crypto.sign k t) t ≡ true)
    × ((k : _) (t : String) → (crypto.sign k t == "") ≡ false)

-- Under a configured key every message verifies behind its signing, with the public key of the same setting:
-- sensitive or not, with a time of its own or that of the signing, with a payload or without one.
pub verify-sign :
    {K P : Type 0} (crypto : Scheme K P) (key_hex now : String) (k : K) (msg : Message P)
    → Verifies crypto
    → get_private_key crypto key_hex ≡ some k
    → verify_message crypto
        (get_public_key_hex crypto key_hex)
        (sign_message crypto key_hex now msg)
      ≡ true
unfolding verify_message sign_message get_public_key_hex
verify-sign crypto key_hex now k msg (verifies, filled) e =
    elim (Bool-cases (sensitive (get_or msg.type ""))) [
      | inr s ↦ rw (s, s) refl
      | inl s ↦
          let ts = get_or msg.ts now in
          let signed = canonical crypto (get_or msg.type "") ts msg.payload in
          let own : get_public_key_hex crypto key_hex ≡ crypto.public_key k =
            rw (e, get_public_key_hex) refl in
          rw (own, e, s, filled k signed, s) (verifies k signed)
    ]

-- A signing leaves the payload alone.
pub payload-sign_message :
    {K P : Type 0} (crypto : Scheme K P) (key_hex now : String) (msg : Message P)
    → (sign_message crypto key_hex now msg).payload ≡ msg.payload
unfolding sign_message
payload-sign_message crypto key_hex now msg = elim (Bool-cases (sensitive (get_or msg.type ""))) [
  | inr s ↦ rw s refl
  | inl s ↦ elim (Option-cases (get_private_key crypto key_hex)) [
    | inl e ↦ rw (s, e) refl
    | inr (k, e) ↦ rw (s, e) refl
  ]
]

-- Without a usable key a sensitive message that carries no signature goes out as it is, and no public key
-- verifies it.
pub verify-unsigned :
    {K P : Type 0} (crypto : Scheme K P) (key_hex now public_key_hex : String) (msg : Message P)
    → get_private_key crypto key_hex ≡ none
    → sensitive (get_or msg.type "") ≡ true
    → msg.sig ≡ none
    → (sign_message crypto key_hex now msg ≡ msg)
      × (verify_message crypto public_key_hex (sign_message crypto key_hex now msg) ≡ false)
unfolding verify_message sign_message
verify-unsigned crypto key_hex now public_key_hex msg e s unsigned =
    (rw (s, e) refl, rw (s, e, s, unsigned) refl)
