-- ===== src/Signing/Examples.antt =====
-- A scheme whose signature is the key in front of the text, and messages of both kinds.
use security_agent.Prelude.{
  ◌≡◌, refl, true, false, none, some, String, ◌==◌, join, same_text, eq_iff, Bool-cases, inl, inr,
  ap, arith, length, codes,
}
use security_agent.Signing.{
  Message, Scheme, get_private_key, get_public_key_hex, sign_message, verify_message,
}
use security_agent.Signing.RoundTrip.{Verifies, verify-sign}

abbrev pub scheme_of : {P : Type 0} → (P → String) → P → Scheme String P
scheme_of dumps no_payload = record {
  private_key = λ key_hex. some key_hex;
  sign = λ k t. String.◌∷◌ "s" (join k t);
  public_key = λ k. k;
  verify = λ public_key_hex signature t. signature == String.◌∷◌ "s" (join public_key_hex t);
  dumps = dumps;
  no_payload = no_payload;
}

not_empty : (t : String) → (String.◌∷◌ "s" t == "") ≡ false
not_empty t = elim (Bool-cases (String.◌∷◌ "s" t == "")) [
  | inr e ↦ e
  | inl e ↦
      let longer : length (codes (String.◌∷◌ "s" t)) ≡ length (codes "") =
        ap (λ u. length (codes u)) ((eq_iff (String.◌∷◌ "s" t) "").0 e) in
      absurd (ground arith)
]

pub scheme_of-Verifies : {P : Type 0} (dumps : P → String) (p : P) → Verifies (scheme_of dumps p)
scheme_of-Verifies dumps p = (λ k t. same_text _, λ k t. not_empty (join k t))

abbrev pub toy : Scheme String String
toy = scheme_of (λ payload. payload) "{}"

pub toy-Verifies : Verifies toy
toy-Verifies = scheme_of-Verifies (λ payload. payload) "{}"

abbrev pub cancel : Message String
cancel = record { type = some "scan_cancel"; ts = none; payload = some "{}"; sig = none }

verify-sign_example :
    verify_message toy (get_public_key_hex toy "00ff") (sign_message toy "00ff" "2026-08-01" cancel)
    ≡ true
unfolding get_private_key
verify-sign_example = verify-sign toy "00ff" "2026-08-01" "00ff" cancel toy-Verifies refl

other_key : verify_message toy "00ff" (sign_message toy "11ff" "2026-08-01" cancel) ≡ false
unfolding verify_message sign_message
other_key = refl
