-- ===== src/Credentials/Examples.antt =====
-- Tokens on concrete stores.
use security_agent.Prelude.{◌≤◌, ◌≡◌, refl, List, [], ◌∷◌, some, String, join}
use security_agent.Credentials.{
  EnrollToken, Store, select, create_enroll_token, admit, validate_enroll_token,
}
use security_agent.Credentials.Uses.{Call, peeks, validates, admissions, admissions-le-created}

abbrev nothing : Store
nothing = record { enroll_tokens = []; agent_tokens = []; revocations = [] }

abbrev once : EnrollToken
once = record { token = "t-1"; group_name = some "web"; expires_at = 86400; uses_remaining = 1 }

abbrev one_use : Store
one_use = record nothing { enroll_tokens = once ∷ [] }

abbrev calls : List Call
calls = peeks "t-1" 5 ∷ validates "t-1" 10 ∷ validates "t-1" 11 ∷ []

first_is_admitted : (validate_enroll_token "t-1" 10 one_use).0 ≡ some "web"
unfolding validate_enroll_token admit select
first_is_admitted = refl

admissions-le-created_example : admissions "t-1" calls one_use ≤ 1
unfolding create_enroll_token select
admissions-le-created_example =
    admissions-le-created "t-1" (some "web") 24 1 0 nothing one_use calls refl

-- A stand-in for the hash.
abbrev salted : String → String
salted t = join "h:" t
