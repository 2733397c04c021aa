-- ===== src/Credentials/Uses.antt =====
-- How often an enrolment token is admitted, over any sequence of peeks and validations.
use security_agent.Prelude.{
  ℕ, ◌+◌, ◌*◌, ◌≤◌, ◌<◌, ◌≡◌, refl, sym, subst, ◌∙◌, true, List, [], ◌∷◌, ◌++◌, Option, none, some,
  String, arith, ◌==◌, eq_iff, if◌then◌else◌, Bool-cases, Option-cases, inl, inr,
}
use security_agent.Credentials.{
  EnrollToken, Store, select, delete, decrement, create_enroll_token, admit, peek_enroll_token,
  consume, validate_enroll_token, seconds_per_hour,
}

-- The uses that a token has left.
pub uses : String → List EnrollToken → ℕ
uses t [] = 0
uses t (r ∷ rows) = if r.token == t then r.uses_remaining else uses t rows

same-to-≡ : (a b : String) → (a == b) ≡ true → a ≡ b
same-to-≡ a b = (eq_iff a b).0

uses-deleted : (t : String) (rows : List EnrollToken) → uses t (delete t rows) ≡ 0
unfolding uses delete
uses-deleted t [] = refl
uses-deleted t (r ∷ rows) = elim (Bool-cases (r.token == t)) [
  | inl e ↦ rw e (uses-deleted t rows)
  | inr e ↦ rw (e, e) (uses-deleted t rows)
]

uses-delete : (t u : String) (rows : List EnrollToken) → uses t (delete u rows) ≤ uses t rows
unfolding uses delete
uses-delete t u [] = ground arith
uses-delete t u (r ∷ rows) = elim (Bool-cases (r.token == u)) [
  | inl e ↦ elim (Bool-cases (r.token == t)) [
    | inl d ↦
        let same : t ≡ u = sym (same-to-≡ r.token t d) ∙ same-to-≡ r.token u e in
        let gone : uses t (delete u rows) ≡ 0 =
          subst (λ v. uses t (delete v rows) ≡ 0) same (uses-deleted t rows) in
        rw (e, gone) (ground arith)
    | inr d ↦ rw (e, d) (uses-delete t u rows)
  ]
  | inr e ↦ rw e (ground (arith, uses-delete t u rows))
]

uses-decrement : (t u : String) (rows : List EnrollToken) → uses t (decrement u rows) ≤ uses t rows
unfolding uses decrement
uses-decrement t u [] = ground arith
uses-decrement t u (r ∷ rows) = ground (arith, uses-decrement t u rows)

-- A row that is found has the uses of its token.
uses-select :
    (t : String) (rows : List EnrollToken) (r : EnrollToken)
    → select t rows ≡ some r
    → uses t rows ≡ r.uses_remaining
unfolding uses select
uses-select t [] r h = cc
uses-select t (q ∷ rows) r h = ground (arith, uses-select t rows r)

uses-used :
    (t : String) (rows : List EnrollToken)
    → 0 < uses t rows
    → uses t (decrement t rows) + 1 ≡ uses t rows
unfolding uses decrement
uses-used t [] h = ground arith
uses-used t (r ∷ rows) h = ground (arith, uses-used t rows)

uses-consume-le : (t u : String) (rows : List EnrollToken) → uses t (consume u rows) ≤ uses t rows
unfolding consume
uses-consume-le t u rows =
    ground (arith, uses-decrement t u rows, uses-delete t u (decrement u rows))

uses-consume :
    (t : String) (rows : List EnrollToken) → 0 < uses t rows → uses t (consume t rows) < uses t rows
unfolding consume
uses-consume t rows h = ground (arith, uses-used t rows h, uses-delete t t (decrement t rows))

-- The checks take no uses, and what they find has some left.
uses-admit :
    (t u : String) (now : ℕ) (rows : List EnrollToken) → uses t (admit u now rows).1 ≤ uses t rows
unfolding admit
uses-admit t u now rows = ground (arith, uses-delete t u rows)

admit-found :
    (t : String) (now : ℕ) (rows : List EnrollToken) (r : EnrollToken)
    → (admit t now rows).0 ≡ some r
    → (0 < uses t rows) × (now ≤ r.expires_at) × ((admit t now rows).1 ≡ rows)
unfolding admit
admit-found t now rows r h = elim (Option-cases (select t rows)) [
  | inl e ↦ absurd (cc (rw (e, admit) at h))
  | inr (q, e) ↦ ground (arith, uses-select t rows q e)
]

validate-uses :
    (t u : String) (now : ℕ) (s : Store)
    → uses t (validate_enroll_token u now s).1.enroll_tokens ≤ uses t s.enroll_tokens
unfolding validate_enroll_token
validate-uses t u now s = elim (Option-cases (admit u now s.enroll_tokens).0) [
  | inl e ↦ rw (e, validate_enroll_token) (uses-admit t u now s.enroll_tokens)
  | inr (r, e) ↦
      let first = uses-admit t u now s.enroll_tokens in
      let next = uses-consume-le t u (admit u now s.enroll_tokens).1 in
      rw (e, validate_enroll_token) (ground arith)
]

validate-takes :
    (t : String) (now : ℕ) (s : Store) (g : String)
    → (validate_enroll_token t now s).0 ≡ some g
    → uses t (validate_enroll_token t now s).1.enroll_tokens < uses t s.enroll_tokens
unfolding validate_enroll_token
validate-takes t now s g h = elim (Option-cases (admit t now s.enroll_tokens).0) [
  | inl e ↦ absurd (cc (rw (e, validate_enroll_token) at h))
  | inr (r, e) ↦
      let (some_left, in_time, same) = admit-found t now s.enroll_tokens r e in
      rw (e, validate_enroll_token, same) (uses-consume t s.enroll_tokens some_left)
]

-- A call of the API with a token: the install endpoints peek, and the enrolment validates.
pub data Call : Type 0 where
  peeks validates : String → ℕ → Call

abbrev is_some : Option String → ℕ
is_some none = 0
is_some (some g) = 1

abbrev counted : String → String → Option String → ℕ
counted t u result = if u == t then is_some result else 0

-- How often the calls enrol a host with the token.
pub admissions : String → List Call → Store → ℕ
admissions t [] s = 0
admissions t (peeks u now ∷ calls) s = admissions t calls (peek_enroll_token u now s).1
admissions t (validates u now ∷ calls) s =
    counted t u (validate_enroll_token u now s).0
    + admissions t calls (validate_enroll_token u now s).1

validate-counted :
    (t u : String) (now : ℕ) (s : Store)
    → counted t u (validate_enroll_token u now s).0
        + uses t (validate_enroll_token u now s).1.enroll_tokens
      ≤ uses t s.enroll_tokens
validate-counted t u now s = elim (Bool-cases (u == t)) [
  | inr e ↦ let kept = validate-uses t u now s in rw e (ground arith)
  | inl e ↦ elim (Option-cases (validate_enroll_token u now s).0) [
    | inl d ↦ let kept = validate-uses t u now s in rw (e, d) (ground arith)
    | inr (g, d) ↦
        let same = same-to-≡ u t e in
        let less = validate-takes u now s g d in
        rw (e, d)
          (subst
            (λ v.
              1 + uses v (validate_enroll_token u now s).1.enroll_tokens ≤ uses v s.enroll_tokens)
            same (ground arith))
  ]
]

admissions-le :
    (t : String) (calls : List Call) (s : Store) → admissions t calls s ≤ uses t s.enroll_tokens
unfolding admissions peek_enroll_token
admissions-le t [] s = ground arith
admissions-le t (peeks u now ∷ calls) s =
    let rest = admissions-le t calls (peek_enroll_token u now s).1 in
    let kept = uses-admit t u now s.enroll_tokens in ground arith
admissions-le t (validates u now ∷ calls) s =
    let rest = admissions-le t calls (validate_enroll_token u now s).1 in
    let taken = validate-counted t u now s in ground arith

uses-append :
    (t : String) (rows : List EnrollToken) (r : EnrollToken)
    → select t rows ≡ none
    → r.token ≡ t
    → uses t (rows ++ r ∷ []) ≡ r.uses_remaining
unfolding uses select
uses-append t [] r n e = let own : (r.token == t) ≡ true = (eq_iff r.token t).1 e in rw own
uses-append t (q ∷ rows) r n e = elim (Bool-cases (q.token == t)) [
  | inl d ↦ absurd (cc (rw d at n))
  | inr d ↦ rw d (uses-append t rows r (rw d at n) e)
]

-- A token that was created for a number of uses enrols at most that many hosts, over any sequence of
-- peeks and validations of any tokens, one after the other.
pub admissions-le-created :
    (t : String) (group : Option String) (ttl_hours n now : ℕ) (s s' : Store) (calls : List Call)
    → create_enroll_token t group ttl_hours n now s ≡ some s'
    → admissions t calls s' ≤ n
unfolding create_enroll_token
admissions-le-created t group ttl_hours n now s s' calls h =
    elim (Option-cases (select t s.enroll_tokens)) [
      | inr (r, e) ↦ absurd (cc (rw (e, create_enroll_token) at h))
      | inl e ↦
          let row : EnrollToken = record {
            token = t;
            group_name = group;
            expires_at = now + ttl_hours * seconds_per_hour;
            uses_remaining = n;
          } in
          let made : some (record s { enroll_tokens = s.enroll_tokens ++ row ∷ [] }) ≡ some s' =
            rw (e, create_enroll_token) at h in
          let same : record s { enroll_tokens = s.enroll_tokens ++ row ∷ [] } ≡ s' = cc in
          let bound = admissions-le t calls s' in
          let fresh : uses t s'.enroll_tokens ≡ n =
            rw (sym same) (uses-append t s.enroll_tokens row e refl) in
          ground arith
    ]
