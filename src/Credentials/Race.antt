-- ===== src/Credentials/Race.antt =====
-- Two validations of one token whose statements interleave.
use security_agent.Prelude.{
  ℕ, ◌≤◌, ◌≡◌, refl, false, List, [], ◌∷◌, Option, none, some, String, arith, ◌==◌, ltb, leb,
  get_or, Bool-cases, Option-cases, inl, inr,
}
use security_agent.Credentials.{
  EnrollToken, Store, select, delete, decrement, returning, admit, group_of, consume,
  validate_enroll_token,
}

-- One validation in its two parts: the checks, and what it returns and does behind them.
abbrev pub resume :
    String → Option EnrollToken → List EnrollToken → Option String × List EnrollToken
resume t none rows = (none, rows)
resume t (some r) rows = (group_of (some r), consume t rows)

resume-validate :
    (t : String) (now : ℕ) (s : Store)
    → let found = admit t now s.enroll_tokens in
      ((validate_enroll_token t now s).0 ≡ (resume t found.0 found.1).0)
      × ((validate_enroll_token t now s).1.enroll_tokens ≡ (resume t found.0 found.1).1)
unfolding validate_enroll_token
resume-validate t now s = elim (Option-cases (admit t now s.enroll_tokens).0) [
  | inl e ↦ rw (e, validate_enroll_token) (refl, refl)
  | inr (r, e) ↦ rw (e, validate_enroll_token) (refl, refl)
]

select-delete : (t : String) (rows : List EnrollToken) → select t (delete t rows) ≡ none
unfolding select delete
select-delete t [] = refl
select-delete t (r ∷ rows) = elim (Bool-cases (r.token == t)) [
  | inl e ↦ rw e (select-delete t rows)
  | inr e ↦ rw (e, e) (select-delete t rows)
]

returning-select :
    (t : String) (rows : List EnrollToken) (r : EnrollToken)
    → select t rows ≡ some r
    → r.uses_remaining ≡ 1
    → returning t rows ≡ some 0
unfolding select returning
returning-select t [] r e one = absurd (cc)
returning-select t (q ∷ rows) r e one = ground (arith, returning-select t rows r)

admit-good :
    (t : String) (now : ℕ) (rows : List EnrollToken) (r : EnrollToken)
    → select t rows ≡ some r
    → r.uses_remaining ≡ 1
    → now ≤ r.expires_at
    → admit t now rows ≡ (some r, rows)
unfolding admit
admit-good t now rows r e one in_time =
    let alive : ltb r.expires_at now ≡ false = ground arith in
    let left : leb r.uses_remaining 0 ≡ false = ground arith in rw (e, admit, alive, left)

consume-last :
    (t : String) (rows : List EnrollToken) (r : EnrollToken)
    → select t rows ≡ some r
    → r.uses_remaining ≡ 1
    → select t (consume t rows) ≡ none
unfolding consume
consume-last t rows r e one =
    rw (returning-select t rows r e one, consume) (select-delete t (decrement t rows))

-- Two hosts enrol with one use. Where a token is good and has one use left, and both validations make their
-- checks before either updates, both are admitted, and the token is gone only behind the first.
pub resume_twice :
    (t : String) (now : ℕ) (rows : List EnrollToken) (r : EnrollToken)
    → select t rows ≡ some r
    → r.uses_remaining ≡ 1
    → now ≤ r.expires_at
    → let first = admit t now rows in
      let second = admit t now first.1 in
      let behind = resume t first.0 second.1 in
      (behind.0 ≡ some (get_or r.group_name ""))
      × ((resume t second.0 behind.1).0 ≡ some (get_or r.group_name ""))
      × (select t behind.1 ≡ none)
resume_twice t now rows r e one in_time =
    let good = admit-good t now rows r e one in_time in
    rw (good, good) (refl, refl, consume-last t rows r e one)
