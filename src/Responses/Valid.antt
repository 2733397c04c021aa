-- ===== src/Responses/Valid.antt =====
-- What the models of agents/response_actions.py let through, said without their tests.
use security_agent.Prelude.{
  ℕ, ◌≤◌, ◌≡◌, refl, sym, Bool, true, List, [], ◌∷◌, Option, none, some, String, ◌==◌, ◌⊎◌, inl,
  inr, codes, eqb, length, eq_iff, arith, Bool-cases, Option-cases,
}
use security_agent.Responses.{
  ℤ, pos, negsuc, Python, Params, kill_process, quarantine_file, is_signal, pid_in_range, has_drive,
  abs_path, path_fits, reason_fits, lookup, field, both, validate_kill, validate_quarantine,
  model_validate, model_dump,
}

-- The text starts with a slash, or its second character is a colon.
abbrev pub IsAbsolute : List ℕ → Type 0
IsAbsolute v =
    ((rest : List ℕ) × (v ≡ b'/' ∷ rest)) ⊎ ((c : ℕ) × (rest : List ℕ) × (v ≡ c ∷ b':' ∷ rest))

abbrev pub IsPid : ℤ → Type 0
IsPid (pos n) = (1 ≤ n) × (n ≤ 4194304)
IsPid (negsuc n) = ⊥

abbrev pub IsSignal : String → Type 0
IsSignal s = (s ≡ "SIGKILL") ⊎ ((s ≡ "SIGTERM") ⊎ (s ≡ "SIGABRT"))

abbrev pub Allowed : Params → Type 0
Allowed (kill_process pid signal) = IsPid pid × IsSignal signal
Allowed (quarantine_file path reason) =
    ((1 ≤ length (codes path)) × (length (codes path) ≤ 4096) × IsAbsolute (codes path))
    × (length (codes reason) ≤ 512)

abbrev pub action_of : Params → String
action_of (kill_process pid signal) = "kill_process"
action_of (quarantine_file path reason) = "quarantine_file"

pid_in_range_sound : (n : ℤ) → pid_in_range n ≡ true → IsPid n
unfolding pid_in_range
pid_in_range_sound (pos n) h = ground arith
pid_in_range_sound (negsuc n) h = cc

pid_in_range_complete : (n : ℤ) → IsPid n → pid_in_range n ≡ true
unfolding pid_in_range
pid_in_range_complete (pos n) h = ground arith
pid_in_range_complete (negsuc n) h = elim h [ ]

is_signal_sound : (s : String) → is_signal s ≡ true → IsSignal s
unfolding is_signal
is_signal_sound s h = ground (arith, eq_iff "SIGKILL" s, eq_iff "SIGTERM" s, eq_iff "SIGABRT" s)

is_signal_complete : (s : String) → IsSignal s → is_signal s ≡ true
unfolding is_signal
is_signal_complete s (inl e) = rw e refl
is_signal_complete s (inr (inl e)) = rw e refl
is_signal_complete s (inr (inr e)) = rw e refl

abs_path_sound : (v : List ℕ) → abs_path v ≡ true → IsAbsolute v
unfolding abs_path has_drive
abs_path_sound [] h = cc
abs_path_sound (c ∷ []) h = inl ([], ground arith)
abs_path_sound (c ∷ d ∷ v) h = elim (Bool-cases (eqb b'/' c)) [
  | inl slash ↦ inl (d ∷ v, ground arith)
  | inr other ↦ inr (c, v, ground arith)
]

abs_path_complete : (v : List ℕ) → IsAbsolute v → abs_path v ≡ true
unfolding abs_path has_drive
abs_path_complete v (inl (rest, e)) = rw e refl
abs_path_complete v (inr (c, [], e)) = rw e (ground arith)
abs_path_complete v (inr (c, (d ∷ rest), e)) = rw e (ground arith)

-- What passes a field's test, given that the default does.
field_sound :
    {V A : Type 0} (P : A → Type 0) (read : V → Option A) (test : A → Bool) (default : Option A)
    (given : Option V) (a : A)
    → ((x : A) → test x ≡ true → P x)
    → ((x : A) → default ≡ some x → P x)
    → field read test default given ≡ some a
    → P a
unfolding field
field_sound P read test default none a sound base h = base a h
field_sound P read test default (some v) a sound base h = elim (Option-cases (read v)) [
  | inl e ↦ absurd (cc (rw e at h))
  | inr (x, e) ↦ elim (Bool-cases (test x)) [
    | inl t ↦
        let kept : some x ≡ some a = rw (e, t) at h in
        let same : x ≡ a = cc in rw (sym same) (sound x t)
    | inr t ↦ absurd (cc (rw (e, t) at h))
  ]
]

both-eq-some :
    {A B C : Type 0} (f : A → B → C) (x : Option A) (y : Option B) (c : C)
    → both f x y ≡ some c
    → (a : A) × (b : B) × (x ≡ some a) × (y ≡ some b) × (f a b ≡ c)
both-eq-some f none y c h = absurd (cc)
both-eq-some f (some a) none c h = absurd (cc)
both-eq-some f (some a) (some b) c h = (a, b, refl, refl, cc)

path_fits_sound :
    (v : String)
    → path_fits v ≡ true
    → (1 ≤ length (codes v)) × (length (codes v) ≤ 4096) × IsAbsolute (codes v)
unfolding path_fits
path_fits_sound v h = (ground arith, ground arith, abs_path_sound (codes v) (ground arith))

reason_fits_sound : (v : String) → reason_fits v ≡ true → length (codes v) ≤ 512
unfolding reason_fits
reason_fits_sound v h = ground arith

module _ {V : Type 0} (py : Python V) where
  validate_kill_sound :
      (d : List (String × V)) (p : Params) → validate_kill py d ≡ some p → Allowed p
  unfolding validate_kill
  validate_kill_sound d p h =
      let (n, s, read_pid, read_signal, made) = both-eq-some kill_process _ _ p h in
      rw (sym made) (
        field_sound IsPid py.int_of pid_in_range none (lookup "pid" d) n pid_in_range_sound
            (λ x e. absurd (cc)) read_pid,
        field_sound IsSignal py.literal_of is_signal (some "SIGKILL") (lookup "signal" d) s
            is_signal_sound (λ x e. inl (cc)) read_signal,
      )

  validate_quarantine_sound :
      (d : List (String × V)) (p : Params) → validate_quarantine py d ≡ some p → Allowed p
  unfolding validate_quarantine
  validate_quarantine_sound d p h =
      let (path, reason, read_path, read_reason, made) = both-eq-some quarantine_file _ _ p h in
      rw (sym made) (
        field_sound (λ v. (1 ≤ length (codes v)) × (length (codes v) ≤ 4096) × IsAbsolute (codes v))
            py.str_of path_fits none (lookup "path" d) path path_fits_sound (λ x e. absurd (cc))
            read_path,
        field_sound (λ v. length (codes v) ≤ 512) py.str_of reason_fits (some "")
            (lookup "reason" d) reason reason_fits_sound
            (λ x e. let empty : "" ≡ x = cc in rw (sym empty) (omega arith)) read_reason,
      )

  pub model_validate-Allowed :
      (action : String) (d : List (String × V)) (p : Params)
      → model_validate py action d ≡ some p
      → Allowed p
  unfolding model_validate
  model_validate-Allowed action d p h = elim (Bool-cases (action == "kill_process")) [
    | inl k ↦ validate_kill_sound d p (rw k at h)
    | inr k ↦ elim (Bool-cases (action == "quarantine_file")) [
      | inl q ↦ validate_quarantine_sound d p (rw (k, q) at h)
      | inr q ↦ absurd (cc (rw (k, q) at h))
    ]
  ]

-- How pydantic reads the plain values of a dump.
pub record IsFaithful {V : Type 0} (py : Python V) : Type 0 where
  pub int_of-of_int : (n : ℤ) → py.int_of (py.of_int n) ≡ some n
  pub str_of-of_str : (s : String) → py.str_of (py.of_str s) ≡ some s
  pub literal_of-of_str : (s : String) → py.literal_of (py.of_str s) ≡ some s

path_fits_complete :
    (v : String)
    → (1 ≤ length (codes v)) × (length (codes v) ≤ 4096) × IsAbsolute (codes v)
    → path_fits v ≡ true
unfolding path_fits
path_fits_complete v (low, high, absolute) =
    rw (abs_path_complete (codes v) absolute) (ground arith)

-- Where pydantic reads back the values of a dump, the dump of parameters that are allowed validates, under its own
-- action, to these parameters.
pub model_validate-model_dump :
    {V : Type 0} (py : Python V)
    → IsFaithful py
    → (p : Params) → Allowed p
    → model_validate py (action_of p) (model_dump py p) ≡ some p
unfolding model_validate validate_kill validate_quarantine lookup field model_dump
model_validate-model_dump py faithful (kill_process pid signal) (in_range, known) =
    rw (faithful.int_of-of_int pid, faithful.literal_of-of_str signal)
      (rw (pid_in_range_complete pid in_range, is_signal_complete signal known) refl)
model_validate-model_dump py faithful (quarantine_file path reason) (fits, short) =
    let r : reason_fits reason ≡ true = unfold reason_fits in ground arith in
    rw (faithful.str_of-of_str path, faithful.str_of-of_str reason)
      (rw (path_fits_complete path fits, r) refl)
