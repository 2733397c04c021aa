-- ===== src/Accounts/Stale.antt =====
-- Tokens of an older version than their user's row, in routes.py and users.py.
use security_agent.Prelude.{
  ◌≤◌, ◌<◌, ◌≡◌, refl, sym, ap, ◌∙◌, inl, inr, Bool, true, false, ◌&&◌, ◌||◌, List, [], ◌∷◌, ◌++◌,
  none, some, String, arith, All, Bool-cases, Option-cases, get_or, eqb, ◌==◌, if◌then◌else◌,
}
use security_agent.Accounts.{
  User, Token, UserUpdate, find, get_user, get_current_user, update_row, bump_version,
  is_last_admin_change, count_active_admins, change_own_password, create_user, has_field,
  is_own_lockout, set_columns, is_taken, update_user, delete_user, restore_user, Op,
  change_password, create, update, delete, restore, step, run,
}

-- The token's user has a row of a newer version.
abbrev pub Stale : Token → List User → Type 0
Stale token users =
    (u : User) × (find token.sub users ≡ some u) × (get_or token.ver 0 < u.token_version)

-- The columns that stay, and the version does not fall.
abbrev Gentle : (User → User) → Type 0
Gentle f = (u : User) → ((f u).username ≡ u.username) × (u.token_version ≤ (f u).token_version)

find-update_row :
    (k n : String) (f : User → User) (users : List User) (u : User)
    → Gentle f
    → find k users ≡ some u
    → find k (update_row n f users) ≡ some (if u.username == n then f u else u)
unfolding find update_row
find-update_row k n f [] u gentle h = absurd (cc)
find-update_row k n f (x ∷ users) u gentle h = elim (Bool-cases (x.username == k)) [
  | inl e ↦
      let found : some x ≡ some u = rw e at h in
      let same : x ≡ u = cc in
      elim (Bool-cases (x.username == n)) [
        | inl d ↦
            let kept : (f x).username ≡ x.username = (gentle x).0 in rw (sym same, d, kept, e) refl
        | inr d ↦ rw (sym same, d, e) refl
      ]
  | inr e ↦
      let rest : find k (update_row n f users) ≡ some (if u.username == n then f u else u) =
        find-update_row k n f users u gentle (rw e at h) in
      elim (Bool-cases (x.username == n)) [
        | inl d ↦ let kept : (f x).username ≡ x.username = (gentle x).0 in rw (d, kept, e) rest
        | inr d ↦ rw (d, e) rest
      ]
]

update_row-Stale :
    (token : Token) (n : String) (f : User → User) (users : List User)
    → Gentle f
    → Stale token users
    → Stale token (update_row n f users)
update_row-Stale token n f users gentle (u, e, low) =
    (if u.username == n then f u else u, find-update_row token.sub n f users u gentle e, newer)
  where
    newer : get_or token.ver 0 < (if u.username == n then f u else u).token_version
    newer = elim (Bool-cases (u.username == n)) [
      | inl d ↦
          let rise : u.token_version ≤ (f u).token_version = (gentle u).1 in rw d (ground arith)
      | inr d ↦ rw d low
    ]

find-append :
    (k : String) (users more : List User) (u : User)
    → find k users ≡ some u
    → find k (users ++ more) ≡ some u
unfolding find
find-append k [] more u h = absurd (cc)
find-append k (x ∷ users) more u h = elim (Bool-cases (x.username == k)) [
  | inl e ↦ rw e (rw e at h)
  | inr e ↦ rw e (find-append k users more u (rw e at h))
]

-- No rename and no deletion of the row itself.
abbrev pub Kept : Op → Type 0
Kept (update actor k body) = body.username ≡ none
Kept (delete actor hard blocked k) = hard ≡ false
Kept _ = Unit

set_columns-Gentle :
    (target : User) (body : UserUpdate) → body.username ≡ none → Gentle (set_columns target body)
unfolding set_columns
set_columns-Gentle target body h u = (rw h refl, ground arith)

module _ (token : Token) (users : List User) (stale : Stale token users) where
  password-Stale : (k hash : String) → Stale token (get_or (change_own_password k hash users) users)
  unfolding change_own_password bump_version
  password-Stale k hash = elim (Option-cases (get_user k false users)) [
    | inl e ↦ rw (e, change_own_password) stale
    | inr (u, e) ↦
        rw (e, change_own_password)
          (update_row-Stale token k _ users (λ v. (refl, ground arith)) stale)
  ]

  create-Stale : (k hash role : String) → Stale token (get_or (create_user k hash role users) users)
  unfolding create_user
  create-Stale k hash role = elim (Option-cases (find k users)) [
    | inr (u, e) ↦ rw (e, create_user) stale
    | inl e ↦
        let (u, found, low) = stale in
        rw (e, create_user) (u, find-append token.sub users _ u found, low)
  ]

  update-Stale :
      (actor k : String) (body : UserUpdate)
      → body.username ≡ none
      → Stale token (get_or (update_user actor k body users) users)
  unfolding update_user
  update-Stale actor k body name = elim (Bool-cases (has_field body)) [
    | inr f ↦ rw (f, update_user) stale
    | inl f ↦ elim (Option-cases (get_user k false users)) [
      | inl e ↦ rw (f, e, update_user) stale
      | inr (t, e) ↦ elim (Bool-cases (t.username == actor && is_own_lockout t body)) [
        | inl o ↦ rw (f, e, o, update_user) stale
        | inr o ↦
            elim (Bool-cases (
              is_last_admin_change t body.disabled body.role
                (count_active_admins t.username users))) [
                  | inl l ↦ rw (f, e, o, l, update_user) stale
                  | inr l ↦ elim (Bool-cases (is_taken t body users)) [
                    | inl x ↦ rw (f, e, o, l, x, update_user) stale
                    | inr x ↦
                        rw (f, e, o, l, x, update_user)
                          (update_row-Stale token t.username (set_columns t body) users
                            (set_columns-Gentle t body name) stale)
                  ]
                ]
      ]
    ]
  ]

  delete-Stale :
      (actor k : String) (hard blocked : Bool)
      → hard ≡ false
      → Stale token (get_or (delete_user actor hard blocked k users) users)
  unfolding delete_user bump_version
  delete-Stale actor k hard blocked soft = elim (Option-cases (get_user k true users)) [
    | inl e ↦ rw (e, delete_user) stale
    | inr (t, e) ↦ elim (Bool-cases (t.username == actor)) [
      | inl o ↦ rw (e, o, delete_user) stale
      | inr o ↦
          elim (Bool-cases
            (is_last_admin_change t (some true) none (count_active_admins t.username users))) [
              | inl l ↦ rw (e, o, l, delete_user) stale
              | inr l ↦
                  rw (e, o, l, soft, delete_user)
                    (update_row-Stale token t.username _ users (λ v. (refl, ground arith)) stale)
            ]
    ]
  ]

  restore-Stale : (k : String) → Stale token (get_or (restore_user k users) users)
  unfolding restore_user bump_version
  restore-Stale k = elim (Option-cases (get_user k true users)) [
    | inl e ↦ rw (e, restore_user) stale
    | inr (t, e) ↦ elim (Bool-cases t.deleted) [
      | inr d ↦ rw (e, d, restore_user) stale
      | inl d ↦
          rw (e, d, restore_user)
            (update_row-Stale token t.username _ users (λ v. (refl, ground arith)) stale)
    ]
  ]

step-Stale :
    (token : Token) (op : Op) (users : List User)
    → Kept op
    → Stale token users
    → Stale token (step op users)
unfolding step
step-Stale token (change_password k hash) users kept h = password-Stale token users h k hash
step-Stale token (create k hash role) users kept h = create-Stale token users h k hash role
step-Stale token (update actor k body) users kept h = update-Stale token users h actor k body kept
step-Stale token (delete actor hard blocked k) users kept h =
    delete-Stale token users h actor k hard blocked kept
step-Stale token (restore k) users kept h = restore-Stale token users h k

pub get_user-all :
    (k : String) (users : List User) (u : User)
    → find k users ≡ some u
    → get_user k true users ≡ some u
unfolding get_user
get_user-all k users u e = elim (Bool-cases u.deleted) [
  | inl d ↦ rw (e, get_user, d) refl
  | inr d ↦ rw (e, get_user, d) refl
]

Stale-refused :
    (token : Token) (users : List User) → Stale token users → get_current_user token users ≡ none
unfolding get_current_user
Stale-refused token users (u, e, low) =
    let got : get_user token.sub true users ≡ some u = get_user-all token.sub users u e in
    elim (Bool-cases (u.disabled || u.deleted)) [
      | inl d ↦ rw (got, d, get_current_user) refl
      | inr d ↦
          let other : eqb (get_or token.ver 0) u.token_version ≡ false = ground arith in
          rw (got, d, other, get_current_user) refl
    ]

run-Stale :
    (token : Token) (ops : List Op) (users : List User)
    → All Kept ops
    → Stale token users
    → Stale token (run ops users)
unfolding run
run-Stale token [] users kept h = h
run-Stale token (op ∷ ops) users kept h =
    run-Stale token ops (step op users) kept.1 (step-Stale token op users kept.0 h)

find-named :
    (k : String) (users : List User) (u : User) → find k users ≡ some u → (u.username == k) ≡ true
unfolding find
find-named k [] u h = absurd (cc)
find-named k (x ∷ users) u h = elim (Bool-cases (x.username == k)) [
  | inl e ↦ let found : some x ≡ some u = rw e at h in let same : x ≡ u = cc in rw (sym same) e
  | inr e ↦ find-named k users u (rw e at h)
]

-- A token of a user that is not deleted, with a version up to the row's, is refused behind the user's change of password,
-- and behind whatever the handlers do then, but for a rename and a deletion of rows.
pub change_password-revokes :
    (token : Token) (hash : String) (users : List User) (u : User) (ops : List Op)
    → find token.sub users ≡ some u
    → u.deleted ≡ false
    → get_or token.ver 0 ≤ u.token_version
    → All Kept ops
    → get_current_user token (run ops (step (change_password token.sub hash) users)) ≡ none
unfolding step change_own_password get_user bump_version
change_password-revokes token hash users u ops e alive low kept =
    let f : User → User = λ v. bump_version (record v { hashed_password = hash }) in
    let named : (u.username == token.sub) ≡ true = find-named token.sub users u e in
    let found : find token.sub (update_row token.sub f users) ≡ some (f u) =
      find-update_row token.sub token.sub f users u (λ v. (refl, ground arith)) e
      ∙ ap some (rw named refl) in
    let got : get_user token.sub false users ≡ some u = rw (e, get_user, alive) refl in
    let stale : Stale token (update_row token.sub f users) = (f u, found, ground arith) in
    rw (got, change_own_password)
      (Stale-refused token (run ops (update_row token.sub f users))
        (run-Stale token ops (update_row token.sub f users) kept stale))
