-- ===== src/Accounts.antt =====
-- api/auth/jwt.py, api/auth/routes.py and api/routers/users.py: the table of users, the handlers that change it, and the
-- test of a token. A token is what its signature vouches for; hashes of passwords are parameters, and so are the
-- formats of names and passwords, which a refusal in front of a handler stands for. A refusal is `none`.
pub mod Stale
mod Examples
use security_agent.Prelude.{
  ℕ, suc, ◌+◌, Bool, true, false, not, ◌&&◌, ◌||◌, List, [], ◌∷◌, ◌++◌, Option, none, some, String,
  ltb, eqb, get_or, ◌==◌, if◌then◌else◌,
}

pub record User : Type 0 where
  pub username : String
  pub hashed_password : String
  pub role : String
  pub disabled : Bool
  pub deleted : Bool
  pub token_version : ℕ

-- The claims "sub" and "ver" of a token whose signature and time are good; without "ver" it is 0.
pub record Token : Type 0 where
  pub sub : String
  pub ver : Option ℕ

pub record UserUpdate : Type 0 where
  pub username : Option String
  pub role : Option String
  pub disabled : Option Bool

pub find : String → List User → Option User
find k [] = none
find k (u ∷ users) = if u.username == k then some u else find k users

pub get_user : String → Bool → List User → Option User
unfolding find
get_user k include_deleted users = elim (find k users) [
  | none ↦ none
  | some u ↦ if u.deleted && not include_deleted then none else some u
]

pub get_current_user : Token → List User → Option User
unfolding get_user
get_current_user token users = elim (get_user token.sub true users) [
  | none ↦ none
  | some u ↦
      if u.disabled || u.deleted
      then none
      else if eqb (get_or token.ver 0) u.token_version
      then some u
      else none
]

-- UPDATE users SET … WHERE username = k
pub update_row : String → (User → User) → List User → List User
update_row k f [] = []
update_row k f (u ∷ users) = (if u.username == k then f u else u) ∷ update_row k f users

pub delete_row : String → List User → List User
delete_row k [] = []
delete_row k (u ∷ users) =
    let rest = delete_row k users in if u.username == k then rest else u ∷ rest

pub bump_version : User → User
bump_version u = record u { token_version = 1 + u.token_version }

pub is_active_admin : User → Bool
is_active_admin u = u.role == "admin" && not u.disabled && not u.deleted

-- SELECT COUNT(*) of the active admins but one.
pub count_active_admins : String → List User → ℕ
unfolding is_active_admin
count_active_admins k [] = 0
count_active_admins k (u ∷ users) =
    let rest = count_active_admins k users in
    if is_active_admin u && not (u.username == k) then suc rest else rest

-- `_ensure_not_last_admin_change`: whether it raises.
pub is_last_admin_change : User → Option Bool → Option String → ℕ → Bool
is_last_admin_change target new_disabled new_role active_admins_after =
    let would_disable = get_or new_disabled false || target.disabled in
    let would_demote = not (get_or new_role "admin" == "admin") && target.role == "admin" in
    target.role == "admin" && (would_disable || would_demote) && ltb active_admins_after 1

pub change_own_password : String → String → List User → Option (List User)
unfolding get_user update_row bump_version
change_own_password k new_hash users = elim (get_user k false users) [
  | none ↦ none
  | some u ↦ some (update_row k (λ u. bump_version (record u { hashed_password = new_hash })) users)
]

pub create_user : String → String → String → List User → Option (List User)
unfolding find
create_user k hash role users = elim (find k users) [
  | some u ↦ none
  | none ↦ some (
      users
      ++ record {
        username = k;
        hashed_password = hash;
        role = role;
        disabled = false;
        deleted = false;
        token_version = 0;
      }
        ∷ [])
]

-- What an admin may not do to the own account.
pub is_own_lockout : User → UserUpdate → Bool
is_own_lockout target body =
    not (get_or body.username target.username == target.username)
    || not (get_or body.role target.role == target.role)
    || get_or body.disabled false

same_bool : Bool → Bool → Bool
same_bool true b = b
same_bool false b = not b

-- The columns that `update_user` sets.
pub set_columns : User → UserUpdate → User → User
unfolding same_bool
set_columns target body u = record u {
  role = get_or body.role u.role;
  disabled = get_or body.disabled u.disabled;
  username = get_or body.username u.username;
  token_version =
      if same_bool (get_or body.disabled target.disabled) target.disabled
      then u.token_version
      else 1 + u.token_version;
}

is_taken : User → UserUpdate → List User → Bool
unfolding find
is_taken target body users = elim body.username [
  | none ↦ false
  | some k ↦ not (k == target.username) && elim (find k users) [ none ↦ false | some u ↦ true ]
]

has_field : UserUpdate → Bool
has_field body =
    not (get_or body.username "" == "")
    || elim body.role [ none ↦ false | some r ↦ true ]
    || elim body.disabled [ none ↦ false | some d ↦ true ]

pub update_user : String → String → UserUpdate → List User → Option (List User)
unfolding has_field get_user is_own_lockout is_last_admin_change count_active_admins update_row
    set_columns is_taken
update_user actor k body users =
    if not (has_field body) then none else elim (get_user k false users) [
      | none ↦ none
      | some target ↦
          if target.username == actor && is_own_lockout target body
          then none
          else if is_last_admin_change target body.disabled body.role
              (count_active_admins target.username users)
          then none
          else if is_taken target body users
          then none
          else some (update_row target.username (set_columns target body) users)
    ]

pub delete_user : String → Bool → Bool → String → List User → Option (List User)
unfolding get_user is_last_admin_change count_active_admins delete_row update_row bump_version
delete_user actor hard blocked k users = elim (get_user k true users) [
  | none ↦ none
  | some target ↦
      if target.username == actor
      then none
      else if is_last_admin_change target (some true) none
          (count_active_admins target.username users)
      then none
      else if hard
      then (if blocked then none else some (delete_row target.username users))
      else some (update_row target.username (λ u. bump_version (record u { deleted = true })) users)
]

pub restore_user : String → List User → Option (List User)
unfolding get_user update_row bump_version
restore_user k users = elim (get_user k true users) [
  | none ↦ none
  | some target ↦
      if not target.deleted
      then none
      else some
          (update_row target.username (λ u. bump_version (record u { deleted = false })) users)
]

pub data Op : Type 0 where
  change_password : String → String → Op
  create : String → String → String → Op
  update : String → String → UserUpdate → Op
  delete : String → Bool → Bool → String → Op
  restore : String → Op

-- A handler that refuses leaves the table as it is.
pub step : Op → List User → List User
unfolding change_own_password create_user update_user delete_user restore_user
step (change_password k hash) users = get_or (change_own_password k hash users) users
step (create k hash role) users = get_or (create_user k hash role users) users
step (update actor k body) users = get_or (update_user actor k body users) users
step (delete actor hard blocked k) users = get_or (delete_user actor hard blocked k users) users
step (restore k) users = get_or (restore_user k users) users

pub run : List Op → List User → List User
unfolding step
run [] users = users
run (op ∷ ops) users = run ops (step op users)
