-- ===== src/Accounts/Examples.antt =====
-- Two users, of whom one changes the password, and one whose name is given again.
use security_agent.Prelude.{◌≡◌, refl, true, false, List, [], ◌∷◌, none, some, arith, String}
use security_agent.Accounts.{
  User, Token, Op, find, change_password, update, restore, delete, step, run, get_current_user,
  update_user,
}
use security_agent.Accounts.Stale.{change_password-revokes}

abbrev user : String → String → User
user name role = record {
  username = name;
  hashed_password = "x";
  role = role;
  disabled = false;
  deleted = false;
  token_version = 0;
}

abbrev users : List User
users = user "ann" "admin" ∷ user "bob" "viewer" ∷ []

abbrev token : Token
token = record { sub = "bob"; ver = some 0 }

abbrev ops : List Op
ops =
    update "ann" "bob" (record { username = none; role = some "analyst"; disabled = some true })
    ∷ delete "ann" false false "bob"
    ∷ restore "bob"
    ∷ []

last_admin :
    update_user "bob" "ann"
      (record { username = none; role = some "viewer"; disabled = none })
      users
    ≡ none
unfolding update_user
last_admin = refl

change_password-revokes_example :
    get_current_user token (run ops (step (change_password "bob" "y") users)) ≡ none
unfolding find
change_password-revokes_example =
    change_password-revokes token "y" users (user "bob" "viewer") ops refl refl (ground arith)
      (refl, (refl, (tt, tt)))
