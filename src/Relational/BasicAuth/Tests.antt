-- ===== src/Relational/BasicAuth/Tests.antt =====
-- Logins and changes of password on the table in memory.
use userservice.Prelude.{
  ◌≤◌, String, eq_iff, len, ◌≡◌, ◌≢◌, ◌↔◌, refl, none, some, List, [], ◌∷◌, arith,
}
use userservice.Flow.{run}
use userservice.Shared.{BasicAuth, bad_user_or_pass, max_failed_login, password_valid}
use userservice.Relational.{affected, hash, generate_salt}
use userservice.Relational.Scan.{scan_auth}
use userservice.Relational.BasicAuth.{
  no_auth, validate, login_error, get_auth_by_attrs, update_basic_auth, soft_login, login,
  change_password,
}
use userservice.Relational.BasicAuth.Laws.{credentials}
use userservice.Relational.BasicAuth.Lockout.{given, attempts, lockout}
use userservice.Relational.BasicAuth.Passwords.{
  validate_iff, change_password-login, change_password_allowed,
}
use userservice.Relational.BasicAuth.Memory.{db, db-laws, view}

abbrev ann : BasicAuth
ann = record no_auth { uuid = "ann-id"; name = "ann"; pass = "password1salt"; salt = "salt" }

abbrev bob : BasicAuth
bob = record no_auth { uuid = "bob-id"; name = "bob"; pass = "password2salt"; salt = "salt" }

abbrev current : String
current = "password1"

-- Ann's new password.
abbrev chosen : String
chosen = "password3"

abbrev table : List BasicAuth
table = ann ∷ bob ∷ []

logins_run : Unit {0}
unfolding scan_auth run db view affected hash generate_salt validate password_valid login_error
    get_auth_by_attrs update_basic_auth soft_login login change_password attempts
logins_run = tt

right_password : (login db (given "ann-id" current) table).0.1 ≡ none
unfolding logins_run
right_password = refl

wrong : List String
wrong = "a" ∷ "b" ∷ "c" ∷ "d" ∷ []

lockout_example :
    ((login db (given "ann-id" current) (attempts db "ann-id" wrong table)).0.1 ≢ none)
    × (view (login db (given "ann-id" current) (attempts db "ann-id" wrong table)).1
        ≡ view (attempts db "ann-id" wrong table))
unfolding logins_run wrong
lockout_example =
    lockout db view db-laws "ann-id" wrong table (credentials ann) refl
      (refl, (refl, (refl, (refl, tt)))) refl current

validate_iff_example :
    (validate ann chosen ≡ none)
    ↔ ((8 ≤ len chosen) × (chosen ≢ ann.name) × (hash chosen ann.salt ≢ ann.pass))
validate_iff_example = validate_iff ann chosen

change_password-login_example :
    let t = (change_password db "ann-id" current chosen table).1 in
    ((login db (given "ann-id" current) t).0.1 ≢ none)
    × ((login db (given "ann-id" chosen) t).0.1 ≢ some bad_user_or_pass)
    × ((login db (given "ann-id" chosen) t).0.1 ≢ some max_failed_login)
unfolding logins_run
change_password-login_example =
    change_password-login db view db-laws table "ann-id" current chosen (credentials ann) refl refl
      current (λ e. ground (arith, eq_iff current chosen))

change_password_allowed_example :
    (ann.failure_count ≤ 3)
    × (hash current ann.salt ≡ ann.pass)
    × (8 ≤ len chosen)
    × (chosen ≢ ann.name)
    × (chosen ≢ current)
    × (view (change_password db "ann-id" current chosen table).1 "bob-id" ≡ view table "bob-id")
unfolding logins_run
change_password_allowed_example =
    change_password_allowed db view db-laws table "ann-id" current chosen (credentials ann) refl
      refl "bob-id" (λ e. ground (arith, eq_iff "ann-id" "bob-id"))
