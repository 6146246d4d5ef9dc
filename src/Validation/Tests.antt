-- ===== src/Validation/Tests.antt =====
-- The validator on the server in memory: runs, and the theorems at inputs that meet their hypotheses.
use userservice.Prelude.{
  ℕ, zero, suc, String, ◌<>◌, ◌≡◌, ◌≢◌, refl, ◌⊎◌, [], ◌∷◌, ◌+◌, ◌≤◌, arith, contains, lookup,
  eq_iff,
}
use userservice.Flow.{Act, run}
use userservice.Redis.Memory.{Memory}
use userservice.Redis.Memory.Server.{client, client-laws, view}
use userservice.Validation.{
  Core, ValidatorConfig, new_validator, find_expired, check_count, clear_tokens, clear_logins,
  login, logout, valid, otp, login_otp, complete_otp, logins_key, token_key, pad_key,
}
use userservice.Validation.Laws.{CoreLaws, new_validator-CoreLaws}
use userservice.Validation.Pads.{Pad}
use userservice.Validation.History.{logs_in, asks_pad, calls, here, next, Reach-Within}
use userservice.Validation.Keys.{Within, Session}
use userservice.Validation.Races.{
  Pending, logs_in as login_pending, counted_login, counts_login, stores, store, Reach,
  here as starts, next as then,
}
use userservice.Validation.Races.Bound.{Reach-card}
use userservice.Validation.Spent.{stays, logged_out, opened, complete_otp_once}
use userservice.Validation.Lifecycle.{
  IsSession, login-valid, logout-valid, otp-login_otp, otp-complete_otp, complete_otp-valid,
}

abbrev config : ValidatorConfig
config = record { cookie_name = "us-authn"; authn_timeout = 15; max_logins = 2 }

id_text : ℕ → String
id_text zero = "id"
id_text (suc n) = id_text n <> "+"

fresh : Act Memory String
unfolding id_text
fresh s = (id_text s.ids, record s { ids = suc s.ids })

abbrev core : Core Memory
core = new_validator client config (λ s. (0, s)) fresh

core-laws : CoreLaws core view
unfolding view fresh
core-laws =
    new_validator-CoreLaws client config _ fresh view client-laws (λ s. refl) (λ s. refl)
      (omega arith)

abbrev empty : Memory
empty = record { fields = []; sets = []; ids = 0 }

validator_runs : Unit {0}
unfolding run client view fresh new_validator find_expired check_count login logout valid otp
    login_otp complete_otp clear_tokens clear_logins logins_key token_key pad_key lookup contains
validator_runs = tt

logged_in : Memory
logged_in = (login core "ann" "here" empty).1

-- The third login of a user is refused while `max_logins` is 2.
third_login : (login core "ann" "here" (login core "ann" "here" logged_in).1).0.1 ≡ 429
unfolding validator_runs logged_in
third_login = refl

empty-Within : Within 2 (view empty)
unfolding view
empty-Within u = omega arith

login-valid_example :
    let ((cookie, _), s') = login core "ann" "here" empty in
    Session "ann" "here" cookie.value (view s')
    × (((valid core cookie.value s').0.1 ≡ 204) ⊎ ((valid core cookie.value s').0.1 ≡ 500))
unfolding validator_runs
login-valid_example = login-valid core view core-laws empty "ann" "here" refl

IsSession-held : IsSession (view logged_in) (token_key "id")
unfolding validator_runs logged_in
IsSession-held = (λ f h. ground (arith, eq_iff "userid" f, eq_iff "remote" f), refl)

logout-valid_example : (valid core "id" (logout core "id" logged_in).1).0.1 ≢ 204
unfolding validator_runs logged_in
logout-valid_example = logout-valid core view core-laws logged_in "id" IsSession-held refl

with_pad : Memory
with_pad = (otp core "ann" "here" "/page" logged_in).1

otp-login_otp_example :
    let ((pad, _), s') = otp core "ann" "here" "/page" logged_in in
    ((login_otp core pad s').0 ≡ ("/page", 302)) ⊎ ((login_otp core pad s').0 ≡ ("/", 500))
unfolding validator_runs logged_in
otp-login_otp_example =
    otp-login_otp core view core-laws logged_in "ann" "here" "/page"
      (λ e. ground (arith, eq_iff "ann" "")) (λ e. ground (arith, eq_iff "/page" "")) refl

otp-complete_otp_example : (complete_otp core "id+" with_pad).0 ≡ ("ann", 200)
unfolding validator_runs logged_in with_pad
otp-complete_otp_example =
    otp-complete_otp core view core-laws logged_in "ann" "here" "/page" refl refl

Pad-held : Pad "ann" "here" "/page" "id+" (view with_pad)
unfolding validator_runs logged_in with_pad
Pad-held = record { user = refl; address = refl; page = refl; listed = refl }

-- The pad is completed, a token is logged out, and the pad is opened.
abbrev spent : Memory
spent = (complete_otp core "id+" with_pad).1

abbrev later : Memory
later = (login_otp core "id+" (logout core "id" spent).1).1

complete_otp_once_example : (complete_otp core "id+" later).0.1 ≢ 200
unfolding validator_runs logged_in with_pad
complete_otp_once_example =
    complete_otp_once core view core-laws with_pad later "ann" "here" "/page" "id+" Pad-held refl
      (opened "id+" (logged_out "id" stays))

pad-IsSession_held : IsSession (view with_pad) (token_key "id")
unfolding validator_runs logged_in with_pad
pad-IsSession_held = (λ f h. ground (arith, eq_iff "userid" f, eq_iff "remote" f), refl)

complete_otp-valid_example : (valid core "id" (complete_otp core "id+" with_pad).1).0.1 ≢ 204
unfolding validator_runs logged_in with_pad
complete_otp-valid_example =
    complete_otp-valid core view core-laws with_pad "id+" "id" pad-IsSession_held refl refl

Reach-Within_example : Within 2 (view with_pad)
unfolding validator_runs logged_in with_pad
Reach-Within_example =
    Reach-Within core view core-laws
      (next (next here (calls empty (logs_in "ann" "here")))
        (calls logged_in (asks_pad "ann" "here" "/page")))
      empty-Within

-- Two requests of a user who has one login count it before either of them stores its own.
ann_counted : Memory
ann_counted = (counted_login core "ann" logged_in).1

both_counted : Memory
both_counted = (counted_login core "ann" ann_counted).1

first : Pending
unfolding counted_login validator_runs logged_in
first = login_pending "ann" "here" (counted_login core "ann" logged_in).0.0 899 refl

second : Pending
unfolding counted_login validator_runs logged_in ann_counted
second = login_pending "ann" "here" (counted_login core "ann" ann_counted).0.0 899 refl

both_stored : Memory
both_stored = store core second (store core first both_counted)

race :
    Reach core view 2
      (record { world = logged_in; pending = [] })
      (record { world = both_stored; pending = [] })
unfolding counted_login validator_runs logged_in ann_counted both_counted first second both_stored
race =
    then
      (then
        (then (then starts (counts_login "ann" "here" 899 logged_in [] (omega arith) refl refl))
          (counts_login "ann" "here" 899 ann_counted (first ∷ []) (omega arith) refl refl))
        (stores first both_counted (second ∷ []) []))
      (stores second (store core first both_counted) [] [])

logged_in-Within : Within 2 (view logged_in)
unfolding validator_runs logged_in
logged_in-Within u = ground arith

Reach-card_example : (view both_stored).card (logins_key "ann") + 1 ≤ 2 + 2
unfolding new_validator
Reach-card_example =
    Reach-card core view core-laws 2 logged_in _ (omega arith) logged_in-Within race "ann"

-- The user then has three logins while `max_logins` is 2.
three_logins : (view both_stored).card (logins_key "ann") ≡ 3
unfolding counted_login validator_runs logged_in ann_counted both_counted first second both_stored
three_logins = refl
