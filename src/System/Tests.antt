-- ===== src/System/Tests.antt =====
-- The service in memory: requests, and the theorems of the handlers at inputs that meet their hypotheses.
use userservice.Prelude.{
  ℕ, zero, suc, pos, String, ◌<>◌, str_eq, eq_iff, ◌≡◌, ◌≢◌, ◌↔◌, ◌==◌, ◌⊎◌, refl, arith, true,
  Option, none, some, [], ◌∷◌, lookup, contains, if◌then◌else◌,
}
use userservice.Flow.{Act, ok, err, run}
use userservice.Http.{Cookie}
use userservice.Shared.{
  Error, BasicAuth, Message, mysql, is_undeliverable, password_valid, email_valid, cell_valid,
  redact, password_reset_email, password_reset_sms,
}
use userservice.Relational.{Conn, affected, hash, generate_salt}
use userservice.Relational.Scan.{scan_auth}
use userservice.Relational.BasicAuth.{
  no_auth, validate, login_error, get_auth_by_attrs, update_basic_auth, soft_login, change_password,
  reset_password,
}
use userservice.Relational.BasicAuth as Auths
use userservice.Relational.BasicAuth.Laws.{credentials}
use userservice.Relational.BasicAuth.Memory as Rows
use userservice.Relational.Users.{insert_user}
use userservice.Validation.{
  Core, new_validator, find_expired, check_count, clear_tokens, clear_logins, login, logout, valid,
  otp, login_otp, complete_otp, logins_key, token_key, pad_key,
}
use userservice.Validation.Laws.{CoreLaws, new_validator-CoreLaws}
use userservice.Validation.Lifecycle.{IsSession}
use userservice.Redis.Memory.Server as Server
use userservice.Router.{
  Request, Served, Handler, never_returned, UserService, send, success, succeeded, location_of,
  status_of, cookies_of, succeeds,
}
use userservice.Router.Passwords.{
  welcome, shown, get_auth, post_login, pad_password, authn_pad, change_of, patch_login, send_reset,
  reset_found, forgotten, forgotten_by, delete_login,
}
use userservice.Router.Passwords.Logins.{get_auth_redacted, Accepted, Entered, post_login_iff}
use userservice.Router.Passwords.Changes.{Changed, patch_login-Changed}
use userservice.Router.Passwords.Resets.{Requested, delete_login_iff}
use userservice.Router.Sessions.{post_logout, get_valid, get_login_otp}
use userservice.Shared.Client.{Client, Reply, nothing, check_valid}
use userservice.System.Clients.{asking, first_cookie, or_empty, check_valid-get_valid}
use userservice.Router.Sessions.Ends.{post_logout-get_valid}
use userservice.Router.Sessions.Pads.{Leads, otp-get_login_otp}
use userservice.Router.Users.{added, not_added, post_user}
use userservice.Router.Users.Creation.{Created, post_user_iff, post_user_forever}
use userservice.Router.Routes.{Route, settings_of, Settings, replied, routes}
use userservice.Router.Routes.Statuses.{Every}
use userservice.Router.Statuses.{well_sent}
use userservice.System.Statuses.{service-well_sent}
use userservice.Router.Routes.Reach.{find_route, has_param, settings_unreachable}
use userservice.Config.{Config, Marshal, defaults}
use userservice.System.{sessions, service}
use userservice.System.Texts.{ann_user, encoding}
use userservice.System.Memory.{World, db, db-laws, table, client, client-laws, view}
use userservice.System.Logins.{LoggedIn, post_login_authentic}
use userservice.System.Passwords.{Authentic, patch_login_authentic}

abbrev ann : BasicAuth
ann = record no_auth { uuid = "ann-id"; name = "ann"; pass = "password1salt"; salt = "salt" }

abbrev config : Config
config = record (defaults "mysql" 3306 "secret" "svc") {
  max_logins = 2;
  success_url = "/home";
  logon_url = "/logon";
}

id_text : ℕ → String
id_text zero = "id"
id_text (suc n) = id_text n <> "+"

abbrev fresh : Act World String
fresh s = (id_text s.redis.ids, record s { redis = record s.redis { ids = suc s.redis.ids } })

abbrev now : Act World ℕ
now s = (1000, s)

abbrev sends : Option Message → Act World (Option Error)
sends m s = (none, s)

abbrev us : UserService World
us = service db 3 client config now fresh sends sends encoding

-- With users who are found and added.
abbrev with_users : UserService World
with_users = record us {
  userer = record us.userer {
    get_user = λ id s. ((some ann_user, none), s);
    add_user = λ u s. (some ("new-id", none), s);
  };
}

abbrev core : Core World
core = new_validator client (sessions config) now fresh

core-laws : CoreLaws core view
unfolding view Server.view
core-laws =
    new_validator-CoreLaws client (sessions config) now fresh view client-laws (λ s. refl)
      (λ s. refl) (omega arith)

abbrev request : Request
request = record {
  url_param = λ name.
      if str_eq name "user_id" then "ann-id" else if str_eq name "username" then "ann" else "";
  body = ok "{}";
  cookie = λ name. none;
  remote_addr = "here";
  host = "host";
}

-- With the session's cookie.
abbrev returning : Request
returning = record request { cookie = λ name. if str_eq name "us-authn" then some "id" else none }

abbrev start : World
start = record { rows = ann ∷ []; redis = record { fields = []; sets = []; ids = 0 } }

stores_run : Unit {0}
unfolding id_text run db table client view scan_auth affected hash generate_salt validate
    password_valid login_error get_auth_by_attrs update_basic_auth soft_login Auths.login
    change_password reset_password new_validator find_expired check_count clear_tokens clear_logins
    login logout valid otp login_otp complete_otp logins_key token_key pad_key lookup contains
    Rows.db Rows.view Server.client Server.view
stores_run = tt

handlers_run : Unit {0}
unfolding stores_run send success welcome shown get_auth post_login pad_password authn_pad change_of
    patch_login send_reset reset_found forgotten forgotten_by delete_login post_logout get_valid
    is_undeliverable email_valid cell_valid redact password_reset_email password_reset_sms added
    not_added post_user
handlers_run = tt

logged_in : World
logged_in = (post_login us request start).1

login_answer : location_of (post_login us request start).0 ≡ some "/home"
unfolding handlers_run
login_answer = refl

reset_answer : status_of (delete_login with_users request start).0 ≡ some 204
unfolding handlers_run
reset_answer = refl

patch_login-Changed_example : Changed us request start
unfolding handlers_run
patch_login-Changed_example = patch_login-Changed us request start (λ e. ground (arith, e))

patch_login_authentic_example :
    Authentic db 3 client config now fresh sends sends encoding table db-laws view core-laws request
      (credentials ann)
      start
unfolding handlers_run
patch_login_authentic_example =
    patch_login_authentic db 3 client config now fresh sends sends encoding table db-laws view
      core-laws request (credentials ann) start refl (λ e. ground (arith, e))

-- The login of the request's body.
abbrev given : BasicAuth
given = record no_auth { uuid = "ann-id"; pass = "password1" }

post_login_authentic_example :
    (cookie : Cookie) × LoggedIn db 3 client config now fresh sends sends encoding table db-laws
      view core-laws request given
      (credentials ann)
      start
      cookie
unfolding handlers_run
post_login_authentic_example =
    post_login_authentic db 3 client config now fresh sends sends encoding table db-laws view
      core-laws request "{}" given (credentials ann) start refl refl refl (λ e. ground (arith, e))

delete_login_iff_example :
    ((succeeds (delete_login with_users request start).0 ≡ true)
      ↔ Requested with_users request start)
    × (((delete_login with_users request start).0 ≡ succeeded 204 [])
        ↔ Requested with_users request start)
delete_login_iff_example = delete_login_iff with_users request start

abbrev token : Cookie
token = record {
  name = "us-authn";
  value = "id";
  path = "/";
  expires = none;
  max_age = pos 900;
  http_only = true;
}

post_login_iff_example :
    ((cookies_of (post_login us request start).0 ≢ [])
      ↔ ((c : Cookie) × Accepted us request start c))
    × (Entered us request (post_login us request start).0 token ↔ Accepted us request start token)
post_login_iff_example = post_login_iff us request start token

-- The same row with another password and salt.
abbrev other_row : World
other_row = record start { rows = record ann { pass = "another"; salt = "sand" } ∷ [] }

another_password : UserService World
another_password = record us {
  auther = record us.auther {
    get_auth_by_attrs = λ id name s. us.auther.get_auth_by_attrs id name other_row;
  };
}

get_auth_redacted_example :
    (get_auth us request start).0 ≡ (get_auth another_password request start).0
unfolding handlers_run another_password
get_auth_redacted_example = get_auth_redacted us another_password request start refl refl refl

IsSession-held : IsSession (view logged_in) (token_key "id")
unfolding handlers_run logged_in
IsSession-held = (λ f h. ground (arith, eq_iff "userid" f, eq_iff "remote" f), refl)

post_logout-get_valid_example :
    status_of (get_valid us returning (post_logout us returning logged_in).1).0 ≢ some 204
unfolding handlers_run logged_in
post_logout-get_valid_example =
    post_logout-get_valid us core view core-laws refl returning "id" logged_in refl IsSession-held
      refl

post_user_iff_example :
    ((succeeds (post_user with_users request start).0 ≡ true)
      ↔ ((id : String) × Created with_users request start id))
    × (((post_user with_users request start).0 ≡ succeeded 201 ("new-id" ∷ []))
        ↔ ((id : String) × Created with_users request start id × (id ≡ "new-id")))
post_user_iff_example = post_user_iff with_users request start "new-id"

abbrev taken_name : String
taken_name = "Duplicate entry 'users.PRIMARY' for key 'users.name'"

abbrev refusing : Conn World
refusing = record db { exec = λ q args s. (err (mysql taken_name), s) }

abbrev on_refusing : UserService World
on_refusing = service refusing 3 client config now fresh sends sends encoding

named_primary : (post_user on_refusing request start).0 ≡ never_returned
unfolding handlers_run insert_user
named_primary =
    post_user_forever on_refusing request refusing 3 "{}" "ann" taken_name ann_user start refl refl
      refl refl refl refl (λ u t e. refl)

abbrev cfg : Settings
cfg = record { all = "{}"; values = ("redis_host", "\"redis\"") ∷ [] }

-- A handler of /metrics that has nothing to tell.
abbrev unmeasured : Handler World
unmeasured r = replied 200 ""

-- JSON of each value, and chi's parameters: those of the pattern.
abbrev marshal : Marshal
marshal = record { value = λ v. "1"; struct = λ fields. "{}"; fields = λ fields. "{}" }

abbrev by_pattern : String → Request
by_pattern pattern = record request {
  url_param = λ name. if has_param pattern name then "value" else "";
}

settings_unreachable_example :
    (x : Route World) × (find_route "/settings" (routes us (settings_of marshal config) unmeasured)
      ≡ some x)
    × (status_of (x.handler (by_pattern x.pattern) start).0 ≡ some 404)
settings_unreachable_example =
    settings_unreachable us marshal config unmeasured by_pattern start
      (λ pattern name none. rw none refl)

-- The pad that was issued after the login, and a request that opens it.
abbrev opening : Request
opening = record request { url_param = λ name. "id+" }

otp-get_login_otp_example :
    let x = (get_login_otp us opening (otp core "ann-id" "here" "/page" logged_in).1).0 in
    Leads x "id+" "/page" 302 ⊎ Leads x "id+" "/" 500
unfolding handlers_run logged_in get_login_otp
otp-get_login_otp_example =
    otp-get_login_otp us core view core-laws refl opening logged_in "ann-id" "here" "/page"
      (λ e. ground (arith, eq_iff "ann-id" "")) (λ e. ground (arith, eq_iff "/page" "")) refl refl
      (λ e. ground (arith, eq_iff "id+" ""))

abbrev format : Cookie → String
format c = c.name <> "=" <> c.value

-- The headers of an answer, as the network brings them, with one of its own.
abbrev headers : Served → String → String
headers served name =
    if str_eq name "Set-Cookie"
    then first_cookie format (cookies_of served)
    else if str_eq name "Location"
    then or_empty (location_of served)
    else "here"

abbrev replied_to : Option Cookie → Reply
replied_to cookie = record {
  status = elim (status_of (get_valid us (asking cookie) logged_in).0) [
    | none ↦ 200
    | some code ↦ code
  ];
  header = headers (get_valid us (asking cookie) logged_in).0;
}

-- A network that delivers what the handler answers after the login.
abbrev web : Client World
web = record {
  new_request = λ url. ok tt;
  send_request = λ url cookie s. (ok (replied_to cookie), (get_valid us (asking cookie) s).1);
  parse_set_cookie = λ text. ok (us.validator.valid "id" logged_in).0.0;
}

check_valid-get_valid_example :
    let ((cookie, code), s') = us.validator.valid "id" logged_in in
    (check_valid web "host" 3000 (some token) logged_in
      ≡ ((some cookie, some (replied_to (some token)).header, code), s'))
    × ((replied_to (some token)).header "Location" ≡ (if code == 307 then "/logon" else ""))
    × (check_valid web "host" 3000 none logged_in ≡ (nothing 307, logged_in))
unfolding handlers_run logged_in
check_valid-get_valid_example =
    check_valid-get_valid web us format "host" 3000 token logged_in (replied_to (some token))
      (replied_to none) refl refl (record { status = refl; set_cookie = refl; location = refl })
      refl (record { status = refl; set_cookie = refl; location = refl }) (λ e. ground (arith, e))
      refl refl

service-well_sent_example :
    Every
      (λ x. well_sent (x.handler request start).0 ≡ true)
      (routes (service db 3 client config now fresh sends sends encoding) cfg unmeasured)
service-well_sent_example =
    service-well_sent db 3 client config now fresh sends sends encoding cfg unmeasured (λ r s. refl)
      request start
