-- ===== src/Validation.antt =====
-- internal/validation/validator.go: logins and one-time pads in redis. `Core` is the struct `core`
-- with the clock and the source of fresh ids that its methods call.
pub mod Laws
pub mod Count
pub mod Logins
pub mod Sessions
pub mod Logout
pub mod Pads
pub mod Clearing
pub mod Completion
pub mod History
pub mod Races
pub mod Codes
pub mod Tracker
pub mod Lifecycle
pub mod Spent
mod Tests
pub mod Keys
use userservice.Prelude.{
  ℕ, ◌+◌, ◌*◌, ℤ, pos, negsuc, String, ◌<>◌, str_eq, Bool, true, false, not, Option, none, some,
  List, [], ◌∷◌, ◌++◌, ltb, ◌==◌, if◌then◌else◌, length, lookup,
}
use userservice.Flow.{
  Act, Proc, Result, ok, err, finish, pure, call, attempt, return_if, ◌>>=◌, ◌>>◌, run,
}
use userservice.Http.{
  Cookie, status_ok, status_no_content, status_found, status_temporary_redirect, status_bad_request,
  status_forbidden, status_gone, status_too_many_requests, status_internal_server_error,
}
use userservice.Redis.{RedisError, nil, failed, Authn}

-- The validator's share of the configuration; MAX_LOGINS is taken to be at least 0, and
-- AUTHN_TIMEOUT to be a number of minutes whose seconds fit the machine's integers.
pub record ValidatorConfig : Type 0 where
  pub cookie_name : String
  pub authn_timeout : ℕ
  pub max_logins : ℕ

pub record Core (S : Type 0) : Type 0 where
  pub authn : Authn S
  pub open authn use *
  pub max_logins : ℕ
  pub login_cookie : String → Act S Cookie
  pub logout_cookie : Cookie
  pub new_string : Act S String

abbrev gen_cookie : String → Cookie
gen_cookie cookie_name = record {
  name = cookie_name;
  value = "";
  path = "/";
  expires = none;
  max_age = negsuc 0;
  http_only = true;
}

abbrev issue_cookie : ValidatorConfig → String → ℕ → Cookie
issue_cookie cfg v now = record (gen_cookie cfg.cookie_name) {
  value = v;
  expires = some (now + cfg.authn_timeout * 60);
  max_age = pos (cfg.authn_timeout * 60);
}

-- `NewValidator`; `now` is the clock and `fresh` is `uuid.NewString`.
unfoldable pub new_validator :
    {S : Type 0} → Authn S → ValidatorConfig → Act S ℕ → Act S String → Core S
new_validator client cfg now fresh = record {
  authn = client;
  max_logins = cfg.max_logins;
  login_cookie = λ v s. let (t, s') = now s in (issue_cookie cfg v t, s');
  logout_cookie = gen_cookie cfg.cookie_name;
  new_string = fresh;
}

abbrev pub userid : String
userid = "userid"

abbrev pub remote : String
remote = "remote"

abbrev pub redirect : String
redirect = "redirect"

unfoldable pub logins_key : String → String
logins_key uid = "logins:" <> uid

unfoldable pub token_key : String → String
token_key token = "token:" <> token

unfoldable pub pad_key : String → String
pad_key pad = "pad:" <> pad

-- `err.Error()`
pub error_text : RedisError → String
error_text nil = "redis: nil"
error_text (failed message) = message

-- What `Logout` returns on an error of HGET.
hget_status : RedisError → Option Cookie × ℕ
hget_status nil = (none, status_forbidden)
hget_status (failed _) = (none, status_internal_server_error)

-- What `clearLogins` returns on an error of SMEMBERS.
smembers_status : RedisError → ℕ
smembers_status nil = status_gone
smembers_status (failed _) = status_internal_server_error

-- The checks of `LoginOTP` on the redirect that the pad holds.
login_otp_redirect : Option String → String × ℕ
login_otp_redirect none = ("/", status_internal_server_error)
login_otp_redirect (some temp) =
    if str_eq temp "" then ("/", status_bad_request) else (temp, status_found)

pub login_otp_user : Option String → Option String → String × ℕ
unfolding login_otp_redirect
login_otp_user none temp = ("/", status_internal_server_error)
login_otp_user (some uid) temp =
    if str_eq uid "" then ("/", status_bad_request) else login_otp_redirect temp

module _ {S : Type 0} (v : Core S) where
  -- The loop of `checkCount`: the members whose key is gone.
  unfoldable pub find_expired : List String → List String → Proc S ℕ (List String)
  find_expired [] expired = pure expired
  find_expired (token ∷ tokens) expired = do
    exists ← attempt (v.exists token) (λ _. status_internal_server_error)
    find_expired tokens (if exists == 0 then expired ++ token ∷ [] else expired)

  unfoldable pub check_count : String → Act S ℕ
  check_count key = run do
    tokens ← attempt (v.smembers key) (λ _. status_internal_server_error)
    return_if (ltb (length tokens) v.max_logins) status_ok
    expired ← find_expired tokens []
    return_if (length expired == 0) status_too_many_requests
    removed ← attempt (v.srem key expired) (λ _. status_internal_server_error)
    return_if (ltb (length tokens) (v.max_logins + removed)) status_ok
    finish status_too_many_requests

  -- `Login` once the logins are counted.
  pub login_with : String → String → Cookie → ℕ → Proc S (Cookie × ℕ) (Cookie × ℕ)
  login_with uid rmt cookie code = do
    let logins = logins_key uid
    let token = token_key cookie.value
    return_if (not (code == status_ok)) (v.logout_cookie, code)
    attempt (v.hset token ((userid, uid) ∷ (remote, rmt) ∷ []))
        (λ _. (v.logout_cookie, status_internal_server_error))
    exp ←
        attempt (v.expire token cookie.max_age)
          (λ _. (v.logout_cookie, status_internal_server_error))
    return_if (not exp) (v.logout_cookie, status_internal_server_error)
    attempt (v.sadd logins (token ∷ [])) (λ _. (v.logout_cookie, status_internal_server_error))
    finish (cookie, status_ok)

  unfoldable pub login : String → String → Act S (Cookie × ℕ)
  unfolding login_with
  login uid rmt = run do
    id ← call v.new_string
    cookie ← call (v.login_cookie id)
    code ← call (check_count (logins_key uid))
    login_with uid rmt cookie code

  unfoldable pub valid : String → Act S (Cookie × ℕ)
  valid token = run do
    cookie ← call (v.login_cookie token)
    let key = token_key token
    count ← attempt (v.exists key) (λ _. (v.logout_cookie, status_internal_server_error))
    return_if (count == 0) (v.logout_cookie, status_temporary_redirect)
    found ←
        attempt (v.expire key cookie.max_age) (λ _. (v.logout_cookie, status_internal_server_error))
    return_if (not found) (v.logout_cookie, status_temporary_redirect)
    finish (cookie, status_no_content)

  -- A nil cookie is `none`.
  unfoldable pub logout : String → Act S (Option Cookie × ℕ)
  unfolding hget_status
  logout token = run do
    let key = token_key token
    checked ← call (valid token)
    return_if (not (checked.1 == status_no_content)) (none, checked.1)
    uid ← attempt (v.hget key userid) hget_status
    attempt (v.hdel key (userid ∷ remote ∷ [])) (λ _. (none, status_internal_server_error))
    attempt (v.srem (logins_key uid) (key ∷ [])) (λ _. (none, status_internal_server_error))
    finish (some v.logout_cookie, status_no_content)

  -- `OTP` once the logins are counted.
  pub otp_with : String → String → String → String → ℕ → Proc S (String × ℕ) (String × ℕ)
  otp_with uid rmt three02 pad code = do
    let logins = logins_key uid
    let key = pad_key pad
    return_if (not (code == status_ok)) ("", code)
    attempt (v.hset key ((userid, uid) ∷ (remote, rmt) ∷ (redirect, three02) ∷ []))
        (λ e. (error_text e, status_internal_server_error))
    attempt (v.expire key (pos (15 * 60))) (λ e. (error_text e, status_internal_server_error))
    n ← attempt (v.sadd logins (key ∷ [])) (λ e. (error_text e, status_internal_server_error))
    return_if (not (n == 1)) ("no row was updated", status_internal_server_error)
    finish (pad, status_ok)

  unfoldable pub otp : String → String → String → Act S (String × ℕ)
  unfolding otp_with
  otp uid rmt three02 = run do
    pad ← call v.new_string
    code ← call (check_count (logins_key uid))
    otp_with uid rmt three02 pad code

  unfoldable pub login_otp : String → Act S (String × ℕ)
  unfolding login_otp_user
  login_otp pad = run do
    result ← attempt (v.hget_all (pad_key pad)) (λ _. ("/", status_internal_server_error))
    finish (login_otp_user (lookup userid result) (lookup redirect result))

  -- Every field of every token, until the first error; then what was cleared so far is dropped.
  unfoldable pub clear_tokens : List String → List String → Act S (List String × Option RedisError)
  clear_tokens [] result = run do finish (result, none)
  clear_tokens (token ∷ tokens) result = run do
    attempt (v.hdel token (userid ∷ remote ∷ redirect ∷ [])) (λ e. (result, some e))
    call (clear_tokens tokens (result ++ token ∷ []))

  unfoldable pub clear_logins : String → Act S ℕ
  unfolding smembers_status
  clear_logins uid = run do
    let key = logins_key uid
    tokens ← attempt (v.smembers key) smembers_status
    return_if (length tokens == 0) status_gone
    cleared ← call (clear_tokens tokens [])
    return_if (elim cleared.1 [ none ↦ false | some _ ↦ true ]) status_internal_server_error
    attempt (v.srem key cleared.0) (λ _. status_internal_server_error)
    finish status_gone

  -- `CompleteOTP` once the pad's user is looked up.
  complete_otp_user : Option String → Act S (String × ℕ)
  complete_otp_user none = run do finish ("", status_internal_server_error)
  complete_otp_user (some uid) = run do
    return_if (str_eq uid "") ("", status_bad_request)
    code ← call (clear_logins uid)
    return_if (not (code == status_gone)) ("", code)
    finish (uid, status_ok)

  unfoldable pub complete_otp : String → Act S (String × ℕ)
  unfolding complete_otp_user
  complete_otp pad = run do
    result ← attempt (v.hget_all (pad_key pad)) (λ _. ("", status_internal_server_error))
    call (complete_otp_user (lookup userid result))

-- The interface `Validator`, which the router holds.
pub record Validator (S : Type 0) : Type 0 where
  pub login : String → String → Act S (Cookie × ℕ)
  pub logout : String → Act S (Option Cookie × ℕ)
  pub valid : String → Act S (Cookie × ℕ)
  pub otp : String → String → String → Act S (String × ℕ)
  pub login_otp : String → Act S (String × ℕ)
  pub complete_otp : String → Act S (String × ℕ)

abbrev pub validator : {S : Type 0} → Core S → Validator S
validator v = record {
  login = login v;
  logout = logout v;
  valid = valid v;
  otp = otp v;
  login_otp = login_otp v;
  complete_otp = complete_otp v;
}
