-- ===== src/Shared/Client.antt =====
-- `CheckValid` of shared/v1/lib.go: how another program asks the service for the state of a session.
use userservice.Prelude.{ℕ, String, ◌<>◌, len, itoa, Option, none, some, ◌==◌}
use userservice.Flow.{Act, Result, finish, attempt, return_if, ◌>>=◌, ◌>>◌, run}
use userservice.Http.{Cookie, status_internal_server_error}
use userservice.Shared.{Error}

-- What is read of `*http.Response`: the status and the headers, "" for one that is not there.
pub record Reply : Type 0 where
  pub status : ℕ
  pub header : String → String

-- net/http: making a request of a URL, sending it with a cookie, without following a redirect, and
-- reading a cookie.
pub record Client (S : Type 0) : Type 0 where
  pub new_request : String → Result Error (Unit {0})
  pub send_request : String → Option Cookie → Act S (Result Error Reply)
  pub parse_set_cookie : String → Result Error Cookie

-- The cookie, the headers and the status; nil is none.
abbrev pub Answer : Type 0
Answer = Option Cookie × Option (String → String) × ℕ

abbrev pub valid_url : String → ℕ → String
valid_url host port = "http://" <> host <> ":" <> itoa port <> "/valid"

abbrev pub nothing : ℕ → Answer
nothing code = (none, none, code)

unfoldable pub check_valid : {S : Type 0} → Client S → String → ℕ → Option Cookie → Act S Answer
check_valid client host port cookie = run do
  attempt (λ s. (client.new_request (valid_url host port), s))
      (λ _. nothing status_internal_server_error)
  resp ←
      attempt (client.send_request (valid_url host port) cookie)
        (λ _. nothing status_internal_server_error)
  return_if (len (resp.header "Set-Cookie") == 0) (nothing resp.status)
  parsed ←
      attempt (λ s. (client.parse_set_cookie (resp.header "Set-Cookie"), s))
        (λ _. nothing status_internal_server_error)
  finish (some parsed, some resp.header, resp.status)
