-- ===== src/Router.antt =====
-- internal/router: the service's handlers. This file has what they share: the request as they read
-- it, the response as they write it, and `UserService`, through which they call the other parts.
pub mod Users
pub mod Addresses
pub mod Contacts
pub mod Passwords
pub mod Sessions
pub mod Routes
pub mod Statuses
use userservice.Prelude.{
  ℕ, String, Bool, true, false, not, Option, none, some, List, [], ◌∷◌, ◌++◌, is_some,
  if◌then◌else◌,
}
use userservice.Flow.{Act, Proc, Result, attempt}
use userservice.Http.{Cookie}
use userservice.Shared.{
  Error, Address, BasicAuth, Contact, User, Message, Addresser, Auther, Contacter, Userer,
}
use userservice.Validation.{Validator}

-- What the handlers read of `*http.Request`: `chi.URLParam` ("" when the pattern has none of that
-- name), what `io.ReadAll` gives for the body, and the value of a cookie.
pub record Request : Type 0 where
  pub url_param : String → String
  pub body : Result Error String
  pub cookie : String → Option String
  pub remote_addr : String
  pub host : String

-- The response so far. The status is none until `WriteHeader`, which sends the headers too.
pub record Response : Type 0 where
  pub status : Option ℕ
  pub location : Option String
  pub content_type : List String
  pub cookies : List Cookie
  pub body : List String

abbrev pub new_response : Response
new_response = record { status = none; location = none; content_type = []; cookies = []; body = [] }

-- `w.WriteHeader`: only the first one counts.
abbrev write_header : ℕ → Response → Response
write_header code w = if is_some w.status then w else record w { status = some code }

-- `w.Write`
abbrev pub write : String → Response → Response
write m w = record w { body = w.body ++ m ∷ [] }

-- `w.Header().Set("Location", …)`, which does nothing once the headers are sent.
abbrev pub set_location : String → Response → Response
set_location url w = if is_some w.status then w else record w { location = some url }

-- `http.SetCookie`; so does this, and so does a nil cookie.
abbrev pub set_cookie : Option Cookie → Response → Response
set_cookie none w = w
set_cookie (some c) w = if is_some w.status then w else record w { cookies = w.cookies ++ c ∷ [] }

-- `sc.send`, less its log line and its counter
unfoldable pub send : ℕ → List String → Response → Response
send code messages w = let w' = write_header code w in record w' { body = w'.body ++ messages }

-- `sc.success`
unfoldable pub success : ℕ → List String → Response → Response
success code messages w = send code messages (
    if is_some w.status
    then w
    else record w { content_type = w.content_type ++ "application/json" ∷ [] })

-- What becomes of a request: a response, a panic in the handler, or a call that never returns.
pub data Served : Type 0 where
  answered : Response → Served
  panicked : Served
  never_returned : Served

-- The answer of a handler that wrote nothing before.
abbrev pub refused : ℕ → List String → Served
refused code messages = answered (send code messages new_response)

abbrev pub succeeded : ℕ → List String → Served
succeeded code messages = answered (success code messages new_response)

-- encoding/json and html of the standard library, at the types at which the handlers use them. An
-- absent field is the zero value; null is a nil pointer. `strings_of_json` is the map that
-- `json.Unmarshal` fills, errors or not; `show_user` is `%v` of fmt.
pub record Encoding : Type 0 where
  pub user_of_json : String → Result Error User
  pub user_pointer_of_json : String → Result Error (Option User)
  pub contact_of_json : String → Result Error Contact
  pub address_of_json : String → Result Error Address
  pub auth_of_json : String → Result Error BasicAuth
  pub passwords_of_json : String → Result Error (String × String)
  pub strings_of_json : String → List (String × String)
  pub json_of_users : List User → String
  pub json_of_user : Option User → String
  pub json_of_addresses : List Address → String
  pub json_of_address : Option Address → String
  pub json_of_auth : BasicAuth → String
  pub escape_html : String → String
  pub show_user : User → String

-- The struct `UserService`, with the clock and the encodings that its methods call.
pub record UserService (S : Type 0) : Type 0 where
  pub send_mail : Option Message → Act S (Option Error)
  pub send_sms : Option Message → Act S (Option Error)
  pub addresser : Addresser S
  pub auther : Auther S
  pub contacter : Contacter S
  pub userer : Userer S
  pub validator : Validator S
  pub success_url : String
  pub logon_url : String
  pub now : Act S ℕ
  pub encoding : Encoding
  pub open encoding use *

abbrev pub Handler : Type 0 → Type 0
Handler S = Request → Act S Served

-- A result that needs no call.
abbrev pub checked : {S R A : Type 0} → Result Error A → (Error → R) → Proc S R A
checked x f = attempt (λ s. (x, s)) f

-- The page to which an answer sends the client.
abbrev pub location_of : Served → Option String
location_of (answered w) = w.location
location_of panicked = none
location_of never_returned = none

abbrev pub status_of : Served → Option ℕ
status_of (answered w) = w.status
status_of panicked = none
status_of never_returned = none

abbrev pub cookies_of : Served → List Cookie
cookies_of (answered w) = w.cookies
cookies_of panicked = []
cookies_of never_returned = []

abbrev is_nil : {A : Type 0} → List A → Bool
is_nil [] = true
is_nil (_ ∷ _) = false

-- An answer of `success`, which alone sets a Content-Type.
abbrev pub succeeds : Served → Bool
succeeds (answered w) = not (is_nil w.content_type)
succeeds panicked = false
succeeds never_returned = false
