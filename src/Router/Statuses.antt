-- ===== src/Router/Statuses.antt =====
-- The statuses that handlers send: `WriteHeader` panics on a code that is none.
use userservice.Prelude.{ℕ, String, ◌≡◌, refl, List, Bool, true, false, Option, none, some}
use userservice.Http.{Cookie, is_status}
use userservice.Router.{
  Response, set_cookie, set_location, send, success, Served, answered, panicked, never_returned,
}

abbrev pub is_sent : Option ℕ → Bool
is_sent none = false
is_sent (some code) = is_status code

-- An answer has a status, which is a code of HTTP.
abbrev pub well_sent : Served → Bool
well_sent (answered w) = is_sent w.status
well_sent panicked = true
well_sent never_returned = true

-- Nothing was sent yet.
abbrev pub IsUnsent : Response → Type 0
IsUnsent w = w.status ≡ none

pub send-well_sent :
    (code : ℕ) (messages : List String) (w : Response)
    → IsUnsent w
    → is_status code ≡ true
    → well_sent (answered (send code messages w)) ≡ true
unfolding send
send-well_sent code messages w unsent good = rw unsent good

pub success-well_sent :
    (code : ℕ) (messages : List String) (w : Response)
    → IsUnsent w
    → is_status code ≡ true
    → well_sent (answered (success code messages w)) ≡ true
unfolding success send
success-well_sent code messages w unsent good = rw unsent good

pub set_cookie-IsUnsent :
    (o : Option Cookie) (w : Response) → IsUnsent w → IsUnsent (set_cookie o w)
set_cookie-IsUnsent none w unsent = unsent
set_cookie-IsUnsent (some c) w unsent = rw unsent refl

pub set_location-IsUnsent :
    (url : String) (w : Response) → IsUnsent w → IsUnsent (set_location url w)
set_location-IsUnsent url w unsent = rw unsent refl
