-- ===== src/Router/Sessions/Ends.antt =====
-- The handlers of sessions on the validator's core: a session that was logged out is over, and a pad's
-- page is the one that it was asked for.
use userservice.Prelude.{
  ℕ, String, ◌≡◌, ◌≢◌, refl, ap, Option, none, some, [], arith, if◌then◌else◌, ◌==◌,
}
use userservice.Flow.{run}
use userservice.Http.{Cookie, status_temporary_redirect}
use userservice.Redis.Laws.{View}
use userservice.Validation.{Core, validator, logout, valid, token_key}
use userservice.Validation.Laws.{CoreLaws}
use userservice.Validation.Lifecycle.{IsSession, logout-valid}
use userservice.Router.{
  Request, Response, new_response, set_cookie, set_location, send, success, UserService, status_of,
}
use userservice.Router.Sessions.{post_logout, get_valid}

success-status :
    (code : ℕ) (w : Response) → w.status ≡ none → (success code [] w).status ≡ some code
unfolding success send
success-status code w h = rw h refl

set_cookie-status : (c : Option Cookie) → (set_cookie c new_response).status ≡ none
set_cookie-status none = refl
set_cookie-status (some c) = refl

-- The response of `GetValid`.
valid_response : String → Cookie → ℕ → Response
valid_response url c code =
    let w = set_cookie (some c) new_response in
    if code == status_temporary_redirect then set_location url w else w

valid_response-status :
    (url : String) (c : Cookie) (code : ℕ) → (valid_response url c code).status ≡ none
unfolding valid_response
valid_response-status url c code = ground arith

module _ {S : Type 0} (us : UserService S) (v : Core S) (view : S → View) (laws : CoreLaws v view)
    (on_core : us.validator ≡ validator v) where
  status_of-post_logout :
      (r : Request) (token : String) (s : S)
      → r.cookie "us-authn" ≡ some token
      → (status_of (post_logout us r s).0 ≡ some (logout v token s).0.1)
        × ((post_logout us r s).1 ≡ (logout v token s).1)
  unfolding run post_logout
  status_of-post_logout r token s h =
      rw (post_logout, h, on_core) (success-status _ _ (set_cookie-status _), refl)

  status_of-get_valid :
      (r : Request) (token : String) (s : S)
      → r.cookie "us-authn" ≡ some token
      → status_of (get_valid us r s).0 ≡ some (valid v token s).0.1
  unfolding run get_valid valid_response
  status_of-get_valid r token s h =
      rw (get_valid, h, on_core)
        (success-status _ _
          (valid_response-status us.logon_url (valid v token s).0.0 (valid v token s).0.1))

  -- After a POST /logout that is answered with 204, a GET /valid with the same cookie is not answered
  -- with 204. The key of the cookie's token held a session and nothing else.
  pub post_logout-get_valid :
      (r : Request) (token : String) (s : S)
      → r.cookie "us-authn" ≡ some token
      → IsSession (view s) (token_key token)
      → status_of (post_logout us r s).0 ≡ some 204
      → status_of (get_valid us r (post_logout us r s).1).0 ≢ some 204
  post_logout-get_valid r token s h held out again =
      let (status, end) = status_of-post_logout r token s h in
      logout-valid v view laws s token held (ground (arith, status, out)) (
        ground (
          arith,
          ap (λ t. (valid v token t).0.1) end,
          again,
          status_of-get_valid r token (post_logout us r s).1 h,
        ))
