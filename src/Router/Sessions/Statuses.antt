-- ===== src/Router/Sessions/Statuses.antt =====
-- The statuses of the handlers of /logout, /valid and /otp, which pass on those of the validator.
use userservice.Prelude.{
  String, ◌≡◌, refl, true, false, some, [], Option-cases, Bool, inl, inr, if◌then◌else◌, ◌==◌,
}
use userservice.Flow.Results.{
  Gives, gives, run_gives, finish_returns, return_if_returns, call_returns, call_gives,
}
use userservice.Http.{is_status}
use userservice.Router.{
  Request, Response, set_cookie, set_location, new_response, UserService, send, success,
}
use userservice.Router.Statuses.{
  well_sent, IsUnsent, success-well_sent, set_cookie-IsUnsent, set_location-IsUnsent,
}
use userservice.Validation.{Validator}
use userservice.Router.Sessions.{post_logout, get_valid, get_login_otp}

-- Every code that the validator gives is a status.
pub record StatusCodes {S : Type 0} (v : Validator S) : Type 0 where
  pub login : (uid rmt : String) → Gives (v.login uid rmt) (λ x. is_status x.1 ≡ true)
  pub logout : (token : String) → Gives (v.logout token) (λ x. is_status x.1 ≡ true)
  pub valid : (token : String) → Gives (v.valid token) (λ x. is_status x.1 ≡ true)
  pub otp : (uid rmt page : String) → Gives (v.otp uid rmt page) (λ x. is_status x.1 ≡ true)
  pub login_otp : (pad : String) → Gives (v.login_otp pad) (λ x. is_status x.1 ≡ true)
  pub complete_otp : (pad : String) → Gives (v.complete_otp pad) (λ x. is_status x.1 ≡ true)

module _ {S : Type 0} (us : UserService S) (codes : StatusCodes us.validator) (r : Request) where
  pub get_login_otp-well_sent : Gives (get_login_otp us r) (λ x. well_sent x ≡ true)
  unfolding get_login_otp send success
  get_login_otp-well_sent = run_gives _ (
      return_if_returns _ _ _ (λ b. refl)
        (λ b.
          call_gives _ _ (codes.login_otp _)
            (λ loc good. call_returns _ _ (λ now. finish_returns _ good))))

  pub post_logout-well_sent : Gives (post_logout us r) (λ x. well_sent x ≡ true)
  unfolding post_logout success send
  post_logout-well_sent = elim (Option-cases (r.cookie "us-authn")) [
    | inl missing ↦ rw (post_logout, missing) (gives _ _ (λ s. refl))
    | inr (token, held) ↦
        rw (post_logout, held)
          (run_gives _ (
            call_gives _ _ (codes.logout token) (λ out good.
              finish_returns _
                (success-well_sent out.1 [] _ (set_cookie-IsUnsent out.0 new_response refl) good))))
  ]

  -- The page to log in, with a cookie that is not accepted.
  away-IsUnsent :
      (b : Bool) (w : Response)
      → IsUnsent w
      → IsUnsent (if b then set_location us.logon_url w else w)
  away-IsUnsent true w unsent = set_location-IsUnsent us.logon_url w unsent
  away-IsUnsent false w unsent = unsent

  pub get_valid-well_sent : Gives (get_valid us r) (λ x. well_sent x ≡ true)
  unfolding get_valid success send
  get_valid-well_sent = elim (Option-cases (r.cookie "us-authn")) [
    | inl missing ↦ rw (get_valid, missing) (gives _ _ (λ s. refl))
    | inr (token, held) ↦
        rw (get_valid, held)
          (run_gives _ (
            call_gives _ _ (codes.valid token) (λ checked good. finish_returns _ (
              success-well_sent checked.1 [] _
                (away-IsUnsent (checked.1 == 307) (set_cookie (some checked.0) new_response) refl)
                good))))
  ]
