-- ===== src/Router/Sessions/Pads.antt =====
-- A pad that the validator's core issued, opened at /otp/{pad}.
use userservice.Prelude.{ℕ, String, unequal, ◌≡◌, ◌≢◌, refl, ap, ◌∙◌, ◌⊎◌, inl, inr, some, [], ◌∷◌}
use mathlib.Core.Path.{subst}
use userservice.Flow.{run}
use userservice.Redis.Laws.{View}
use userservice.Validation.{Core, validator, otp, login_otp}
use userservice.Validation.Laws.{CoreLaws}
use userservice.Validation.Lifecycle.{otp-login_otp}
use userservice.Router.{
  Request, Served, send, success, UserService, location_of, status_of, cookies_of,
}
use userservice.Router.Sessions.{pad_cookie, get_login_otp}

-- An answer that leads to a page with a status and keeps the pad in a cookie, from some time on.
pub record Leads (x : Served) (pad page : String) (code : ℕ) : Type 0 where
  pub location : location_of x ≡ some page
  pub status : status_of x ≡ some code
  pub cookie : (t : ℕ) × (cookies_of x ≡ pad_cookie pad t ∷ [])

module _ {S : Type 0} (us : UserService S) (v : Core S) (view : S → View) (laws : CoreLaws v view)
    (on_core : us.validator ≡ validator v) where
  get_login_otp-Leads :
      (r : Request) (s : S)
      → r.url_param "pad" ≢ ""
      → let (page, code) = (login_otp v (r.url_param "pad") s).0 in
        Leads (get_login_otp us r s).0 (r.url_param "pad") page code
  unfolding run get_login_otp success send
  get_login_otp-Leads r s ne =
      rw (get_login_otp, unequal ne, on_core)
        (record { location = refl; status = refl; cookie = (_, refl) })

  -- A pad that `OTP` issued for a user and a page, neither empty, opened at /otp/{pad}: the answer is a 302
  -- to that page, or a 500 to "/" when redis fails, and has the pad in the cookie "authn-pad".
  pub otp-get_login_otp :
      (r : Request) (s : S) (uid rmt page : String)
      → uid ≢ ""
      → page ≢ ""
      → (otp v uid rmt page s).0.1 ≡ 200
      → r.url_param "pad" ≡ (otp v uid rmt page s).0.0
      → r.url_param "pad" ≢ ""
      → let x = (get_login_otp us r (otp v uid rmt page s).1).0 in
        Leads x (r.url_param "pad") page 302 ⊎ Leads x (r.url_param "pad") "/" 500
  otp-get_login_otp r s uid rmt page u p issued same ne =
      let s' = (otp v uid rmt page s).1 in
      let leads = get_login_otp-Leads r s' ne in
      let at_pad = ap (λ q. (login_otp v q s').0) same in
      elim (otp-login_otp v view laws s uid rmt page u p issued) [
        | inl e ↦ inl (
            subst (λ a. Leads (get_login_otp us r s').0 (r.url_param "pad") a.0 a.1) (at_pad ∙ e)
              leads)
        | inr e ↦ inr (
            subst (λ a. Leads (get_login_otp us r s').0 (r.url_param "pad") a.0 a.1) (at_pad ∙ e)
              leads)
      ]
