-- ===== src/Router/Passwords/Logins.antt =====
-- `PostLogin`, and what `GetAuth` discloses.
use userservice.Prelude.{
  String, str_eq, ◌≡◌, ◌↔◌, ◌≢◌, refl, sym, ap, ◌∙◌, Option, none, some, List, [], ◌∷◌, arith,
  if◌then◌else◌,
}
use mathlib.Core.Path.{subst}
use userservice.Flow.{ok, run}
use userservice.Flow.Spec.{
  Does, does_exactly, does_weaken, call_then, given_then, return_if_then, finish_rule, run_rule,
}
use userservice.Http.{Cookie, status_ok}
use userservice.Shared.{Error, BasicAuth, redact}
use userservice.Router.{
  Request, Served, send, success, refused, UserService, cookies_of, location_of,
}
use userservice.Router.Passwords.{welcome, shown, get_auth, post_login}

-- The row that `GetAuth` finds, and its error.
abbrev pub auth_of : {S : Type 0} → UserService S → Request → S → BasicAuth × Option Error
auth_of us r s = (us.auther.get_auth_by_attrs none (some (r.url_param "username")) s).0

shown_redacted :
    (json : BasicAuth → String) (a : BasicAuth) (e : Option Error)
    → shown json a e ≡ shown json (redact a) e
unfolding shown redact
shown_redacted json a none = refl
shown_redacted json a (some e) = refl

get_auth-shown :
    {S : Type 0} (us : UserService S) (r : Request) (s : S)
    → (get_auth us r s).0 ≡ (
        if str_eq (r.url_param "username") ""
        then refused 400 ("missing parameter" ∷ [])
        else shown us.json_of_auth (auth_of us r s).0 (auth_of us r s).1)
unfolding run get_auth
get_auth-shown us r s = ground arith

-- Two services that encode alike and find rows that differ at most in password and salt, with the
-- same error, answer GET /auth/{username} alike: the answer depends on neither.
pub get_auth_redacted :
    {S : Type 0} (us us' : UserService S) (r : Request) (s : S)
    → us.encoding ≡ us'.encoding
    → redact (auth_of us r s).0 ≡ redact (auth_of us' r s).0
    → (auth_of us r s).1 ≡ (auth_of us' r s).1
    → (get_auth us r s).0 ≡ (get_auth us' r s).0
get_auth_redacted us us' r s same rows errors =
    rw
      (
        get_auth-shown us r s,
        get_auth-shown us' r s,
        shown_redacted us.json_of_auth (auth_of us r s).0 (auth_of us r s).1,
        shown_redacted us'.json_of_auth (auth_of us' r s).0 (auth_of us' r s).1,
        same,
        rows,
        errors,
      )
      refl

module _ {S : Type 0} (us : UserService S) (r : Request) where
  -- A login that the database and the validator both accept.
  pub data Accepted (s : S) : Cookie → Type 0 where
    accepted :
        (body : String) (given found : BasicAuth) (cookie : Cookie) (s1 s2 : S)
        → r.body ≡ ok body
        → us.auth_of_json body ≡ ok given
        → us.auther.login given s ≡ ((found, none), s1)
        → us.validator.login found.uuid r.remote_addr s1 ≡ ((cookie, status_ok), s2)
        → Accepted s cookie

  -- The answer of a login with this cookie.
  abbrev pub Entered : Served → Cookie → Type 0
  Entered x cookie = (cookies_of x ≡ cookie ∷ []) × (location_of x ≡ some us.success_url)

  pub post_login_rule :
      (s : S)
      → Does
          (λ s'. s')
          s
          (post_login us r)
          (λ x s'. cookies_of x ≢ [] → (cookie : Cookie) × Accepted s cookie)
  unfolding post_login send success
  post_login_rule s = run_rule _ (
      given_then _ _ _ (λ e b z. absurd (z refl))
        (λ body b.
          given_then _ _ _ (λ e b z. absurd (z refl))
            (λ given g. call_then _ _ (
              does_weaken (does_exactly _ s) (λ found s1 f.
                return_if_then _ _ _ (λ bad z. absurd (z refl))
                  (λ fine. call_then _ _ (
                    does_weaken (does_exactly _ s1) (λ session s2 l.
                      return_if_then _ _ _ (λ bad z. absurd (z refl))
                        (λ good. finish_rule _ (λ z. (
                          session.0,
                          accepted body given found.0 session.0 s1 s2 b g (ground (arith, f))
                              (ground (arith, l)),
                        )))))))))))

  pub post_login_done :
      (s : S) (cookie : Cookie) → Accepted s cookie → Entered (post_login us r s).0 cookie
  unfolding run post_login send success welcome
  post_login_done s cookie (accepted body given found c s1 s2 b g f l) =
      (rw (b, g, f, l) refl, rw (b, g, f, l) refl)

  -- POST /auth sets a cookie exactly when the body is a login that `Auther.Login` accepts and
  -- `Validator.Login` gives a session for the user that was found; and it sets a given cookie and no
  -- other, with the page of success as the Location, exactly when that is the session's cookie.
  pub post_login_iff :
      (s : S) (cookie : Cookie)
      → ((cookies_of (post_login us r s).0 ≢ []) ↔ ((c : Cookie) × Accepted s c))
        × (Entered (post_login us r s).0 cookie ↔ Accepted s cookie)
  post_login_iff s cookie =
      let sound = (post_login_rule s).at s refl in
      (
        (sound, λ q e. ground (arith, (post_login_done s q.0 q.1).0, e)),
        (
          λ h.
              let (c, a) = sound (λ e. ground (arith, h.0, e)) in
              subst (Accepted s) (only (sym (post_login_done s c a).0 ∙ h.0)) a,
          post_login_done s cookie,
        ),
      )
    where
      head : Cookie → List Cookie → Cookie
      head c [] = c
      head c (d ∷ ds) = d

      only : {c d : Cookie} → c ∷ [] ≡ d ∷ [] → c ≡ d
      only {c = c} e = ap (head c) e
