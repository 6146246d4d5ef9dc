-- ===== src/System/Logins.antt =====
-- A login over HTTP, down to the user's row and the session in redis.
use userservice.Prelude.{ℕ, ◌≤◌, String, ◌≡◌, ◌≢◌, refl, sym, ap, ◌∙◌, Option, none, some, [], ◌∷◌}
use mathlib.Core.Path.{subst}
use userservice.Flow.{Act, ok, run}
use userservice.Http.{Cookie, status_ok}
use userservice.Shared.{Error, Message, BasicAuth}
use userservice.Redis.{Authn}
use userservice.Redis.Laws.{View}
use userservice.Relational.{Conn, hash}
use userservice.Relational.BasicAuth.Laws.{Credentials, Table, AuthLaws}
use userservice.Relational.BasicAuth.Logins.{login_rule}
use userservice.Validation.{new_validator}
use userservice.Validation.Laws.{CoreLaws}
use userservice.Validation.Keys.{Session}
use userservice.Validation.Lifecycle.{login-valid}
use userservice.Router.{Request, Encoding, UserService, cookies_of}
use userservice.Router.Passwords.{post_login}
use userservice.Router.Passwords.Logins.{Accepted, accepted, post_login_rule, post_login_done}
use userservice.Config.{Config}
use userservice.System.{sessions, service}

module _ {S : Type 0} (us : UserService S) (r : Request) where
  -- The world after a login that both stores accept.
  post_login-end :
      (body : String) (given found : BasicAuth) (cookie : Cookie) (s s1 s2 : S)
      → r.body ≡ ok body
      → us.auth_of_json body ≡ ok given
      → us.auther.login given s ≡ ((found, none), s1)
      → us.validator.login found.uuid r.remote_addr s1 ≡ ((cookie, status_ok), s2)
      → (post_login us r s).1 ≡ s2
  unfolding run post_login
  post_login-end body given found cookie s s1 s2 b g f l = rw (b, g, f, l) refl

module _ {S : Type 0} (db : Conn S) (fuel : ℕ) (authn : Authn S) (cfg : Config) (now : Act S ℕ)
    (fresh : Act S String) (mail sms : Option Message → Act S (Option Error)) (enc : Encoding)
    (table : S → Table) (db_laws : AuthLaws db table) (view : S → View)
    (core_laws : CoreLaws (new_validator authn (sessions cfg) now fresh) view) where
  abbrev us : UserService S
  us = service db fuel authn cfg now fresh mail sms enc

  -- The password was right for the row `a`, of a user who was not locked out, and the cookie names a
  -- session of that user from the request's address.
  pub record LoggedIn (r : Request) (given : BasicAuth) (a : Credentials) (s : S) (cookie : Cookie)
      : Type 0 where
    pub few : a.failure_count ≤ 3
    pub right : hash given.pass a.salt ≡ a.pass
    pub sent : cookies_of (post_login us r s).0 ≡ cookie ∷ []
    pub session : Session a.uuid r.remote_addr cookie.value (view (post_login us r s).1)

  Accepted-LoggedIn :
      (r : Request) (body : String) (given : BasicAuth) (a : Credentials) (s : S) (cookie : Cookie)
      → r.body ≡ ok body
      → enc.auth_of_json body ≡ ok given
      → table s given.uuid ≡ some a
      → cookies_of (post_login us r s).0 ≡ cookie ∷ []
      → Accepted us r s cookie
      → LoggedIn r given a s cookie
  Accepted-LoggedIn r body given a s cookie b g h sent
        (accepted body' given' found c s1 s2 b' g' f l) =
      let same : given' ≡ given = cc (b, b', g, g') in
      let f' = subst (λ x. us.auther.login x s ≡ ((found, none), s1)) same f in
      let o =
        (login_rule db table db_laws (table s) given a h (db_laws.keyed s given.uuid a h)).at s
          refl in
      let fine = ap (λ x. x.0.1) f' in
      let (few, right) = o.sound fine in
      let found_uuid = sym (ap (λ x. x.0.0.uuid) f') ∙ (o.passed fine).0 in
      let made = (login-valid _ view core_laws s1 found.uuid r.remote_addr (ap (λ x. x.0.1) l)).0 in
      let there = subst (λ x. Session found.uuid r.remote_addr x.0.0.value (view x.1)) l made in
      record {
        few = few;
        right = right;
        sent = sent;
        session =
            subst (λ t. Session a.uuid r.remote_addr cookie.value (view t))
              (sym (post_login-end us r body' given' found cookie s s1 s2 b' g' f l))
              (subst (λ u. Session u r.remote_addr cookie.value (view s2)) found_uuid there);
      }

  -- When POST /auth, with a body that names a user who has a row, sets a cookie: the password of the body was
  -- right for that row, the user was not locked out, the answer has that cookie alone, and redis
  -- holds under it a session of the user from the request's address, on the user's set.
  pub post_login_authentic :
      (r : Request) (body : String) (given : BasicAuth) (a : Credentials) (s : S)
      → r.body ≡ ok body
      → enc.auth_of_json body ≡ ok given
      → table s given.uuid ≡ some a
      → cookies_of (post_login us r s).0 ≢ []
      → (cookie : Cookie) × LoggedIn r given a s cookie
  post_login_authentic r body given a s b g h some_cookie =
      let (cookie, sound) = (post_login_rule us r s).at s refl some_cookie in
      let entered = post_login_done us r s cookie sound in
      (cookie, Accepted-LoggedIn r body given a s cookie b g h entered.0 sound)
