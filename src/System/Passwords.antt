-- ===== src/System/Passwords.antt =====
-- A change of password over HTTP, down to the user's row and the pad in redis.
use userservice.Prelude.{ℕ, ◌≤◌, String, ◌≡◌, ◌≢◌, refl, ap, ◌∙◌, Option, none, some}
use userservice.Flow.{Act}
use userservice.Shared.{Error, Message}
use userservice.Redis.{Authn}
use userservice.Redis.Laws.{View}
use userservice.Relational.{Conn, hash}
use userservice.Relational.BasicAuth.Laws.{Credentials, Table, AuthLaws}
use userservice.Relational.BasicAuth.Passwords.{change_password_rule}
use userservice.Validation.{new_validator, pad_key, userid}
use userservice.Validation.Laws.{CoreLaws}
use userservice.Validation.Completion.{complete_otp_rule}
use userservice.Router.{Request, Encoding, UserService, location_of}
use userservice.Router.Passwords.{patch_login}
use userservice.Router.Passwords.Changes.{
  Granted, by_password, by_pad, Changed, changed, patch_login-Changed,
}
use userservice.Config.{Config}
use userservice.System.{sessions, service}

module _ {S : Type 0} (db : Conn S) (fuel : ℕ) (authn : Authn S) (cfg : Config) (now : Act S ℕ)
    (fresh : Act S String) (mail sms : Option Message → Act S (Option Error)) (enc : Encoding)
    (table : S → Table) (db_laws : AuthLaws db table) (view : S → View)
    (core_laws : CoreLaws (new_validator authn (sessions cfg) now fresh) view) where
  abbrev us : UserService S
  us = service db fuel authn cfg now fresh mail sms enc

  -- The client knows the password in use, or holds a pad that was issued for the user.
  pub data Authentic (r : Request) (a : Credentials) (s : S) : Type 0 where
    knows :
        (old : String)
        → r.cookie "authn-pad" ≡ none
        → a.failure_count ≤ 3
        → hash old a.salt ≡ a.pass
        → Authentic r a s
    holds :
        (pad : String)
        → r.cookie "authn-pad" ≡ some pad
        → (view s).hash (pad_key pad) userid ≡ some (r.url_param "user_id")
        → Authentic r a s

  granted_authentic :
      (r : Request) (a : Credentials) (old from new : String) (s s1 : S)
      → table s (r.url_param "user_id") ≡ some a
      → Granted us r (r.url_param "user_id") old s from s1
      → (us.auther.change_password (r.url_param "user_id") from new s1).0 ≡ none
      → Authentic r a s
  granted_authentic r a old from new s s1 h (by_password absent) done =
      let c =
        (change_password_rule db table db_laws (table s) (r.url_param "user_id") old new a h
            (db_laws.keyed s _ a h)).at
          s refl in
      let (few, right, _, _, _) = c.allowed done in knows old absent few right
  granted_authentic r a old from new s s1 h (by_pad pad f t1 t2 held complete reset) done =
      let c = (complete_otp_rule _ view core_laws (view s) pad).at s refl in
      holds pad held (c.user (ap (λ x. x.0.1) complete) ∙ ap (λ x. some x.0.0) complete)

  -- When the answer to a PATCH /auth/{user_id} has a Location, for a user who has a row: the client knew
  -- the password in use, of a user who was not locked out, or held a pad whose hash in redis names
  -- that very user.
  pub patch_login_authentic :
      (r : Request) (a : Credentials) (s : S)
      → table s (r.url_param "user_id") ≡ some a
      → location_of (patch_login us r s).0 ≢ none
      → Authentic r a s
  patch_login_authentic r a s h answered = authentic (patch_login-Changed us r s answered)
    where
      authentic : Changed us r s → Authentic r a s
      authentic (changed body old new from cookie s1 s2 s3 b p granted done session) =
          granted_authentic r a old from new s s1 h granted (ap (λ x. x.0) done)
