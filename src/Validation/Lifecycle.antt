-- ===== src/Validation/Lifecycle.antt =====
-- Calls one after the other: a session from its login to its logout, a pad from its issue to its use.
use userservice.Prelude.{
  String, ◌≡◌, ◌≢◌, refl, ◌⊎◌, inl, inr, true, false, none, some, arith, contains, Bool-cases,
  Option-cases, ◌∙◌, eq_iff,
}
use userservice.Redis.Laws.{View}
use userservice.Validation.{
  Core, login, logout, valid, otp, login_otp, login_otp_user, complete_otp, logins_key, token_key,
  userid,
}
use userservice.Validation.Laws.{CoreLaws}
use userservice.Validation.Count.{IsDead}
use userservice.Validation.Keys.{Session}
use userservice.Validation.Logins.{login_rule}
use userservice.Validation.Sessions.{valid_rule}
use userservice.Validation.Logout.{session_fields, logout_rule}
use userservice.Validation.Pads.{otp_rule, login_otp_rule}
use userservice.Validation.Clearing.{pad_fields}
use userservice.Validation.Completion.{complete_otp_rule}

-- The key holds a session and nothing else.
abbrev pub IsSession : View → String → Type 0
IsSession w k =
    ((f : String) → contains f session_fields ≡ false → w.hash k f ≡ none) × (w.card k ≡ 0)

-- What only shrank, and lost its session's fields, is dead.
IsDead-of_ended :
    (w w' : View) (k : String)
    → IsSession w k
    → ((f x : String) → w'.hash k f ≡ some x → w.hash k f ≡ some x)
    → ((f : String) → contains f session_fields ≡ true → w'.hash k f ≡ none)
    → IsDead w' k
IsDead-of_ended w w' k h fewer ended f = elim (Bool-cases (contains f session_fields)) [
  | inl old ↦ ended f old
  | inr other ↦ elim (Option-cases (w'.hash k f)) [
    | inl gone ↦ gone
    | inr (x, e) ↦ cc (fewer f x e, h.0 f other)
  ]
]

session_field-pad_field :
    (f : String) → contains f session_fields ≡ true → contains f pad_fields ≡ true
unfolding contains
session_field-pad_field f h = ground arith

-- Reading a pad that has a user and a page.
login_otp_user-found :
    (uid page : String) → uid ≢ "" → page ≢ "" → login_otp_user (some uid) (some page) ≡ (page, 302)
unfolding login_otp_user
login_otp_user-found uid page u p = ground (arith, eq_iff uid "", eq_iff page "")

module _ {S : Type 0} (v : Core S) (view : S → View) (laws : CoreLaws v view) (s : S) where
  -- A login that succeeds stores the session of its user under the token that its cookie holds, and
  -- lists it; the token is then accepted, unless redis fails.
  pub login-valid :
      (uid rmt : String)
      → (login v uid rmt s).0.1 ≡ 200
      → let ((cookie, _), s') = login v uid rmt s in
        Session uid rmt cookie.value (view s')
        × (((valid v cookie.value s').0.1 ≡ 204) ⊎ ((valid v cookie.value s').0.1 ≡ 500))
  login-valid uid rmt h =
      let r = (login_rule v view laws (view s) uid rmt).at s refl in
      let session = r.session h in
      let cookie = (login v uid rmt s).0.0 in
      let s' = (login v uid rmt s).1 in
      let checked = (valid_rule v view laws (view s') cookie.value).at s' refl in
      (session, ground (arith, checked.codes, checked.known userid uid session.user))

  -- After a logout that succeeds the token is no longer accepted. The key of the token held a session
  -- and nothing else.
  pub logout-valid :
      (token : String)
      → IsSession (view s) (token_key token)
      → (logout v token s).0.1 ≡ 204
      → (valid v token (logout v token s).1).0.1 ≢ 204
  logout-valid token held h =
      let r = (logout_rule v view laws (view s) token).at s refl in
      let s' = (logout v token s).1 in
      let dead =
        IsDead-of_ended (view s) (view s') (token_key token) held r.shrunk.fields (r.ended h) in
      ((valid_rule v view laws (view s') token).at s' refl).gone dead
        (omega (arith, r.shrunk.fewer (token_key token), held.1))

  -- A pad that was issued sends its holder to the page that was asked for, unless redis fails. The
  -- user and the page are not empty.
  pub otp-login_otp :
      (uid rmt page : String)
      → uid ≢ ""
      → page ≢ ""
      → (otp v uid rmt page s).0.1 ≡ 200
      → let ((pad, _), s') = otp v uid rmt page s in
        ((login_otp v pad s').0 ≡ (page, 302)) ⊎ ((login_otp v pad s').0 ≡ ("/", 500))
  otp-login_otp uid rmt page u p h =
      let pad = ((otp_rule v view laws (view s) uid rmt page).at s refl).pad h in
      let s' = (otp v uid rmt page s).1 in
      let r = (login_otp_rule v view laws (view s') (otp v uid rmt page s).0.0).at s' refl in
      elim r.answer [
        | inl e ↦ inl (e ∙ rw (pad.user, pad.page) (login_otp_user-found uid page u p))
        | inr e ↦ inr e
      ]

  -- A pad that was issued is completed, if at all, for the user for whom it was issued.
  pub otp-complete_otp :
      (uid rmt page : String)
      → (otp v uid rmt page s).0.1 ≡ 200
      → (complete_otp v (otp v uid rmt page s).0.0 (otp v uid rmt page s).1).0.1 ≡ 200
      → (complete_otp v (otp v uid rmt page s).0.0 (otp v uid rmt page s).1).0 ≡ (uid, 200)
  otp-complete_otp uid rmt page h c =
      let pad = ((otp_rule v view laws (view s) uid rmt page).at s refl).pad h in
      let s' = (otp v uid rmt page s).1 in
      let r = (complete_otp_rule v view laws (view s') (otp v uid rmt page s).0.0).at s' refl in
      ground (arith, pad.user, r.user c)

  -- A pad that is completed ends every session of its user: a token on the user's set, whose key held
  -- a session and nothing else, is no longer accepted.
  pub complete_otp-valid :
      (pad token : String)
      → IsSession (view s) (token_key token)
      → (complete_otp v pad s).0.1 ≡ 200
      → (view s).has (logins_key (complete_otp v pad s).0.0) (token_key token) ≡ true
      → (valid v token (complete_otp v pad s).1).0.1 ≢ 204
  complete_otp-valid pad token held h listed =
      let r = (complete_otp_rule v view laws (view s) pad).at s refl in
      let s' = (complete_otp v pad s).1 in
      let dead =
        IsDead-of_ended (view s) (view s') (token_key token) held (r.fewer.fields (token_key token))
          (λ f e. (r.ended h).hashes (token_key token) f listed (session_field-pad_field f e)) in
      ((valid_rule v view laws (view s') token).at s' refl).gone dead
        (omega (arith, r.fewer.sizes (token_key token), held.1))
