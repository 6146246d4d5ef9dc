-- ===== src/Router/Passwords/Changes.antt =====
-- When `PatchLogin` changes a password: with the one in use, or with a pad of that very user.
use userservice.Prelude.{
  ℕ, String, eq_iff, Option-cases, ◌≡◌, ◌≢◌, refl, ◌∙◌, none, some, List, arith, inl, inr,
}
use userservice.Flow.{ok}
use userservice.Flow.Spec.{
  Does, Ensures, does_exactly, does_weaken, call_then, given_then, return_if_then, finish_rule,
  run_rule,
}
use userservice.Http.{Cookie, status_ok}
use userservice.Router.{
  Request, Response, new_response, set_cookie, send, success, UserService, location_of,
}
use userservice.Router.Passwords.{no_pad, welcome, pad_password, authn_pad, change_of, patch_login}

set_cookie_location : (w : Response) → (set_cookie (some no_pad) w).location ≡ w.location
set_cookie_location w = ground arith

send_location :
    (code : ℕ) (messages : List String) (w : Response)
    → (send code messages w).location ≡ w.location
unfolding send
send_location code messages w = ground arith

module _ {S : Type 0} (us : UserService S) where
  -- The right to change the password: the request has no pad and the old password is the one to
  -- change from; or it has a pad, which `CompleteOTP` says is the user's, and the one to change from
  -- is the password to which the user's was then reset.
  pub data Granted (r : Request) (id old : String) (s : S) : String → S → Type 0 where
    by_password : r.cookie "authn-pad" ≡ none → Granted r id old s old s
    by_pad :
        (pad from : String) (s1 s2 : S)
        → r.cookie "authn-pad" ≡ some pad
        → us.validator.complete_otp pad s ≡ ((id, status_ok), s1)
        → us.auther.reset_password (some id) s1 ≡ ((from, none), s2)
        → Granted r id old s from s2

  pad-Granted :
      (r : Request) (pad id old : String) (s : S)
      → r.cookie "authn-pad" ≡ some pad
      → Does
          (λ s'. s')
          s
          (pad_password us pad id old)
          (λ p s'. p.1 ≡ status_ok → Granted r id old s p.0 s')
  unfolding pad_password
  pad-Granted r pad id old s h = run_rule _ (
      call_then _ _ (
        does_weaken (does_exactly _ s) (λ done s1 d.
          return_if_then _ _ _ (λ bad z. ground arith)
            (λ good.
              return_if_then _ _ _ (λ bad z. ground arith)
                (λ own. call_then _ _ (
                  does_weaken (does_exactly _ s1) (λ pwd s2 p.
                    return_if_then _ _ _ (λ bad z. ground arith)
                      (λ fine. finish_rule _ (λ z.
                        by_pad pad pwd.0 s1 s2 h (ground (arith, d, eq_iff done.0 id))
                          (ground (arith, p)))))))))))

  pub authn_pad-Granted :
      (r : Request) (id old : String) (w : Response) (s : S)
      → Does
          (λ s'. s')
          s
          (authn_pad us r id old w)
          (λ p s'. (p.2 ≡ status_ok → Granted r id old s p.1 s') × (p.0.location ≡ w.location))
  unfolding authn_pad
  authn_pad-Granted r id old w s = elim (Option-cases (r.cookie "authn-pad")) [
    | inl absent ↦ record {
      at = λ s' e. rw (e, authn_pad, absent) ((λ z. by_password absent), refl);
    }
    | inr (pad, h) ↦ record {
      at = λ s' e.
          rw (e, authn_pad, h)
            ((λ z. (pad-Granted r pad id old s h).at s refl z), set_cookie_location w);
    }
  ]

  -- What an answer that sends the client to the page of success comes from.
  pub data Changed (r : Request) (s : S) : Type 0 where
    changed :
        (body old new from : String) (cookie : Cookie) (s1 s2 s3 : S)
        → r.body ≡ ok body
        → us.passwords_of_json body ≡ ok (old, new)
        → Granted r (r.url_param "user_id") old s from s1
        → us.auther.change_password (r.url_param "user_id") from new s1 ≡ (none, s2)
        → us.validator.login (r.url_param "user_id") r.remote_addr s2 ≡ ((cookie, status_ok), s3)
        → Changed r s

  patch_login-Granted :
      (r : Request) (body : String) (pair : String × String) (s : S)
      → r.body ≡ ok body
      → us.passwords_of_json body ≡ ok pair
      → Ensures
          (λ s'. s')
          s
          (change_of us r pair)
          (λ x s'. location_of x ≢ none → Changed r s)
          (λ x s'. location_of x ≢ none → Changed r s)
  unfolding change_of
  patch_login-Granted r body pair s b p = call_then _ _ (
      does_weaken (authn_pad-Granted r (r.url_param "user_id") pair.0 new_response s) (λ pad s1 g.
        return_if_then _ _ _ (λ bad z. absurd (z (send_location _ _ pad.0 ∙ g.1)))
          (λ good. call_then _ _ (
            does_weaken (does_exactly _ s1) (λ e s2 c.
              return_if_then _ _ _ (λ bad z. absurd (z (send_location _ _ pad.0 ∙ g.1)))
                (λ fine. call_then _ _ (
                  does_weaken (does_exactly _ s2) (λ session s3 l.
                    return_if_then _ _ _ (λ bad z. absurd (z (send_location _ _ pad.0 ∙ g.1)))
                      (λ done. finish_rule _ (λ z.
                        changed body pair.0 pair.1 pad.1 session.0 s1 s2 s3 b p
                          (g.0 (ground (arith, good))) (ground (arith, c))
                          (ground (arith, l))))))))))))

  -- Every response of `PatchLogin` with a Location: there was a right to change the password, it was
  -- changed, and the user was logged in.
  patch_login_rule :
      (r : Request) (s : S)
      → Does (λ s'. s') s (patch_login us r) (λ x s'. location_of x ≢ none → Changed r s)
  unfolding patch_login send success welcome
  patch_login_rule r s = run_rule _ (
      return_if_then _ _ _ (λ bad z. absurd (z refl))
        (λ named.
          given_then _ _ _ (λ e b z. absurd (z refl))
            (λ body b.
              given_then _ _ _ (λ e p z. absurd (z refl))
                (λ pair p. patch_login-Granted r body pair s b p))))

  -- When the answer to a PATCH /auth/{user_id} has a Location, the body gave two passwords; the request
  -- had no pad and the password was changed from the given old one, or the pad was completed as that
  -- user's own, the password reset, and changed from the one it was reset to; and `Validator.Login`
  -- then gave a session.
  pub patch_login-Changed :
      (r : Request) (s : S) → location_of (patch_login us r s).0 ≢ none → Changed r s
  patch_login-Changed r s = (patch_login_rule r s).at s refl
