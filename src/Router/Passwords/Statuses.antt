-- ===== src/Router/Passwords/Statuses.antt =====
-- The statuses of the handlers of /auth.
use userservice.Prelude.{ℕ, String, ◌≡◌, refl, true, Option, none, some, [], Option-cases, inl, inr}
use userservice.Flow.Results.{
  Gives, Returns, gives, given, run_gives, finish_returns, return_if_returns, call_returns,
  call_gives, attempt_returns,
}
use userservice.Shared.{Error, User, BasicAuth}
use userservice.Http.{Cookie, is_status}
use userservice.Router.{Request, Response, new_response, UserService, send, success}
use userservice.Router.Statuses.{
  well_sent, IsUnsent, send-well_sent, success-well_sent, set_cookie-IsUnsent,
  set_location-IsUnsent,
}
use userservice.Router.Sessions.Statuses.{StatusCodes}
use userservice.Router.Passwords.{
  shown, welcome, get_auth, post_login, pad_password, authn_pad, change_of, patch_login, send_reset,
  reset_found, forgotten, forgotten_by, delete_login,
}

shown-well_sent :
    (json : BasicAuth → String) (a : BasicAuth) (e : Option Error)
    → well_sent (shown json a e) ≡ true
unfolding shown send success
shown-well_sent json a none = refl
shown-well_sent json a (some e) = refl

welcome-well_sent :
    (code : ℕ) (url : String) (c : Cookie) (w : Response)
    → IsUnsent w
    → is_status code ≡ true
    → well_sent (welcome code url c w) ≡ true
unfolding welcome
welcome-well_sent code url c w unsent good =
    success-well_sent code [] _
      (set_location-IsUnsent url _ (set_cookie-IsUnsent (some c) w unsent)) good

module _ {S : Type 0} (us : UserService S) (codes : StatusCodes us.validator) (r : Request) where
  pub get_auth-well_sent : Gives (get_auth us r) (λ x. well_sent x ≡ true)
  unfolding get_auth send
  get_auth-well_sent = run_gives _ (
      return_if_returns _ _ _ (λ b. refl)
        (λ b.
          call_returns _ _
            (λ found. finish_returns _ (shown-well_sent us.json_of_auth found.0 found.1))))

  pub post_login-well_sent : Gives (post_login us r) (λ x. well_sent x ≡ true)
  unfolding post_login send success welcome
  post_login-well_sent = run_gives _ (
      attempt_returns _ _ _ (λ e. refl)
        (λ body.
          attempt_returns _ _ _ (λ e. refl)
            (λ login. call_returns _ _ (λ auth.
              return_if_returns _ _ _ (λ b. refl)
                (λ b. call_gives _ _ (codes.login _ _) (λ session good.
                  return_if_returns _ _ _ (λ b'. good) (λ b'. finish_returns _ refl)))))))

  pad_password-is_status :
      (pad id old : String) → Gives (pad_password us pad id old) (λ x. is_status x.1 ≡ true)
  unfolding pad_password
  pad_password-is_status pad id old = run_gives _ (
      call_gives _ _ (codes.complete_otp pad) (λ done good.
        return_if_returns _ _ _ (λ b. good)
          (λ b.
            return_if_returns _ _ _ (λ b'. refl)
              (λ b'.
                call_returns _ _
                  (λ pwd. return_if_returns _ _ _ (λ b''. refl) (λ b''. finish_returns _ refl))))))

  -- The response is as it was but for a cookie, and the status is one.
  authn_pad-is_status :
      (id old : String)
      → Gives (authn_pad us r id old new_response) (λ x. IsUnsent x.0 × (is_status x.2 ≡ true))
  unfolding authn_pad
  authn_pad-is_status id old = elim (Option-cases (r.cookie "authn-pad")) [
    | inl missing ↦ rw (authn_pad, missing) (gives _ _ (λ s. (refl, refl)))
    | inr (pad, held) ↦
        rw (authn_pad, held) (gives _ _ (λ s. (refl, given (pad_password-is_status pad id old) s)))
  ]

  change_of-well_sent :
      (pair : String × String) → Returns (change_of us r pair) (λ x. well_sent x ≡ true)
  unfolding change_of
  change_of-well_sent pair =
      call_gives _ _ (authn_pad-is_status (r.url_param "user_id") pair.0) (λ pad (unsent, good).
        return_if_returns _ _ _ (λ b. send-well_sent pad.2 [] pad.0 unsent good)
          (λ b. call_returns _ _ (λ e.
            return_if_returns _ _ _ (λ b'. send-well_sent 500 _ pad.0 unsent refl)
              (λ b'. call_gives _ _ (codes.login _ _) (λ session fine.
                return_if_returns _ _ _ (λ b''. send-well_sent session.1 _ pad.0 unsent fine)
                  (λ b''.
                    finish_returns _ (welcome-well_sent 204 _ session.0 pad.0 unsent refl)))))))

  pub patch_login-well_sent : Gives (patch_login us r) (λ x. well_sent x ≡ true)
  unfolding patch_login send
  patch_login-well_sent = run_gives _ (
      return_if_returns _ _ _ (λ b. refl)
        (λ b.
          attempt_returns _ _ _ (λ e. refl)
            (λ body. attempt_returns _ _ _ (λ e. refl) (λ pair. change_of-well_sent pair))))

  send_reset-well_sent :
      (url : String) (login user : User)
      → Returns (send_reset us r url login user) (λ x. well_sent x ≡ true)
  unfolding send_reset send success
  send_reset-well_sent url login user =
      return_if_returns _ _ _ (λ b. refl)
        (λ b.
          return_if_returns _ _ _ (λ b1. refl)
            (λ b1.
              return_if_returns _ _ _ (λ b2. refl)
                (λ b2. call_gives _ _ (codes.otp _ _ _) (λ pad good.
                  return_if_returns _ _ _ (λ b3. good)
                    (λ b3. call_returns _ _ (λ e.
                      return_if_returns _ _ _ (λ b4. refl)
                        (λ b4. call_returns _ _ (λ e'.
                          return_if_returns _ _ _ (λ b5. refl) (λ b5. finish_returns _ refl)))))))))

  reset_found-well_sent :
      (url : String) (login : User) (user : Option User)
      → Returns (reset_found us r url login user) (λ x. well_sent x ≡ true)
  unfolding reset_found
  reset_found-well_sent url login none = finish_returns _ refl
  reset_found-well_sent url login (some user) = send_reset-well_sent url login user

  forgotten_by-well_sent :
      (body : String) (login : Option User)
      → Returns (forgotten_by us r body login) (λ x. well_sent x ≡ true)
  unfolding forgotten_by forgotten send
  forgotten_by-well_sent body none = finish_returns _ refl
  forgotten_by-well_sent body (some login) =
      return_if_returns _ _ _ (λ b. refl)
        (λ b.
          return_if_returns _ _ _ (λ b1. refl)
            (λ b1. call_returns _ _ (λ user.
              return_if_returns _ _ _ (λ b2. refl) (λ b2. reset_found-well_sent _ login user.0))))

  pub delete_login-well_sent : Gives (delete_login us r) (λ x. well_sent x ≡ true)
  unfolding delete_login send
  delete_login-well_sent = run_gives _ (
      attempt_returns _ _ _ (λ e. refl)
        (λ body. attempt_returns _ _ _ (λ e. refl) (λ login. forgotten_by-well_sent body login)))
