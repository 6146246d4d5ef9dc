-- ===== src/Router/Passwords/Resets.antt =====
-- To whom `DeleteLogin` sends a pad: to the addresses on record, and only if those given match them.
use userservice.Prelude.{
  ℕ, String, eq_iff, unequal, ◌≡◌, ◌≢◌, ◌↔◌, refl, ap, true, false, Option, none, some, [], arith,
  lookup,
}
use userservice.Flow.{ok, run}
use userservice.Flow.Spec.{
  Does, Ensures, does_exactly, does_weaken, call_then, given_then, return_if_then, finish_rule,
  run_rule,
}
use userservice.Shared.{User, is_undeliverable, password_reset_email, password_reset_sms}
use userservice.Router.{Request, send, success, succeeded, UserService, succeeds}
use userservice.Router.Passwords.{
  mismatch, redirect_of, send_reset, reset_found, forgotten, forgotten_by, delete_login,
}

module _ {S : Type 0} (us : UserService S) (r : Request) where
  -- From a user on record, a pad for that user, sent to the addresses on record; the pad's status
  -- is not looked at.
  pub data Sent (url : String) (login user : User) (s : S) : Type 0 where
    sent :
        (pad : String) (code : ℕ) (s1 s2 s3 : S)
        → is_undeliverable user ≡ false
        → mismatch login.email user.email ≡ false
        → mismatch login.cell user.cell ≡ false
        → us.validator.otp user.uuid r.remote_addr url s ≡ ((pad, code), s1)
        → pad ≢ ""
        → us.send_mail (password_reset_email user r.host pad) s1 ≡ (none, s2)
        → us.send_sms (password_reset_sms user r.host pad) s2 ≡ (none, s3)
        → Sent url login user s

  -- From the body, with the user that it names.
  pub data Requested (s : S) : Type 0 where
    requested :
        (body url : String) (login user : User) (s1 : S)
        → r.body ≡ ok body
        → us.user_pointer_of_json body ≡ ok (some login)
        → is_undeliverable login ≡ false
        → redirect_of (lookup "redirect" (us.strings_of_json body)) ≡ url
        → url ≢ ""
        → us.userer.get_user login.uuid s ≡ ((some user, none), s1)
        → Sent url login user s1
        → Requested s

  send_reset_rule :
      (url : String) (login user : User) (s : S) (Q : Type 0)
      → (Sent url login user s → Q)
      → Ensures
          (λ s'. s')
          s
          (send_reset us r url login user)
          (λ x s'. succeeds x ≡ true → Q)
          (λ x s'. succeeds x ≡ true → Q)
  unfolding send_reset send success
  send_reset_rule url login user s Q k =
      return_if_then _ _ _ (λ bad z. ground arith)
        (λ able.
          return_if_then _ _ _ (λ bad z. ground arith)
            (λ mail.
              return_if_then _ _ _ (λ bad z. ground arith)
                (λ cell. call_then _ _ (
                  does_weaken (does_exactly _ s) (λ pad s1 o.
                    return_if_then _ _ _ (λ bad z. ground arith)
                      (λ made. call_then _ _ (
                        does_weaken (does_exactly _ s1) (λ e s2 m.
                          return_if_then _ _ _ (λ bad z. ground arith)
                            (λ fine. call_then _ _ (
                              does_weaken (does_exactly _ s2) (λ e' s3 t.
                                return_if_then _ _ _ (λ bad z. ground arith)
                                  (λ good. finish_rule _ (λ z. k (
                                    sent pad.0 pad.1 s1 s2 s3 able mail cell o
                                      (λ n. ground (arith, eq_iff pad.0 "")) (ground (arith, m))
                                      (ground (arith, t))))))))))))))))

  reset_found_rule :
      (body url : String) (login : User) (user : Option User) (s s1 : S)
      → r.body ≡ ok body
      → us.user_pointer_of_json body ≡ ok (some login)
      → is_undeliverable login ≡ false
      → redirect_of (lookup "redirect" (us.strings_of_json body)) ≡ url
      → url ≢ ""
      → us.userer.get_user login.uuid s ≡ ((user, none), s1)
      → Ensures
          (λ s'. s')
          s1
          (reset_found us r url login user)
          (λ x s'. succeeds x ≡ true → Requested s)
          (λ x s'. succeeds x ≡ true → Requested s)
  unfolding reset_found
  reset_found_rule body url login none s s1 b l able named ne found =
      finish_rule _ (λ z. ground arith)
  reset_found_rule body url login (some user) s s1 b l able named ne found =
      send_reset_rule url login user s1 (Requested s)
        (λ done. requested body url login user s1 b l able named ne found done)

  forgotten_rule :
      (body : String) (login : User) (s : S)
      → r.body ≡ ok body
      → us.user_pointer_of_json body ≡ ok (some login)
      → Ensures
          (λ s'. s')
          s
          (forgotten us r body login)
          (λ x s'. succeeds x ≡ true → Requested s)
          (λ x s'. succeeds x ≡ true → Requested s)
  unfolding forgotten send success
  forgotten_rule body login s b l =
      return_if_then _ _ _ (λ bad z. ground arith)
        (λ able.
          return_if_then _ _ _ (λ bad z. ground arith)
            (λ named. call_then _ _ (
              does_weaken (does_exactly _ s) (λ user s1 u.
                return_if_then _ _ _ (λ bad z. ground arith)
                  (λ found.
                    reset_found_rule body _ login user.0 s s1 b l able refl
                      (λ n. ground (
                        arith,
                        eq_iff (redirect_of (lookup "redirect" (us.strings_of_json body))) "",
                      ))
                      (ground (arith, u)))))))

  delete_login_rule :
      (s : S) → Does (λ s'. s') s (delete_login us r) (λ x s'. succeeds x ≡ true → Requested s)
  unfolding delete_login forgotten_by send success
  delete_login_rule s = run_rule _ (
      given_then _ _ _ (λ e b z. ground arith)
        (λ body b. given_then _ _ _ (λ e b z. ground arith) (λ login l. by_login body login s b l)))
    where
      by_login :
          (body : String) (login : Option User) (s : S)
          → r.body ≡ ok body
          → us.user_pointer_of_json body ≡ ok login
          → Ensures
              (λ s'. s')
              s
              (forgotten_by us r body login)
              (λ x s'. succeeds x ≡ true → Requested s)
              (λ x s'. succeeds x ≡ true → Requested s)
      by_login body none s b l = finish_rule _ (λ z. ground arith)
      by_login body (some login) s b l = forgotten_rule body login s b l

  delete_login_done : (s : S) → Requested s → (delete_login us r s).0 ≡ succeeded 204 []
  unfolding run delete_login forgotten_by forgotten reset_found send_reset send success
  delete_login_done s
        (requested body url login user s1 b l able named ne found
          (sent pad code s2 s3 s4 reach mail cell o np m t)) =
      rw (b, l, able, named, unequal ne, found, reach, mail, cell, o, unequal np, m, t) refl

  -- A DELETE /auth is answered with success exactly when the body names a user who can be reached and
  -- a redirect, the addresses given match those on record, the user on record can be reached,
  -- `OTP` gave a text that is not empty, whatever its status, and both senders took a message to the
  -- addresses on record with that text in its link; and the answer is 204 without a body exactly then.
  pub delete_login_iff :
      (s : S)
      → ((succeeds (delete_login us r s).0 ≡ true) ↔ Requested s)
        × (((delete_login us r s).0 ≡ succeeded 204 []) ↔ Requested s)
  unfolding send success
  delete_login_iff s =
      let sound = (delete_login_rule s).at s refl in
      let done = delete_login_done s in
      ((sound, λ q. ap succeeds (done q)), (λ e. sound (ap succeeds e), done))
