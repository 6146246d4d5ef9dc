-- ===== src/Validation/Codes.antt =====
-- The codes that the methods of `core` give, whatever redis answers.
use userservice.Prelude.{
  ℕ, String, ◌≡◌, refl, true, Option, none, some, List, [], ◌∷◌, arith, lookup,
}
use userservice.Flow.Results.{
  Gives, Returns, run_gives, finish_returns, return_if_returns, call_returns, call_gives, last_call,
  attempt_returns, Parts, attempt_parts, part_returns, pure_part,
}
use userservice.Http.{Cookie, is_status}
use userservice.Redis.{RedisError, nil, failed}
use userservice.Validation.{
  Core, userid, redirect, find_expired, check_count, login_with, login, valid, hget_status, logout,
  otp_with, otp, login_otp_redirect, login_otp_user, login_otp, smembers_status, clear_logins,
  complete_otp_user, complete_otp,
}

module _ {S : Type 0} (v : Core S) where
  login_with-is_status :
      (uid rmt : String) (c : Cookie) (code : ℕ)
      → is_status code ≡ true
      → Returns (login_with v uid rmt c code) (λ x. is_status x.1 ≡ true)
  unfolding login_with
  login_with-is_status uid rmt c code good =
      return_if_returns _ _ _ (λ b. good)
        (λ b.
          attempt_returns _ _ _ (λ e. refl)
            (λ n.
              attempt_returns _ _ _ (λ e. refl)
                (λ exp.
                  return_if_returns _ _ _ (λ b'. refl)
                    (λ b'. attempt_returns _ _ _ (λ e. refl) (λ n'. finish_returns _ refl)))))

  find_expired-is_status :
      (ts expired : List String)
      → Parts (find_expired v ts expired) (λ code. is_status code ≡ true) (λ _. Unit {0})
  unfolding find_expired
  find_expired-is_status [] expired = pure_part expired tt
  find_expired-is_status (t ∷ ts) expired =
      attempt_parts _ _ _ (λ e. refl) (λ n. find_expired-is_status ts _)

  check_count-is_status : (key : String) → Gives (check_count v key) (λ code. is_status code ≡ true)
  unfolding check_count
  check_count-is_status key = run_gives _ (
      attempt_returns _ _ _ (λ e. refl)
        (λ tokens.
          return_if_returns _ _ _ (λ b. refl)
            (λ b. part_returns _ _ (find_expired-is_status tokens []) (λ expired _.
              return_if_returns _ _ _ (λ b1. refl)
                (λ b1.
                  attempt_returns _ _ _ (λ e. refl)
                    (λ removed.
                      return_if_returns _ _ _ (λ b2. refl) (λ b2. finish_returns _ refl)))))))

  pub login-is_status : (uid rmt : String) → Gives (login v uid rmt) (λ x. is_status x.1 ≡ true)
  unfolding login
  login-is_status uid rmt = run_gives _ (
      call_returns _ _ (λ id. call_returns _ _ (λ c.
        call_gives _ _ (check_count-is_status _)
          (λ code good. login_with-is_status uid rmt c code good))))

  pub valid-is_status : (token : String) → Gives (valid v token) (λ x. is_status x.1 ≡ true)
  unfolding valid
  valid-is_status token = run_gives _ (
      call_returns _ _ (λ c.
        attempt_returns _ _ _ (λ e. refl)
          (λ n.
            return_if_returns _ _ _ (λ b. refl)
              (λ b.
                attempt_returns _ _ _ (λ e. refl)
                  (λ found. return_if_returns _ _ _ (λ b1. refl) (λ b1. finish_returns _ refl))))))

  hget_status-is_status : (e : RedisError) → is_status (hget_status e).1 ≡ true
  unfolding hget_status
  hget_status-is_status nil = refl
  hget_status-is_status (failed m) = refl

  pub logout-is_status : (token : String) → Gives (logout v token) (λ x. is_status x.1 ≡ true)
  unfolding logout
  logout-is_status token = run_gives _ (
      call_gives _ _ (valid-is_status token) (λ checked good.
        return_if_returns _ _ _ (λ b. good)
          (λ b. attempt_returns _ _ _ hget_status-is_status (λ uid.
            attempt_returns _ _ _ (λ e. refl)
              (λ n. attempt_returns _ _ _ (λ e. refl) (λ n'. finish_returns _ refl))))))

  pub otp-is_status :
      (uid rmt page : String) → Gives (otp v uid rmt page) (λ x. is_status x.1 ≡ true)
  unfolding otp otp_with
  otp-is_status uid rmt page = run_gives _ (
      call_returns _ _ (λ pad. call_gives _ _ (check_count-is_status _) (λ code good.
        return_if_returns _ _ _ (λ b. good)
          (λ b.
            attempt_returns _ _ _ (λ e. refl)
              (λ n.
                attempt_returns _ _ _ (λ e. refl)
                  (λ x.
                    attempt_returns _ _ _ (λ e. refl)
                      (λ m.
                        return_if_returns _ _ _ (λ b1. refl) (λ b1. finish_returns _ refl))))))))

  login_otp_user-is_status :
      (uid page : Option String) → is_status (login_otp_user uid page).1 ≡ true
  unfolding login_otp_user login_otp_redirect
  login_otp_user-is_status none page = refl
  login_otp_user-is_status (some uid) none = ground arith
  login_otp_user-is_status (some uid) (some page) = ground arith

  pub login_otp-is_status : (pad : String) → Gives (login_otp v pad) (λ x. is_status x.1 ≡ true)
  unfolding login_otp
  login_otp-is_status pad = run_gives _ (
      attempt_returns _ _ _ (λ e. refl)
        (λ result.
          finish_returns _
            (login_otp_user-is_status (lookup userid result) (lookup redirect result))))

  smembers_status-is_status : (e : RedisError) → is_status (smembers_status e) ≡ true
  unfolding smembers_status
  smembers_status-is_status nil = refl
  smembers_status-is_status (failed m) = refl

  clear_logins-is_status :
      (uid : String) → Gives (clear_logins v uid) (λ code. is_status code ≡ true)
  unfolding clear_logins
  clear_logins-is_status uid = run_gives _ (
      attempt_returns _ _ _ smembers_status-is_status (λ tokens.
        return_if_returns _ _ _ (λ b. refl)
          (λ b. call_returns _ _ (λ cleared.
            return_if_returns _ _ _ (λ b1. refl)
              (λ b1. attempt_returns _ _ _ (λ e. refl) (λ n. finish_returns _ refl))))))

  complete_otp_user-is_status :
      (uid : Option String) → Gives (complete_otp_user v uid) (λ x. is_status x.1 ≡ true)
  unfolding complete_otp_user
  complete_otp_user-is_status none = run_gives _ (finish_returns _ refl)
  complete_otp_user-is_status (some uid) = run_gives _ (
      return_if_returns _ _ _ (λ b. refl)
        (λ b.
          call_gives _ _ (clear_logins-is_status uid)
            (λ code good. return_if_returns _ _ _ (λ b1. good) (λ b1. finish_returns _ refl))))

  pub complete_otp-is_status :
      (pad : String) → Gives (complete_otp v pad) (λ x. is_status x.1 ≡ true)
  unfolding complete_otp
  complete_otp-is_status pad = run_gives _ (
      attempt_returns _ _ _ (λ e. refl)
        (λ result. last_call _ (complete_otp_user-is_status (lookup userid result))))
