-- ===== src/Relational/BasicAuth/Logins.antt =====
-- `SoftLogin` and `Login`: who is let in, and what is counted.
use userservice.Prelude.{
  ℕ, ◌+◌, ◌≤◌, ◌<◌, eq_iff, ◌≡◌, ◌≢◌, refl, ap, ◌∙◌, ◌⊎◌, inl, inr, true, Option, none, some, arith,
  is_some,
}
use userservice.Flow.Spec.{
  Does, does_weaken, call_then, call_rule, return_if_then, finish_rule, run_rule,
}
use userservice.Shared.{Error, BasicAuth, bad_user_or_pass, max_failed_login}
use userservice.Relational.{Conn, hash}
use userservice.Relational.BasicAuth.{
  soft_login, login, record_login, login_error, passed_auth, failed_auth,
}
use userservice.Relational.BasicAuth.Laws.{
  Credentials, credentials, Table, IsForeign, AuthLaws, Updated, get_auth_rule, update_rule,
  now_rule,
}
use userservice.Relational.BasicAuth.Outcomes.{
  LoginOutcome, outcome_passed, outcome_wrong, outcome_error,
}

-- What the checks of `SoftLogin` say of the row.
record Judged (given : BasicAuth) (a : Credentials) (r : BasicAuth × Option Error) : Type 0 where
  passed :
      r.1 ≡ none → (credentials r.0 ≡ a) × (a.failure_count ≤ 3) × (hash given.pass a.salt ≡ a.pass)
  wrong :
      r.1 ≡ some bad_user_or_pass
      → (credentials r.0 ≡ a) × (a.failure_count ≤ 3) × (hash given.pass a.salt ≢ a.pass)
  locked : r.1 ≡ some max_failed_login → 3 < a.failure_count
  still_locked : 3 < a.failure_count → (r.1 ≢ none) × (r.1 ≢ some bad_user_or_pass)

judge : (given b : BasicAuth) → Judged given (credentials b) (b, login_error given b)
unfolding login_error
judge given b = record {
  passed = λ z. (refl, ground arith, ground (arith, eq_iff (hash given.pass b.salt) b.pass));
  wrong = λ z. (refl, ground arith, λ e. ground (arith, eq_iff (hash given.pass b.salt) b.pass));
  locked = λ z. ground arith;
  still_locked = λ z. ground arith;
}

judge_error :
    (given : BasicAuth) (a : Credentials) (r : BasicAuth × Option Error)
    → ((e : Error) → r.1 ≡ some e → IsForeign e)
    → is_some r.1 ≡ true
    → Judged given a r
judge_error given a r f h = record {
  passed = λ z. ground arith;
  wrong = λ z. absurd ((f _ z).0 refl);
  locked = λ z. absurd ((f _ z).1 refl);
  still_locked = λ _. (λ z. ground arith, λ z. (f _ z).0 refl);
}

module _ {S : Type 0} (db : Conn S) (view : S → Table) (laws : AuthLaws db view) (w : Table) where
  soft_login_rule :
      (given : BasicAuth) (a : Credentials)
      → w given.uuid ≡ some a
      → Does view w (soft_login db given) (λ r w'. (w' ≡ w) × Judged given a r)
  unfolding soft_login
  soft_login_rule given a h = run_rule _ (
      call_then _ _ (
        does_weaken (get_auth_rule db view laws w given.uuid) (λ r w' found.
          return_if_then _ _ _ (λ bad. (found.same, judge_error given a r found.error bad))
            (λ good.
              finish_rule _ (found.same, rw (← found.row a h (ground arith)) (judge given r.0))))))

-- The row is as it was.
outcome_same :
    (given : BasicAuth) (a : Credentials) (w : Table) (b : BasicAuth) (e : Error)
    → w given.uuid ≡ some a
    → Judged given a (b, some e)
    → e ≢ bad_user_or_pass
    → LoginOutcome given a w (b, some e) w
outcome_same given a w b e h judged ne = record {
  sound = λ z. cc;
  passed = λ z. cc;
  wrong = λ z. absurd (ne (ground arith));
  locked = λ z. (refl, λ q. cc);
  reported = judged.locked;
  others = λ id q. refl;
  count = λ c q. ground (arith, h, q);
}

module _ {S : Type 0} (db : Conn S) (view : S → Table) (laws : AuthLaws db view) (w : Table)
    (given b : BasicAuth) (t : ℕ) (h : w given.uuid ≡ some (credentials b))
    (key : b.uuid ≡ given.uuid) (few : b.failure_count ≤ 3) where
  outcome_failed :
      (x : BasicAuth) (e : Option Error) (w' : Table)
      → x.uuid ≡ given.uuid
      → (x.failure_count ≡ 0) ⊎ (x.failure_count ≡ b.failure_count + 1)
      → Updated x w e w'
      → is_some e ≡ true
      → LoginOutcome given (credentials b) w (b, e) w'
  outcome_failed x none w' xkey counts u z = cc
  outcome_failed x (some f) w' xkey counts u z =
      outcome_error given b t w w' h key few x f xkey counts (u.error f refl) u.any

  passed_rule :
      hash given.pass b.salt ≡ b.pass
      → Does view w (record_login db t b none) (LoginOutcome given (credentials b) w)
  unfolding record_login
  passed_rule match = run_rule _ (
      call_then _ _ (
        does_weaken (update_rule db view laws w (passed_auth b t)) (λ e w' u.
          return_if_then _ _ _ (λ bad. outcome_failed _ e w' key (inl refl) u bad)
            (λ good.
              finish_rule _
                (outcome_passed given b t w w' h key few match (u.done (ground arith)))))))

  wrong_rule :
      hash given.pass b.salt ≢ b.pass
      → Does view w
          (record_login db t b (some bad_user_or_pass))
          (LoginOutcome given (credentials b) w)
  unfolding record_login
  wrong_rule differ = run_rule _ (
      call_then _ _ (
        does_weaken (update_rule db view laws w (failed_auth b t)) (λ e w' u.
          return_if_then _ _ _ (λ bad. outcome_failed _ e w' key (inr (ground arith)) u bad)
            (λ good.
              finish_rule _
                (outcome_wrong given b t w w' h key few differ (u.done (ground arith)))))))

module _ {S : Type 0} (db : Conn S) (view : S → Table) (laws : AuthLaws db view) (w : Table) where
  record_login_rule :
      (given : BasicAuth) (a : Credentials) (t : ℕ) (b : BasicAuth) (e : Option Error)
      → w given.uuid ≡ some a
      → a.uuid ≡ given.uuid
      → Judged given a (b, e)
      → Does view w (record_login db t b e) (LoginOutcome given a w)
  unfolding record_login
  record_login_rule given a t b (some bad_user_or_pass) h key judged =
      let (row, few, differ) = judged.wrong refl in
      rw (← row) (
        wrong_rule db view laws w given b t (rw row h) (ap (λ (c : Credentials). c.uuid) row ∙ key)
          (rw (ap (λ (c : Credentials). c.failure_count) row) few)
          (rw (ap (λ (c : Credentials). c.salt) row, ap (λ (c : Credentials). c.pass) row) differ))
  record_login_rule given a t b none h key judged =
      let (row, few, match) = judged.passed refl in
      rw (← row) (
        passed_rule db view laws w given b t (rw row h) (ap (λ (c : Credentials). c.uuid) row ∙ key)
          (rw (ap (λ (c : Credentials). c.failure_count) row) few)
          (rw (ap (λ (c : Credentials). c.salt) row, ap (λ (c : Credentials). c.pass) row) match))
  record_login_rule given a t b (some e) h key judged =
      run_rule _ (finish_rule _ (outcome_same given a w b e h judged (λ z. cc)))

  -- `Login` for a user who has the row `a`.
  pub login_rule :
      (given : BasicAuth) (a : Credentials)
      → w given.uuid ≡ some a
      → a.uuid ≡ given.uuid
      → Does view w (login db given) (LoginOutcome given a w)
  unfolding login
  login_rule given a h key = run_rule _ (
      call_then _ _ (
        now_rule db view laws w (λ t. call_then _ _ (
          does_weaken (soft_login_rule db view laws w given a h) (λ r w' (same, judged).
            rw same (call_rule _ (record_login_rule given a t r.0 r.1 h key judged)))))))
