-- ===== src/Validation/Logins.antt =====
-- `Login`: what a session is, and that nobody has more than `maxLogins` of them.
use userservice.Prelude.{
  ℕ, suc, pos, ◌<◌, String, eq_iff, ◌≡◌, ◌≢◌, refl, not, false, ◌==◌, [], ◌∷◌, arith, lookup,
}
use userservice.Flow.Spec.{
  Does, Ensures, does_weaken, attempt_then, call_then, return_if_then, finish_rule, run_rule,
}
use userservice.Http.{Cookie}
use userservice.Redis.Laws.{View, set_fields, add_member}
use userservice.Redis.Rules.{expire_rule, hset_rule, sadd_rule}
use userservice.Validation.{Core, login, login_with, logins_key, token_key, userid, remote}
use userservice.Validation.Laws.{CoreLaws, fresh_rule, cookie_rule}
use userservice.Validation.Count.{Pruned, Counted, check_count_rule}
use userservice.Validation.Keys.{Grown, Grown-Pruned, Grown-add, Session}

pub record LoggedIn {S : Type 0} (v : Core S) (uid rmt : String) (w : View) (r : Cookie × ℕ)
    (w' : View) : Type 0 where
  pub grown : Grown v.max_logins uid w w'
  pub session : r.1 ≡ 200 → Session uid rmt r.0.value w'
  pub refused : r.1 ≢ 200 → r.0 ≡ v.logout_cookie

-- A return with an error.
unlisted :
    {S : Type 0} (v : Core S) (uid rmt : String) {w w' : View} (code : ℕ)
    → code ≢ 200
    → Grown v.max_logins uid w w'
    → LoggedIn v uid rmt w (v.logout_cookie, code) w'
unlisted v uid rmt code ne h = record {
  grown = h;
  session = λ e. absurd (ne e);
  refused = λ e. refl;
}

module _ {S : Type 0} (v : Core S) (view : S → View) (laws : CoreLaws v view) (w : View) where
  -- The token is stored, and listed as one of the user's logins.
  listed :
      (uid rmt : String) (c : Cookie) (w' : View)
      → Pruned (logins_key uid) w w'
      → w'.card (logins_key uid) < v.max_logins
      → LoggedIn v uid rmt w
          (c, 200)
          (add_member
            (logins_key uid)
            (token_key c.value)
            (set_fields (token_key c.value) ((userid, uid) ∷ (remote, rmt) ∷ []) w'))
  unfolding lookup
  listed uid rmt c w' p room = record {
    grown = Grown-add v.max_logins uid p _ (token_key c.value) room;
    session = λ _. record {
      user = ground (arith, eq_iff (token_key c.value) (token_key c.value));
      address = ground (arith, eq_iff (token_key c.value) (token_key c.value));
      listed = ground (
        arith,
        eq_iff (token_key c.value) (token_key c.value),
        eq_iff (logins_key uid) (logins_key uid),
      );
    };
    refused = λ ne. absurd (ne refl);
  }

  pub after_count :
      (uid rmt : String) (c : Cookie) (n : ℕ)
      → c.max_age ≡ pos (suc n)
      → (code : ℕ) (w' : View) → Counted v.max_logins (logins_key uid) w code w'
      → Ensures view w' (login_with v uid rmt c code) (LoggedIn v uid rmt w) (LoggedIn v uid rmt w)
  unfolding login_with
  after_count uid rmt c n age code w' counted =
      return_if_then _ _ _
        (λ bad. unlisted v uid rmt code (ground arith) (Grown-Pruned _ uid counted.pruned _))
        (λ good. attempt_then _ _ _ (
          hset_rule v.authn view laws.redis w' _ _
            (λ _. attempt_then _ _ _ (
              expire_rule v.authn view laws.redis _ _ c.max_age n age
                (λ b _.
                  return_if_then _ _ _ (λ _. error (Grown-Pruned _ uid counted.pruned _))
                    (λ _. attempt_then _ _ _ (
                      sadd_rule v.authn view laws.redis _ _ _
                        (finish_rule _ (listed uid rmt c w' counted.pruned (room good)))
                        (λ _. (
                          error (Grown-Pruned _ uid counted.pruned _),
                          error (Grown-add _ uid counted.pruned _ _ (room good)),
                        )))))
                (λ _. error (Grown-Pruned _ uid counted.pruned _))))
            (λ _. (
              error (Grown-Pruned _ uid counted.pruned _),
              error (Grown-Pruned _ uid counted.pruned _),
            ))))
    where
      room : not (code == 200) ≡ false → w'.card (logins_key uid) < v.max_logins
      room good = counted.room (ground arith)

      error :
          {w'' : View}
          → Grown v.max_logins uid w w''
          → LoggedIn v uid rmt w (v.logout_cookie, 500) w''
      error h = unlisted v uid rmt 500 (λ e. absurd (omega arith)) h

  pub login_rule : (uid rmt : String) → Does view w (login v uid rmt) (LoggedIn v uid rmt w)
  unfolding login
  login_rule uid rmt = run_rule _ (
      call_then _ _ (
        fresh_rule v view laws w (λ id. call_then _ _ (
          cookie_rule v view laws w id (λ c n value age. call_then _ _ (
            does_weaken (check_count_rule v view laws w (logins_key uid))
              (λ code w' counted. after_count uid rmt c n age code w' counted)))))))
