-- ===== src/Validation/Pads.antt =====
-- `OTP` and `LoginOTP`: a one-time pad is stored for its user with the page to go to, and is one of
-- the user's logins.
use userservice.Prelude.{
  ℕ, ◌<◌, String, eq_iff, ◌≡◌, ◌≢◌, refl, ◌⊎◌, inl, inr, true, false, not, some, [], ◌∷◌, arith,
  ◌==◌, lookup,
}
use userservice.Flow.Spec.{
  Does, Ensures, does_weaken, attempt_then, call_then, return_if_then, finish_rule, run_rule,
}
use userservice.Redis.Laws.{View, set_fields, add_member}
use userservice.Redis.Rules.{expire_rule, hset_rule, sadd_rule, hget_all_rule}
use userservice.Validation.{
  Core, otp, otp_with, login_otp, login_otp_user, logins_key, pad_key, userid, remote, redirect,
}
use userservice.Validation.Laws.{CoreLaws, fresh_rule}
use userservice.Validation.Count.{Pruned, Counted, check_count_rule}
use userservice.Validation.Keys.{Grown, Grown-Pruned, Grown-add}

-- A pad that is in force.
pub record Pad (uid rmt three02 pad : String) (w : View) : Type 0 where
  pub user : w.hash (pad_key pad) userid ≡ some uid
  pub address : w.hash (pad_key pad) remote ≡ some rmt
  pub page : w.hash (pad_key pad) redirect ≡ some three02
  pub listed : w.has (logins_key uid) (pad_key pad) ≡ true

pub record Issued (most : ℕ) (uid rmt three02 : String) (w : View) (r : String × ℕ) (w' : View)
    : Type 0 where
  pub grown : Grown most uid w w'
  pub pad : r.1 ≡ 200 → Pad uid rmt three02 r.0 w'

-- A return with an error.
no_pad :
    {most : ℕ} {uid rmt three02 : String} {w w' : View} (text : String) (code : ℕ)
    → code ≢ 200
    → Grown most uid w w'
    → Issued most uid rmt three02 w (text, code) w'
no_pad text code ne h = record { grown = h; pad = λ e. absurd (ne e) }

module _ {S : Type 0} (v : Core S) (view : S → View) (laws : CoreLaws v view) (w : View)
    (uid rmt three02 : String) where
  issued :
      (pad : String) (w' : View)
      → Pruned (logins_key uid) w w'
      → w'.card (logins_key uid) < v.max_logins
      → Issued v.max_logins uid rmt three02 w
          (pad, 200)
          (add_member (logins_key uid) (pad_key pad) (
            set_fields (pad_key pad) ((userid, uid) ∷ (remote, rmt) ∷ (redirect, three02) ∷ []) w'))
  unfolding lookup
  issued pad w' p room = record {
    grown = Grown-add v.max_logins uid p _ (pad_key pad) room;
    pad = λ _. record {
      user = ground (arith, eq_iff (pad_key pad) (pad_key pad));
      address = ground (arith, eq_iff (pad_key pad) (pad_key pad));
      page = ground (arith, eq_iff (pad_key pad) (pad_key pad));
      listed =
          ground
            (arith, eq_iff (pad_key pad) (pad_key pad), eq_iff (logins_key uid) (logins_key uid));
    };
  }

  pub after_count :
      (pad : String) (code : ℕ) (w' : View)
      → Counted v.max_logins (logins_key uid) w code w'
      → Ensures view w'
          (otp_with v uid rmt three02 pad code)
          (Issued v.max_logins uid rmt three02 w)
          (Issued v.max_logins uid rmt three02 w)
  unfolding otp_with
  after_count pad code w' counted =
      return_if_then _ _ _
        (λ bad. no_pad "" code (ground arith) (Grown-Pruned _ uid counted.pruned _))
        (λ good. attempt_then _ _ _ (
          hset_rule v.authn view laws.redis w' _ _
            (λ _. attempt_then _ _ _ (
              expire_rule v.authn view laws.redis _ _ _ 899 refl
                (λ _ _. attempt_then _ _ _ (
                  sadd_rule v.authn view laws.redis _ _ _
                    (return_if_then _ _ _ (λ _. error _ (grows good))
                      (λ _. finish_rule _ (issued pad w' counted.pruned (room good))))
                    (λ e. (error _ (Grown-Pruned _ uid counted.pruned _), error _ (grows good)))))
                (λ e. error _ (Grown-Pruned _ uid counted.pruned _))))
            (λ e. (
              error _ (Grown-Pruned _ uid counted.pruned _),
              error _ (Grown-Pruned _ uid counted.pruned _),
            ))))
    where
      room : not (code == 200) ≡ false → w'.card (logins_key uid) < v.max_logins
      room good = counted.room (ground arith)

      grows :
          not (code == 200) ≡ false
          → Grown v.max_logins uid w (
              add_member (logins_key uid) (pad_key pad) (
                set_fields
                  (pad_key pad)
                  ((userid, uid) ∷ (remote, rmt) ∷ (redirect, three02) ∷ [])
                  w'))
      grows good = Grown-add _ uid counted.pruned _ _ (room good)

      error :
          {w'' : View} (text : String)
          → Grown v.max_logins uid w w''
          → Issued v.max_logins uid rmt three02 w (text, 500) w''
      error text h = no_pad text 500 (λ e. absurd (omega arith)) h

  pub otp_rule : Does view w (otp v uid rmt three02) (Issued v.max_logins uid rmt three02 w)
  unfolding otp
  otp_rule = run_rule _ (
      call_then _ _ (
        fresh_rule v view laws w (λ pad. call_then _ _ (
          does_weaken (check_count_rule v view laws w (logins_key uid))
            (λ code w' counted. after_count pad code w' counted)))))

-- `LoginOTP` reads the pad and changes nothing; unless redis fails, it answers 302 with the page of a
-- pad that has a user and a page, and else "/" with 400 or 500.
pub record Redirected (pad : String) (w : View) (r : String × ℕ) (w' : View) : Type 0 where
  pub same : w' ≡ w
  pub answer :
      (r ≡ login_otp_user (w.hash (pad_key pad) userid) (w.hash (pad_key pad) redirect))
      ⊎ (r ≡ ("/", 500))

module _ {S : Type 0} (v : Core S) (view : S → View) (laws : CoreLaws v view) (w : View) where
  pub login_otp_rule : (pad : String) → Does view w (login_otp v pad) (Redirected pad w)
  unfolding login_otp
  login_otp_rule pad = run_rule _ (
      attempt_then _ _ _ (
        hget_all_rule v.authn view laws.redis w (pad_key pad)
          (λ m fields.
            finish_rule _
              (record { same = refl; answer = inl (rw (fields userid, fields redirect) refl) }))
          (λ e. record { same = refl; answer = inr refl })))
