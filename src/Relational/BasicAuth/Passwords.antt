-- ===== src/Relational/BasicAuth/Passwords.antt =====
-- `ChangePassword` and `ResetPassword`, and the logins that follow them.
use text.Mathlib.TextLemmas.{append_cancel_right}
use userservice.Prelude.{
  ℕ, ◌≤◌, String, eq_iff, len, ◌≡◌, ◌≢◌, ◌↔◌, refl, sym, ap, ◌∙◌, inl, inr, Option, none, some,
  arith,
}
use userservice.Flow.Spec.{Does, does_weaken, call_then, return_if_then, finish_rule, run_rule}
use userservice.Shared.{Error, BasicAuth, bad_user_or_pass, max_failed_login, password_valid}
use userservice.Relational.{Conn, hash, generate_salt}
use userservice.Relational.BasicAuth.{login, validate, change_password}
use userservice.Relational.BasicAuth.Laws.{
  Credentials, Table, AuthLaws, Updated, update_rule, now_rule,
}
use userservice.Relational.BasicAuth.Outcomes.{LoginOutcome, put_self, put_ne}
use userservice.Relational.BasicAuth.Logins.{login_rule}
use userservice.Relational.BasicAuth.Lockout.{given}

-- A new password is accepted exactly when it has 8 bytes, is not the user's name and is not the
-- password in use.
pub validate_iff :
    (old : BasicAuth) (new : String)
    → (validate old new ≡ none)
      ↔ ((8 ≤ len new) × (new ≢ old.name) × (hash new old.salt ≢ old.pass))
unfolding validate password_valid
validate_iff old new = (
  λ h. ground (arith, eq_iff new old.name, eq_iff (hash new old.salt) old.pass),
  λ h. ground (arith, eq_iff new old.name, eq_iff (hash new old.salt) old.pass),
)

-- The row `a` of the user with a new password.
pub record Renewed (new : String) (a b : Credentials) : Type 0 where
  pub uuid : b.uuid ≡ a.uuid
  pub name : b.name ≡ a.name
  pub pass : b.pass ≡ hash new generate_salt
  pub salt : b.salt ≡ generate_salt
  pub count : b.failure_count ≡ 0

pub record Changed (uid old new : String) (a : Credentials) (w : Table) (e : Option Error)
    (w' : Table) : Type 0 where
  pub allowed :
      e ≡ none
      → (a.failure_count ≤ 3)
        × (hash old a.salt ≡ a.pass)
        × (8 ≤ len new)
        × (new ≢ a.name)
        × (hash new a.salt ≢ a.pass)
  pub stored : e ≡ none → (b : Credentials) × (w' uid ≡ some b) × Renewed new a b
  pub others : (id : String) → uid ≢ id → w' id ≡ w id

module _ {uid old new : String} {a : Credentials} {w : Table} where
  not-Changed :
      (e : Option Error) (w' : Table)
      → e ≢ none
      → ((id : String) → uid ≢ id → w' id ≡ w id)
      → Changed uid old new a w e w'
  not-Changed e w' ne others = record {
    allowed = λ z. absurd (ne z);
    stored = λ z. absurd (ne z);
    others = others;
  }

-- What `ChangePassword` and `ResetPassword` store.
abbrev renewal : BasicAuth → String → ℕ → BasicAuth
renewal b new t = record b {
  salt = generate_salt;
  pass = hash new generate_salt;
  login_success = some t;
  failure_count = 0;
}

-- The row that is stored, once the old password was right and the new one is accepted.
renewed :
    (uid old new : String) (a : Credentials) (w : Table) (r : BasicAuth × Option Error)
    (w1 w2 : Table) (t : ℕ) (e : Option Error)
    → a.uuid ≡ uid
    → LoginOutcome (given uid old) a w r w1
    → r.1 ≡ none
    → validate r.0 new ≡ none
    → Updated (renewal r.0 new t) w1 e w2
    → Changed uid old new a w e w2
renewed uid old new a w r w1 w2 t e key l passed fine u =
    let (uuid, name, pass, salt, (_, row)) = l.passed passed in
    let same : r.0.uuid ≡ uid = uuid ∙ key in
    let (long, unlike, fresh) = (validate_iff r.0 new).0 fine in
    record {
      allowed = λ z. (
        (l.sound passed).0,
        (l.sound passed).1,
        long,
        rw (← name) unlike,
        rw (← salt, ← pass) fresh,
      );
      stored = λ z. (
        _,
        ap (λ (f : Table). f uid) (u.done z) ∙ put_self (renewal r.0 new t) w1 uid _ same row,
        record { uuid = refl; name = refl; pass = refl; salt = refl; count = refl },
      );
      others = λ id ne. elim u.any [
        | inl kept ↦ ap (λ (f : Table). f id) kept ∙ l.others id ne
        | inr new_row ↦
            ap (λ (f : Table). f id) new_row
            ∙ put_ne (renewal r.0 new t) w1 id (λ q. ne (sym same ∙ q))
            ∙ l.others id ne
      ];
    }

module _ {S : Type 0} (db : Conn S) (view : S → Table) (laws : AuthLaws db view) (w : Table) where
  -- `ChangePassword` for a user who has the row `a`.
  pub change_password_rule :
      (uid old new : String) (a : Credentials)
      → w uid ≡ some a
      → a.uuid ≡ uid
      → Does view w (change_password db uid old new) (Changed uid old new a w)
  unfolding change_password
  change_password_rule uid old new a h key = run_rule _ (
      call_then _ _ (
        does_weaken (login_rule db view laws w (given uid old) a h key) (λ r w1 l.
          return_if_then _ _ _ (λ bad. not-Changed r.1 w1 (λ z. ground arith) l.others)
            (λ good.
              return_if_then _ _ _ (λ bad. not-Changed _ w1 (λ z. ground arith) l.others)
                (λ fine. call_then _ _ (
                  now_rule db view laws w1 (λ t. call_then _ _ (
                    does_weaken (update_rule db view laws w1 (renewal r.0 new t)) (λ e w2 u.
                      finish_rule _ (
                        renewed uid old new a w r w1 w2 t e key l (ground arith) (ground arith)
                          u))))))))))

module _ {S : Type 0} (db : Conn S) (view : S → Table) (laws : AuthLaws db view) where
  -- Of a user whose row holds a renewed password and no failures.
  login-Renewed :
      (s : S) (uid new : String) (a b : Credentials)
      → view s uid ≡ some b
      → Renewed new a b
      → (pass : String)
      → LoginOutcome
          (given uid pass)
          b
          (view s)
          (login db (given uid pass) s).0
          (view (login db (given uid pass) s).1)
  login-Renewed s uid new a b h n pass =
      (login_rule db view laws (view s) (given uid pass) b h (laws.keyed s uid b h)).at s refl

  login-Renewed_other :
      (s : S) (uid new : String) (a b : Credentials)
      → view s uid ≡ some b
      → Renewed new a b
      → (pass : String) → pass ≢ new
      → (login db (given uid pass) s).0.1 ≢ none
  unfolding hash
  login-Renewed_other s uid new a b h n pass ne z =
      let l = login-Renewed s uid new a b h n pass in
      ne (
        append_cancel_right pass new generate_salt
          (ap (hash pass) (sym n.salt) ∙ (l.sound z).1 ∙ n.pass))

  login-Renewed_self :
      (s : S) (uid new : String) (a b : Credentials)
      → view s uid ≡ some b
      → Renewed new a b
      → let r = (login db (given uid new) s).0 in
        (r.1 ≢ some bad_user_or_pass) × (r.1 ≢ some max_failed_login)
  login-Renewed_self s uid new a b h n =
      let l = login-Renewed s uid new a b h n new in
      (
        λ q. (l.wrong q).0 (ap (hash new) n.salt ∙ sym n.pass),
        λ q. absurd (omega (arith, l.reported q, n.count)),
      )

  -- After a change of password that succeeded, no login with another password succeeds, and one with
  -- the new password is not refused: it succeeds, or the database fails.
  pub change_password-login :
      (s : S) (uid old new : String) (a : Credentials)
      → view s uid ≡ some a
      → (change_password db uid old new s).0 ≡ none
      → (pass : String) → pass ≢ new
      → let t = (change_password db uid old new s).1 in
        ((login db (given uid pass) t).0.1 ≢ none)
        × ((login db (given uid new) t).0.1 ≢ some bad_user_or_pass)
        × ((login db (given uid new) t).0.1 ≢ some max_failed_login)
  change_password-login s uid old new a h done pass ne =
      let c =
        (change_password_rule db view laws (view s) uid old new a h (laws.keyed s uid a h)).at s
          refl in
      let (b, row, n) = c.stored done in
      let t = (change_password db uid old new s).1 in
      let self = login-Renewed_self t uid new a b row n in
      (login-Renewed_other t uid new a b row n pass ne, self.0, self.1)

  -- A change of password succeeds only with the password in use, for a user who is not locked out,
  -- and to a password of 8 bytes or more which is neither the user's name nor the password in use.
  -- It changes no other user's row.
  pub change_password_allowed :
      (s : S) (uid old new : String) (a : Credentials)
      → view s uid ≡ some a
      → (change_password db uid old new s).0 ≡ none
      → (id : String) → uid ≢ id
      → (a.failure_count ≤ 3)
        × (hash old a.salt ≡ a.pass)
        × (8 ≤ len new)
        × (new ≢ a.name)
        × (new ≢ old)
        × (view (change_password db uid old new s).1 id ≡ view s id)
  change_password_allowed s uid old new a h done id ne =
      let c =
        (change_password_rule db view laws (view s) uid old new a h (laws.keyed s uid a h)).at s
          refl in
      let (few, right, long, unlike, fresh) = c.allowed done in
      (few, right, long, unlike, λ e. fresh (ap (λ p. hash p a.salt) e ∙ right), c.others id ne)
