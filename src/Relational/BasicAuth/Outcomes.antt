-- ===== src/Relational/BasicAuth/Outcomes.antt =====
-- What `Login` does to the row of its user, by its three endings.
use userservice.Prelude.{
  ℕ, ◌+◌, ◌≤◌, ◌<◌, String, eq_iff, ◌≡◌, ◌≢◌, refl, sym, ap, ◌∙◌, ◌⊎◌, inl, inr, Option, none, some,
  arith,
}
use userservice.Shared.{Error, BasicAuth, bad_user_or_pass, max_failed_login}
use userservice.Relational.{hash}
use userservice.Relational.BasicAuth.{passed_auth, failed_auth}
use userservice.Relational.BasicAuth.Laws.{Credentials, credentials, Table, put, updated, IsForeign}

pub put_self :
    (x : BasicAuth) (w : Table) (id : String) (a : Credentials)
    → x.uuid ≡ id
    → w id ≡ some a
    → put x w id ≡ some (updated x a)
unfolding put
put_self x w id a same h = ground (arith, eq_iff x.uuid id)

pub put_ne : (x : BasicAuth) (w : Table) (id : String) → x.uuid ≢ id → put x w id ≡ w id
unfolding put
put_ne x w id ne = ground (arith, eq_iff x.uuid id)

-- What `Login` does to the row `a` of the user, and whom it lets in.
pub record LoginOutcome (given : BasicAuth) (a : Credentials) (w : Table)
    (r : BasicAuth × Option Error) (w' : Table) : Type 0 where
  pub sound : r.1 ≡ none → (a.failure_count ≤ 3) × (hash given.pass a.salt ≡ a.pass)
  pub passed :
      r.1 ≡ none
      → (r.0.uuid ≡ a.uuid)
        × (r.0.name ≡ a.name)
        × (r.0.pass ≡ a.pass)
        × (r.0.salt ≡ a.salt)
        × ((t : ℕ) × (w' given.uuid
              ≡ some (record a { login_success = some t; failure_count = 0 })))
  pub wrong :
      r.1 ≡ some bad_user_or_pass
      → (hash given.pass a.salt ≢ a.pass)
        × ((t : ℕ) × (w' given.uuid
              ≡ some (record a { login_failure = some t; failure_count = a.failure_count + 1 })))
  pub locked : 3 < a.failure_count → (w' ≡ w) × (r.1 ≢ none)
  pub reported : r.1 ≡ some max_failed_login → 3 < a.failure_count
  pub others : (id : String) → given.uuid ≢ id → w' id ≡ w id
  pub count :
      (b : Credentials)
      → w' given.uuid ≡ some b
      → (b.failure_count ≡ a.failure_count)
        ⊎ (b.failure_count ≡ 0)
        ⊎ ((a.failure_count ≤ 3) × (b.failure_count ≡ a.failure_count + 1))

module _ (given b x : BasicAuth) (w w' : Table) (h : w given.uuid ≡ some (credentials b))
    (key : x.uuid ≡ given.uuid) (any : (w' ≡ w) ⊎ (w' ≡ put x w)) where
  others_any : (id : String) → given.uuid ≢ id → w' id ≡ w id
  others_any id ne = elim any [
    | inl same ↦ ap (λ (t : Table). t id) same
    | inr new ↦ ap (λ (t : Table). t id) new ∙ put_ne x w id (λ e. ne (sym key ∙ e))
  ]

  count_any :
      (c : Credentials)
      → w' given.uuid ≡ some c
      → (c.failure_count ≡ b.failure_count) ⊎ (c.failure_count ≡ x.failure_count)
  count_any c e = elim any [
    | inl same ↦ inl (ground (arith, ap (λ (t : Table). t given.uuid) same, e, h))
    | inr new ↦ inr (
        ground (
          arith,
          ap (λ (t : Table). t given.uuid) new,
          e,
          put_self x w given.uuid (credentials b) key h,
        ))
  ]

module _ (given b : BasicAuth) (t : ℕ) (w w' : Table) (h : w given.uuid ≡ some (credentials b))
    (key : b.uuid ≡ given.uuid) (few : b.failure_count ≤ 3) where
  pub outcome_passed :
      hash given.pass b.salt ≡ b.pass
      → w' ≡ put (passed_auth b t) w
      → LoginOutcome given (credentials b) w (record b { login_success = some t }, none) w'
  outcome_passed match new = record {
    sound = λ z. (few, match);
    passed = λ z. (
      refl,
      refl,
      refl,
      refl,
      (
        t,
        ap (λ (f : Table). f given.uuid) new
            ∙ put_self (passed_auth b t) w given.uuid (credentials b) key h,
      ),
    );
    wrong = λ z. cc;
    locked = λ z. absurd (omega arith);
    reported = λ z. cc;
    others = others_any given b (passed_auth b t) w w' h key (inr new);
    count = λ c e. ground (arith, count_any given b (passed_auth b t) w w' h key (inr new) c e);
  }

  pub outcome_wrong :
      hash given.pass b.salt ≢ b.pass
      → w' ≡ put (failed_auth b t) w
      → LoginOutcome given (credentials b) w (b, some bad_user_or_pass) w'
  outcome_wrong differ new = record {
    sound = λ z. cc;
    passed = λ z. cc;
    wrong = λ z. (
      differ,
      (
        t,
        ap (λ (f : Table). f given.uuid) new
            ∙ put_self (failed_auth b t) w given.uuid (credentials b) key h
            ∙ ground arith,
      ),
    );
    locked = λ z. absurd (omega arith);
    reported = λ z. cc;
    others = others_any given b (failed_auth b t) w w' h key (inr new);
    count = λ c e. ground (arith, count_any given b (failed_auth b t) w w' h key (inr new) c e);
  }

  pub outcome_error :
      (x : BasicAuth) (e : Error)
      → x.uuid ≡ given.uuid
      → (x.failure_count ≡ 0) ⊎ (x.failure_count ≡ b.failure_count + 1)
      → IsForeign e
      → (w' ≡ w) ⊎ (w' ≡ put x w)
      → LoginOutcome given (credentials b) w (b, some e) w'
  outcome_error x e xkey counts foreign any = record {
    sound = λ z. cc;
    passed = λ z. cc;
    wrong = λ z. absurd (foreign.0 (ground arith));
    locked = λ z. absurd (omega arith);
    reported = λ z. absurd (foreign.1 (ground arith));
    others = others_any given b x w w' h xkey any;
    count = λ c q. ground (arith, count_any given b x w w' h xkey any c q);
  }
