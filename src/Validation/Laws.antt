-- ===== src/Validation/Laws.antt =====
-- What the methods of `core` rely on: redis, the clock and the source of ids. `NewValidator` gives a
-- `core` that has it, if AUTHN_TIMEOUT is positive.
use userservice.Prelude.{ℕ, zero, suc, ◌<◌, pos, ◌+◌, ◌*◌, String, ◌≡◌, refl, arith}
use userservice.Flow.{Act}
use userservice.Flow.Spec.{Does}
use userservice.Http.{Cookie}
use userservice.Redis.{Authn}
use userservice.Redis.Laws.{View, RedisLaws}
use userservice.Validation.{Core, ValidatorConfig, new_validator}

pub record CoreLaws {S : Type 0} (v : Core S) (view : S → View) : Type 0 where
  pub redis : RedisLaws v.authn view
  pub fresh_view : (s : S) → view (v.new_string s).1 ≡ view s
  pub cookie_view : (t : String) (s : S) → view (v.login_cookie t s).1 ≡ view s
  pub cookie_value : (t : String) (s : S) → (v.login_cookie t s).0.value ≡ t
  pub cookie_age : (t : String) (s : S) → (n : ℕ) × ((v.login_cookie t s).0.max_age ≡ pos (suc n))

-- A positive number of minutes is a positive number of seconds.
seconds : (n : ℕ) → 0 < n → (m : ℕ) × (pos (n * 60) ≡ pos (suc m))
seconds zero h = absurd (omega arith)
seconds (suc n) h = (n * 60 + 59, ground arith)

module _ {S : Type 0} (client : Authn S) (cfg : ValidatorConfig) (now : Act S ℕ)
    (fresh : Act S String) (view : S → View) where
  pub new_validator-CoreLaws :
      RedisLaws client view
      → ((s : S) → view (now s).1 ≡ view s)
      → ((s : S) → view (fresh s).1 ≡ view s)
      → 0 < cfg.authn_timeout
      → CoreLaws (new_validator client cfg now fresh) view
  unfolding new_validator
  new_validator-CoreLaws laws n f pos_timeout = record {
    redis = laws;
    fresh_view = f;
    cookie_view = λ t s. n s;
    cookie_value = λ t s. refl;
    cookie_age = λ t s. seconds cfg.authn_timeout pos_timeout;
  }

module _ {S : Type 0} (v : Core S) (view : S → View) (laws : CoreLaws v view) (w : View) where
  pub fresh_rule :
      {G : String → View → Type 0} → ((a : String) → G a w) → Does view w v.new_string G
  fresh_rule g = record { at = λ s e. rw (laws.fresh_view s, e) (g _) }

  pub cookie_rule :
      {G : Cookie → View → Type 0} (t : String)
      → ((c : Cookie) (n : ℕ) → c.value ≡ t → c.max_age ≡ pos (suc n) → G c w)
      → Does view w (v.login_cookie t) G
  cookie_rule t g = record {
    at = λ s e.
        let (n, age) = laws.cookie_age t s in
        rw (laws.cookie_view t s, e) (g (v.login_cookie t s).0 n (laws.cookie_value t s) age);
  }
