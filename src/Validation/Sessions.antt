-- ===== src/Validation/Sessions.antt =====
-- `Valid` and `Logout`: which tokens the service accepts, and what ends a session.
use userservice.Prelude.{ℕ, String, ◌≡◌, ◌≢◌, refl, ◌⊎◌, inl, inr, some, arith}
use userservice.Flow.Spec.{Does, attempt_then, call_then, return_if_then, finish_rule, run_rule}
use userservice.Http.{Cookie}
use userservice.Redis.Laws.{View}
use userservice.Redis.Rules.{exists_rule, expire_rule}
use userservice.Validation.{Core, valid, token_key}
use userservice.Validation.Laws.{CoreLaws, cookie_rule}
use userservice.Validation.Count.{IsDead}

-- `Valid` changes no data and answers 204, 307 or 500: a key that is gone is not accepted, and a
-- session is not called missing.
pub record Checked {S : Type 0} (v : Core S) (token : String) (w : View) (r : Cookie × ℕ)
    (w' : View) : Type 0 where
  pub same : w' ≡ w
  pub codes : (r.1 ≡ 204) ⊎ (r.1 ≡ 307) ⊎ (r.1 ≡ 500)
  pub gone : IsDead w (token_key token) → w.card (token_key token) ≡ 0 → r.1 ≢ 204
  pub known : (f x : String) → w.hash (token_key token) f ≡ some x → r.1 ≢ 307
  pub accepted : r.1 ≡ 204 → r.0.value ≡ token
  pub refused : r.1 ≢ 204 → r.0 ≡ v.logout_cookie

module _ {S : Type 0} (v : Core S) (view : S → View) (laws : CoreLaws v view) (w : View) where
  pub valid_rule : (token : String) → Does view w (valid v token) (Checked v token w)
  unfolding valid
  valid_rule token = run_rule _ (
      call_then _ _ (
        cookie_rule v view laws w token (λ c n value age. attempt_then _ _ _ (
          exists_rule v.authn view laws.redis w (token_key token)
            (λ count hit miss.
              return_if_then _ _ _
                (λ zero.
                  refuse 307 (inr (inl refl)) (λ z. absurd (omega arith))
                    (λ f x h _. hit f x h (ground arith)))
                (λ pos_count. attempt_then _ _ _ (
                  expire_rule v.authn view laws.redis w (token_key token) c.max_age n age
                    (λ b live.
                      return_if_then _ _ _
                        (λ lost.
                          refuse 307 (inr (inl refl)) (λ z. absurd (omega arith))
                            (λ f x h _. ground (arith, live f x h)))
                        (λ found. finish_rule _ (record {
                          same = refl;
                          codes = inl refl;
                          gone = λ dead no_set _. ground (arith, miss dead no_set);
                          known = λ f x h. omega arith;
                          accepted = λ _. value;
                          refused = λ z. absurd (z refl);
                        })))
                    (λ e. error))))
            (λ e. error)))))
    where
      refuse :
          (code : ℕ)
          → (code ≡ 204) ⊎ (code ≡ 307) ⊎ (code ≡ 500)
          → code ≢ 204
          → ((f x : String) → w.hash (token_key token) f ≡ some x → code ≢ 307)
          → Checked v token w (v.logout_cookie, code) w
      refuse code codes ne known = record {
        same = refl;
        codes = codes;
        gone = λ _ _. ne;
        known = known;
        accepted = λ z. absurd (ne z);
        refused = λ _. refl;
      }

      error : Checked v token w (v.logout_cookie, 500) w
      error =
          refuse 500 (inr (inr refl)) (λ z. absurd (omega arith)) (λ f x h z. absurd (omega arith))
