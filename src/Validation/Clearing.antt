-- ===== src/Validation/Clearing.antt =====
-- `clearTokens`, `clearLogins` and `CompleteOTP`: a pad that is used ends all the logins of its user,
-- and with them itself.
use userservice.Prelude.{
  ℕ, ◌≤◌, String, str_eq, ◌≡◌, refl, ◌∙◌, inl, inr, true, Option, none, some, List, [], ◌∷◌, ◌++◌,
  arith, contains, Option-cases, Bool-cases,
}
use mathlib.Core.List.{append_assoc, append-nil}
use userservice.Flow.Spec.{Does, does_weaken, attempt_then, call_rule, finish_rule, run_rule}
use userservice.Redis.{RedisError}
use userservice.Redis.Laws.{View, drop_fields, drop_members}
use userservice.Redis.Rules.{hdel_rule}
use userservice.Validation.{Core, clear_tokens, userid, remote, redirect}
use userservice.Validation.Laws.{CoreLaws}

abbrev pub pad_fields : List String
pad_fields = userid ∷ remote ∷ redirect ∷ []

-- Commands that only take away.
pub record Fewer (w w' : View) : Type 0 where
  pub fields : (k f x : String) → w'.hash k f ≡ some x → w.hash k f ≡ some x
  pub members : (j u : String) → w'.has j u ≡ true → w.has j u ≡ true
  pub sizes : (j : String) → w'.card j ≤ w.card j

pub Fewer-refl : (w : View) → Fewer w w
Fewer-refl w = record { fields = λ k f x h. h; members = λ j u h. h; sizes = λ j. omega arith }

pub Fewer-trans : {w w' w'' : View} → Fewer w w' → Fewer w' w'' → Fewer w w''
Fewer-trans a b = record {
  fields = λ k f x h. a.fields k f x (b.fields k f x h);
  members = λ j u h. a.members j u (b.members j u h);
  sizes = λ j. omega (arith, a.sizes j, b.sizes j);
}

pub Fewer-drop_fields : (k : String) (fs : List String) (w : View) → Fewer w (drop_fields k fs w)
Fewer-drop_fields k fs w = record {
  fields = λ j f x h. ground arith;
  members = λ j u h. h;
  sizes = λ j. omega arith;
}

pub Fewer-drop_members :
    (k : String) (ts : List String) (n : ℕ) (w : View) → Fewer w (drop_members k ts n w)
Fewer-drop_members k ts n w = record {
  fields = λ j f x h. h;
  members = λ j u h. ground arith;
  sizes = λ j. ground arith;
}

-- What is gone stays gone.
Fewer-none : {w w' : View} → Fewer w w' → (k f : String) → w.hash k f ≡ none → w'.hash k f ≡ none
Fewer-none {w} {w'} h k f e = elim (Option-cases (w'.hash k f)) [
  | inl gone ↦ gone
  | inr (x, p) ↦ cc (h.fields k f x p)
]

pub record TokensCleared (tokens acc : List String) (w : View) (r : List String × Option RedisError)
    (w' : View) : Type 0 where
  pub fewer : Fewer w w'
  pub sets : w'.has ≡ w.has
  pub ended :
      r.1 ≡ none
      → (t f : String) → contains t tokens ≡ true
      → contains f pad_fields ≡ true
      → w'.hash t f ≡ none
  pub result : r.1 ≡ none → r.0 ≡ acc ++ tokens

module _ {S : Type 0} (v : Core S) (view : S → View) (laws : CoreLaws v view) where
  cleared_cons :
      (token : String) (tokens acc : List String) (w : View) (r : List String × Option RedisError)
      (w' : View)
      → TokensCleared tokens (acc ++ token ∷ []) (drop_fields token pad_fields w) r w'
      → TokensCleared (token ∷ tokens) acc w r w'
  unfolding contains
  cleared_cons token tokens acc w r w' rest = record {
    fewer = Fewer-trans (Fewer-drop_fields token pad_fields w) rest.fewer;
    sets = rest.sets;
    ended = λ z t f ht hf. elim (Bool-cases (str_eq token t)) [
      | inl same ↦ Fewer-none rest.fewer t f (rw (same, hf) refl)
      | inr other ↦ rest.ended z t f (ground arith) hf
    ];
    result = λ z. rest.result z ∙ append_assoc acc (token ∷ []) tokens;
  }

  failed_clear :
      {tokens acc : List String} {w w' : View} (ts : List String) (e : RedisError)
      → Fewer w w'
      → w'.has ≡ w.has
      → TokensCleared tokens acc w (ts, some e) w'
  failed_clear ts e h sets = record { fewer = h; sets = sets; ended = λ z. cc; result = λ z. cc }

  pub clear_tokens_rule :
      (tokens acc : List String) (w : View)
      → Does view w (clear_tokens v tokens acc) (TokensCleared tokens acc w)
  unfolding clear_tokens contains
  clear_tokens_rule [] acc w = run_rule _ (
      finish_rule _ (record {
        fewer = Fewer-refl w;
        sets = refl;
        ended = λ z t f h. cc;
        result = λ z. rw append-nil refl;
      }))
  clear_tokens_rule (token ∷ tokens) acc w = run_rule _ (
      attempt_then _ _ _ (
        hdel_rule v.authn view laws.redis w token pad_fields
          (λ n. call_rule _ (
            does_weaken
              (clear_tokens_rule tokens (acc ++ token ∷ []) (drop_fields token pad_fields w))
              (λ r w' rest. cleared_cons token tokens acc w r w' rest)))
          (λ e. (
            failed_clear acc e (Fewer-refl w) refl,
            failed_clear acc e (Fewer-drop_fields token pad_fields w) refl,
          ))))
