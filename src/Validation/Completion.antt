-- ===== src/Validation/Completion.antt =====
-- `clearLogins` and `CompleteOTP`: a pad that is used ends all the logins of its user, and with them
-- itself.
use userservice.Prelude.{
  ℕ, String, eq_iff, ◌≡◌, ◌≢◌, refl, sym, true, false, Option, none, some, List, [], ◌∷◌, arith,
  ◌==◌, length, contains, lookup,
}
use userservice.Flow.Spec.{
  Does, does_weaken, attempt_then, call_then, call_rule, return_if_then, finish_rule, run_rule,
}
use userservice.Redis.{RedisError, nil, failed}
use userservice.Redis.Laws.{View, drop_members}
use userservice.Redis.Rules.{smembers_rule, srem_rule, hget_all_rule}
use userservice.Validation.{
  Core, clear_logins, complete_otp, complete_otp_user, smembers_status, logins_key, pad_key, userid,
}
use userservice.Validation.Laws.{CoreLaws}
use userservice.Validation.Clearing.{
  pad_fields, Fewer, Fewer-refl, Fewer-trans, Fewer-drop_members, TokensCleared, clear_tokens_rule,
}

-- Every login of the user, token or pad, is ended and off the set.
pub record Ended (uid : String) (w w' : View) : Type 0 where
  pub hashes :
      (t f : String)
      → w.has (logins_key uid) t ≡ true
      → contains f pad_fields ≡ true
      → w'.hash t f ≡ none
  pub unlisted : (t : String) → w'.has (logins_key uid) t ≡ false

pub record LoginsCleared (uid : String) (w : View) (code : ℕ) (w' : View) : Type 0 where
  pub fewer : Fewer w w'
  pub ended : code ≡ 410 → Ended uid w w'
  pub codes : (code ≢ 410) → code ≡ 500

pub record Completed (pad : String) (w : View) (r : String × ℕ) (w' : View) : Type 0 where
  pub fewer : Fewer w w'
  pub user : r.1 ≡ 200 → w.hash (pad_key pad) userid ≡ some r.0
  pub ended : r.1 ≡ 200 → Ended r.0 w w'
  pub refused : r.1 ≢ 200 → r.0 ≡ ""

-- The user had no logins.
Ended-none :
    (uid : String) (w : View) (ts : List String)
    → ((t : String) → contains t ts ≡ w.has (logins_key uid) t)
    → (length ts == 0) ≡ true
    → Ended uid w w
unfolding contains
Ended-none uid w [] mem e = record {
  hashes = λ t f h _. ground (arith, mem t);
  unlisted = λ t. ground (arith, mem t);
}
Ended-none uid w (t ∷ ts) mem e = absurd (ground arith)

Ended-all :
    (uid : String) (w w' : View) (ts : List String) (r : List String × Option RedisError) (n : ℕ)
    → ((t : String) → contains t ts ≡ w.has (logins_key uid) t)
    → TokensCleared ts [] w r w'
    → r.1 ≡ none
    → Ended uid w (drop_members (logins_key uid) r.0 n w')
Ended-all uid w w' ts r n mem c e = record {
  hashes = λ t f h hf. c.ended e t f (ground (arith, mem t)) hf;
  unlisted = λ t.
      rw (c.result e, c.sets) (ground (arith, mem t, eq_iff (logins_key uid) (logins_key uid)));
}

smembers_status_failed : (e : RedisError) → e ≢ nil → smembers_status e ≡ 500
unfolding smembers_status
smembers_status_failed nil ne = absurd (ne refl)
smembers_status_failed (failed m) ne = refl

module _ {S : Type 0} (v : Core S) (view : S → View) (laws : CoreLaws v view) (w : View) where
  pub clear_logins_rule : (uid : String) → Does view w (clear_logins v uid) (LoginsCleared uid w)
  unfolding clear_logins
  clear_logins_rule uid = run_rule _ (
      attempt_then _ _ _ (
        smembers_rule v.authn view laws.redis w (logins_key uid)
          (λ ts size mem.
            return_if_then _ _ _
              (λ empty. record {
                fewer = Fewer-refl w;
                ended = λ _. Ended-none uid w ts mem empty;
                codes = λ ne. absurd (ne refl);
              })
              (λ some_logins. call_then _ _ (
                does_weaken (clear_tokens_rule v view laws ts [] w) (λ r w' c.
                  return_if_then _ _ _ (λ _. error c.fewer)
                    (λ ok_all. attempt_then _ _ _ (
                      srem_rule v.authn view laws.redis w' _ r.0
                        (λ n _. finish_rule _ (record {
                          fewer = Fewer-trans c.fewer (Fewer-drop_members _ r.0 n w');
                          ended = λ _. Ended-all uid w w' ts r n mem c (ground arith);
                          codes = λ ne. absurd (ne refl);
                        }))
                        (λ _. (
                          error c.fewer,
                          λ n. error (Fewer-trans c.fewer (Fewer-drop_members _ r.0 n w')),
                        ))))))))
          (λ e ne. rw (smembers_status_failed e ne) (error (Fewer-refl w)))))
    where
      error : {w' : View} → Fewer w w' → LoginsCleared uid w 500 w'
      error h = record { fewer = h; ended = λ z. absurd (omega arith); codes = λ _. refl }

  refuse :
      (pad : String) (code : ℕ) {w' : View}
      → code ≢ 200
      → Fewer w w'
      → Completed pad w ("", code) w'
  refuse pad code ne h = record {
    fewer = h;
    user = λ z. absurd (ne z);
    ended = λ z. absurd (ne z);
    refused = λ _. refl;
  }

  user_rule :
      (pad : String) (found : Option String)
      → found ≡ w.hash (pad_key pad) userid
      → Does view w (complete_otp_user v found) (Completed pad w)
  unfolding complete_otp_user
  user_rule pad none e =
      run_rule _ (finish_rule _ (refuse pad 500 (λ z. absurd (omega arith)) (Fewer-refl w)))
  user_rule pad (some uid) e = run_rule _ (
      return_if_then _ _ _ (λ _. refuse pad 400 (λ z. absurd (omega arith)) (Fewer-refl w))
        (λ named. call_then _ _ (
          does_weaken (clear_logins_rule uid) (λ code w' c.
            return_if_then _ _ _ (λ bad. refuse pad code (ground (arith, c.codes)) c.fewer)
              (λ good. finish_rule _ (record {
                fewer = c.fewer;
                user = λ _. sym e;
                ended = λ _. c.ended (ground arith);
                refused = λ ne. absurd (ne refl);
              }))))))

  pub complete_otp_rule : (pad : String) → Does view w (complete_otp v pad) (Completed pad w)
  unfolding complete_otp
  complete_otp_rule pad = run_rule _ (
      attempt_then _ _ _ (
        hget_all_rule v.authn view laws.redis w (pad_key pad)
          (λ m fields. call_rule _ (user_rule pad (lookup userid m) (fields userid)))
          (λ e. refuse pad 500 (λ z. absurd (omega arith)) (Fewer-refl w))))
