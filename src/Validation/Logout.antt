-- ===== src/Validation/Logout.antt =====
-- `Logout`: the token's session is gone and its place in the user's set is free.
use userservice.Prelude.{
  ℕ, ◌≤◌, String, eq_iff, ◌≡◌, ◌≢◌, refl, Option, true, false, none, some, List, [], ◌∷◌, arith,
  contains,
}
use userservice.Flow.Spec.{
  Does, does_weaken, attempt_then, call_then, return_if_then, finish_rule, run_rule,
}
use userservice.Http.{Cookie}
use userservice.Redis.{RedisError, nil, failed}
use userservice.Redis.Laws.{View, drop_fields, drop_members}
use userservice.Redis.Rules.{hget_rule, hdel_rule, srem_rule}
use userservice.Validation.{Core, logout, hget_status, logins_key, token_key, userid, remote}
use userservice.Validation.Laws.{CoreLaws}
use userservice.Validation.Sessions.{valid_rule}

abbrev pub session_fields : List String
session_fields = userid ∷ remote ∷ []

-- No command of a logout adds anything, and none touches another hash.
pub record Shrunk (k : String) (w w' : View) : Type 0 where
  pub fewer : (j : String) → w'.card j ≤ w.card j
  pub members : (j u : String) → w'.has j u ≡ true → w.has j u ≡ true
  pub others : (j f : String) → k ≢ j → w'.hash j f ≡ w.hash j f
  pub fields : (f x : String) → w'.hash k f ≡ some x → w.hash k f ≡ some x

pub record LoggedOut {S : Type 0} (v : Core S) (token : String) (w : View) (r : Option Cookie × ℕ)
    (w' : View) : Type 0 where
  pub shrunk : Shrunk (token_key token) w w'
  pub ended :
      r.1 ≡ 204
      → (f : String) → contains f session_fields ≡ true
      → w'.hash (token_key token) f ≡ none
  pub unlisted :
      r.1 ≡ 204
      → (uid : String) → w.hash (token_key token) userid ≡ some uid
      → w'.has (logins_key uid) (token_key token) ≡ false
  pub known : r.1 ≡ 204 → w.hash (token_key token) userid ≢ none
  pub cookie : r.1 ≡ 204 → r.0 ≡ some v.logout_cookie
  pub refused : r.1 ≢ 204 → r.0 ≡ none

Shrunk-refl : (k : String) (w : View) → Shrunk k w w
Shrunk-refl k w = record {
  fewer = λ j. omega arith;
  members = λ j u h. h;
  others = λ j f ne. refl;
  fields = λ f x h. h;
}

Shrunk-drop_fields : (k : String) (fs : List String) (w : View) → Shrunk k w (drop_fields k fs w)
Shrunk-drop_fields k fs w = record {
  fewer = λ j. omega arith;
  members = λ j u h. h;
  others = λ j f ne. ground (arith, eq_iff k j);
  fields = λ f x h. ground (arith, eq_iff k k);
}

Shrunk-drop_members :
    (k j : String) (ts : List String) (n : ℕ) {w w' : View}
    → Shrunk k w w'
    → Shrunk k w (drop_members j ts n w')
Shrunk-drop_members k j ts n h = record {
  fewer = λ i. ground (arith, h.fewer i);
  members = λ i u p. ground (arith, h.members i u);
  others = h.others;
  fields = h.fields;
}

hget_status-ne : (e : RedisError) → (hget_status e).1 ≢ 204
unfolding hget_status
hget_status-ne nil = omega arith
hget_status-ne (failed m) = omega arith

hget_status-none : (e : RedisError) → (hget_status e).0 ≡ none
unfolding hget_status
hget_status-none nil = refl
hget_status-none (failed m) = refl

module _ {S : Type 0} (v : Core S) (view : S → View) (laws : CoreLaws v view) (w : View) where
  refuse :
      (token : String) (r : Option Cookie × ℕ) (w' : View)
      → Shrunk (token_key token) w w'
      → r.1 ≢ 204
      → r.0 ≡ none
      → LoggedOut v token w r w'
  refuse token r w' h ne e = record {
    shrunk = h;
    ended = λ z. absurd (ne z);
    unlisted = λ z. absurd (ne z);
    known = λ z. absurd (ne z);
    cookie = λ z. absurd (ne z);
    refused = λ _. e;
  }

  -- All steps went through.
  done :
      (token uid : String) (n : ℕ)
      → w.hash (token_key token) userid ≡ some uid
      → LoggedOut v token w
          (some v.logout_cookie, 204)
          (drop_members
            (logins_key uid)
            (token_key token ∷ [])
            n
            (drop_fields (token_key token) session_fields w))
  unfolding contains
  done token uid n user = record {
    shrunk =
        Shrunk-drop_members _ (logins_key uid) (token_key token ∷ []) n
          (Shrunk-drop_fields (token_key token) session_fields w);
    ended = λ _ f h. ground (arith, eq_iff (token_key token) (token_key token));
    unlisted = λ _ u h.
        ground (
          arith,
          eq_iff (logins_key uid) (logins_key u),
          eq_iff (token_key token) (token_key token),
        );
    known = λ _ z. cc;
    cookie = λ _. refl;
    refused = λ ne. absurd (ne refl);
  }

  pub logout_rule : (token : String) → Does view w (logout v token) (LoggedOut v token w)
  unfolding logout
  logout_rule token = run_rule _ (
      call_then _ _ (
        does_weaken (valid_rule v view laws w token) (λ r w' checked. rw checked.same (
          return_if_then _ _ _ (λ bad. refuse token _ _ same (ground arith) refl)
            (λ good. attempt_then _ _ _ (
              hget_rule v.authn view laws.redis w _ _
                (λ uid user. attempt_then _ _ _ (
                  hdel_rule v.authn view laws.redis w _ _
                    (λ _. attempt_then _ _ _ (
                      srem_rule v.authn view laws.redis _ _ _
                        (λ n _. finish_rule _ (done token uid n user))
                        (λ _. (
                          error _ dropped,
                          λ n. error _ (
                              Shrunk-drop_members _ (logins_key uid) (token_key token ∷ []) n
                                dropped),
                        ))))
                    (λ _. (error _ same, error _ dropped))))
                (λ e.
                  refuse token (hget_status e) _ same (hget_status-ne e) (hget_status-none e))))))))
    where
      same : Shrunk (token_key token) w w
      same = Shrunk-refl _ w

      dropped : Shrunk (token_key token) w (drop_fields (token_key token) session_fields w)
      dropped = Shrunk-drop_fields (token_key token) session_fields w

      error : (w' : View) → Shrunk (token_key token) w w' → LoggedOut v token w (none, 500) w'
      error w' h = refuse token (none, 500) w' h (λ z. absurd (omega arith)) refl
