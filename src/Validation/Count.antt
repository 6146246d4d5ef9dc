-- ===== src/Validation/Count.antt =====
-- `checkCount`: how many logins a user has, and which of them it evicts.
use userservice.Prelude.{
  ℕ, ◌≤◌, ◌<◌, String, str_eq, eq_iff, ◌≡◌, ◌≢◌, refl, ◌⊎◌, inl, inr, true, false, none, some, List,
  [], ◌∷◌, ◌++◌, arith, ◌==◌, if◌then◌else◌, contains, contains-append, Bool-cases, Option-cases,
}
use userservice.Flow.Spec.{
  Does, Ensures, attempt_then, return_if_then, bind_rule, pure_rule, finish_rule, run_rule,
}
use userservice.Redis.Laws.{View, drop_members}
use userservice.Redis.Rules.{exists_rule, smembers_rule, srem_rule}
use userservice.Validation.{Core, find_expired, check_count}
use userservice.Validation.Laws.{CoreLaws}

-- No hash is stored under the key.
abbrev pub IsDead : View → String → Type 0
IsDead w k = (f : String) → w.hash k f ≡ none

-- What `checkCount` may do to the data: take dead keys off the one set.
pub record Pruned (key : String) (w w' : View) : Type 0 where
  pub hashes : w'.hash ≡ w.hash
  pub fewer : (j : String) → w'.card j ≤ w.card j
  pub members : (j u : String) → w'.has j u ≡ true → w.has j u ≡ true
  pub others : (j u : String) → key ≢ j → w'.has j u ≡ w.has j u
  pub evicted : (u : String) → w.has key u ≡ true → w'.has key u ≡ false → IsDead w u

pub record Counted (most : ℕ) (key : String) (w : View) (code : ℕ) (w' : View) : Type 0 where
  pub pruned : Pruned key w w'
  pub room : code ≡ 200 → w'.card key < most
  pub full : code ≡ 429 → most ≤ w'.card key
  pub codes : (code ≡ 200) ⊎ (code ≡ 429) ⊎ (code ≡ 500)

pub Pruned-refl : (key : String) (w : View) → Pruned key w w
Pruned-refl key w = record {
  hashes = refl;
  fewer = λ j. omega arith;
  members = λ j u h. h;
  others = λ j u h. refl;
  evicted = λ u h k. cc;
}

counted :
    {most : ℕ} {key : String} {w w' : View} (code : ℕ)
    → Pruned key w w'
    → (code ≡ 200 → w'.card key < most)
      × (code ≡ 429 → most ≤ w'.card key)
      × ((code ≡ 200) ⊎ (code ≡ 429) ⊎ (code ≡ 500))
    → Counted most key w code w'
counted code p h = record { pruned = p; room = h.0; full = h.1; codes = h.2 }

AllDead : View → List String → Type 0
AllDead w ts = (t : String) → contains t ts ≡ true → IsDead w t

Pruned-drop :
    (key : String) (ts : List String) (n : ℕ) (w : View)
    → AllDead w ts
    → Pruned key w (drop_members key ts n w)
unfolding AllDead
Pruned-drop key ts n w dead = record {
  hashes = refl;
  fewer = λ j. ground arith;
  members = λ j u h. ground arith;
  others = λ j u h. ground (arith, eq_iff key j);
  evicted = λ u h k. dead u (ground (arith, eq_iff key key));
}

AllDead-nil : (w : View) → AllDead w []
unfolding AllDead contains
AllDead-nil w t c = cc

-- EXISTS answered 0.
IsDead-of_zero :
    (w : View) (k : String) (n : ℕ)
    → ((f x : String) → w.hash k f ≡ some x → n ≢ 0)
    → n ≡ 0
    → IsDead w k
IsDead-of_zero w k n hit z f = elim (Option-cases (w.hash k f)) [
  | inl e ↦ e
  | inr (x, e) ↦ absurd (hit f x e z)
]

AllDead-snoc :
    (w : View) (ts : List String) (t : String) (n : ℕ)
    → AllDead w ts
    → ((f x : String) → w.hash t f ≡ some x → n ≢ 0)
    → AllDead w (if n == 0 then ts ++ t ∷ [] else ts)
unfolding AllDead contains
AllDead-snoc w ts t n dead hit u c = elim (Bool-cases (n == 0)) [
  | inl z ↦ elim (Bool-cases (str_eq t u)) [
    | inl same ↦ rw (← (eq_iff t u).0 same) (IsDead-of_zero w t n hit (ground arith))
    | inr other ↦ dead u (ground (arith, contains-append u ts (t ∷ [])))
  ]
  | inr z ↦ dead u (rw z at c)
]

module _ {S : Type 0} (v : Core S) (view : S → View) (laws : CoreLaws v view) (w : View) where
  find_expired_rule :
      {X : ℕ → View → Type 0} (ts acc : List String)
      → X 500 w
      → AllDead w acc
      → Ensures view w (find_expired v ts acc) X (λ ex w'. (w' ≡ w) × AllDead w ex)
  unfolding find_expired
  find_expired_rule [] acc x dead = pure_rule _ (refl, dead)
  find_expired_rule (t ∷ ts) acc x dead = attempt_then _ _ _ (
      exists_rule v.authn view laws.redis w t
        (λ n hit miss. find_expired_rule ts _ x (AllDead-snoc w acc t n dead hit)) (λ e. x))

  pub check_count_rule :
      (key : String) → Does view w (check_count v key) (Counted v.max_logins key w)
  unfolding check_count
  check_count_rule key = run_rule _ (
      attempt_then _ _ _ (
        smembers_rule v.authn view laws.redis w key
          (λ ts size mem.
            return_if_then _ _ _ (λ small. counted 200 (Pruned-refl key w) (ground arith))
              (λ big.
                bind_rule _ _ _ (find_expired_rule ts [] error (AllDead-nil w))
                  (λ ex w' (same, dead). rw same (
                    return_if_then _ _ _
                      (λ none_dead. counted 429 (Pruned-refl key w) (ground arith))
                      (λ some_dead. attempt_then _ _ _ (
                        srem_rule v.authn view laws.redis w key ex
                          (λ n le.
                            return_if_then _ _ _
                              (λ fits.
                                counted 200 (Pruned-drop key ex n w dead)
                                  (ground (arith, eq_iff key key)))
                              (λ over. finish_rule _ (
                                counted 429 (Pruned-drop key ex n w dead)
                                  (ground (arith, eq_iff key key)))))
                          (λ e. (
                            error,
                            λ n. counted 500 (Pruned-drop key ex n w dead) (ground arith),
                          ))))))))
          (λ e _. error)))
    where
      error : Counted v.max_logins key w 500 w
      error = counted 500 (Pruned-refl key w) (ground arith)
