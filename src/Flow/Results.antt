-- ===== src/Flow/Results.antt =====
-- What a function returns, by rules for each form of step, whatever the world does.
use userservice.Prelude.{◌≡◌, refl, Bool, true, false}
use userservice.Flow.{
  Act, Proc, Result, ok, err, finish, pure, call, attempt, return_if, ◌>>=◌, run,
}
use userservice.Flow.Spec.{
  Does, Ensures, Replies, call_rule, call_then, attempt_then, return_if_then, finish_rule,
  pure_rule, run_rule, bind_rule,
}

-- Every result of the function satisfies `P`.
abbrev pub Gives : {S A : Type 0} → Act S A → (A → Type 0) → Type 0
Gives m P = Does (λ _. tt {0}) tt m (λ a _. P a)

-- Every early return of the block satisfies `P`, and so does the value with which it goes on.
abbrev pub Returns : {S R : Type 0} → Proc S R R → (R → Type 0) → Type 0
Returns m P = Ensures (λ _. tt {0}) tt m (λ r _. P r) (λ r _. P r)

module _ {S A : Type 0} where
  pub gives : (m : Act S A) (P : A → Type 0) → ((s : S) → P (m s).0) → Gives m P
  gives m P h = record { at = λ s e. h s }

  pub given : {m : Act S A} {P : A → Type 0} → Gives m P → (s : S) → P (m s).0
  given h s = h.at s refl

module _ {S R : Type 0} {P : R → Type 0} where
  pub run_gives : (m : Proc S R R) → Returns m P → Gives (run m) P
  run_gives m h = run_rule m h

  pub finish_returns : (r : R) → P r → Returns {S = S} (finish r) P
  finish_returns r h = finish_rule r h

  pub last_call : (m : Act S R) → Gives m P → Returns (call m) P
  last_call m h = call_rule m h

  pub return_if_returns :
      (b : Bool) (r : R) (g : Unit {0} → Proc S R R)
      → (b ≡ true → P r)
      → (b ≡ false → Returns (g tt) P)
      → Returns (return_if b r >>= g) P
  return_if_returns b r g x k = return_if_then b r g x k

module _ {S R A : Type 0} {P : R → Type 0} where
  -- A call of which nothing is known.
  pub call_returns :
      (m : Act S A) (g : A → Proc S R R) → ((a : A) → Returns (g a) P) → Returns (call m >>= g) P
  call_returns m g k = call_then m g (record { at = λ s e. k (m s).0 })

  -- A call of which something is.
  pub call_gives :
      {Q : A → Type 0} (m : Act S A) (g : A → Proc S R R)
      → Gives m Q
      → ((a : A) → Q a → Returns (g a) P)
      → Returns (call m >>= g) P
  call_gives m g h k = call_then m g (record { at = λ s e. k (m s).0 (h.at s e) })

-- Every early return of a part satisfies `P`, and the value with which it goes on satisfies `Q`.
abbrev pub Parts : {S R A : Type 0} → Proc S R A → (R → Type 0) → (A → Type 0) → Type 0
Parts m P Q = Ensures (λ _. tt {0}) tt m (λ r _. P r) (λ a _. Q a)

module _ {S R A B : Type 0} {P : R → Type 0} {Q : B → Type 0} where
  pub part_returns :
      {T : A → Type 0} (m : Proc S R A) (g : A → Proc S R B)
      → Parts m P T
      → ((a : A) → T a → Parts (g a) P Q)
      → Parts (m >>= g) P Q
  part_returns {T} m g h k = bind_rule (λ a _. T a) m g h (λ a w t. k a t)

module _ {E R A B : Type 0} {P : R → Type 0} {Q : B → Type 0} {S : Type 0} where
  replied :
      (x : Result E A) (f : E → R) (g : A → Proc S R B)
      → ((e : E) → P (f e))
      → ((a : A) → Parts (g a) P Q)
      → Replies
          (λ a (w : Unit {0}). Ensures (λ _. tt {0}) w (g a) (λ r _. P r) (λ b _. Q b))
          (λ e _. P (f e))
          x
          tt
  replied (ok a) f g bad k = k a
  replied (err e) f g bad k = bad e

  pub attempt_parts :
      (m : Act S (Result E A)) (f : E → R) (g : A → Proc S R B)
      → ((e : E) → P (f e))
      → ((a : A) → Parts (g a) P Q)
      → Parts (attempt m f >>= g) P Q
  attempt_parts m f g bad k = attempt_then m f g (record { at = λ s e. replied (m s).0 f g bad k })

module _ {E R A : Type 0} {P : R → Type 0} {S : Type 0} where
  pub attempt_returns :
      (m : Act S (Result E A)) (f : E → R) (g : A → Proc S R R)
      → ((e : E) → P (f e))
      → ((a : A) → Returns (g a) P)
      → Returns (attempt m f >>= g) P
  attempt_returns m f g bad k = attempt_parts m f g bad k

pub pure_part :
    {S R A : Type 0} {P : R → Type 0} {Q : A → Type 0} (a : A) → Q a → Parts {S = S} (pure a) P Q
pure_part a h = pure_rule a h
