-- ===== src/Flow/Spec.antt =====
-- What a function ensures, by rules for each form of step. A function is followed on a view of the
-- world: from a state that shows `w` it ends in one of which its result and its view satisfy `X`.
use userservice.Prelude.{◌≡◌, refl, Bool, true, false}
use userservice.Flow.{
  Flow, ret, next, Result, ok, err, Act, Proc, finish, pure, call, attempt, return_if, continue,
  ◌>>=◌, run,
}

pub record Does {S V A : Type 0} (view : S → V) (w : V) (m : Act S A) (X : A → V → Type 0)
    : Type 0 where
  pub at : (s : S) → view s ≡ w → X (m s).0 (view (m s).1)

abbrev pub Holds : {V R A : Type 0} → (R → V → Type 0) → (A → V → Type 0) → Flow R A → V → Type 0
Holds X N (ret r) w = X r w
Holds X N (next a) w = N a w

pub record Ensures {S V R A : Type 0} (view : S → V) (w : V) (m : Proc S R A) (X : R → V → Type 0)
    (N : A → V → Type 0) : Type 0 where
  pub at : (s : S) → view s ≡ w → Holds X N (m s).0 (view (m s).1)

-- What holds after a call that may fail, by its reply.
abbrev pub Replies :
    {V E A : Type 0} → (A → V → Type 0) → (E → V → Type 0) → Result E A → V → Type 0
Replies G F (ok a) w = G a w
Replies G F (err e) w = F e w

module _ {S V R A : Type 0} {view : S → V} {w : V} {X : R → V → Type 0} {N : A → V → Type 0} where
  pub finish_rule : (r : R) → X r w → Ensures view w (finish r) X N
  unfolding run
  finish_rule r x = record { at = λ s e. rw e x }

  pub pure_rule : (a : A) → N a w → Ensures view w (pure a) X N
  unfolding run
  pure_rule a n = record { at = λ s e. rw e n }

module _ {V E R A : Type 0} (X : R → V → Type 0) (N : A → V → Type 0) where
  attempt_reply :
      (f : E → R) (r : Result E A) (v : V)
      → Replies N (λ e. X (f e)) r v
      → Holds X N (elim r [ ok a ↦ next a | err e ↦ ret (f e) ]) v
  attempt_reply f (ok a) v h = h
  attempt_reply f (err e) v h = h

run-Holds :
    {V R : Type 0} (X : R → V → Type 0) (x : Flow R R) (v : V)
    → Holds X X x v
    → X (elim x [ ret r ↦ r | next r ↦ r ]) v
run-Holds X (ret r) v h = h
run-Holds X (next r) v h = h

module _ {S V R A : Type 0} {view : S → V} {w : V} {X : R → V → Type 0} {N : A → V → Type 0} where
  pub call_rule : (m : Act S A) → Does view w m N → Ensures view w (call m) X N
  unfolding run
  call_rule m d = record { at = λ s e. d.at s e }

  pub attempt_rule :
      {E : Type 0} (m : Act S (Result E A)) (f : E → R)
      → Does view w m (Replies N (λ e. X (f e)))
      → Ensures view w (attempt m f) X N
  unfolding run
  attempt_rule m f d = record { at = λ s e. attempt_reply X N f (m s).0 (view (m s).1) (d.at s e) }

module _ {S V R A B : Type 0} {view : S → V} {X : R → V → Type 0} {N : B → V → Type 0} where
  bind-Holds :
      (Q : A → V → Type 0) (f : A → Proc S R B) (x : Flow R A) (s : S)
      → Holds X Q x (view s)
      → ((a : A) (w' : V) → Q a w' → Ensures view w' (f a) X N)
      → Holds X N (continue x f s).0 (view (continue x f s).1)
  bind-Holds Q f (ret r) s h k = h
  bind-Holds Q f (next a) s h k = (k a (view s) h).at s refl

module _ {S V R A B : Type 0} {view : S → V} {w : V} {X : R → V → Type 0} {N : B → V → Type 0} where
  pub bind_rule :
      (Q : A → V → Type 0) (m : Proc S R A) (f : A → Proc S R B)
      → Ensures view w m X Q
      → ((a : A) (w' : V) → Q a w' → Ensures view w' (f a) X N)
      → Ensures view w (m >>= f) X N
  unfolding run
  bind_rule Q m f d k = record { at = λ s e. bind-Holds Q f (m s).0 (m s).1 (d.at s e) k }

  pub attempt_then :
      {E : Type 0} (m : Act S (Result E A)) (f : E → R) (g : A → Proc S R B)
      → Does view w m (Replies (λ a w'. Ensures view w' (g a) X N) (λ e. X (f e)))
      → Ensures view w (attempt m f >>= g) X N
  attempt_then m f g d = bind_rule _ (attempt m f) g (attempt_rule m f d) (λ a w' h. h)

  pub call_then :
      (m : Act S A) (g : A → Proc S R B)
      → Does view w m (λ a w'. Ensures view w' (g a) X N)
      → Ensures view w (call m >>= g) X N
  call_then m g d = bind_rule _ (call m) g (call_rule m d) (λ a w' h. h)

module _ {S V R B : Type 0} {view : S → V} {w : V} {X : R → V → Type 0} {N : B → V → Type 0} where
  pub return_if_then :
      (b : Bool) (r : R) (g : Unit {0} → Proc S R B)
      → (b ≡ true → X r w)
      → (b ≡ false → Ensures view w (g tt) X N)
      → Ensures view w (return_if b r >>= g) X N
  unfolding run
  return_if_then true r g x k = record { at = λ s e. rw e (x refl) }
  return_if_then false r g x k = record { at = λ s e. (k refl).at s e }

module _ {S V R : Type 0} {view : S → V} {w : V} {X : R → V → Type 0} where
  pub run_rule : (m : Proc S R R) → Ensures view w m X X → Does view w (run m) X
  unfolding run
  run_rule m d = record { at = λ s e. run-Holds X (m s).0 (view (m s).1) (d.at s e) }

module _ {S V A : Type 0} {view : S → V} {w : V} {X Y : A → V → Type 0} {m : Act S A} where
  pub does_weaken : Does view w m X → ((a : A) (v : V) → X a v → Y a v) → Does view w m Y
  does_weaken d k = record { at = λ s e. k (m s).0 (view (m s).1) (d.at s e) }

-- A function followed on the world itself: its result and its end.
pub does_exactly :
    {S A : Type 0} (m : Act S A) (s : S) → Does (λ s'. s') s m (λ a s'. m s ≡ (a, s'))
does_exactly m s = record { at = λ s' e. rw e refl }

-- A result that is there already.
module _ {S V E R A B : Type 0} {view : S → V} {w : V} {X : R → V → Type 0}
    {N : B → V → Type 0} where
  pub given_then :
      (x : Result E A) (f : E → R) (g : A → Proc S R B)
      → ((e : E) → x ≡ err e → X (f e) w)
      → ((a : A) → x ≡ ok a → Ensures view w (g a) X N)
      → Ensures view w (attempt (λ s. (x, s)) f >>= g) X N
  given_then (ok a) f g bad good = attempt_then _ f g (record { at = λ s e. rw e (good a refl) })
  given_then (err x) f g bad good = attempt_then _ f g (record { at = λ s e. rw e (bad x refl) })
