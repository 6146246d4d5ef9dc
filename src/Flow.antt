-- ===== src/Flow.antt =====
-- Go's control flow. An `Act` reads and writes the world outside the program (the stores, the clock,
-- the queues) and returns a value. A `Proc` is the body of a function: each step goes on with a
-- value or returns from the function at once, as the code's `if … { return … }` chains do. What was
-- written before a return stays written.
pub mod Spec
pub mod Results
use userservice.Prelude.{Bool, true, false, if◌then◌else◌}

pub data Result {ℓ κ} (E : Type ℓ) (A : Type κ) : Type (ℓ ⊔ κ) where
  ok : A → Result E A
  err : E → Result E A

pub data Flow {ℓ κ} (R : Type ℓ) (A : Type κ) : Type (ℓ ⊔ κ) where
  ret : R → Flow R A
  next : A → Flow R A

abbrev pub Act {ℓ κ} : Type ℓ → Type κ → Type (ℓ ⊔ κ)
Act S A = S → A × S

abbrev pub Proc {ℓ κ μ} : Type ℓ → Type κ → Type μ → Type (ℓ ⊔ κ ⊔ μ)
Proc S R A = S → Flow R A × S

module _ {ℓ κ μ} {S : Type ℓ} {R : Type κ} {A : Type μ} where
  -- `return a` from the function
  pub finish : R → Proc S R A
  finish r s = (ret r, s)

  -- the value with which a block goes on
  pub pure : A → Proc S R A
  pure a s = (next a, s)

  -- a call whose result is used
  pub call : Act S A → Proc S R A
  call m s = let (a, s') = m s in (next a, s')

  -- `a, err := m; if err != nil { return f(err) }`
  pub attempt {ν} : {E : Type ν} → Act S (Result E A) → (E → R) → Proc S R A
  attempt m f s = let (r, s') = m s in (elim r [ ok a ↦ next a | err e ↦ ret (f e) ], s')

-- `if b { return r }`
pub return_if {ℓ κ} : {S : Type ℓ} {R : Type κ} → Bool → R → Proc S R (Unit {0})
return_if b r s = (if b then ret r else next tt, s)

abbrev pub continue {ℓ κ μ ν} :
    {S : Type ℓ} {R : Type κ} {A : Type μ} {B : Type ν} → Flow R A → (A → Proc S R B) → Proc S R B
continue (ret r) f s = (ret r, s)
continue (next a) f s = f a s

infixl 5 ◌>>=◌ ◌>>◌
pub ◌>>=◌ {ℓ κ μ ν} :
    {S : Type ℓ} {R : Type κ} {A : Type μ} {B : Type ν} → Proc S R A → (A → Proc S R B) → Proc S R B
◌>>=◌ m f s = let (x, s') = m s in continue x f s'

abbrev pub ◌>>◌ {ℓ κ μ ν} :
    {S : Type ℓ} {R : Type κ} {A : Type μ} {B : Type ν} → Proc S R A → Proc S R B → Proc S R B
m >> k = m >>= λ _. k

-- The whole function: what it returned, early or at its end.
unfoldable pub run {ℓ κ} : {S : Type ℓ} {R : Type κ} → Proc S R R → Act S R
unfolding finish pure call attempt return_if ◌>>=◌
run m s = let (x, s') = m s in (elim x [ ret r ↦ r | next r ↦ r ], s')
