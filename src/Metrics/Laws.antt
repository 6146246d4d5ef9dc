-- ===== src/Metrics/Laws.antt =====
-- What Prometheus documents of counters with labels: currying gives labels their values, of which each
-- may be given once; the rest is given when the counter is increased, in the order of the declaration.
use userservice.Prelude.{
  ℕ, suc, String, str_eq, ◌≡◌, refl, ◌∙◌, Bool, true, false, ◌&&◌, Option, none, some, List, [],
  ◌∷◌, map, if◌then◌else◌, is_some, arith,
}
use mathlib.Core.Option
use userservice.Metrics.{Prometheus}

-- A label and its value, if it has one.
abbrev pub Label : Type 0
Label = String × Option String

-- A counter: its name and its labels, in the order in which they were declared.
pub record Vec : Type 0 where
  pub name : String
  pub labels : List Label

abbrev pub undeclared : String → List Label → Bool
undeclared l [] = true
undeclared l ((k, v) ∷ ls) = if str_eq k l then is_some v else undeclared l ls

abbrev pub give : String → String → List Label → List Label
give l x [] = []
give l x ((k, v) ∷ ls) = (k, if str_eq k l then some x else v) ∷ give l x ls

-- Each label must be one that is declared and has no value yet.
abbrev pub curried : List (String × String) → List Label → Option (List Label)
curried [] ls = some ls
curried ((l, x) ∷ xs) ls = if undeclared l ls then none else curried xs (give l x ls)

abbrev pub cons : String → Option (List String) → Option (List String)
cons x none = none
cons x (some xs) = some (x ∷ xs)

-- The values of all labels, when those without a value are given theirs.
abbrev pub filled : List Label → List String → Option (List String)
filled [] [] = some []
filled [] (x ∷ xs) = none
filled ((l, some v) ∷ ls) xs = cons v (filled ls xs)
filled ((l, none) ∷ ls) [] = none
filled ((l, none) ∷ ls) (x ∷ xs) = cons x (filled ls xs)

abbrev pub same_values : List String → List String → Bool
same_values [] [] = true
same_values [] (y ∷ ys) = false
same_values (x ∷ xs) [] = false
same_values (x ∷ xs) (y ∷ ys) = str_eq x y && same_values xs ys

-- The count of each counter at each choice of values.
abbrev pub Counts : Type 0
Counts = String → List String → ℕ

abbrev pub bump : String → List String → Counts → Counts
bump n xs c m ys = if str_eq n m && same_values xs ys then suc (c m ys) else c m ys

pub record PrometheusLaws {V S : Type 0} (p : Prometheus V S) (view : V → Vec) (counts : S → Counts)
    : Type 0 where
  pub new_view :
      (n : String) (ls : List String)
      → view (p.new_counter_vec n ls) ≡ record { name = n; labels = map (λ l. (l, none)) ls }
  pub curry_view :
      (xs : List (String × String)) (v : V)
      → Option.map view (p.must_curry_with xs v)
        ≡ Option.map (λ ls. record (view v) { labels = ls }) (curried xs (view v).labels)
  pub inc_counts :
      (v : V) (xs : List String) (s : S)
      → Option.map counts (p.inc v xs s)
        ≡ Option.map (λ ys. bump (view v).name ys (counts s)) (filled (view v).labels xs)

pub mapped_some :
    {A B : Type 0} (f : A → B) (o : Option A) (b : B)
    → Option.map f o ≡ some b
    → (a : A) × (o ≡ some a) × (f a ≡ b)
mapped_some f none b e = ground (arith, e)
mapped_some f (some a) b e = (a, refl, ground (arith, e))

module _ {V S : Type 0} {p : Prometheus V S} {view : V → Vec} {counts : S → Counts}
    (laws : PrometheusLaws p view counts) where
  pub curry_rule :
      (xs : List (String × String)) (v : V) (n : String) (ls ls' : List Label)
      → view v ≡ record { name = n; labels = ls }
      → curried xs ls ≡ some ls'
      → (v' : V) × (p.must_curry_with xs v ≡ some v')
        × (view v' ≡ record { name = n; labels = ls' })
  curry_rule xs v n ls ls' e c = mapped_some view _ _ (laws.curry_view xs v ∙ rw (e, c) refl)

  pub inc_rule :
      (v : V) (xs ys : List String) (s : S) (n : String) (ls : List Label)
      → view v ≡ record { name = n; labels = ls }
      → filled ls xs ≡ some ys
      → (s' : S) × (p.inc v xs s ≡ some s') × (counts s' ≡ bump n ys (counts s))
  inc_rule v xs ys s n ls e c = mapped_some counts _ _ (laws.inc_counts v xs s ∙ rw (e, c) refl)
