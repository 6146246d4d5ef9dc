-- ===== src/Metrics/Memory.antt =====
-- Prometheus in memory, which keeps what was counted.
use userservice.Prelude.{String, ◌≡◌, refl, Option, none, some, List, [], ◌∷◌, map}
use mathlib.Core.Option
use userservice.Metrics.{Prometheus}
use userservice.Metrics.Laws.{Vec, Counts, curried, filled, bump, PrometheusLaws}

abbrev pub Tally : Type 0
Tally = List (String × List String)

abbrev pub counts : Tally → Counts
counts [] n xs = 0
counts (t ∷ ts) n xs = bump t.0 t.1 (counts ts) n xs

abbrev pub prometheus : Prometheus Vec Tally
prometheus = record {
  new_counter_vec = λ n ls. record { name = n; labels = map (λ l. (l, none)) ls };
  must_curry_with = λ xs v. Option.map (λ ls. record v { labels = ls }) (curried xs v.labels);
  inc = λ v xs s. Option.map (λ ys. (v.name, ys) ∷ s) (filled v.labels xs);
}

map_same : {A : Type 0} (o : Option A) → Option.map (λ a. a) o ≡ o
map_same none = refl
map_same (some a) = refl

map_twice :
    {A B C : Type 0} (f : A → B) (g : B → C) (o : Option A)
    → Option.map g (Option.map f o) ≡ Option.map (λ a. g (f a)) o
map_twice f g none = refl
map_twice f g (some a) = refl

pub prometheus-laws : PrometheusLaws prometheus (λ v. v) counts
prometheus-laws = record {
  new_view = λ n ls. refl;
  curry_view = λ xs v. map_same _;
  inc_counts = λ v xs s. map_twice _ _ _;
}
