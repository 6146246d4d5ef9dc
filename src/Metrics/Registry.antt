-- ===== src/Metrics/Registry.antt =====
-- What `NewHandler` registers.
use userservice.Prelude.{
  String, ◌≡◌, refl, ◌∙◌, ap, Bool, false, true, none, some, List, [], ◌∷◌, contains, if◌then◌else◌,
}
use mathlib.Core.Option
use userservice.Metrics.{Prometheus, Registration, data_metrics, service_metrics, new_handler}
use userservice.Metrics.Laws.{Vec, Counts, mapped_some, PrometheusLaws}

-- A counter is registered once under its name.
pub record RegistrationLaws {V G H : Type 0} (g : Registration V G H) (view : V → Vec)
    (names : G → List String) : Type 0 where
  pub new_names : names g.new_registry ≡ []
  pub register_names :
      (v : V) (reg : G)
      → Option.map names (g.must_register v reg)
        ≡ (if contains (view v).name (names reg) then none else some ((view v).name ∷ names reg))

new_handler-some :
    {V G H S : Type 0} (p : Prometheus V S) (g : Registration V G H) (reg reg' : G)
    → g.must_register (data_metrics p) g.new_registry ≡ some reg
    → g.must_register (service_metrics p) reg ≡ some reg'
    → new_handler p g ≡ some (g.handler_for reg')
unfolding new_handler
new_handler-some p g reg reg' first second = rw first (ap (Option.map g.handler_for) second)

module _ {V G H : Type 0} {g : Registration V G H} {view : V → Vec} {names : G → List String}
    (laws : RegistrationLaws g view names) where
  register_rule :
      (v : V) (reg : G) (xs : List String)
      → names reg ≡ xs
      → contains (view v).name xs ≡ false
      → (reg' : G) × (g.must_register v reg ≡ some reg') × (names reg' ≡ (view v).name ∷ xs)
  register_rule v reg xs e new =
      mapped_some names _ _ (laws.register_names v reg ∙ rw (e, new) refl)

  -- `NewHandler` does not panic, and what it shows is gathered from both counters and no other.
  pub new_handler_registers :
      {S : Type 0} (p : Prometheus V S) (counts : S → Counts)
      → PrometheusLaws p view counts
      → (reg : G) × (new_handler p g ≡ some (g.handler_for reg))
        × (names reg ≡ "router" ∷ "database" ∷ [])
  unfolding data_metrics service_metrics contains
  new_handler_registers p counts plaws =
      let d = plaws.new_view "database" ("db" ∷ "pkg" ∷ "function" ∷ "status" ∷ []) in
      let r = plaws.new_view "router" ("url" ∷ "proto" ∷ "method" ∷ "sc" ∷ []) in
      let (reg, first, one) =
        register_rule (data_metrics p) g.new_registry [] laws.new_names refl in
      let (reg', second, two) = register_rule (service_metrics p) reg _ one (rw (d, r) refl) in
      (reg', new_handler-some p g reg reg' first second, two ∙ rw (d, r) refl)

-- A registry in memory.
abbrev registration : Registration Vec (List String) (List String)
registration = record {
  new_registry = [];
  must_register = λ v reg. if contains v.name reg then none else some (v.name ∷ reg);
  handler_for = λ reg. reg;
}

map_if :
    (b : Bool) (xs : List String)
    → Option.map (λ x. x) (if b then none else some xs) ≡ (if b then none else some xs)
map_if true xs = refl
map_if false xs = refl

registration-laws : RegistrationLaws registration (λ v. v) (λ reg. reg)
registration-laws = record {
  new_names = refl;
  register_names = λ v reg. map_if (contains v.name reg) (v.name ∷ reg);
}
