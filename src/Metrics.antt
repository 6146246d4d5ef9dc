-- ===== src/Metrics.antt =====
-- internal/metrics/prometheus.go: the two counters, their registry, and what the code asks of Prometheus.
pub mod Laws
pub mod Memory
pub mod Registry
use mathlib.Core.Option
use userservice.Prelude.{String, Option, none, some, List, [], ◌∷◌}

-- The calls of Prometheus. Where the call panics, here there is none.
pub record Prometheus (V S : Type 0) : Type 0 where
  -- `NewCounterVec`, of the name and the labels
  pub new_counter_vec : String → List String → V
  pub must_curry_with : List (String × String) → V → Option V
  -- `WithLabelValues(…).Inc()`
  pub inc : V → List String → S → Option S

module _ {V S : Type 0} (p : Prometheus V S) where
  unfoldable pub data_metrics : V
  data_metrics = p.new_counter_vec "database" ("db" ∷ "pkg" ∷ "function" ∷ "status" ∷ [])

  unfoldable pub service_metrics : V
  service_metrics = p.new_counter_vec "router" ("url" ∷ "proto" ∷ "method" ∷ "sc" ∷ [])

  -- `NewValidator`: the counter of the validator.
  unfoldable pub validator_metrics : Option V
  validator_metrics = p.must_curry_with (("db", "redis") ∷ ("pkg", "valid") ∷ []) data_metrics

  -- `main`: the package's label, before the counter is passed to `NewUserService`.
  unfoldable pub package_metrics : Option V
  package_metrics = p.must_curry_with (("pkg", "data") ∷ []) data_metrics

-- The registry of `NewHandler`: registering a counter whose name is taken panics.
pub record Registration (V G H : Type 0) : Type 0 where
  pub new_registry : G
  pub must_register : V → G → Option G
  -- `promhttp.HandlerFor`, of what is gathered from the registry
  pub handler_for : G → H

abbrev pub and_register : {V G H : Type 0} → Registration V G H → V → Option G → Option G
and_register g v none = none
and_register g v (some reg) = g.must_register v reg

-- `NewHandler`, or none where it panics.
unfoldable pub new_handler : {V G H S : Type 0} → Prometheus V S → Registration V G H → Option H
new_handler p g =
    Option.map g.handler_for
      (and_register g (service_metrics p) (g.must_register (data_metrics p) g.new_registry))
