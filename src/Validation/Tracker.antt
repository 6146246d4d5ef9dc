-- ===== src/Validation/Tracker.antt =====
-- The tracker of internal/validation/validator.go, by which the methods of `core` log and count what
-- they return. Its log entry and its start time are left out: they only reach the log.
pub mod Chains
pub mod Returns
mod Tests
use userservice.Prelude.{ℕ, String, Option, none, some, List, [], ◌∷◌, Bool, if◌then◌else◌}
use mathlib.Core.Option
use userservice.Metrics.{Prometheus}

-- `trackresults`; an error is its text.
pub record Results : Type 0 where
  pub code : ℕ
  pub error : Option String

pub record Track (V : Type 0) : Type 0 where
  pub metrics : V
  pub results : Results

-- A call of the tracker that gives a tracker again.
pub data Use : Type 0 where
  fields debug warn : Use
  sc : ℕ → Use
  -- none is a nil error
  err : Option String → Use

-- The label that `done` gives, if no error gave it.
status : Option String → List String
status none = "ok" ∷ []
status (some _) = []

set_code : {V : Type 0} → ℕ → Track V → Track V
set_code code t = record t { results = record { code = code; error = t.results.error } }

module _ {V S : Type 0} (p : Prometheus V S) where
  -- `(v *core) tracker`, with the counter of `core` and the cid of the context. A context without one
  -- is a panic, which is none here.
  unfoldable pub tracker : V → Option String → String → Option (Track V)
  tracker m none fn = none
  tracker m (some cid) fn =
      Option.map (λ m'. record { metrics = m'; results = record { code = 0; error = none } })
        (p.must_curry_with (("function", fn) ∷ []) m)

  -- `e.Error()` of a nil error is a panic.
  new_error : Option String → Track V → Option (Track V)
  new_error none t = none
  new_error (some e) t =
      Option.map
        (λ m. record { metrics = m; results = record { code = t.results.code; error = some e } })
        (p.must_curry_with (("status", e) ∷ []) t.metrics)

  -- `(t *track) err`: a second error is a panic.
  set_error : Option String → Track V → Option (Track V)
  unfolding new_error
  set_error e t = elim t.results.error [ some _ ↦ none | none ↦ new_error e t ]

  unfoldable pub use_tracker : Use → Track V → Option (Track V)
  unfolding set_code set_error
  use_tracker fields t = some t
  use_tracker debug t = some t
  use_tracker warn t = some t
  use_tracker (sc code) t = some (set_code code t)
  use_tracker (err e) t = set_error e t

  unfoldable pub chain : List Use → Track V → Option (Track V)
  chain [] t = some t
  chain (u ∷ us) t = elim (use_tracker u t) [ none ↦ none | some t' ↦ chain us t' ]

  -- `(t *track) done`, which `ok` calls
  unfoldable pub done : Track V → S → Option (Results × S)
  unfolding status
  done t s = Option.map (λ s'. (t.results, s')) (p.inc t.metrics (status t.results.error) s)

  -- What a method does with its tracker up to one of its returns, which `finishes` with `done` or `ok`
  -- or leaves the tracker as it is.
  unfoldable pub tracked : V → Option String → String → List Use → Bool → S → Option (Results × S)
  tracked m cid fn us finishes s = elim (tracker m cid fn) [
    | none ↦ none
    | some t ↦ elim (chain us t) [
      | none ↦ none
      | some t' ↦ if finishes then done t' s else some (t'.results, s)
    ]
  ]
