-- ===== src/Validation/Tracker/Tests.antt =====
-- The tracker on Prometheus in memory.
use userservice.Prelude.{String, ◌≡◌, refl, true, none, some, List, [], ◌∷◌}
use userservice.Metrics.{data_metrics, validator_metrics}
use userservice.Metrics.Laws.{Vec, bump}
use userservice.Metrics.Memory.{prometheus, prometheus-laws, counts}
use userservice.Validation.Tracker.{Use, debug, sc, err, tracker, use_tracker, chain, done, tracked}
use userservice.Validation.Tracker.Chains.{tracked_once}
use userservice.Validation.Tracker.Returns.{Every, Counted, unfinished, returns, returns_counted}

abbrev vec : Vec
vec = record {
  name = "database";
  labels =
      ("db", some "redis") ∷ ("pkg", some "valid") ∷ ("function", none) ∷ ("status", none) ∷ [];
}

vec_made : validator_metrics prometheus ≡ some vec
unfolding validator_metrics data_metrics
vec_made = refl

abbrev refusal : List Use
refusal = debug ∷ sc 307 ∷ err (some "gone") ∷ []

refused_once :
    (s' : List (String × List String)) × (tracked prometheus vec
        (some "cid")
        "Valid"
        refusal
        true
        []
      ≡ some (record { code = 307; error = some "gone" }, s'))
    × (counts s' ≡ bump "database" ("redis" ∷ "valid" ∷ "Valid" ∷ "gone" ∷ []) (counts []))
refused_once =
    tracked_once prometheus (λ v. v) counts prometheus-laws vec "cid" "Valid" refusal true
      (some "gone") [] vec_made refl

returns_counted_example :
    Every
      (Counted prometheus (λ v. v) counts prometheus-laws vec "cid" [])
      (returns "gone" "0 rows" 500)
    × (unfinished (returns "gone" "0 rows" 500) ≡ "CompleteOTP" ∷ [])
returns_counted_example =
    returns_counted prometheus (λ v. v) counts prometheus-laws vec "cid" "gone" "0 rows" 500 []
      vec_made

-- A second error is a panic.
second_error :
    tracked prometheus vec (some "cid") "Valid" (err (some "a") ∷ err (some "b") ∷ []) true []
    ≡ none
unfolding tracked tracker chain use_tracker done
second_error = refl
