-- ===== src/Validation/Tracker/Chains.antt =====
-- What comes of a chain of calls of the tracker.
use userservice.Prelude.{
  ℕ, String, ◌≡◌, refl, sym, ap, ◌∙◌, Bool, true, false, if◌then◌else◌, Option, none, some, List,
  [], ◌∷◌, arith,
}
use mathlib.Core.Option.{some-injective}
use userservice.Metrics.{Prometheus, data_metrics, validator_metrics}
use userservice.Metrics.Laws.{Vec, Counts, bump, filled, PrometheusLaws, curry_rule, inc_rule}
use userservice.Validation.Tracker.{
  Track, Use, fields, debug, warn, sc, err, status, set_code, new_error, set_error, use_tracker,
  chain, done, tracker, tracked,
}

-- The errors that a chain sets.
abbrev pub errors : List Use → List (Option String)
errors [] = []
errors (fields ∷ us) = errors us
errors (debug ∷ us) = errors us
errors (warn ∷ us) = errors us
errors (sc _ ∷ us) = errors us
errors (err e ∷ us) = e ∷ errors us

-- The code that it ends with, `code` being that before it.
abbrev pub final_code : ℕ → List Use → ℕ
final_code code [] = code
final_code code (fields ∷ us) = final_code code us
final_code code (debug ∷ us) = final_code code us
final_code code (warn ∷ us) = final_code code us
final_code code (sc k ∷ us) = final_code k us
final_code code (err e ∷ us) = final_code code us

abbrev pub one_of : Option String → List (Option String)
one_of none = []
one_of (some e) = some e ∷ []

-- The label of what was counted.
abbrev pub status_of : Option String → String
status_of none = "ok"
status_of (some e) = e

-- The counts after a return, which may finish the tracker.
abbrev pub counted : Bool → String → Option String → Counts → Counts
counted finishes fn e c =
    if finishes then bump "database" ("redis" ∷ "valid" ∷ fn ∷ status_of e ∷ []) c else c

abbrev pub counter : String → Option String → Vec
counter fn status = record {
  name = "database";
  labels =
      ("db", some "redis")
      ∷ ("pkg", some "valid")
      ∷ ("function", some fn)
      ∷ ("status", status)
      ∷ [];
}

module _ {V S : Type 0} (p : Prometheus V S) (view : V → Vec) (counts : S → Counts)
    (laws : PrometheusLaws p view counts) where
  -- A tracker whose counter has the error as its status, if there is one.
  record Counting (fn : String) (t : Track V) : Type 0 where
    counted_by : view t.metrics ≡ counter fn t.results.error

  validator_counter :
      (m : V)
      → validator_metrics p ≡ some m
      → view m ≡ record {
        name = "database";
        labels =
            ("db", some "redis")
            ∷ ("pkg", some "valid")
            ∷ ("function", none)
            ∷ ("status", none)
            ∷ [];
      }
  unfolding validator_metrics data_metrics
  validator_counter m made =
      let (m', c, v) =
        curry_rule laws (("db", "redis") ∷ ("pkg", "valid") ∷ []) (data_metrics p) _ _ _
          (laws.new_view _ _) refl in
      ap view (some-injective _ _ (sym made ∙ c)) ∙ v

  tracker_rule :
      (m : V) (cid fn : String)
      → view m ≡ record {
        name = "database";
        labels =
            ("db", some "redis")
            ∷ ("pkg", some "valid")
            ∷ ("function", none)
            ∷ ("status", none)
            ∷ [];
      }
      → (t : Track V) × (tracker p m (some cid) fn ≡ some t)
        × (t.results ≡ record { code = 0; error = none })
        × Counting fn t
  unfolding tracker
  tracker_rule m cid fn e =
      let (m', c, v) = curry_rule laws (("function", fn) ∷ []) m _ _ _ e refl in
      (
        record { metrics = m'; results = record { code = 0; error = none } },
        rw c refl,
        refl,
        record { counted_by = v },
      )

  set_error_rule :
      (fn x : String) (t : Track V)
      → Counting fn t
      → t.results.error ≡ none
      → (t' : Track V) × (set_error p (some x) t ≡ some t')
        × (t'.results ≡ record { code = t.results.code; error = some x })
        × Counting fn t'
  unfolding set_error new_error
  set_error_rule fn x t h e =
      let (m', c, v) =
        curry_rule laws (("status", x) ∷ []) t.metrics _ _ _ (h.counted_by ∙ ap (counter fn) e)
          refl in
      (
        record { metrics = m'; results = record { code = t.results.code; error = some x } },
        rw (e, c) refl,
        refl,
        record { counted_by = v },
      )

  -- The rest of a chain, with the error that is set already and the one that is still to come.
  abbrev Ends : String → List Use → Track V → Option String → Type 0
  Ends fn us t e =
      (t' : Track V) × (chain p us t ≡ some t')
      × (t'.results ≡ record { code = final_code t.results.code us; error = e })
      × Counting fn t'

  chain_quiet :
      (fn : String) (us : List Use) (t : Track V)
      → errors us ≡ []
      → Counting fn t
      → Ends fn us t t.results.error
  unfolding chain use_tracker set_code
  chain_quiet fn [] t q h = (t, refl, refl, h)
  chain_quiet fn (fields ∷ us) t q h = chain_quiet fn us t q h
  chain_quiet fn (debug ∷ us) t q h = chain_quiet fn us t q h
  chain_quiet fn (warn ∷ us) t q h = chain_quiet fn us t q h
  chain_quiet fn (sc k ∷ us) t q h =
      chain_quiet fn us (set_code k t) q (record { counted_by = h.counted_by })
  chain_quiet fn (err e ∷ us) t q h = absurd (ground (arith, q))

  chain_error :
      (fn : String) (x e : Option String) (us : List Use) (t : Track V)
      → x ∷ errors us ≡ one_of e
      → t.results.error ≡ none
      → Counting fn t
      → Ends fn (err x ∷ us) t e
  unfolding chain use_tracker
  chain_error fn x none us t q n h = absurd (ground (arith, q))
  chain_error fn none (some y) us t q n h = absurd (ground (arith, q))
  chain_error fn (some x) (some y) us t q n h =
      let (t1, set, r, h1) = set_error_rule fn x t h n in
      let (t2, rest, r2, h2) = chain_quiet fn us t1 (ground (arith, q)) h1 in
      (t2, rw (chain, use_tracker, set, rest) refl, r2 ∙ rw r (ground (arith, q)), h2)

  chain_rule :
      (fn : String) (us : List Use) (t : Track V) (e : Option String)
      → errors us ≡ one_of e
      → t.results.error ≡ none
      → Counting fn t
      → Ends fn us t e
  unfolding chain use_tracker set_code
  chain_rule fn [] t none q n h = (t, refl, rw (← n) refl, h)
  chain_rule fn [] t (some e) q n h = absurd (ground (arith, q))
  chain_rule fn (fields ∷ us) t e q n h = chain_rule fn us t e q n h
  chain_rule fn (debug ∷ us) t e q n h = chain_rule fn us t e q n h
  chain_rule fn (warn ∷ us) t e q n h = chain_rule fn us t e q n h
  chain_rule fn (sc k ∷ us) t e q n h =
      chain_rule fn us (set_code k t) e q n (record { counted_by = h.counted_by })
  chain_rule fn (err x ∷ us) t e q n h = chain_error fn x e us t q n h

  done_rule :
      (fn : String) (t : Track V) (s : S)
      → Counting fn t
      → (s' : S) × (done p t s ≡ some (t.results, s'))
        × (counts s'
            ≡ bump "database" ("redis" ∷ "valid" ∷ fn ∷ status_of t.results.error ∷ []) (counts s))
  unfolding done
  done_rule fn t s h =
      let (s', i, c) =
        inc_rule laws t.metrics (status t.results.error) _ s _ _ h.counted_by
          (filled_status t.results.error) in
      (s', rw i refl, c)
    where
      filled_status :
          (e : Option String)
          → filled (counter fn e).labels (status e)
            ≡ some ("redis" ∷ "valid" ∷ fn ∷ status_of e ∷ [])
      filled_status none = refl
      filled_status (some e) = refl

  -- With the counter that `NewValidator` makes and a context that has a cid: whatever a method does with
  -- its tracker, if it sets at most one error, which is not nil, there is no panic, and the result is the
  -- code that was set last and that error; if the return finishes the tracker, one counter is increased by
  -- one, that of the method with the error's text, or "ok", as its status, and otherwise none.
  pub tracked_once :
      (m : V) (cid fn : String) (us : List Use) (finishes : Bool) (e : Option String) (s : S)
      → validator_metrics p ≡ some m
      → errors us ≡ one_of e
      → (s' : S) × (tracked p m (some cid) fn us finishes s
          ≡ some (record { code = final_code 0 us; error = e }, s'))
        × (counts s' ≡ counted finishes fn e (counts s))
  unfolding tracked
  tracked_once m cid fn us true e s made q =
      let (t, started, r, h) = tracker_rule m cid fn (validator_counter m made) in
      let (t1, went, r1, h1) = chain_rule fn us t e q (ap (λ x. x.error) r) h in
      let (s', increased, c) = done_rule fn t1 s h1 in
      (s', rw (tracked, started, went, increased, r1, r) refl, c ∙ rw r1 refl)
  tracked_once m cid fn us false e s made q =
      let (t, started, r, h) = tracker_rule m cid fn (validator_counter m made) in
      let (t1, went, r1, h1) = chain_rule fn us t e q (ap (λ x. x.error) r) h in
      (s, rw (tracked, started, went, r1, r) refl, refl)
