-- ===== src/Relational/Logging.antt =====
-- `logging` of internal/relational/conn.go, with which the methods of `Conn` start; most of their returns
-- go through the function that it gives back, and some of user.go do not. Its log entry is left out, as is the start time.
pub mod Methods
mod Tests
use userservice.Prelude.{String, ◌≡◌, refl, ◌∙◌, sym, ap, Option, none, some, [], ◌∷◌}
use mathlib.Core.Option
use userservice.Shared.{Error, error_text}
use userservice.Metrics.{Prometheus, data_metrics, package_metrics}
use userservice.Metrics.Laws.{Vec, Counts, bump, PrometheusLaws, curry_rule, inc_rule}

module _ {V S : Type 0} (p : Prometheus V S) where
  -- `NewUserService`, of the counter that `main` passes
  pub conn_metrics : V → Option V
  conn_metrics m = p.must_curry_with (("db", "mysql") ∷ []) m

  -- `(u userVec) labels`, of the function's name
  pub labels : String → V → Option V
  labels fn m = p.must_curry_with (("function", fn) ∷ []) m

  -- `(u userVec) done`
  pub done : V → Option Error → S → Option S
  done m none s = p.inc m ("none" ∷ []) s
  done m (some e) s = p.inc m (error_text e ∷ []) s

  -- What `logging` gives back to be called at the end.
  deferred : V → Option Error → S → Option (Option Error × S)
  deferred m e s = Option.map (λ s'. (e, s')) (done m e s)

  -- `(db *Conn) logging`
  pub logging : V → String → Option (Option Error → S → Option (Option Error × S))
  logging m fn = Option.map deferred (labels fn m)

-- The label of the outcome.
abbrev pub outcome : Option Error → String
outcome none = "none"
outcome (some e) = error_text e

module _ {V S : Type 0} (p : Prometheus V S) (view : V → Vec) (counts : S → Counts)
    (laws : PrometheusLaws p view counts) where
  pub conn_counter :
      (m m' : V) × (package_metrics p ≡ some m)
      × (conn_metrics p m ≡ some m')
      × (view m' ≡ record {
        name = "database";
        labels =
            ("db", some "mysql")
            ∷ ("pkg", some "data")
            ∷ ("function", none)
            ∷ ("status", none)
            ∷ [];
      })
  unfolding package_metrics data_metrics conn_metrics
  conn_counter =
      let (k, c, v) =
        curry_rule laws (("pkg", "data") ∷ []) (data_metrics p) _ _ _ (laws.new_view _ _) refl in
      let (k', c', v') = curry_rule laws (("db", "mysql") ∷ []) k _ _ _ v refl in (k, k', c, c', v')

  done_rule :
      (m : V) (fn : String) (e : Option Error) (s : S)
      → view m ≡ record {
        name = "database";
        labels =
            ("db", some "mysql")
            ∷ ("pkg", some "data")
            ∷ ("function", some fn)
            ∷ ("status", none)
            ∷ [];
      }
      → (s' : S) × (done p m e s ≡ some s')
        × (counts s' ≡ bump "database" ("mysql" ∷ "data" ∷ fn ∷ outcome e ∷ []) (counts s))
  unfolding done
  done_rule m fn none s v = inc_rule laws m ("none" ∷ []) _ s _ _ v refl
  done_rule m fn (some e) s v = inc_rule laws m (error_text e ∷ []) _ s _ _ v refl

  -- `logging` and what it gives back, with the counter of `Conn`.
  pub logging_rule :
      (m : V) (fn : String) (e : Option Error) (s : S)
      → view m ≡ record {
        name = "database";
        labels =
            ("db", some "mysql")
            ∷ ("pkg", some "data")
            ∷ ("function", none)
            ∷ ("status", none)
            ∷ [];
      }
      → (finish : Option Error → S → Option (Option Error × S)) × (s' : S) × (logging p m fn
          ≡ some finish)
        × (finish e s ≡ some (e, s'))
        × (counts s' ≡ bump "database" ("mysql" ∷ "data" ∷ fn ∷ outcome e ∷ []) (counts s))
  unfolding logging labels deferred
  logging_rule m fn e s w =
      let (k, c, v) = curry_rule laws (("function", fn) ∷ []) m _ _ _ w refl in
      let (s', d, n) = done_rule k fn e s v in (deferred p k, s', rw c refl, rw d refl, n)
