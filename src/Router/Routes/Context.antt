-- ===== src/Router/Routes/Context.antt =====
-- `wrapContext` and `getRoutePattern` of internal/router/routes.go, and what `send` counts. A request's
-- log entry passes through a variable that all requests share.
use userservice.Prelude.{
  ℕ, String, ◌<>◌, str_eq, itoa, ◌≡◌, refl, Option, none, some, List, [], ◌∷◌, if◌then◌else◌,
}
use mathlib.Core.Option
use userservice.Metrics.{Prometheus, service_metrics}
use userservice.Metrics.Laws.{Vec, Counts, bump, PrometheusLaws, curry_rule, inc_rule}

-- What is read of `*http.Request`.
pub record Incoming : Type 0 where
  pub method : String
  pub proto : String
  pub remote_addr : String
  pub request_uri : String
  pub path : String
  pub raw_path : String

-- Chi: the pattern that the request's context has so far, and that of the route of a path, if any.
pub record Chi : Type 0 where
  pub route_pattern : Incoming → String
  pub match_route : String → String → Option String

unmatched : String → Option String → String
unmatched path none = "!!" <> path
unmatched path (some pattern) = pattern

-- `getRoutePattern`
unfoldable pub get_route_pattern : Chi → Incoming → String
unfolding unmatched
get_route_pattern chi r =
    let pattern = chi.route_pattern r in
    let path = if str_eq r.raw_path "" then r.path else r.raw_path in
    if str_eq pattern "" then unmatched path (chi.match_route r.method path) else "!" <> pattern

-- The fields that `wrapContext` adds to the entry; those of an earlier request are replaced.
pub record Entry : Type 0 where
  pub method : String
  pub remote : String
  pub url : String
  pub cid : String

abbrev pub entry_of : Incoming → String → Entry
entry_of r cid = record {
  method = r.method;
  remote = r.remote_addr;
  url = r.request_uri;
  cid = cid;
}

-- What a handler finds in its context, and the header "Cid" of its response.
pub record Context (V : Type 0) : Type 0 where
  pub cid : String
  pub log : Option Entry
  pub metrics : V
  pub header : String

-- `log = log.WithFields(…)`, on the variable that the requests share; none is the entry of `main`.
pub begin_request : Incoming → String → Option Entry → Option Entry
begin_request r cid log = some (entry_of r cid)

-- Other requests that begin.
pub begin_requests : List (Incoming × String) → Option Entry → Option Entry
begin_requests [] log = log
begin_requests ((r, cid) ∷ rs) log = begin_requests rs (begin_request r cid log)

module _ {V S : Type 0} (p : Prometheus V S) (chi : Chi) where
  -- The rest, up to the call of the handler: the variable is read again.
  pub prepare_request : Incoming → String → Option Entry → Option (Context V)
  prepare_request r cid log =
      Option.map (λ m. record { cid = cid; log = log; metrics = m; header = cid })
        (p.must_curry_with
          (("proto", r.proto) ∷ ("method", r.method) ∷ ("url", get_route_pattern chi r) ∷ [])
          (service_metrics p))

  -- `wrapContext`, with the requests that begin before the variable is read.
  pub wrap_context :
      Incoming → String → List (Incoming × String) → Option Entry → Option (Context V)
  wrap_context r cid others log =
      prepare_request r cid (begin_requests others (begin_request r cid log))

  -- What `send` counts.
  pub count_status : Context V → ℕ → S → Option S
  count_status ctx code s = p.inc ctx.metrics (itoa code ∷ []) s

-- The request that began last.
abbrev pub last_of : Incoming → String → List (Incoming × String) → Entry
last_of r cid [] = entry_of r cid
last_of r cid ((r', cid') ∷ rs) = last_of r' cid' rs

last_entry :
    (r : Incoming) (cid : String) (rs : List (Incoming × String)) (log : Option Entry)
    → begin_requests rs (begin_request r cid log) ≡ some (last_of r cid rs)
unfolding begin_requests begin_request
last_entry r cid [] log = refl
last_entry r cid ((r', cid') ∷ rs) log = last_entry r' cid' rs (begin_request r cid log)

module _ {V S : Type 0} (p : Prometheus V S) (view : V → Vec) (counts : S → Counts)
    (laws : PrometheusLaws p view counts) (chi : Chi) where
  -- A request's context is made without a panic; it has the request's own id, which is the response's
  -- header, but the log entry of whichever request began last before the context was made, its own if
  -- there was no other. A status that the handler sends increases one counter by one, that of the
  -- route's pattern, the protocol, the method and the status.
  pub wrapped_request :
      (r : Incoming) (cid : String) (others : List (Incoming × String)) (log : Option Entry)
      (code : ℕ) (s : S)
      → (ctx : Context V) × (s' : S) × (wrap_context p chi r cid others log ≡ some ctx)
        × (ctx.cid ≡ cid)
        × (ctx.header ≡ cid)
        × (ctx.log ≡ some (last_of r cid others))
        × (count_status p chi ctx code s ≡ some s')
        × (counts s'
            ≡ bump "router"
                (get_route_pattern chi r ∷ r.proto ∷ r.method ∷ itoa code ∷ [])
                (counts s))
  unfolding wrap_context prepare_request count_status service_metrics
  wrapped_request r cid others log code s =
      let (m, c, v) =
        curry_rule laws
          (("proto", r.proto) ∷ ("method", r.method) ∷ ("url", get_route_pattern chi r) ∷ [])
          (service_metrics p) _ _ _ (laws.new_view _ _) refl in
      let (s', i, n) = inc_rule laws m (itoa code ∷ []) _ s _ _ v refl in
      (
        record { cid = cid; log = some (last_of r cid others); metrics = m; header = cid },
        s',
        rw (c, last_entry r cid others log) refl,
        refl,
        refl,
        refl,
        i,
        n,
      )
