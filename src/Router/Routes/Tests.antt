-- ===== src/Router/Routes/Tests.antt =====
-- Two requests that begin at the same time.
use userservice.Prelude.{String, itoa, ◌≡◌, none, some, [], ◌∷◌, lookup, eq_iff, arith}
use userservice.Metrics.Laws.{Vec, bump}
use userservice.Metrics.Memory.{Tally, prometheus, prometheus-laws, counts}
use userservice.Flow.{ok}
use userservice.Config.{Config, Marshal, defaults, text, json_fields, json}
use userservice.Router.{Request}
use userservice.Router.Routes.{settings, settings_of}
use userservice.Router.Routes.Secrets.{with_passwords, shown_secrets}
use userservice.Router.Routes.Context.{
  Incoming, Chi, Context, entry_of, get_route_pattern, wrap_context, count_status, wrapped_request,
}

abbrev chi : Chi
chi = record { route_pattern = λ r. ""; match_route = λ m path. some "/user/{user_id}" }

abbrev asked : String → Incoming
asked remote = record {
  method = "GET";
  proto = "HTTP/1.1";
  remote_addr = remote;
  request_uri = "/user/1";
  path = "/user/1";
  raw_path = "";
}

-- The first request logs with the fields of the second.
wrapped_request_example :
    (ctx : Context Vec) × (s' : Tally) × (wrap_context prometheus chi
        (asked "a")
        "1"
        ((asked "b", "2") ∷ [])
        none
      ≡ some ctx)
    × (ctx.cid ≡ "1")
    × (ctx.header ≡ "1")
    × (ctx.log ≡ some (entry_of (asked "b") "2"))
    × (count_status prometheus chi ctx 404 [] ≡ some s')
    × (counts s' ≡ bump "router" ("/user/{user_id}" ∷ "HTTP/1.1" ∷ "GET" ∷ "404" ∷ []) (counts []))
unfolding get_route_pattern itoa
wrapped_request_example =
    wrapped_request prometheus (λ v. v) counts prometheus-laws chi (asked "a") "1"
      ((asked "b", "2") ∷ []) none 404 []

abbrev with_token : Config
with_token = record (defaults "mysql" 3306 "secret" "svc") { sms_auth_token = "token" }

abbrev marshal : Marshal
marshal = record { value = λ v. ""; struct = λ fields. "{}"; fields = λ fields. "{}" }

abbrev settings_request : Request
settings_request = record {
  url_param = λ name. "*";
  body = ok "";
  cookie = λ name. none;
  remote_addr = "a";
  host = "host";
}

shown_secrets_example :
    let other = with_passwords "a" "b" "c" with_token in
    (json marshal other ≡ json marshal with_token)
    × (settings (settings_of marshal other) settings_request tt
        ≡ settings (settings_of marshal with_token) settings_request tt)
    × (lookup "sms_auth_token" (json_fields with_token) ≡ some (text "token"))
    × (lookup "sms_auth_token" (settings_of marshal with_token).values ≡ some "")
shown_secrets_example =
    shown_secrets {S = Unit {0}} marshal with_token "a" "b" "c" settings_request tt
      (λ e. ground (arith, eq_iff "token" ""))
