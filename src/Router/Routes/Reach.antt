-- ===== src/Router/Routes/Reach.antt =====
-- What the settings' route can answer.
use userservice.Prelude.{
  String, ◌<>◌, str_eq, is_some, find?, ◌≡◌, refl, Bool, false, Option, none, some, List, [], ◌∷◌,
  lookup, if◌then◌else◌, arith,
}
use userservice.Config.{Config, Marshal, json_fields}
use userservice.Router.{Request, UserService, Handler, status_of}
use userservice.Router.Routes.{Settings, settings_of, setting, settings, Route, routes}

-- The first route of a pattern.
unfoldable pub find_route : {S : Type 0} → String → List (Route S) → Option (Route S)
find_route pattern [] = none
find_route pattern (x ∷ xs) =
    let rest = find_route pattern xs in if str_eq x.pattern pattern then some x else rest

-- Does the pattern have a parameter of this name?
abbrev pub has_param : String → String → Bool
has_param pattern name = is_some (find? pattern ("{" <> name <> "}"))

no_name :
    {S : Type 0} (cfg : Settings) (r : Request) (s : S)
    → r.url_param "name" ≡ ""
    → lookup "" cfg.values ≡ none
    → status_of (settings cfg r s).0 ≡ some 404
unfolding settings setting
no_name cfg r s name missing = rw (name, missing) refl

no_empty_key :
    (marshal : Marshal) (cfg : Config) → lookup "" (settings_of marshal cfg).values ≡ none
unfolding json_fields settings_of lookup
no_empty_key marshal cfg = ground arith

-- Chi gives a handler an empty text for a parameter that its route's pattern does not have. Then
-- whatever is configured and whatever the request, the route "/settings" of the service answers 404: no
-- setting, nor all of them, can be read there.
pub settings_unreachable :
    {S : Type 0} (us : UserService S) (marshal : Marshal) (cfg : Config) (metrics : Handler S)
    (served : String → Request) (s : S)
    → ((pattern name : String)
        → has_param pattern name ≡ false
        → (served pattern).url_param name ≡ "")
    → (x : Route S) × (find_route "/settings" (routes us (settings_of marshal cfg) metrics)
        ≡ some x)
      × (status_of (x.handler (served x.pattern) s).0 ≡ some 404)
unfolding find_route routes
settings_unreachable us marshal cfg metrics served s chi = (
  _,
  refl,
  no_name (settings_of marshal cfg) (served "/settings") s (chi "/settings" "name" refl)
      (no_empty_key marshal cfg),
)
