-- ===== src/System/Statuses.antt =====
-- The statuses that the service sends.
use userservice.Prelude.{ℕ, String, ◌≡◌, true, Option}
use userservice.Flow.{Act}
use userservice.Config.{Config}
use userservice.Redis.{Authn}
use userservice.Shared.{Error, Message}
use userservice.Relational.{Conn}
use userservice.Validation.{Core, validator, new_validator}
use userservice.Validation.Codes.{
  login-is_status, logout-is_status, valid-is_status, otp-is_status, login_otp-is_status,
  complete_otp-is_status,
}
use userservice.Router.{Request, Encoding, Handler}
use userservice.Router.Statuses.{well_sent}
use userservice.Router.Sessions.Statuses.{StatusCodes}
use userservice.Router.Routes.{Settings, routes}
use userservice.Router.Routes.Statuses.{Every, routes-well_sent}
use userservice.System.{sessions, service}

validator-StatusCodes : {S : Type 0} (v : Core S) → StatusCodes (validator v)
validator-StatusCodes v = record {
  login = login-is_status v;
  logout = logout-is_status v;
  valid = valid-is_status v;
  otp = otp-is_status v;
  login_otp = login_otp-is_status v;
  complete_otp = complete_otp-is_status v;
}

-- Whatever the stores, the senders and the encodings do: every route of the service that answers a
-- request sends a status, and one that HTTP knows, if the handler of /metrics does.
pub service-well_sent :
    {S : Type 0} (db : Conn S) (fuel : ℕ) (authn : Authn S) (cfg : Config) (now : Act S ℕ)
    (fresh : Act S String) (mail sms : Option Message → Act S (Option Error)) (encoding : Encoding)
    (shown : Settings) (metrics : Handler S)
    → ((r : Request) (s : S) → well_sent (metrics r s).0 ≡ true)
    → (r : Request) (s : S)
    → Every
        (λ x. well_sent (x.handler r s).0 ≡ true)
        (routes (service db fuel authn cfg now fresh mail sms encoding) shown metrics)
service-well_sent db fuel authn cfg now fresh mail sms encoding shown metrics fine r s =
    routes-well_sent _ shown metrics
      (validator-StatusCodes (new_validator authn (sessions cfg) now fresh)) fine r s
