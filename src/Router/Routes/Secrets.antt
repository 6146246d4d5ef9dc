-- ===== src/Router/Routes/Secrets.antt =====
-- Which secrets of the configuration its JSON shows, in the log and at the settings' route.
use userservice.Prelude.{String, unequal, ◌≡◌, ◌≢◌, refl, some, lookup, arith}
use userservice.Config.{Config, Marshal, text, json_fields, json}
use userservice.Router.{Request}
use userservice.Router.Routes.{settings_of, settings}

abbrev pub with_passwords : String → String → String → Config → Config
with_passwords mysql redis maild cfg = record cfg {
  mysql_pwd = mysql;
  redis_pass = redis;
  maild_pass = maild;
}

-- The passwords of MySQL, of redis and of the mail relay make no difference to what is logged of the
-- configuration or to any answer of the settings' handler; but the token of the text messages' account,
-- if there is one, stands among the settings and in what is logged.
pub shown_secrets :
    {S : Type 0} (marshal : Marshal) (cfg : Config) (mysql redis maild : String) (r : Request)
    (s : S)
    → cfg.sms_auth_token ≢ ""
    → let other = with_passwords mysql redis maild cfg in
      (json marshal other ≡ json marshal cfg)
      × (settings (settings_of marshal other) r s ≡ settings (settings_of marshal cfg) r s)
      × (lookup "sms_auth_token" (json_fields cfg) ≡ some (text cfg.sms_auth_token))
      × (lookup "sms_auth_token" (settings_of marshal cfg).values
          ≡ some (marshal.value (text cfg.sms_auth_token)))
unfolding json_fields json settings_of settings lookup
shown_secrets marshal cfg mysql redis maild r s token =
    (refl, refl, ground (arith, unequal token), ground (arith, unequal token))
