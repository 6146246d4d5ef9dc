-- ===== src/System/Main/Tests.antt =====
-- `main` on a platform where everything opens and a signal comes, and where the text messages' sender is
-- real and the mail sender is that of the test mode.
use userservice.Prelude.{String, ◌≡◌, refl, true, none, []}
use userservice.Flow.{ok, err, run}
use userservice.Shared.{other}
use userservice.Config.{defaults, new_sqls}
use userservice.Messaging.{new_mail_sender, new_sms_sender, close}
use userservice.System.Main.{
  World, Platform, signal, returned, fatal, woken, cleanup, outside, new_config, new_mysql,
  new_redis, new_mail, start_server, with_sms, with_mail, body, run_with, main,
}
use userservice.System.Main.Senders.{shut, tested, statuses, PlatformLaws}
use userservice.System.Main.Body.{BothEnded}
use userservice.System.Main.Ends.{main_ends}

abbrev platform : Platform (Unit {0}) String
platform = record {
  process_env =
      λ s. (ok (record (defaults "mysql" 3306 "secret" "svc") { email_test_mode = true }), s);
  open_sql = λ url s. (ok tt, s);
  ping_sql = λ s. (ok tt, s);
  parse_url = λ url. ok tt;
  ping_redis = λ s. (ok tt, s);
  File = Unit {0};
  open_file = λ path s. (ok tt, s);
  decode = λ file s. (ok [], s);
  dial = λ cfg s. (ok tt, s);
  serve = λ cfg w. (signal "terminated", w);
  shutdown = λ w. (none, w);
  show_entry = λ message e. message;
}

-- Where the database does not answer.
abbrev broken : Platform (Unit {0}) String
broken = record platform { ping_sql = λ s. (err (other "connection refused"), s) }

abbrev idle : World (Unit {0}) String
idle = record { outside = tt; mail = none; sms = none }

platform-laws : PlatformLaws platform
platform-laws = record { serve_keeps = λ cfg w. refl; shutdown_keeps = λ w. refl }

main_runs : Unit {0}
unfolding run new_sqls woken cleanup outside new_config new_mysql new_redis new_mail start_server
    with_sms with_mail body run_with main new_mail_sender new_sms_sender close
main_runs = tt

-- It returns.
main_ends_example : BothEnded true (statuses (main platform idle).1)
unfolding main_runs
main_ends_example = main_ends platform platform-laws idle refl refl

signalled : ((main platform idle).0 ≡ returned) × (statuses (main platform idle).1 ≡ (tested, shut))
unfolding main_runs
signalled = (refl, refl)

-- The cause is not logged.
no_database : (main broken idle).0 ≡ fatal "failed to connect mysql client" none
unfolding main_runs
no_database = refl
