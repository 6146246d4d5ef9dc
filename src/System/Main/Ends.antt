-- ===== src/System/Main/Ends.antt =====
-- How `main` ends, and what it leaves of the senders.
use userservice.Prelude.{◌≡◌, refl, true, false, none}
use userservice.Flow.{Flow, ret, next, Result, ok, err}
use userservice.Flow.Spec.{Holds}
use userservice.Shared.{Error}
use userservice.Config.{Config}
use userservice.System.Main.{
  World, Abort, panics, exits, Ended, returned, fatal, exited, crashed, Platform, outside,
  new_config, body, cleanup, run_with, main,
}
use userservice.System.Main.Senders.{unset, Statuses, statuses, PlatformLaws, Calm}
use userservice.System.Main.Body.{BothEnded, body_rule}

-- What is left, by how the process ended.
abbrev pub Outcome : Ended → Statuses → Type 0
Outcome returned v = BothEnded true v
Outcome (fatal message e) v = (e ≡ none) × BothEnded false v
Outcome (exited message e) v = message ≡ "http server didn't start properly"
Outcome (crashed e) v = v ≡ (unset, unset)

module _ {S M : Type 0} (p : Platform S M) (laws : PlatformLaws p) where
  cleaned :
      (x : Flow Abort (Unit {0})) (v : Statuses)
      → Holds (Calm BothEnded) (λ _ v'. BothEnded true v') x v
      → Outcome (cleanup none x) v
  unfolding cleanup
  cleaned (next u) v h = h
  cleaned (ret (panics q)) v h = (refl, h)
  cleaned (ret (exits m e)) v h = h

  run_with_ends :
      (r : Result Error Config) (w : World S M)
      → statuses w ≡ (unset, unset)
      → Outcome (run_with p r w).0 (statuses (run_with p r w).1)
  unfolding run_with
  run_with_ends (err e) w none_yet = none_yet
  run_with_ends (ok cfg) w none_yet =
      cleaned (body p cfg w).0 _ ((body_rule p laws cfg).at w none_yet)

  -- When the server and the handlers close no sender and replace none: if `main` returns, both senders
  -- were made and each is closed, or one of the test mode; if it ends by `cleanup`, the same holds of
  -- those that were made, and the error of the line that `cleanup` logs is nil; otherwise the HTTP
  -- server failed, or there was no configuration and no sender was made.
  pub main_ends :
      (w : World S M) → w.mail ≡ none → w.sms ≡ none → Outcome (main p w).0 (statuses (main p w).1)
  unfolding main outside
  main_ends w no_mail no_sms =
      run_with_ends (new_config p w.outside).0 _ (rw (no_mail, no_sms) refl)
