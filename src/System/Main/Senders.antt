-- ===== src/System/Main/Senders.antt =====
-- The two senders while `main` runs: whether each is there, and closed, and what `defer` does to them.
use userservice.Prelude.{
  ◌≡◌, ◌≢◌, refl, Bool, true, false, Option, none, some, Bool-cases, inl, inr, if◌then◌else◌, arith,
}
use userservice.Flow.{Flow, ret, next, Act, Proc, Result, ok, err}
use userservice.Flow.Spec.{Does, Ensures, Holds}
use userservice.Shared.{Error}
use userservice.Config.{Config}
use userservice.Messaging.{
  Sender, sender, test_sender, started, new_mail_sender, new_sms_sender, close,
}
use userservice.System.Main.{
  World, Panic, Abort, panics, exits, Platform, deferring, ended_by, close_kept,
}

pub data Status : Type 0 where
  unset live shut tested : Status

abbrev pub status_of : {M : Type 0} → Option (Sender M) → Status
status_of none = unset
status_of (some test_sender) = tested
status_of (some (sender d)) = if d.channel.closed then shut else live

abbrev pub Statuses : Type 0
Statuses = Status × Status

abbrev pub statuses : {S M : Type 0} → World S M → Statuses
statuses w = (status_of w.mail, status_of w.sms)

-- The status after `Close`.
abbrev pub after_close : Status → Status
after_close live = shut
after_close s = s

-- The server and the handlers neither close a sender nor put another in its place.
pub record PlatformLaws {S M : Type 0} (p : Platform S M) : Type 0 where
  pub serve_keeps : (cfg : Config) (w : World S M) → statuses (p.serve cfg w).1 ≡ statuses w
  pub shutdown_keeps : (w : World S M) → statuses (p.shutdown w).1 ≡ statuses w

-- What holds of the senders at the end, by how the body ended: by itself, or early by a panic.
abbrev pub Calm : (Bool → Statuses → Type 0) → Abort → Statuses → Type 0
Calm Q (panics _) v = Q false v
Calm Q (exits message e) v = message ≡ "http server didn't start properly"

module _ {S M : Type 0} where
  ended_rule :
      (Q P : Bool → Statuses → Type 0) (c : Act (World S M) (Option Panic))
      (x : Flow Abort (Unit {0})) (w : World S M)
      → ((b : Bool) (v' : Statuses) → Q b v' → Does statuses v' c (λ q v''. (q ≡ none) × P b v''))
      → Holds (Calm Q) (λ _ v'. Q true v') x (statuses w)
      → Holds (Calm P) (λ _ v'. P true v') (ended_by c x w).0 (statuses (ended_by c x w).1)
  ended_rule Q P c (ret (exits m e)) w closes h = h
  ended_rule Q P c (ret (panics p)) w closes h =
      let (q, done) = (closes false (statuses w) h).at w refl in rw q done
  ended_rule Q P c (next u) w closes h =
      let (q, done) = (closes true (statuses w) h).at w refl in rw q done

  pub deferring_rule :
      {v : Statuses} (Q P : Bool → Statuses → Type 0) (c : Act (World S M) (Option Panic))
      (m : Proc (World S M) Abort (Unit {0}))
      → Ensures statuses v m (Calm Q) (λ _ v'. Q true v')
      → ((b : Bool) (v' : Statuses) → Q b v' → Does statuses v' c (λ q v''. (q ≡ none) × P b v''))
      → Ensures statuses v (deferring c m) (Calm P) (λ _ v'. P true v')
  deferring_rule Q P c m d closes = record {
    at = λ w e. ended_rule Q P c (m w).0 (m w).1 closes (d.at w e);
  }

pub close_kept_rule :
    {M : Type 0} (d : Option (Sender M))
    → status_of d ≢ shut
    → ((close_kept d).0 ≡ none) × (status_of (close_kept d).1 ≡ after_close (status_of d))
unfolding close
close_kept_rule none h = (refl, refl)
close_kept_rule (some test_sender) h = (refl, refl)
close_kept_rule (some (sender d)) h = elim (Bool-cases d.channel.closed) [
  | inl done ↦ absurd (h (rw done refl))
  | inr going ↦ (rw going refl, rw going refl)
]

-- A sender that was just made.
abbrev pub Fresh : Status → Type 0
Fresh s = (s ≢ unset) × (s ≢ shut)

test-Fresh : Fresh tested
test-Fresh = (λ e. ground (arith, e), λ e. ground (arith, e))

started-Fresh : Fresh live
started-Fresh = (λ e. ground (arith, e), λ e. ground (arith, e))

ok_sender : {M : Type 0} (a d : Sender M) → Path (Result Error (Sender M)) (ok a) (ok d) → d ≡ a
ok_sender a d e = ground (arith, e)

pub new_sms-Fresh :
    {M : Type 0} (test_mode : Bool) (d : Sender M)
    → new_sms_sender test_mode ≡ ok d
    → Fresh (status_of (some d))
unfolding new_sms_sender
new_sms-Fresh true d e = rw (ok_sender test_sender d e) test-Fresh
new_sms-Fresh false d e = rw (ok_sender (sender started) d e) started-Fresh

-- What `NewSender` gave, the senders that are kept being as they were.
abbrev pub Made : {M : Type 0} → Statuses → Result Error (Sender M) → Statuses → Type 0
Made v (ok d) v' = (v' ≡ v) × Fresh (status_of (some d))
Made v (err e) v' = v' ≡ v

pub Made-Fresh :
    {M : Type 0} (v : Statuses) (x : Result Error (Sender M))
    → ((d : Sender M) → x ≡ ok d → Fresh (status_of (some d)))
    → Made v x v
Made-Fresh v (ok d) fresh = (refl, fresh d refl)
Made-Fresh v (err e) fresh = refl

pub new_mail-Fresh :
    {M : Type 0} (test_mode : Bool) (ping : Result Error (Unit {0})) (d : Sender M)
    → new_mail_sender test_mode ping ≡ ok d
    → Fresh (status_of (some d))
unfolding new_mail_sender
new_mail-Fresh true ping d e = rw (ok_sender test_sender d e) test-Fresh
new_mail-Fresh false (ok u) d e = rw (ok_sender (sender started) d e) started-Fresh
new_mail-Fresh false (err x) d e = absurd (ground (arith, e))

pub after_close_kept : (s : Status) → s ≢ unset → (after_close s ≢ unset) × (after_close s ≢ live)
after_close_kept unset h = absurd (h refl)
after_close_kept live h = (λ e. ground (arith, e), λ e. ground (arith, e))
after_close_kept shut h = (h, λ e. ground (arith, e))
after_close_kept tested h = (h, λ e. ground (arith, e))
