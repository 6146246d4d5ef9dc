-- ===== src/System/Main/Body.antt =====
-- The body of `main`, step by step.
use userservice.Prelude.{
  String, ◌≡◌, ◌≢◌, refl, ap, ◌∙◌, Bool, true, false, none, some, Bool-cases, inl, inr, arith,
}
use userservice.Flow.{Act, Proc, Result, ok, err, attempt, call, pure, ◌>>=◌}
use userservice.Flow.Spec.{
  Does, Ensures, Replies, does_weaken, attempt_then, call_then, given_then, pure_rule,
}
use userservice.Shared.{Error}
use userservice.Config.{Config}
use userservice.Messaging.{Sender, new_sms_sender}
use userservice.System.Main.{
  World, text, Abort, panics, Platform, deferring, close_mail, close_sms, outside, new_mail,
  start_server, with_sms, with_mail, body, woken,
}
use userservice.System.Main.Senders.{
  Status, unset, live, status_of, Statuses, statuses, after_close, PlatformLaws, Calm,
  deferring_rule, close_kept_rule, Fresh, new_sms-Fresh, new_mail-Fresh, Made, Made-Fresh,
  after_close_kept,
}

-- While the server runs, `a` being the mail sender's status, and after the text messages' sender is closed.
abbrev Serving : Status → Bool → Statuses → Type 0
Serving a b v = (v.0 ≡ a) × Fresh v.1

abbrev SmsEnded : Status → Bool → Statuses → Type 0
SmsEnded a true v = (v.0 ≡ a) × (v.1 ≢ live) × (v.1 ≢ unset)
SmsEnded a false v = (v.0 ≡ a) × (v.1 ≢ live)

abbrev pub BothEnded : Bool → Statuses → Type 0
BothEnded true v = (v.0 ≢ live) × (v.1 ≢ live) × (v.0 ≢ unset) × (v.1 ≢ unset)
BothEnded false v = (v.0 ≢ live) × (v.1 ≢ live)

sms_ended :
    (a : Status) (b : Bool) (v : Statuses) → v.0 ≡ a → (v.1 ≢ unset) × (v.1 ≢ live) → SmsEnded a b v
sms_ended a true v same ended = (same, ended.1, ended.0)
sms_ended a false v same ended = (same, ended.1)

both_ended :
    (a : Status) (b : Bool) (v : Statuses) (c : Status)
    → (c ≢ unset) × (c ≢ live)
    → SmsEnded a b v
    → BothEnded b (c, v.1)
both_ended a true v c ended h = (ended.1, h.1, ended.0, h.2)
both_ended a false v c ended h = (ended.1, h.1)

kept : (a : Status) (b : Bool) (v : Statuses) → SmsEnded a b v → v.0 ≡ a
kept a true v h = h.0
kept a false v h = h.0

module _ {S M : Type 0} (p : Platform S M) where
  close_sms_rule :
      (a : Status) (b : Bool) (v : Statuses)
      → Serving a b v
      → Does statuses v (close_sms p) (λ q v'. (q ≡ none) × SmsEnded a b v')
  close_sms_rule a b v h = record {
    at = λ w e.
        let now = ap (λ x. x.1) e in
        let (q, c) = close_kept_rule w.sms (rw now h.1.1) in
        (q, sms_ended a b _ (ap (λ x. x.0) e ∙ h.0) (rw (c, now) (after_close_kept v.1 h.1.0)));
  }

  close_mail_rule :
      (a : Status) (b : Bool) (v : Statuses)
      → Fresh a
      → SmsEnded a b v
      → Does statuses v (close_mail p) (λ q v'. (q ≡ none) × BothEnded b v')
  close_mail_rule a b v fresh h = record {
    at = λ w e.
        let now = ap (λ x. x.0) e ∙ kept a b v h in
        let (q, c) = close_kept_rule w.mail (rw now fresh.1) in
        (
          q,
          rw (c, now, ap (λ x. x.1) e)
              (both_ended a b v (after_close a) (after_close_kept a fresh.0) h),
        );
  }

  outside_rule :
      {A : Type 0} (m : Act S A) (v : Statuses) → Does statuses v (outside p m) (λ a v'. v' ≡ v)
  unfolding outside
  outside_rule m v = record { at = λ w e. e }

module _ {S M : Type 0} (p : Platform S M) (laws : PlatformLaws p) where
  shutdown_rule :
      (Q : Bool → Statuses → Type 0) (v : Statuses)
      → Q true v
      → Ensures statuses v (call p.shutdown >>= (λ _. pure tt)) (Calm Q) (λ _ v'. Q true v')
  shutdown_rule Q v q =
      call_then _ _ (record { at = λ w e. rw (laws.shutdown_keeps w, e) (pure_rule tt q) })

  start_server_rule :
      (cfg : Config) (Q : Bool → Statuses → Type 0) (v : Statuses)
      → Q true v
      → Ensures statuses v (start_server p cfg) (Calm Q) (λ _ v'. Q true v')
  unfolding start_server
  start_server_rule cfg Q v q = call_then _ _ (record {
    at = λ w e.
        rw (laws.serve_keeps cfg w, e)
          (given_then (woken (p.serve cfg w).0) _ _ (λ x _. refl) (λ u _. shutdown_rule Q v q));
  })

  with_sms_rule :
      (cfg : Config) (a : Status)
      → Ensures statuses
          (a, unset)
          (with_sms p cfg)
          (Calm (SmsEnded a))
          (λ _ v'. SmsEnded a true v')
  unfolding with_sms
  with_sms_rule cfg a =
      given_then (new_sms_sender cfg.sms_test_mode) _ _ (λ x _. (refl, λ e. ground (arith, e)))
        (λ d made. call_then _ _ (record {
          at = λ w e. rw (ap (λ x. x.0) e) (
              deferring_rule (Serving a) (SmsEnded a) _ _
                (start_server_rule cfg (Serving a) _ (refl, new_sms-Fresh _ d made))
                (close_sms_rule p a));
        }))

  new_mail_rule :
      (cfg : Config) (v : Statuses) → Does statuses v (outside p (new_mail p cfg)) (Made v)
  unfolding outside new_mail
  new_mail_rule cfg v = record {
    at = λ w e. elim (Bool-cases cfg.email_test_mode) [
      | inl test ↦ rw (test, e) (Made-Fresh v _ (new_mail-Fresh true (ok tt)))
      | inr real ↦ rw (real, e) (Made-Fresh v _ (new_mail-Fresh false _))
    ];
  }

  serving_rule :
      (cfg : Config) (d : Sender M)
      → Fresh (status_of (some d))
      → Ensures statuses
          (status_of (some d), unset)
          (deferring (close_mail p) (with_sms p cfg))
          (Calm BothEnded)
          (λ _ v'. BothEnded true v')
  serving_rule cfg d fresh =
      deferring_rule (SmsEnded (status_of (some d))) BothEnded _ _
        (with_sms_rule cfg (status_of (some d)))
        (λ b v'. close_mail_rule p (status_of (some d)) b v' fresh)

  neither : BothEnded false (unset, unset)
  neither = (λ e. ground (arith, e), λ e. ground (arith, e))

  keep_mail_rule :
      (cfg : Config) (d : Sender M) (v : Statuses)
      → v ≡ (unset, unset)
      → Fresh (status_of (some d))
      → Ensures statuses v
          (call (λ w. (tt {0}, record w { mail = some d }))
            >>= (λ _. deferring (close_mail p) (with_sms p cfg)))
          (Calm BothEnded)
          (λ _ v'. BothEnded true v')
  keep_mail_rule cfg d v none_yet fresh =
      call_then _ _
        (record { at = λ w e. rw (ap (λ x. x.1) (e ∙ none_yet)) (serving_rule cfg d fresh) })

  after_mail :
      (cfg : Config) (x : Result Error (Sender M)) (v : Statuses)
      → Made (unset, unset) x v
      → Replies
          (λ d v'.
            Ensures statuses v'
              (call (λ w. (tt {0}, record w { mail = some d }))
                >>= (λ _. deferring (close_mail p) (with_sms p cfg)))
              (Calm BothEnded)
              (λ _ v''. BothEnded true v''))
          (λ _ v'. BothEnded false v')
          x
          v
  after_mail cfg (ok d) v made = keep_mail_rule cfg d v made.0 made.1
  after_mail cfg (err e) v made = rw made neither

  with_mail_rule :
      (cfg : Config)
      → Ensures statuses
          (unset, unset)
          (with_mail p cfg)
          (Calm BothEnded)
          (λ _ v'. BothEnded true v')
  unfolding with_mail
  with_mail_rule cfg =
      attempt_then _ _ _ (does_weaken (new_mail_rule cfg (unset, unset)) (after_mail cfg))

  tried :
      {A : Type 0} (x : Result Error A) (t : String) (g : A → Proc (World S M) Abort (Unit {0}))
      (v : Statuses)
      → v ≡ (unset, unset)
      → ((a : A)
          → Ensures statuses (unset, unset) (g a) (Calm BothEnded) (λ _ v'. BothEnded true v'))
      → Replies
          (λ a v'. Ensures statuses v' (g a) (Calm BothEnded) (λ _ v''. BothEnded true v''))
          (λ e. Calm BothEnded (panics (text t)))
          x
          v
  tried (ok a) t g v e rest = rw e (rest a)
  tried (err x) t g v e rest = rw e neither

  try_rule :
      {A : Type 0} (m : Act S (Result Error A)) (t : String)
      (g : A → Proc (World S M) Abort (Unit {0}))
      → ((a : A)
          → Ensures statuses (unset, unset) (g a) (Calm BothEnded) (λ _ v'. BothEnded true v'))
      → Ensures statuses
          (unset, unset)
          (attempt (outside p m) (λ _. panics (text t)) >>= g)
          (Calm BothEnded)
          (λ _ v'. BothEnded true v')
  try_rule m t g rest =
      attempt_then _ _ _
        (does_weaken (outside_rule p m (unset, unset)) (λ x v e. tried x t g v e rest))

  pub body_rule :
      (cfg : Config)
      → Ensures statuses (unset, unset) (body p cfg) (Calm BothEnded) (λ _ v'. BothEnded true v')
  unfolding body
  body_rule cfg = try_rule _ _ _ (λ _. try_rule _ _ _ (λ _. try_rule _ _ _ (λ _. with_mail_rule _)))
