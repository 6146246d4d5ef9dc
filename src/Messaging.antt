-- ===== src/Messaging.antt =====
-- internal/messaging: the senders of mail (maild) and of text messages (smsd). Both put a message on a
-- channel of ten places, from which a goroutine takes it; they differ in what the goroutine calls.
pub mod Queue
pub mod Draining
pub mod Delivery
mod Tests
use userservice.Prelude.{
  ℕ, zero, suc, Bool, true, false, not, Option, none, some, List, [], ◌∷◌, ◌++◌, ltb, length,
  if◌then◌else◌,
}
use mathlib.Core.Option
use userservice.Flow.{Result, ok, err}
use userservice.Shared.{Error, other}

-- The number of messages that wait at most.
abbrev pub capacity : ℕ
capacity = 10

pub record Channel (M : Type 0) : Type 0 where
  pub queue : List M
  pub closed : Bool

-- The channel, the goroutine that reads it, and the messages that it handed to the relay, in order;
-- whether the relay took one is only logged.
pub record Daemon (M : Type 0) : Type 0 where
  pub channel : Channel M
  pub running : Bool
  pub relayed : List M

abbrev pub send_on_closed : Error
send_on_closed = other "send on closed channel"

-- What `NewSender` makes: a channel with its goroutine, or the sender of the test mode.
pub data Sender (M : Type 0) : Type 0 where
  sender : Daemon M → Sender M
  test_sender : Sender M

abbrev pub started : {M : Type 0} → Daemon M
started = record { channel = record { queue = []; closed = false }; running = true; relayed = [] }

module _ {M : Type 0} where
  -- `maild.NewSender`; `ping` is the outcome of dialling the relay and hanging up.
  unfoldable pub new_mail_sender : Bool → Result Error (Unit {0}) → Result Error (Sender M)
  new_mail_sender test_mode ping =
      if test_mode then ok test_sender else elim ping [ ok _ ↦ ok (sender started) | err e ↦ err e ]

  -- `smsd.NewSender`
  unfoldable pub new_sms_sender : Bool → Result Error (Sender M)
  new_sms_sender test_mode = if test_mode then ok test_sender else ok (sender started)

  -- `(sender) Send`: a nil message is dropped, and the panic of a closed channel becomes the error.
  -- `none` is a call that waits for a place.
  unfoldable pub send : Option M → Channel M → Option (Option Error × Channel M)
  send none c = some (none, c)
  send (some m) c =
      if c.closed
      then some (some send_on_closed, c)
      else if ltb (length c.queue) capacity
      then some (none, record c { queue = c.queue ++ m ∷ [] })
      else none

  -- `(sender) Close`; closing twice is a panic.
  unfoldable pub close : Channel M → Option (Channel M)
  close c = if c.closed then none else some (record c { closed = true })

  -- `Send` of the interface: the sender of the test mode only logs the message.
  pub send_by : Option M → Sender M → Option (Option Error × Sender M)
  unfolding send
  send_by m test_sender = some (none, test_sender)
  send_by m (sender d) =
      Option.map (λ r. (r.0, sender (record d { channel = r.1 }))) (send m d.channel)

  -- One turn of the goroutine's loop, on the messages that wait; `stamp` sets the sender's address.
  -- `none` waits for a message.
  pub receive_from : (M → M) → List M → Daemon M → Option (Daemon M)
  receive_from stamp [] d = if d.channel.closed then some (record d { running = false }) else none
  receive_from stamp (m ∷ ms) d = some (record d {
    channel = record { queue = ms; closed = d.channel.closed };
    relayed = d.relayed ++ stamp m ∷ [];
  })

  pub receive : (M → M) → Daemon M → Option (Daemon M)
  receive stamp d = if d.running then receive_from stamp d.channel.queue d else none

  -- Turns of the loop until it waits or ends, as many as the fuel allows.
  pub receive_all : (M → M) → ℕ → Daemon M → Daemon M
  receive_all stamp zero d = d
  receive_all stamp (suc n) d = elim (receive stamp d) [
    | none ↦ d
    | some d' ↦ receive_all stamp n d'
  ]
