-- ===== src/Messaging/Tests.antt =====
-- Two messages, one turn of the goroutine, and the end.
use userservice.Prelude.{ℕ, suc, ◌≡◌, refl, true, false, none, some, length, [], ◌∷◌}
use userservice.Messaging.{
  Channel, Daemon, test_sender, send_on_closed, sender, send, send_by, close, receive_from, receive,
  receive_all,
}
use userservice.Messaging.Queue.{Reach, at_start, sent, closed, received, Sound, Reach-Sound}
use userservice.Messaging.Delivery.{Turned, send-relayed}
use userservice.Messaging.Draining.{receive_all-relayed}

-- The message with the address set.
abbrev stamp : ℕ → ℕ
stamp n = suc n

abbrev waiting : Daemon ℕ
waiting = record {
  channel = record { queue = 7 ∷ []; closed = true };
  running = true;
  relayed = 5 ∷ [];
}

messages_run : Unit {0}
unfolding send send_by close receive_from receive receive_all
messages_run = tt

waiting_reached : Reach stamp (4 ∷ 7 ∷ []) waiting
unfolding messages_run
waiting_reached = closed (received (sent 7 (sent 4 at_start refl) refl) refl) refl

Reach-Sound_example : Sound stamp (4 ∷ 7 ∷ []) waiting
Reach-Sound_example = Reach-Sound stamp waiting_reached

receive_all-relayed_example :
    ((receive_all stamp 2 waiting).running ≡ false)
    × ((receive_all stamp 2 waiting).relayed ≡ 5 ∷ 8 ∷ [])
receive_all-relayed_example = receive_all-relayed stamp waiting_reached refl

-- A channel with one message, and one more.
abbrev one_waits : Daemon ℕ
one_waits = record {
  channel = record { queue = 7 ∷ []; closed = false };
  running = true;
  relayed = 5 ∷ [];
}

one_waits_reached : Reach stamp (4 ∷ 7 ∷ []) one_waits
unfolding messages_run
one_waits_reached = received (sent 7 (sent 4 at_start refl) refl) refl

send-relayed_example :
    (d' : Daemon ℕ) × Turned stamp one_waits d'
    × (c : Channel ℕ) × (send (some 8) d'.channel ≡ some (none, c))
    × ((receive_all stamp (length c.queue) (record d' { channel = c })).relayed ≡ 5 ∷ 8 ∷ 9 ∷ [])
send-relayed_example = send-relayed stamp 8 one_waits_reached refl

-- A closed sender refuses a message, and that of the test mode takes any.
sends_by_kind :
    (send_by {M = ℕ} (some 8) (sender waiting) ≡ some (some send_on_closed, sender waiting))
    × (send_by {M = ℕ} (some 8) test_sender ≡ some (none, test_sender))
unfolding messages_run
sends_by_kind = (refl, refl)
