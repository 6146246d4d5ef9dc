-- ===== src/Messaging/Queue.antt =====
-- The channel under any interleaving of senders, the goroutine and `Close`.
use userservice.Prelude.{
  ◌≤◌, ◌<◌, ◌≡◌, refl, sym, ap, ◌∙◌, true, false, none, some, List, [], ◌∷◌, ◌++◌, map, arith,
  Bool-cases, inl, inr, length, length-append,
}
use mathlib.Core.List.{map-append, append_assoc}
use userservice.Shared.{Error}
use userservice.Messaging.{Channel, Daemon, capacity, started, send, close, receive_from, receive}

sent_channel :
    {M : Type 0} (m : M) (c c' : Channel M)
    → send (some m) c ≡ some (none, c')
    → (c.closed ≡ false)
      × (length c.queue < capacity)
      × (c' ≡ record c { queue = c.queue ++ m ∷ [] })
unfolding send
sent_channel m c c' e = ground arith

rejected_channel :
    {M : Type 0} (m : M) (e : Error) (c c' : Channel M)
    → send (some m) c ≡ some (some e, c')
    → c' ≡ c
unfolding send
rejected_channel m e c c' h = ground arith

closed_channel :
    {M : Type 0} (c c' : Channel M)
    → close c ≡ some c'
    → (c.closed ≡ false) × (c' ≡ record c { closed = true })
unfolding close
closed_channel c c' h = ground arith

module _ {M : Type 0} (stamp : M → M) where
  -- The states that follow one another, with the messages that were taken without an error.
  pub data Reach : List M → Daemon M → Type 0 where
    at_start : Reach [] started
    sent :
        (m : M)
        → {ms : List M} {d : Daemon M} {c : Channel M} → Reach ms d
        → send (some m) d.channel ≡ some (none, c)
        → Reach (ms ++ m ∷ []) (record d { channel = c })
    rejected :
        (m : M) (e : Error)
        → {ms : List M} {d : Daemon M} {c : Channel M} → Reach ms d
        → send (some m) d.channel ≡ some (some e, c)
        → Reach ms (record d { channel = c })
    closed :
        {ms : List M} {d : Daemon M} {c : Channel M}
        → Reach ms d
        → close d.channel ≡ some c
        → Reach ms (record d { channel = c })
    received :
        {ms : List M} {d d' : Daemon M} → Reach ms d → receive stamp d ≡ some d' → Reach ms d'

  -- The messages taken are those relayed, in order, and then those that wait, of which there are at most
  -- ten; the goroutine has ended only if the channel is closed and empty.
  pub record Sound (ms : List M) (d : Daemon M) : Type 0 where
    pub in_order : d.relayed ++ map stamp d.channel.queue ≡ map stamp ms
    pub bounded : length d.channel.queue ≤ capacity
    pub ended : d.running ≡ false → (d.channel.closed ≡ true) × (d.channel.queue ≡ [])

  send-Sound :
      (ms : List M) (d : Daemon M) (m : M) (c : Channel M)
      → Sound ms d
      → send (some m) d.channel ≡ some (none, c)
      → Sound (ms ++ m ∷ []) (record d { channel = c })
  send-Sound ms d m c h e =
      let (opened, room, made) = sent_channel m d.channel c e in
      rw made (record {
        in_order =
            ap (λ q. d.relayed ++ q) (map-append stamp d.channel.queue (m ∷ []))
            ∙ sym (append_assoc d.relayed (map stamp d.channel.queue) (stamp m ∷ []))
            ∙ ap (λ q. q ++ stamp m ∷ []) h.in_order
            ∙ sym (map-append stamp ms (m ∷ []));
        bounded = omega (arith, length-append d.channel.queue (m ∷ []), room);
        ended = λ r. ground (arith, h.ended r, opened);
      })

  received_end :
      (d d' : Daemon M)
      → receive_from stamp [] d ≡ some d'
      → (d.channel.closed ≡ true) × (d' ≡ record d { running = false })
  unfolding receive_from
  received_end d d' e = ground arith

  received_first :
      (m : M) (q : List M) (d d' : Daemon M)
      → receive_from stamp (m ∷ q) d ≡ some d'
      → record d {
        channel = record { queue = q; closed = d.channel.closed };
        relayed = d.relayed ++ stamp m ∷ [];
      }
        ≡ d'
  unfolding receive_from
  received_first m q d d' e = ground arith

  receive_from-Sound :
      (q ms : List M) (d d' : Daemon M)
      → Sound ms d
      → d.channel.queue ≡ q
      → d.running ≡ true
      → receive_from stamp q d ≡ some d'
      → Sound ms d'
  receive_from-Sound [] ms d d' h empty live e =
      let (shut, made) = received_end d d' e in
      rw made (record { in_order = h.in_order; bounded = h.bounded; ended = λ r. (shut, empty) })
  receive_from-Sound (m ∷ q) ms d d' h first live e = rw (sym (received_first m q d d' e)) (record {
    in_order =
        append_assoc d.relayed (stamp m ∷ []) (map stamp q)
        ∙ ap (λ l. d.relayed ++ map stamp l) (sym first)
        ∙ h.in_order;
    bounded = omega (arith, h.bounded, ap length first);
    ended = λ r. ground (arith, r, live);
  })

  received-Sound :
      (ms : List M) (d d' : Daemon M) → Sound ms d → receive stamp d ≡ some d' → Sound ms d'
  unfolding receive
  received-Sound ms d d' h e = elim (Bool-cases d.running) [
    | inl live ↦ receive_from-Sound d.channel.queue ms d d' h refl live (ground (arith, e, live))
    | inr dead ↦ ground (arith, e, dead)
  ]

  start-Sound : Sound [] started
  start-Sound = record { in_order = refl; bounded = omega arith; ended = λ r. ground (arith, r) }

  -- Whatever the order of sends, of turns of the goroutine and of `Close`: the messages taken without
  -- an error are those relayed, in order and with the sender set, and then those that wait, of which
  -- there are at most ten; the goroutine ends only when the channel is closed and empty.
  pub Reach-Sound : {ms : List M} {d : Daemon M} → Reach ms d → Sound ms d
  Reach-Sound at_start = start-Sound
  Reach-Sound (sent m {ms} {d} {c} r e) = send-Sound ms d m c (Reach-Sound r) e
  Reach-Sound (rejected m e {ms} {d} {c} r h) =
      rw (rejected_channel m e d.channel c h) (Reach-Sound r)
  Reach-Sound (closed {ms} {d} {c} r h) =
      let (opened, made) = closed_channel d.channel c h in
      let k = Reach-Sound r in
      rw made
        (record { in_order = k.in_order; bounded = k.bounded; ended = λ e. (refl, (k.ended e).1) })
  Reach-Sound (received {ms} {d} {d'} r e) = received-Sound ms d d' (Reach-Sound r) e
