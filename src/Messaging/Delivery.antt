-- ===== src/Messaging/Delivery.antt =====
-- While the channel is open: a send that waits goes on after one turn of the goroutine, and its message
-- is relayed.
use userservice.Prelude.{
  ◌+◌, ◌<◌, ◌≡◌, refl, sym, ap, ◌∙◌, ◌⊎◌, inl, inr, true, false, none, some, List, [], ◌∷◌, ◌++◌,
  map, length, ltb, Bool-cases, arith,
}
use mathlib.Core.List.{append-nil, append_assoc}
use userservice.Messaging.{Channel, Daemon, capacity, send, receive_from, receive, receive_all}
use userservice.Messaging.Queue.{Reach, sent, received, Reach-Sound}

module _ {M : Type 0} (stamp : M → M) where
  -- A daemon on an open channel.
  abbrev on_open : List M → List M → Daemon M
  on_open q l = record {
    channel = record { queue = q; closed = false };
    running = true;
    relayed = l;
  }

  emptied :
      (q l : List M) → receive_all stamp (length q) (on_open q l) ≡ on_open [] (l ++ map stamp q)
  unfolding receive_all receive receive_from
  emptied [] l = ap (on_open []) (sym (append-nil l))
  emptied (m ∷ q) l =
      emptied q (l ++ stamp m ∷ []) ∙ ap (on_open []) (append_assoc l (stamp m ∷ []) (map stamp q))

  shape :
      (d : Daemon M)
      → d.channel.closed ≡ false
      → d.running ≡ true
      → d ≡ on_open d.channel.queue d.relayed
  shape d opened live = rw (sym opened, sym live) refl

  runs :
      {ms : List M} {d : Daemon M} → Reach stamp ms d → d.channel.closed ≡ false → d.running ≡ true
  runs {ms} {d} r opened = elim (Bool-cases d.running) [
    | inl live ↦ live
    | inr dead ↦ ground (arith, ((Reach-Sound stamp r).ended dead).0, opened)
  ]

  -- Every message taken is relayed after as many turns as messages wait.
  flushed :
      {ms : List M} {d : Daemon M}
      → Reach stamp ms d
      → d.channel.closed ≡ false
      → (receive_all stamp (length d.channel.queue) d).relayed ≡ map stamp ms
  flushed {ms} {d} r opened =
      ap (λ x. (receive_all stamp (length d.channel.queue) x).relayed)
        (shape d opened (runs r opened))
      ∙ ap (λ x. x.relayed) (emptied d.channel.queue d.relayed)
      ∙ (Reach-Sound stamp r).in_order

  taken :
      (m : M) (c : Channel M)
      → c.closed ≡ false
      → length c.queue < capacity
      → send (some m) c ≡ some (none, record c { queue = c.queue ++ m ∷ [] })
  unfolding send
  taken m c opened room = ground (arith, opened, room)

  -- The state after a turn that the goroutine takes, if the channel is full.
  abbrev pub Turned : Daemon M → Daemon M → Type 0
  Turned d d' = (d' ≡ d) ⊎ (receive stamp d ≡ some d')

  delivered :
      {ms : List M} {d : Daemon M}
      → Reach stamp ms d
      → (m : M) → d.channel.closed ≡ false
      → length d.channel.queue < capacity
      → (c : Channel M) × (send (some m) d.channel ≡ some (none, c))
        × ((receive_all stamp (length c.queue) (record d { channel = c })).relayed
            ≡ map stamp (ms ++ m ∷ []))
  delivered {ms} {d} r m opened room =
      let e = taken m d.channel opened room in
      (record d.channel { queue = d.channel.queue ++ m ∷ [] }, e, flushed (sent m r e) opened)

  turn :
      (q : List M) (d : Daemon M)
      → d.channel.queue ≡ q
      → d.channel.closed ≡ false
      → d.running ≡ true
      → 0 < length q
      → (d' : Daemon M) × (receive stamp d ≡ some d')
        × (d'.channel.closed ≡ false)
        × (length d'.channel.queue + 1 ≡ length q)
  unfolding receive receive_from
  turn [] d waiting opened live some_wait = absurd (omega arith)
  turn (m ∷ q) d waiting opened live some_wait = (
    record d {
      channel = record { queue = q; closed = d.channel.closed };
      relayed = d.relayed ++ stamp m ∷ [];
    },
    rw (live, waiting) refl,
    opened,
    omega arith,
  )

  -- In any state that is reached while the channel is open, a message is taken at once or after one turn
  -- of the goroutine, and as many turns as messages then wait relay it after all those taken before.
  pub send-relayed :
      {ms : List M} {d : Daemon M} (m : M)
      → Reach stamp ms d
      → d.channel.closed ≡ false
      → (d' : Daemon M) × Turned d d'
        × (c : Channel M) × (send (some m) d'.channel ≡ some (none, c))
        × ((receive_all stamp (length c.queue) (record d' { channel = c })).relayed
            ≡ map stamp (ms ++ m ∷ []))
  send-relayed {ms} {d} m r opened = elim (Bool-cases (ltb (length d.channel.queue) capacity)) [
    | inl room ↦
        let (c, e, all) = delivered r m opened (ground (arith, room)) in (d, inl refl, c, e, all)
    | inr full ↦
        let (d', turned, opened', fewer) =
          turn d.channel.queue d refl opened (runs r opened) (ground (arith, full)) in
        let (c, e, all) =
          delivered (received r turned) m opened'
            (omega (arith, fewer, (Reach-Sound stamp r).bounded)) in
        (d', inr turned, c, e, all)
  ]
