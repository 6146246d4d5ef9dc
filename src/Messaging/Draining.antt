-- ===== src/Messaging/Draining.antt =====
-- After `Close` the goroutine hands on what waits, and ends.
use userservice.Prelude.{
  ℕ, zero, suc, ◌≡◌, refl, sym, ap, ◌∙◌, Bool, true, false, List, [], ◌∷◌, ◌++◌, map, length,
  Bool-cases, inl, inr,
}
use mathlib.Core.List.{append-nil, append_assoc}
use userservice.Messaging.{Daemon, receive_from, receive, receive_all}
use userservice.Messaging.Queue.{Reach, Reach-Sound}

module _ {M : Type 0} (stamp : M → M) where
  -- A daemon on a closed channel.
  abbrev on_closed : List M → Bool → List M → Daemon M
  on_closed q running l = record {
    channel = record { queue = q; closed = true };
    running = running;
    relayed = l;
  }

  drained :
      (q l : List M)
      → receive_all stamp (suc (length q)) (on_closed q true l)
        ≡ on_closed [] false (l ++ map stamp q)
  unfolding receive_all receive receive_from
  drained [] l = ap (on_closed [] false) (sym (append-nil l))
  drained (m ∷ q) l =
      drained q (l ++ stamp m ∷ [])
      ∙ ap (on_closed [] false) (append_assoc l (stamp m ∷ []) (map stamp q))

  shape :
      (d : Daemon M) (b : Bool)
      → d.channel.closed ≡ true
      → d.running ≡ b
      → d ≡ on_closed d.channel.queue b d.relayed
  shape d b shut e = rw (sym shut, sym e) refl

  stopped : (n : ℕ) (q l : List M) → receive_all stamp n (on_closed q false l) ≡ on_closed q false l
  unfolding receive_all receive
  stopped zero q l = refl
  stopped (suc n) q l = refl

  -- From any state that is reached with the channel closed, one turn for each message that waits and one
  -- more end the goroutine, and every message taken without an error has been relayed, in order.
  pub receive_all-relayed :
      {ms : List M} {d : Daemon M}
      → Reach stamp ms d
      → d.channel.closed ≡ true
      → let d' = receive_all stamp (suc (length d.channel.queue)) d in
        (d'.running ≡ false) × (d'.relayed ≡ map stamp ms)
  receive_all-relayed {ms} {d} r shut = elim (Bool-cases d.running) [
    | inl live ↦
        let e =
          ap (receive_all stamp (suc (length d.channel.queue))) (shape d true shut live)
          ∙ drained d.channel.queue d.relayed in
        (ap (λ t. t.running) e, ap (λ t. t.relayed) e ∙ (Reach-Sound stamp r).in_order)
    | inr dead ↦
        let e =
          ap (receive_all stamp (suc (length d.channel.queue))) (shape d false shut dead)
          ∙ stopped _ d.channel.queue d.relayed in
        let none_left = ((Reach-Sound stamp r).ended dead).1 in
        (
          ap (λ t. t.running) e,
          ap (λ t. t.relayed) e
              ∙ sym (append-nil d.relayed)
              ∙ ap (λ q. d.relayed ++ map stamp q) (sym none_left)
              ∙ (Reach-Sound stamp r).in_order,
        )
  ]
