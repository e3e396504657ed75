-- ===== src/Flow/Delivery.antt =====
-- Where `eth_recv` puts a packet, over the lists of packets that the queues hold.
use kns.Common.{
  ℕ, ◌≡◌, ◌≢◌, refl, sym, ap, true, false, Option, none, some, arith, inl, inr, ◌∙◌, ◌%◌, ◌^◌,
}
use kns.Common.Tests.{◌==◌, if◌then◌else◌, ltb, Bool-cases, eq→==}
use kns.Common.Int.{pos, ltb_ℤ}
use kns.Common.Lists.{length}
use kns.Common.Bug.{done}
use kns.Common.Errno.{Errno, ebusy}
use kns.Flow.World.{Fg, World, RxQueue, update, mbuf_invalid_fg_id, outbound_fg_idx}
use kns.Flow.Recv.{
  eth_recv, eth_recv_at_prev, eth_recv_at_target, eth_recv_handle_fg_transition, dispatch, classify,
}
use kns.Flow.Held.{Held, Holds, IsFresh, remote_place, local_place, rx_place}
use kns.Flow.RecvLaws.{
  to_remote, to_local, to_rx, eth_recv_at_prev-Holds, eth_recv_at_target-Holds, receive-Holds,
  received, lengthened,
}

-- How a CPU stands to a flow group: it owns the group, hands it over, takes it over, or none of
-- these.
pub data Role : Type 0 where
  owner : Role
  giver : Role
  taker : Role
  stranger : Role

abbrev pub role : ℕ → Fg → Role
role cpu fg =
    if fg.in_transition
    then (if fg.prev_cpu == cpu then giver else if fg.target_cpu == cpu then taker else stranger)
    else (if fg.cur_cpu == cpu then owner else stranger)

abbrev pub deliver : Role → (cpu : ℕ) → Fg → ℕ → Held → Option Errno × Held
deliver owner cpu fg pkt h =
    if ltb (length h.rx) 32768 then (none, to_rx pkt h) else (some ebusy, h)
deliver giver cpu fg pkt h = (none, to_remote fg.target_cpu pkt h)
deliver taker cpu fg pkt h = (none, to_local cpu pkt h)
deliver stranger cpu fg pkt h = (none, h)

-- The flow group number of a packet on arrival.
abbrev pub arrival_fg : (cpu : ℕ) → World → ℕ → ℕ
arrival_fg cpu w pkt =
    if w.pkt_fg pkt == mbuf_invalid_fg_id then outbound_fg_idx cpu % 2 ^ 16 else w.pkt_fg pkt

dispatch-role :
    (cpu : ℕ) (w : World) (fg : Fg) (pkt : ℕ) (r : Role)
    → role cpu fg ≡ r
    → dispatch cpu w fg pkt ≡ elim r [
      | owner ↦ (false, w)
      | giver ↦ (true, eth_recv_at_prev w fg pkt)
      | taker ↦ (true, eth_recv_at_target cpu w pkt)
      | stranger ↦ (true, w)
    ]
unfolding dispatch
dispatch-role cpu w fg pkt owner e = ground arith
dispatch-role cpu w fg pkt giver e = ground arith
dispatch-role cpu w fg pkt taker e = ground arith
dispatch-role cpu w fg pkt stranger e = ground arith

classify-Holds :
    (cpu : ℕ) (w : World) (rxq : RxQueue) (h : Held) (place : ℕ → ℕ) (pkt : ℕ)
    → Holds w rxq h place
    → Holds (classify cpu w pkt) rxq h place
unfolding classify
classify-Holds cpu w rxq h place pkt hh = elim (Bool-cases (w.pkt_fg pkt == mbuf_invalid_fg_id)) [
  | inl e ↦ rw e (record {
    remote_queue = hh.remote_queue;
    local_queue = hh.local_queue;
    rx_queue = hh.rx_queue;
    rx_len = hh.rx_len;
    remote_placed = hh.remote_placed;
    local_placed = hh.local_placed;
    rx_placed = hh.rx_placed;
  })
  | inr e ↦ rw e hh
]

classify-fg :
    (cpu : ℕ) (w : World) (pkt : ℕ)
    → (classify cpu w pkt).fgs ((classify cpu w pkt).pkt_fg pkt) ≡ w.fgs (arrival_fg cpu w pkt)
unfolding classify
classify-fg cpu w pkt = elim (Bool-cases (w.pkt_fg pkt == mbuf_invalid_fg_id)) [
  | inl e ↦ rw (e, eq→== pkt pkt refl) refl
  | inr e ↦ rw e refl
]

-- What a reception answers, and that the queues hold what `deliver` says.
abbrev pub Delivered : (cpu : ℕ) → World → RxQueue → ℕ → Option Errno × Held → Type 0
Delivered cpu w rxq pkt (e, h') =
    (rxq' : RxQueue) × (w' : World) × (place : ℕ → ℕ) × (eth_recv cpu rxq w pkt
      ≡ done (e, rxq', w'))
    × Holds w' rxq' h' place

transition-lookup :
    (cpu : ℕ) (w : World) (pkt : ℕ) (fg : Fg)
    → w.fgs (arrival_fg cpu w pkt) ≡ some fg
    → eth_recv_handle_fg_transition cpu w pkt ≡ done (dispatch cpu (classify cpu w pkt) fg pkt)
unfolding eth_recv_handle_fg_transition
transition-lookup cpu w pkt fg found =
    rw (classify-fg cpu w pkt ∙ found, eth_recv_handle_fg_transition) refl

Delivered-role :
    (cpu : ℕ) (w w1 : World) (rxq : RxQueue) (h : Held) (place : ℕ → ℕ) (fg : Fg) (pkt : ℕ)
    (r : Role)
    → Holds w1 rxq h place
    → IsFresh pkt h
    → role cpu fg ≡ r
    → eth_recv_handle_fg_transition cpu w pkt ≡ done (dispatch cpu w1 fg pkt)
    → Delivered cpu w rxq pkt (deliver r cpu fg pkt h)
unfolding eth_recv
Delivered-role cpu w w1 rxq h place fg pkt owner hh fresh e handled =
    let here = dispatch-role cpu w1 fg pkt owner e in
    let depth : ltb_ℤ rxq.len (pos 32768) ≡ ltb (length h.rx) 32768 = ground (arith, hh.rx_len) in
    elim (Bool-cases (ltb (length h.rx) 32768)) [
      | inl room ↦ rw room (
        lengthened w1 rxq pkt,
        received w1 rxq pkt,
        update place pkt rx_place,
        rw (handled, here, depth, room) refl,
        receive-Holds w1 rxq h place pkt hh fresh,
      )
      | inr full ↦ rw full (rxq, w1, place, rw (handled, here, depth, full) refl, hh)
    ]
Delivered-role cpu w w1 rxq h place fg pkt giver hh fresh e handled = (
  rxq,
  eth_recv_at_prev w1 fg pkt,
  update place pkt (remote_place fg.target_cpu),
  rw (handled, dispatch-role cpu w1 fg pkt giver e) refl,
  eth_recv_at_prev-Holds w1 rxq h place fg pkt hh fresh,
)
Delivered-role cpu w w1 rxq h place fg pkt taker hh fresh e handled = (
  rxq,
  eth_recv_at_target cpu w1 pkt,
  update place pkt (local_place cpu),
  rw (handled, dispatch-role cpu w1 fg pkt taker e) refl,
  eth_recv_at_target-Holds cpu w1 rxq h place pkt hh fresh,
)
Delivered-role cpu w w1 rxq h place fg pkt stranger hh fresh e handled =
    (rxq, w1, place, rw (handled, dispatch-role cpu w1 fg pkt stranger e) refl, hh)

-- A packet that no queue holds and whose flow group is there is received as its CPU's role says:
-- the owner appends it to the receive queue, or refuses it as busy at 32768 packets, the giver
-- appends it to the remote queue of the target, the taker to its own local queue, and any other CPU
-- drops it; every other list of held packets stays, and the queues hold the lists.
pub eth_recv-refines :
    (cpu : ℕ) (w : World) (rxq : RxQueue) (h : Held) (place : ℕ → ℕ) (fg : Fg) (pkt : ℕ)
    → Holds w rxq h place
    → IsFresh pkt h
    → w.fgs (arrival_fg cpu w pkt) ≡ some fg
    → Delivered cpu w rxq pkt (deliver (role cpu fg) cpu fg pkt h)
eth_recv-refines cpu w rxq h place fg pkt hh fresh found =
    Delivered-role cpu w (classify cpu w pkt) rxq h place fg pkt (role cpu fg)
      (classify-Holds cpu w rxq h place pkt hh) fresh refl (transition-lookup cpu w pkt fg found)

done-inj : {A : Type 0} {x y : A} → done x ≡ done y → x ≡ y
done-inj h = cc

dispatch-through :
    (cpu : ℕ) (w : World) (fg : Fg) (pkt : ℕ) (w' : World)
    → dispatch cpu w fg pkt ≡ (false, w')
    → (fg.in_transition ≡ false) × (fg.cur_cpu ≡ cpu)
unfolding dispatch
dispatch-through cpu w fg pkt w' e = ground arith

dispatch-stopped :
    (cpu : ℕ) (w : World) (fg : Fg) (pkt : ℕ)
    → fg.in_transition ≡ false
    → fg.cur_cpu ≢ cpu
    → dispatch cpu w fg pkt ≡ (true, w)
unfolding dispatch
dispatch-stopped cpu w fg pkt settled ne = ground arith

-- Two CPUs receive packets while the record of the packets' flow group is the same one. If the first
-- lets its packet through to the stack, then the group is not in transition and the first CPU owns
-- it, and the second CPU drops its packet: nothing changes there but the group that the
-- packet is marked with, if it had none.
pub eth_recv_handle_fg_transition-exclusive :
    (a b : ℕ) (w w' : World) (p q : ℕ) (fg : Fg) (wp : World)
    → a ≢ b
    → w.fgs (arrival_fg a w p) ≡ some fg
    → w'.fgs (arrival_fg b w' q) ≡ some fg
    → eth_recv_handle_fg_transition a w p ≡ done (false, wp)
    → (fg.in_transition ≡ false)
      × (fg.cur_cpu ≡ a)
      × (eth_recv_handle_fg_transition b w' q ≡ done (true, classify b w' q))
eth_recv_handle_fg_transition-exclusive a b w w' p q fg wp ne found_p found_q through =
    let (settled, here) =
      dispatch-through a (classify a w p) fg p wp
        (done-inj (sym (transition-lookup a w p fg found_p) ∙ through)) in
    (
      settled,
      here,
      transition-lookup b w' q fg found_q
          ∙ ap done (dispatch-stopped b (classify b w' q) fg q settled (λ e. ne (sym here ∙ e))),
    )
