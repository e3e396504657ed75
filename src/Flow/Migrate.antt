-- ===== src/Flow/Migrate.antt =====
-- `migrate_pkts_to_remote` of core/ethfg.c: the packets of a flow group leave the receive queue of
-- its device for the remote queue of the CPU the group moves to.
use kns.Common.{ℕ, zero, suc, true, false, Option, none, some}
use kns.Common.Tests.{◌==◌, if◌then◌else◌}
use kns.Common.Int.{pos, ◌-ℤ◌}
use kns.Common.Links.{null, set_link}
use kns.Flow.World.{Fg, RxQueue, World}
use kns.Flow.Recv.{eth_recv_at_prev}

-- `struct mbuf **prv`: the head of the receive queue, or the `next` of a packet.
pub data Slot : Type 0 where
  at_head : Slot
  at_next : ℕ → Slot

-- `*prv`
abbrev pub read_slot : Slot → RxQueue → World → ℕ
read_slot at_head rxq w = rxq.pending.head
read_slot (at_next p) rxq w = w.next p

-- `*prv = v`
abbrev pub write_slot : Slot → ℕ → RxQueue → World → RxQueue × World
write_slot at_head v rxq w = (record rxq { pending = record (rxq.pending) { head = v } }, w)
write_slot (at_next p) v rxq w = (rxq, record w { next = set_link (w.next) p v })

-- `container_of(prv, struct mbuf, next)`; of the head it is an address in no packet, `stray`.
abbrev pub container_of : (stray : ℕ) → Slot → ℕ
container_of stray at_head = stray
container_of stray (at_next p) = p

-- The body of the loop. To enqueue on the remote queue of the group's target is what
-- `eth_recv_at_prev` does.
unfoldable pub migrate_step : Fg → Slot → ℕ → RxQueue → World → Slot × ℕ × RxQueue × World
migrate_step fg prv pkt rxq w =
    let (rxq', w') = write_slot prv (w.next pkt) rxq w in
    let w'' = eth_recv_at_prev w' fg pkt in
    if fg.fg_id == w.pkt_fg pkt
    then (prv, read_slot prv rxq' w'', record rxq' { len = rxq'.len -ℤ pos 1 }, w'')
    else (at_next pkt, w.next pkt, rxq, w)

-- The loop, for at most so many packets; `none` when they do not suffice.
unfoldable pub migrate_loop :
    (packets : ℕ) → Fg → Slot → ℕ → RxQueue → World → Option (Slot × RxQueue × World)
migrate_loop zero fg prv pkt rxq w = if pkt == null then some (prv, rxq, w) else none
migrate_loop (suc n) fg prv pkt rxq w =
    let (prv', pkt', rxq', w') = migrate_step fg prv pkt rxq w in
    elim (pkt == null) [ true ↦ some (prv, rxq, w) | false ↦ migrate_loop n fg prv' pkt' rxq' w' ]

-- On the receive queue that `queue_from_fg` found.
unfoldable pub migrate_pkts_to_remote :
    (packets stray : ℕ) → Fg → RxQueue → World → Option (RxQueue × World)
migrate_pkts_to_remote packets stray fg rxq w =
    elim (migrate_loop packets fg at_head rxq.pending.head rxq w) [
      | none ↦ none
      | some (prv, rxq', w') ↦
          some
            (record rxq' { pending = record (rxq'.pending) { tail = container_of stray prv } }, w')
    ]
