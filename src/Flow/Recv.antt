-- ===== src/Flow/Recv.antt =====
-- A received packet meets its flow group: `eth_recv` of inc/kns/ethqueue.h and the three functions
-- of core/ethfg.c behind it. `cpu` is the CPU that runs them.
use kns.Common.{ℕ, ◌%◌, ◌^◌, Bool, true, false, not, ◌&&◌, Option, none, some, [], ◌∷◌, ◌++◌}
use kns.Common.Tests.{◌==◌, if◌then◌else◌}
use kns.Common.Int.{pos, ◌+ℤ◌, ltb_ℤ}
use kns.Common.Links.{null}
use kns.Common.Bug.{Run, done, bug, ◌>>=◌}
use kns.Common.Errno.{Errno, ebusy}
use kns.Flow.Queue.{enqueue}
use kns.Flow.World.{Fg, RxQueue, early, World, update, outbound_fg_idx, mbuf_invalid_fg_id}

unfoldable pub eth_recv_at_prev : World → Fg → ℕ → World
eth_recv_at_prev w fg pkt =
    let (q, next) = enqueue (w.remote fg.target_cpu) pkt w.next in
    record w { next = next; remote = update (w.remote) (fg.target_cpu) q }

-- The first packet to arrive at the target ends the wait early.
unfoldable pub eth_recv_at_target : (cpu : ℕ) → World → ℕ → World
eth_recv_at_target cpu w pkt =
    let (q, next) = enqueue (w.local cpu) pkt w.next in
    record w {
      next = next;
      local = update (w.local) cpu q;
      posted =
          if (w.local cpu).head == null
          then w.posted ++ ((w.info cpu).prev_cpu, early) ∷ []
          else w.posted;
    }

-- The result says whether the packet is dealt with; `false` is the 0 that lets the caller go on.
unfoldable pub dispatch : (cpu : ℕ) → World → Fg → ℕ → Bool × World
dispatch cpu w fg pkt =
    if not fg.in_transition && (fg.cur_cpu == cpu)
    then (false, w)
    else if fg.in_transition && (fg.prev_cpu == cpu)
    then (true, eth_recv_at_prev w fg pkt)
    else if fg.in_transition && (fg.target_cpu == cpu)
    then (true, eth_recv_at_target cpu w pkt)
    else (true, w)

-- A packet with no flow group gets that of outbound traffic; `fg_id` is a `uint16_t`.
unfoldable pub classify : (cpu : ℕ) → World → ℕ → World
classify cpu w pkt =
    if w.pkt_fg pkt == mbuf_invalid_fg_id
    then record w { pkt_fg = update (w.pkt_fg) pkt (outbound_fg_idx cpu % 2 ^ 16) }
    else w

-- A group that is not there is read through NULL.
unfoldable pub eth_recv_handle_fg_transition : (cpu : ℕ) → World → ℕ → Run (Bool × World)
eth_recv_handle_fg_transition cpu w pkt =
    let w' = classify cpu w pkt in
    elim (w'.fgs (w'.pkt_fg pkt)) [ none ↦ bug | some fg ↦ done (dispatch cpu w' fg pkt) ]

-- `none` is the result 0.
unfoldable pub eth_recv : (cpu : ℕ) → RxQueue → World → ℕ → Run (Option Errno × RxQueue × World)
eth_recv cpu rxq w pkt = eth_recv_handle_fg_transition cpu w pkt >>= λ (dealt_with, w').
    if dealt_with
    then done (none, rxq, w')
    else if not (ltb_ℤ rxq.len (pos 32768))
    then done (some ebusy, rxq, w')
    else let (q, next) = enqueue rxq.pending pkt w'.next in
      done (none, record rxq { pending = q; len = rxq.len +ℤ pos 1 }, record w' { next = next })
