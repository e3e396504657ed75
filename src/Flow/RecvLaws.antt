-- ===== src/Flow/RecvLaws.antt =====
-- What the reception of a packet does to the queues of core/ethfg.c and inc/kns/ethqueue.h.
use kns.Common.{ℕ, [], ◌∷◌, ◌++◌, arith}
use kns.Common.Int.{pos, ◌+ℤ◌}
use kns.Common.Lists.{length-append}
use kns.Flow.Queue.{enqueue, enqueue-IsQueue}
use kns.Flow.World.{Fg, World, RxQueue, update}
use kns.Flow.Recv.{eth_recv_at_prev, eth_recv_at_target}
use kns.Flow.Held.{
  Held, Holds, IsFresh, enqueue-apart, enqueue-family, placed-both, placed-snoc, placed-keep,
  rx_place, remote_place, local_place,
}

-- Appends to the three kinds of queues.
abbrev pub to_remote : ℕ → ℕ → Held → Held
to_remote c pkt h = record h { remote = update (h.remote) c (h.remote c ++ pkt ∷ []) }

abbrev pub to_local : ℕ → ℕ → Held → Held
to_local c pkt h = record h { local = update (h.local) c (h.local c ++ pkt ∷ []) }

abbrev pub to_rx : ℕ → Held → Held
to_rx pkt h = record h { rx = h.rx ++ pkt ∷ [] }

pub eth_recv_at_prev-Holds :
    (w : World) (rxq : RxQueue) (h : Held) (place : ℕ → ℕ) (fg : Fg) (pkt : ℕ)
    → Holds w rxq h place
    → IsFresh pkt h
    → Holds
        (eth_recv_at_prev w fg pkt)
        rxq
        (to_remote fg.target_cpu pkt h)
        (update place pkt (remote_place fg.target_cpu))
unfolding eth_recv_at_prev
eth_recv_at_prev-Holds w rxq h place fg pkt hh fresh =
    let t = fg.target_cpu in
    let keeps = enqueue-apart place w.next (w.remote t) pkt (remote_place t) (h.remote t) in
    record {
      remote_queue =
          enqueue-family place remote_place w.next pkt (w.remote) (h.remote) t
            (λ c d e. omega arith) fresh.some_pkt fresh.remote_out hh.remote_placed hh.remote_queue;
      local_queue = λ c.
          keeps (w.local c) (local_place c) (h.local c) (hh.remote_queue t) (hh.remote_placed t)
            (omega arith) (hh.local_placed c) (fresh.local_out c) (hh.local_queue c);
      rx_queue =
          keeps rxq.pending rx_place h.rx (hh.remote_queue t) (hh.remote_placed t) (omega arith)
            hh.rx_placed fresh.rx_out hh.rx_queue;
      rx_len = hh.rx_len;
      remote_placed =
          placed-both place remote_place pkt (h.remote) t fresh.remote_out hh.remote_placed;
      local_placed = λ c.
          placed-keep place pkt (local_place c) (remote_place t) (h.local c) (fresh.local_out c)
            (hh.local_placed c);
      rx_placed = placed-keep place pkt rx_place (remote_place t) h.rx fresh.rx_out hh.rx_placed;
    }

pub eth_recv_at_target-Holds :
    (cpu : ℕ) (w : World) (rxq : RxQueue) (h : Held) (place : ℕ → ℕ) (pkt : ℕ)
    → Holds w rxq h place
    → IsFresh pkt h
    → Holds
        (eth_recv_at_target cpu w pkt)
        rxq
        (to_local cpu pkt h)
        (update place pkt (local_place cpu))
unfolding eth_recv_at_target
eth_recv_at_target-Holds cpu w rxq h place pkt hh fresh =
    let keeps = enqueue-apart place w.next (w.local cpu) pkt (local_place cpu) (h.local cpu) in
    record {
      local_queue =
          enqueue-family place local_place w.next pkt (w.local) (h.local) cpu (λ c d e. omega arith)
            fresh.some_pkt fresh.local_out hh.local_placed hh.local_queue;
      remote_queue = λ c.
          keeps (w.remote c) (remote_place c) (h.remote c) (hh.local_queue cpu)
            (hh.local_placed cpu) (omega arith) (hh.remote_placed c) (fresh.remote_out c)
            (hh.remote_queue c);
      rx_queue =
          keeps rxq.pending rx_place h.rx (hh.local_queue cpu) (hh.local_placed cpu) (omega arith)
            hh.rx_placed fresh.rx_out hh.rx_queue;
      rx_len = hh.rx_len;
      local_placed =
          placed-both place local_place pkt (h.local) cpu fresh.local_out hh.local_placed;
      remote_placed = λ c.
          placed-keep place pkt (remote_place c) (local_place cpu) (h.remote c) (fresh.remote_out c)
            (hh.remote_placed c);
      rx_placed = placed-keep place pkt rx_place (local_place cpu) h.rx fresh.rx_out hh.rx_placed;
    }

-- The packet at the end of the receive queue.
abbrev pub received : World → RxQueue → ℕ → World
received w rxq pkt = record w { next = (enqueue rxq.pending pkt w.next).1 }

abbrev pub lengthened : World → RxQueue → ℕ → RxQueue
lengthened w rxq pkt = record rxq {
  pending = (enqueue rxq.pending pkt w.next).0;
  len = rxq.len +ℤ pos 1;
}

pub receive-Holds :
    (w : World) (rxq : RxQueue) (h : Held) (place : ℕ → ℕ) (pkt : ℕ)
    → Holds w rxq h place
    → IsFresh pkt h
    → Holds (received w rxq pkt) (lengthened w rxq pkt) (to_rx pkt h) (update place pkt rx_place)
receive-Holds w rxq h place pkt hh fresh =
    let keeps = enqueue-apart place w.next rxq.pending pkt rx_place h.rx in
    record {
      rx_queue =
          enqueue-IsQueue w.next rxq.pending pkt h.rx hh.rx_queue fresh.rx_out fresh.some_pkt;
      remote_queue = λ c.
          keeps (w.remote c) (remote_place c) (h.remote c) hh.rx_queue hh.rx_placed (omega arith)
            (hh.remote_placed c) (fresh.remote_out c) (hh.remote_queue c);
      local_queue = λ c.
          keeps (w.local c) (local_place c) (h.local c) hh.rx_queue hh.rx_placed (omega arith)
            (hh.local_placed c) (fresh.local_out c) (hh.local_queue c);
      rx_len = ground (arith, hh.rx_len, length-append h.rx (pkt ∷ []));
      rx_placed = placed-snoc place pkt rx_place h.rx hh.rx_placed;
      remote_placed = λ c.
          placed-keep place pkt (remote_place c) rx_place (h.remote c) (fresh.remote_out c)
            (hh.remote_placed c);
      local_placed = λ c.
          placed-keep place pkt (local_place c) rx_place (h.local c) (fresh.local_out c)
            (hh.local_placed c);
    }
