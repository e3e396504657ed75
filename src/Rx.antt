-- ===== src/Rx.antt =====
-- The processing of received packets in core/ethqueue.c: the queues of a CPU are served in turn, one
-- packet each, until all are empty or the batch is full. `eth_input`, which gets the packets, is
-- recorded as the list `input`; the links of the packets still queued are not its business.
pub mod Turns
pub mod Laws
mod Tests
use kns.Common.{
  ℕ, zero, suc, ◌+◌, Bool, true, false, not, ◌&&◌, Option, none, some, List, [], ◌∷◌, ◌++◌,
}
use kns.Common.Tests.{ltb, ◌==◌, if◌then◌else◌}
use kns.Common.Int.{ℤ, pos, ◌+ℤ◌, ◌-ℤ◌}
use kns.Common.Lists.{length}
use kns.Common.Links.{Links, null}
use kns.Flow.World.{RxQueue, update}

abbrev pub eth_rx_max_batch : ℕ
eth_rx_max_batch = 64

-- `none` is EAGAIN; otherwise the packet given to `eth_input`, and the queue without it.
unfoldable pub eth_process_recv_queue : Links → RxQueue → Option (ℕ × RxQueue)
eth_process_recv_queue next rxq =
    if rxq.pending.head == null
    then none
    else some (
      rxq.pending.head,
      record rxq {
        pending = record (rxq.pending) { head = next (rxq.pending.head) };
        len = rxq.len -ℤ pos 1;
      },
    )

abbrev pub is_nil {ℓ} : {A : Type ℓ} → List A → Bool
is_nil [] = true
is_nil (x ∷ xs) = false

-- What the function answers and leaves behind.
pub record Served : Type 0 where
  pub empty : Bool
  pub count : ℕ
  pub queue : ℕ → RxQueue
  pub input : List ℕ

-- The queues lie in memory, `queue` by address. A pointer of the array `eth_rxqs` of the CPU goes
-- through `this_cpu_ptr`, which is not code of the repository, before it is followed.
module _ (this_cpu_ptr : ℕ → ℕ) where
  -- The inner loop: one packet of each queue that has one.
  unfoldable pub process_round :
      Links → (eth_rxqs : List ℕ) (queue : ℕ → RxQueue) → (ℕ → RxQueue) × List ℕ
  process_round next [] queue = (queue, [])
  process_round next (p ∷ eth_rxqs) queue =
      let rxq : ℕ = this_cpu_ptr p in
      elim (eth_process_recv_queue next (queue rxq)) [
        | none ↦ process_round next eth_rxqs queue
        | some (pkt, left) ↦
            let (queue', given) = process_round next eth_rxqs (update queue rxq left) in
            (queue', pkt ∷ given)
      ]

  -- The outer loop, for at most so many rounds; `none` when they do not suffice.
  unfoldable pub process_rounds :
      (rounds : ℕ)
      → Links
      → (eth_rxqs : List ℕ) (queue : ℕ → RxQueue) (count : ℕ) (input : List ℕ) → Option Served
  process_rounds zero next eth_rxqs queue count input = none
  process_rounds (suc n) next eth_rxqs queue count input =
      let (queue', given) = process_round next eth_rxqs queue in
      let count' = count + length given in
      let further = process_rounds n next eth_rxqs queue' count' (input ++ given) in
      if not (is_nil given) && ltb count' eth_rx_max_batch
      then further
      else some
          (record { empty = is_nil given; count = count'; queue = queue'; input = input ++ given })

  -- Every round but the last gives out a packet, so the batch bounds the rounds.
  unfoldable pub eth_process_recv :
      Links → (eth_rxqs : List ℕ) (queue : ℕ → RxQueue) (input : List ℕ) → Option Served
  eth_process_recv next eth_rxqs queue input =
      process_rounds eth_rx_max_batch next eth_rxqs queue 0 input

-- `eth_process_poll` adds what the drivers' `poll` answers, queue by queue; `poll` gets the state of
-- the adapter and returns it.
unfoldable pub eth_process_poll :
    {S : Type 0} (poll : RxQueue → S → ℕ × RxQueue × S) → List RxQueue → S → ℕ × List RxQueue × S
eth_process_poll poll [] s = (0, [], s)
eth_process_poll poll (rxq ∷ rxqs) s =
    let (n, rxq', s') = poll rxq s in
    let (rest, rxqs', s'') = eth_process_poll poll rxqs s' in (n + rest, rxq' ∷ rxqs', s'')
