-- ===== src/Flow/MigrateLaws.antt =====
-- What `migrate_pkts_to_remote` of core/ethfg.c does to the packets that the queues hold.
use kns.Common.{
  ℕ, zero, suc, ◌≤◌, ◌≡◌, ◌≢◌, refl, sym, subst, append-nil, append_assoc, true, false, not, Option,
  some, List, [], ◌∷◌, ◌++◌, arith, inl, inr,
}
use kns.Common.Tests.{◌==◌, ne→==, Bool-cases}
use kns.Common.Lists.{length, filter}
use kns.Common.Links.{Chain}
use kns.Flow.Queue.{IsLast}
use kns.Flow.World.{Fg, World, RxQueue, update}
use kns.Flow.Recv.{eth_recv_at_prev}
use kns.Flow.Held.{Held, Holds, remote_place}
use kns.Flow.Migrate.{
  Slot, at_next, read_slot, write_slot, container_of, migrate_step, migrate_loop,
  migrate_pkts_to_remote,
}
use kns.Flow.MigrateStep.{
  with_rx, with_tail, shortened, read_slot-shortened, update_self, Moving, move-one, Frame,
  Frame_refl, Frame_trans, move-one-Frame,
}
use kns.Flow.Unlink.{tail_of, slot_of, slot_of-snoc, IsLast-last_of, IsLast-tail_of, Chain-behind}

loop-end :
    (n : ℕ) (fg : Fg) (prv : Slot) (pkt : ℕ) (rxq : RxQueue) (w : World)
    → pkt ≡ 0
    → migrate_loop n fg prv pkt rxq w ≡ some (prv, rxq, w)
unfolding migrate_loop
loop-end zero fg prv pkt rxq w e = rw e refl
loop-end (suc n) fg prv pkt rxq w e = rw e refl

loop-step :
    (n : ℕ) (fg : Fg) (prv : Slot) (pkt : ℕ) (rxq : RxQueue) (w : World) (prv' : Slot) (pkt' : ℕ)
    (rxq' : RxQueue) (w' : World)
    → pkt ≢ 0
    → migrate_step fg prv pkt rxq w ≡ (prv', pkt', rxq', w')
    → migrate_loop (suc n) fg prv pkt rxq w ≡ migrate_loop n fg prv' pkt' rxq' w'
unfolding migrate_loop
loop-step n fg prv pkt rxq w prv' pkt' rxq' w' some_pkt e =
    rw (ne→== pkt 0 some_pkt, e, migrate_loop) refl

-- Behind the slot lie the packets that the loop has not seen.
slot-Chain :
    (w : World) (rxq : RxQueue) (h : Held) (place : ℕ → ℕ) (xs ys : List ℕ)
    → Holds w (with_tail rxq (xs ++ ys)) (with_rx h (xs ++ ys)) place
    → Chain w.next (read_slot (slot_of xs) rxq w) ys
slot-Chain w rxq h place [] ys hh = hh.rx_queue.chain
slot-Chain w rxq h place (x ∷ xs) ys hh =
    Chain-behind w.next rxq.pending.head x xs ys hh.rx_queue.chain

abbrev pub Moved : World → Held → ℕ → Option (Slot × RxQueue × World) → List ℕ → List ℕ → Type 0
Moved w0 h t r rs xs =
    (rxq' : RxQueue) × (w' : World) × (place' : ℕ → ℕ) × (r ≡ some (slot_of xs, rxq', w'))
    × Frame w0 w'
    × Moving w' rxq' h place' t rs xs

-- A packet of another group stays, one of the group moves.
step-stay :
    (fg : Fg) (prv : Slot) (pkt : ℕ) (rxq : RxQueue) (w : World)
    → (fg.fg_id == w.pkt_fg pkt) ≡ false
    → migrate_step fg prv pkt rxq w ≡ (at_next pkt, w.next pkt, rxq, w)
unfolding migrate_step
step-stay fg prv pkt rxq w e = rw (e, migrate_step) refl

step-move :
    (fg : Fg) (prv : Slot) (pkt : ℕ) (rxq : RxQueue) (w : World) (rxq' : RxQueue) (w' : World)
    → (fg.fg_id == w.pkt_fg pkt) ≡ true
    → write_slot prv (w.next pkt) rxq w ≡ (rxq', w')
    → migrate_step fg prv pkt rxq w ≡ (
      prv,
      read_slot prv (shortened rxq') (eth_recv_at_prev w' fg pkt),
      shortened rxq',
      eth_recv_at_prev w' fg pkt,
    )
unfolding migrate_step
step-move fg prv pkt rxq w rxq' w' e f =
    rw (e, f, read_slot-shortened prv rxq' (eth_recv_at_prev w' fg pkt), migrate_step) refl

loop-moves :
    (w0 : World) (fg : Fg) (h : Held) (n : ℕ) (rxq : RxQueue) (w : World) (place : ℕ → ℕ)
    (rs xs ys : List ℕ)
    → length ys ≤ n
    → Frame w0 w
    → Moving w rxq h place fg.target_cpu rs (xs ++ ys)
    → Moved w0 h fg.target_cpu
        (migrate_loop n fg (slot_of xs) (read_slot (slot_of xs) rxq w) rxq w)
        (rs ++ filter (λ p. fg.fg_id == w0.pkt_fg p) ys)
        (xs ++ filter (λ p. not (fg.fg_id == w0.pkt_fg p)) ys)
loop-moves w0 fg h n rxq w place rs xs [] enough same hh = (
  rxq,
  w,
  place,
  rw (append-nil xs) (
      loop-end n fg (slot_of xs) (read_slot (slot_of xs) rxq w) rxq w (
        slot-Chain w rxq (record h { remote = update (h.remote) (fg.target_cpu) rs }) place xs []
          hh)),
  same,
  rw (append-nil rs) hh,
)
loop-moves w0 fg h zero rxq w place rs xs (y ∷ ys) enough same hh = absurd (omega arith)
loop-moves w0 fg h (suc n) rxq w place rs xs (y ∷ ys) enough same hh =
    let h0 = record h { remote = update (h.remote) (fg.target_cpu) rs } in
    let ahead = slot-Chain w rxq h0 place xs (y ∷ ys) hh in
    let w2 = eth_recv_at_prev (write_slot (slot_of xs) (w.next y) rxq w).1 fg y in
    let rxq0 = (write_slot (slot_of xs) (w.next y) rxq w).0 in
    elim (Bool-cases (fg.fg_id == w0.pkt_fg y)) [
      | inl match ↦
          rw
            (
              match,
              ahead.0,
              loop-step n fg (slot_of xs) y rxq w (slot_of xs)
                  (read_slot (slot_of xs) (shortened rxq0) w2) (shortened rxq0) w2 (ground arith)
                  (step-move fg (slot_of xs) y rxq w rxq0
                    (write_slot (slot_of xs) (w.next y) rxq w).1 (rw same.pkt_fg match) refl),
            )
            (rw (append_assoc rs (y ∷ []) (filter (λ p. fg.fg_id == w0.pkt_fg p) ys)) at (
              loop-moves w0 fg h n (shortened rxq0) w2 (update place y (remote_place fg.target_cpu))
                (rs ++ y ∷ []) xs ys (omega arith)
                (Frame_trans w0 w w2 same (move-one-Frame fg w rxq xs y))
                (move-one fg w rxq h place rs xs y ys ahead.1 hh)))
      | inr other ↦
          rw
            (
              other,
              ahead.0,
              loop-step n fg (slot_of xs) y rxq w (at_next y) (w.next y) rxq w (ground arith)
                  (step-stay fg (slot_of xs) y rxq w (rw same.pkt_fg other)),
            )
            (rw
              (
                slot_of-snoc xs y,
                append_assoc xs (y ∷ []) (filter (λ p. not (fg.fg_id == w0.pkt_fg p)) ys),
              )
              at
              (loop-moves w0 fg h n rxq w place rs (xs ++ y ∷ []) ys (omega arith) same
                (rw (append_assoc xs (y ∷ []) ys) hh)))
    ]

retail-Holds :
    (w : World) (rxq : RxQueue) (h : Held) (place : ℕ → ℕ) (t : ℕ)
    → IsLast t h.rx
    → Holds w rxq h place
    → Holds w (record rxq { pending = record (rxq.pending) { tail = t } }) h place
retail-Holds w rxq h place t last hh = record {
  remote_queue = hh.remote_queue;
  local_queue = hh.local_queue;
  rx_queue = record { chain = hh.rx_queue.chain; last = last; distinct = hh.rx_queue.distinct };
  rx_len = hh.rx_len;
  remote_placed = hh.remote_placed;
  local_placed = hh.local_placed;
  rx_placed = hh.rx_placed;
}

slot-IsLast : (stray : ℕ) (xs : List ℕ) → IsLast (container_of stray (slot_of xs)) xs
slot-IsLast stray [] = tt
slot-IsLast stray (x ∷ xs) = IsLast-last_of x xs

-- The lists after the move: those packets of the receive queue that belong to the group, in order,
-- behind the remote queue of the group's target.
abbrev pub after_move : World → Fg → Held → Held
after_move w fg h = record h {
  remote =
      update (h.remote) (fg.target_cpu)
        (h.remote fg.target_cpu ++ filter (λ p. fg.fg_id == w.pkt_fg p) h.rx);
  rx = filter (λ p. not (fg.fg_id == w.pkt_fg p)) h.rx;
}

-- Given as many rounds as the receive queue has packets, the move ends; the packets of the group
-- then stand, in order, behind those of the target's remote queue, the others stay in order in the
-- receive queue, whose length and tail agree; the queues of all CPUs hold what they held
-- otherwise, and nothing else of the world changes.
pub migrate_pkts_to_remote-moves :
    (packets stray : ℕ) (fg : Fg) (rxq : RxQueue) (w : World) (h : Held) (place : ℕ → ℕ)
    → Holds w rxq h place
    → length h.rx ≤ packets
    → (rxq' : RxQueue) × (w' : World) × (place' : ℕ → ℕ) × (migrate_pkts_to_remote packets stray fg
          rxq w
        ≡ some (rxq', w'))
      × Frame w w'
      × Holds w' rxq' (after_move w fg h) place'
unfolding migrate_pkts_to_remote
migrate_pkts_to_remote-moves packets stray fg rxq w h place hh enough =
    let t = fg.target_cpu in
    let start : Moving w rxq h place t (h.remote t) (h.rx) =
      subst (λ f. Holds w (with_tail rxq (h.rx)) (record h { remote = f }) place)
        (sym (update_self (h.remote) t))
        (retail-Holds w rxq h place (tail_of (h.rx)) (IsLast-tail_of (h.rx)) hh) in
    let (rxq', w', place', runs, frame, holds) =
      loop-moves w fg h packets rxq w place (h.remote t) [] (h.rx) enough (Frame_refl w) start in
    (
      record rxq' {
        pending = record (rxq'.pending) {
          tail = container_of stray (slot_of (after_move w fg h).rx);
        };
      },
      w',
      place',
      rw (runs, migrate_pkts_to_remote) refl,
      frame,
      retail-Holds w' (with_tail rxq' ((after_move w fg h).rx)) (after_move w fg h) place'
          (container_of stray (slot_of (after_move w fg h).rx))
          (slot-IsLast stray ((after_move w fg h).rx)) holds,
    )
