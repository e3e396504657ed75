-- ===== src/Flow/MigrateStep.antt =====
-- One step of `migrate_pkts_to_remote` of core/ethfg.c on the packets that the queues hold.
use kns.Common.{
  ℕ, ◌≡◌, ◌≢◌, refl, ◌∙◌, subst, fun_ext, true, false, List, [], ◌∷◌, ◌++◌, arith, ℕ_discrete,
}
use kns.Common.Tests.{eq→==, ne→==}
use kns.Common.Int.{pos, ◌-ℤ◌}
use kns.Common.Links.{set_link, has, Chain-set_link, has-append}
use kns.Flow.Queue.{Queue, IsQueue}
use kns.Flow.World.{Fg, World, RxQueue, update}
use kns.Flow.Recv.{eth_recv_at_prev}
use kns.Flow.Held.{Held, Holds, IsFresh, apart, rx_place, remote_place, local_place}
use kns.Flow.RecvLaws.{eth_recv_at_prev-Holds}
use kns.Flow.Migrate.{Slot, at_head, at_next, read_slot, write_slot}
use kns.Flow.Unlink.{
  last_of, tail_of, slot_of, IsLast-last_of, IsLast-tail_of, has-last_of, has-without,
  Distinct-without, length-without, Chain-unlink,
}

abbrev pub with_rx : Held → List ℕ → Held
with_rx h xs = record h { rx = xs }

-- The loop leaves `tail` to the end: meanwhile the last packet is known from the list.
abbrev pub with_tail : RxQueue → List ℕ → RxQueue
with_tail rxq xs = record rxq { pending = record (rxq.pending) { tail = tail_of xs } }

abbrev pub shortened : RxQueue → RxQueue
shortened rxq = record rxq { len = rxq.len -ℤ pos 1 }

pub without-IsFresh :
    (w : World) (rxq : RxQueue) (h : Held) (place : ℕ → ℕ) (xs : List ℕ) (y : ℕ) (ys : List ℕ)
    → y ≢ 0
    → Holds w rxq (with_rx h (xs ++ y ∷ ys)) place
    → IsFresh y (with_rx h (xs ++ ys))
without-IsFresh w rxq h place xs y ys some_y hh =
    let here : has y (xs ++ y ∷ ys) ≡ true = ground (arith, has-append y xs (y ∷ ys)) in
    record {
      some_pkt = some_y;
      remote_out = λ c.
          apart place rx_place (remote_place c) (xs ++ y ∷ ys) (h.remote c) (omega arith)
            hh.rx_placed (hh.remote_placed c) y here;
      local_out = λ c.
          apart place rx_place (local_place c) (xs ++ y ∷ ys) (h.local c) (omega arith) hh.rx_placed
            (hh.local_placed c) y here;
      rx_out = (Distinct-without xs y ys hh.rx_queue.distinct).1;
    }

-- Without `y` in front of the queue, whose head now points behind it.
pub unlink-head-Holds :
    (w : World) (rxq : RxQueue) (h : Held) (place : ℕ → ℕ) (y : ℕ) (ys : List ℕ)
    → Holds w (with_tail rxq (y ∷ ys)) (with_rx h (y ∷ ys)) place
    → Holds w
        (with_tail (shortened (write_slot at_head (w.next y) rxq w).0) ys)
        (with_rx h ys)
        place
unlink-head-Holds w rxq h place y ys hh = record {
  remote_queue = hh.remote_queue;
  local_queue = hh.local_queue;
  rx_queue = record {
    chain = hh.rx_queue.chain.2;
    last = IsLast-tail_of ys;
    distinct = hh.rx_queue.distinct.1;
  };
  rx_len = rw (hh.rx_len) (ground arith);
  remote_placed = hh.remote_placed;
  local_placed = hh.local_placed;
  rx_placed = λ a m. hh.rx_placed a (ground (arith, m));
}

pub unlink-next-Holds :
    (w : World) (rxq : RxQueue) (h : Held) (place : ℕ → ℕ) (x : ℕ) (xs : List ℕ) (y : ℕ)
    (ys : List ℕ)
    → Holds w (with_tail rxq (x ∷ xs ++ y ∷ ys)) (with_rx h (x ∷ xs ++ y ∷ ys)) place
    → Holds
        (write_slot (at_next (last_of x xs)) (w.next y) rxq w).1
        (with_tail (shortened rxq) (x ∷ xs ++ ys))
        (with_rx h (x ∷ xs ++ ys))
        place
unlink-next-Holds w rxq h place x xs y ys hh =
    let out : (c i : ℕ) (zs : List ℕ)
        → rx_place ≢ i
        → ((a : ℕ) → has a zs ≡ true → place a ≡ i)
        → has (last_of x xs) zs ≡ false =
      λ c i zs ne placed.
        apart place rx_place i (x ∷ xs ++ y ∷ ys) zs ne hh.rx_placed placed (last_of x xs)
          (has-last_of x xs (y ∷ ys)) in
    let keeps : (q : Queue) (zs : List ℕ)
        → has (last_of x xs) zs ≡ false
        → IsQueue w.next q zs
        → IsQueue (set_link (w.next) (last_of x xs) (w.next y)) q zs =
      λ q zs off hq. record {
        chain = Chain-set_link w.next (last_of x xs) (w.next y) q.head zs off hq.chain;
        last = hq.last;
        distinct = hq.distinct;
      } in
    record {
      remote_queue = λ c.
          keeps (w.remote c) (h.remote c)
            (out c (remote_place c) (h.remote c) (omega arith) (hh.remote_placed c))
            (hh.remote_queue c);
      local_queue = λ c.
          keeps (w.local c) (h.local c)
            (out c (local_place c) (h.local c) (omega arith) (hh.local_placed c))
            (hh.local_queue c);
      rx_queue = record {
        chain =
            Chain-unlink w.next rxq.pending.head x xs y ys hh.rx_queue.distinct hh.rx_queue.chain;
        last = IsLast-last_of x (xs ++ ys);
        distinct = (Distinct-without (x ∷ xs) y ys hh.rx_queue.distinct).0;
      };
      rx_len = rw (hh.rx_len) (ground (arith, length-without xs y ys));
      remote_placed = hh.remote_placed;
      local_placed = hh.local_placed;
      rx_placed = λ a m. hh.rx_placed a (has-without a (x ∷ xs) y ys m);
    }

pub unlink-Holds :
    (w : World) (rxq : RxQueue) (h : Held) (place : ℕ → ℕ) (xs : List ℕ) (y : ℕ) (ys : List ℕ)
    → Holds w (with_tail rxq (xs ++ y ∷ ys)) (with_rx h (xs ++ y ∷ ys)) place
    → Holds
        (write_slot (slot_of xs) (w.next y) rxq w).1
        (with_tail (shortened (write_slot (slot_of xs) (w.next y) rxq w).0) (xs ++ ys))
        (with_rx h (xs ++ ys))
        place
unlink-Holds w rxq h place [] y ys hh = unlink-head-Holds w rxq h place y ys hh
unlink-Holds w rxq h place (x ∷ xs) y ys hh = unlink-next-Holds w rxq h place x xs y ys hh

-- What the move of packets leaves alone.
pub record Frame (w w' : World) : Type 0 where
  pub pkt_fg : w'.pkt_fg ≡ w.pkt_fg
  pub fgs : w'.fgs ≡ w.fgs
  pub local : w'.local ≡ w.local
  pub info : w'.info ≡ w.info
  pub posted : w'.posted ≡ w.posted
  pub input : w'.input ≡ w.input
  pub ready : w'.ready ≡ w.ready

pub Frame_refl : (w : World) → Frame w w
Frame_refl w = record {
  pkt_fg = refl;
  fgs = refl;
  local = refl;
  info = refl;
  posted = refl;
  input = refl;
  ready = refl;
}

pub Frame_trans : (u v w : World) → Frame u v → Frame v w → Frame u w
Frame_trans u v w f g = record {
  pkt_fg = g.pkt_fg ∙ f.pkt_fg;
  fgs = g.fgs ∙ f.fgs;
  local = g.local ∙ f.local;
  info = g.info ∙ f.info;
  posted = g.posted ∙ f.posted;
  input = g.input ∙ f.input;
  ready = g.ready ∙ f.ready;
}

pub read_slot-shortened :
    (s : Slot) (rxq : RxQueue) (w : World) → read_slot s (shortened rxq) w ≡ read_slot s rxq w
read_slot-shortened at_head rxq w = refl
read_slot-shortened (at_next p) rxq w = refl

pub update-twice :
    (f : ℕ → List ℕ) (t : ℕ) (a : List ℕ) (pkt : ℕ)
    → update (update f t a) t (update f t a t ++ pkt ∷ []) ≡ update f t (a ++ pkt ∷ [])
update-twice f t a pkt = fun_ext (λ j. elim (ℕ_discrete j t) [
  | yes e ↦ rw (eq→== j t e, eq→== t t refl) refl
  | no ne ↦ rw (ne→== j t ne) refl
])

pub update_self : (f : ℕ → List ℕ) (t : ℕ) → update f t (f t) ≡ f
update_self f t = fun_ext (λ j. elim (ℕ_discrete j t) [
  | yes e ↦ rw (eq→== j t e, e) refl
  | no ne ↦ rw (ne→== j t ne) refl
])

-- The lists when the loop has seen `xs`, has `ys` ahead, and `rs` stand in the remote queue of `t`.
abbrev pub Moving : World → RxQueue → Held → (ℕ → ℕ) → ℕ → List ℕ → List ℕ → Type 0
Moving w rxq h place t rs xs =
    Holds w (with_tail rxq xs) (with_rx (record h { remote = update (h.remote) t rs }) xs) place

-- A packet `y` of the group goes from the receive queue to the end of the remote queue.
pub move-one :
    (fg : Fg) (w : World) (rxq : RxQueue) (h : Held) (place : ℕ → ℕ) (rs xs : List ℕ) (y : ℕ)
    (ys : List ℕ)
    → y ≢ 0
    → Moving w rxq h place fg.target_cpu rs (xs ++ y ∷ ys)
    → Moving
        (eth_recv_at_prev (write_slot (slot_of xs) (w.next y) rxq w).1 fg y)
        (shortened (write_slot (slot_of xs) (w.next y) rxq w).0)
        h
        (update place y (remote_place fg.target_cpu))
        fg.target_cpu
        (rs ++ y ∷ [])
        (xs ++ ys)
move-one fg w rxq h place rs xs y ys some_y hh =
    let t = fg.target_cpu in
    let h0 = record h { remote = update (h.remote) t rs } in
    let w1 = (write_slot (slot_of xs) (w.next y) rxq w).1 in
    let rxq1 = with_tail (shortened (write_slot (slot_of xs) (w.next y) rxq w).0) (xs ++ ys) in
    let moved =
      eth_recv_at_prev-Holds w1 rxq1 (with_rx h0 (xs ++ ys)) place fg y
        (unlink-Holds w rxq h0 place xs y ys hh)
        (without-IsFresh w (with_tail rxq (xs ++ y ∷ ys)) h0 place xs y ys some_y hh) in
    subst
      (λ f.
        Holds (eth_recv_at_prev w1 fg y) rxq1 (record h { remote = f; rx = xs ++ ys })
          (update place y (remote_place t)))
      (update-twice (h.remote) t rs y) moved

pub move-one-Frame :
    (fg : Fg) (w : World) (rxq : RxQueue) (xs : List ℕ) (y : ℕ)
    → Frame w (eth_recv_at_prev (write_slot (slot_of xs) (w.next y) rxq w).1 fg y)
unfolding eth_recv_at_prev
move-one-Frame fg w rxq [] y = record {
  pkt_fg = refl;
  fgs = refl;
  local = refl;
  info = refl;
  posted = refl;
  input = refl;
  ready = refl;
}
move-one-Frame fg w rxq (x ∷ xs) y = record {
  pkt_fg = refl;
  fgs = refl;
  local = refl;
  info = refl;
  posted = refl;
  input = refl;
  ready = refl;
}
