-- ===== src/Rx/Laws.antt =====
-- Whom `eth_process_recv` of core/ethqueue.c serves, and how much.
use kns.Common.{
  ℕ, zero, suc, ◌+◌, ◌≤◌, ◌<◌, ◌≡◌, ◌≢◌, refl, sym, ap₂, subst, ◌∙◌, true, false, not, ◌&&◌, none,
  some, List, [], ◌∷◌, ◌++◌, map, append_assoc, append-nil, arith, inl, inr,
}
use kns.Common.Tests.{ltb, ◌==◌, eq→==, ne→==, ==→eq, Bool-cases}
use kns.Common.Int.{pos, ◌-ℤ◌}
use kns.Common.Lists.{length, drop, length-append}
use kns.Common.Links.{Links, Chain, has, Distinct}
use kns.Flow.World.{RxQueue, update}
use kns.Rx.{
  eth_rx_max_batch, eth_process_recv_queue, process_round, is_nil, Served, process_rounds,
  eth_process_recv,
}
use kns.Rx.Turns.{
  heads, turns, AllEmpty, length-heads, heads-nil, is_nil-length, drop-drop, length-map-drop,
}

recv_queue-none :
    (next : Links) (rxq : RxQueue) → rxq.pending.head ≡ 0 → eth_process_recv_queue next rxq ≡ none
unfolding eth_process_recv_queue
recv_queue-none next rxq h = rw (eq→== rxq.pending.head 0 h) refl

-- The queue without its first packet.
abbrev rest_of : Links → RxQueue → RxQueue
rest_of next rxq = record rxq {
  pending = record (rxq.pending) { head = next (rxq.pending.head) };
  len = rxq.len -ℤ pos 1;
}

recv_queue-some :
    (next : Links) (rxq : RxQueue)
    → rxq.pending.head ≢ 0
    → eth_process_recv_queue next rxq ≡ some (rxq.pending.head, rest_of next rxq)
unfolding eth_process_recv_queue
recv_queue-some next rxq h = rw (ne→== rxq.pending.head 0 h) refl

module _ (t : ℕ → ℕ) where
  -- The queues that `t` leads to from these pointers hold these lists of packets.
  abbrev pub Queued : Links → List ℕ → (ℕ → RxQueue) → List (List ℕ) → Type 0
  Queued next [] queue [] = Unit
  Queued next [] queue (xs ∷ xss) = ⊥
  Queued next (p ∷ ps) queue [] = ⊥
  Queued next (p ∷ ps) queue (xs ∷ xss) =
      Chain next (queue (t p)).pending.head xs
      × ((queue (t p)).len ≡ pos (length xs))
      × Queued next ps queue xss

  -- The addresses that the pointers lead to.
  abbrev pub reached : List ℕ → List ℕ
  reached [] = []
  reached (p ∷ ps) = t p ∷ reached ps

  Queued-update :
      (next : Links) (a : ℕ) (q : RxQueue) (ps : List ℕ) (queue : ℕ → RxQueue) (xss : List (List ℕ))
      → has a (reached ps) ≡ false
      → Queued next ps queue xss
      → Queued next ps (update queue a q) xss
  Queued-update next a q [] queue [] out h = tt
  Queued-update next a q [] queue (xs ∷ xss) out h = absurd h
  Queued-update next a q (p ∷ ps) queue [] out h = absurd h
  Queued-update next a q (p ∷ ps) queue (xs ∷ xss) out h =
      let apart : (t p == a) ≡ false = ground (arith, out) in
      rw apart (h.0, h.1, Queued-update next a q ps queue xss (ground (arith, out)) h.2)

  process_round-kept :
      (next : Links) (a : ℕ) (ps : List ℕ) (queue : ℕ → RxQueue)
      → has a (reached ps) ≡ false
      → (process_round t next ps queue).0 a ≡ queue a
  unfolding process_round
  process_round-kept next a [] queue out = refl
  process_round-kept next a (p ∷ ps) queue out =
      let apart : (a == t p) ≡ false = ground (arith, out) in
      let others : has a (reached ps) ≡ false = ground (arith, out) in
      elim (Bool-cases ((queue (t p)).pending.head == 0)) [
        | inl e ↦
            rw (recv_queue-none next (queue (t p)) (==→eq _ _ e), process_round)
              (process_round-kept next a ps queue others)
        | inr e ↦
            let q : RxQueue = rest_of next (queue (t p)) in
            rw (recv_queue-some next (queue (t p)) (ground (arith, e)), process_round)
              (process_round-kept next a ps (update queue (t p) q) others ∙ rw apart refl)
      ]

  process_round-heads :
      (next : Links) (ps : List ℕ) (queue : ℕ → RxQueue) (xss : List (List ℕ))
      → Distinct (reached ps)
      → Queued next ps queue xss
      → ((process_round t next ps queue).1 ≡ heads xss)
        × Queued next ps (process_round t next ps queue).0 (map (drop 1) xss)
  unfolding process_round
  process_round-heads next [] queue [] apart h = (refl, tt)
  process_round-heads next [] queue (xs ∷ xss) apart h = absurd h
  process_round-heads next (p ∷ ps) queue [] apart h = absurd h
  process_round-heads next (p ∷ ps) queue ([] ∷ xss) apart h =
      let (given, queued) = process_round-heads next ps queue xss apart.1 h.2 in
      let kept = process_round-kept next (t p) ps queue apart.0 in
      rw (recv_queue-none next (queue (t p)) h.0, process_round)
        (given, (rw kept h.0, rw kept h.1, queued))
  process_round-heads next (p ∷ ps) queue ((x ∷ xs) ∷ xss) apart h =
      let q : RxQueue = rest_of next (queue (t p)) in
      let queue' = update queue (t p) q in
      let (given, queued) =
        process_round-heads next ps queue' xss apart.1
          (Queued-update next (t p) q ps queue xss apart.0 h.2) in
      let kept : (process_round t next ps queue').0 (t p) ≡ q =
        process_round-kept next (t p) ps queue' apart.0 ∙ rw (eq→== (t p) (t p) refl) refl in
      rw (recv_queue-some next (queue (t p)) (ground arith), process_round)
        (
          ap₂ (λ (y : ℕ) (l : List ℕ). y ∷ l) h.0.0 given,
          (
            rw kept (subst (λ (y : ℕ). Chain next (next y) xs) (sym h.0.0) h.0.2),
            rw kept (rw (h.1) (ground arith)),
            queued,
          ),
        )

  -- What a call has done: so many rounds, each one packet of every queue that had one.
  pub record InTurn (next : Links) (ps : List ℕ) (xss : List (List ℕ)) (count : ℕ) (input : List ℕ)
      (s : Served) (r : ℕ) : Type 0 where
    pub given : s.input ≡ input ++ turns r xss
    pub counted : s.count ≡ count + length (turns r xss)
    pub bounded : s.count < eth_rx_max_batch + length xss
    pub left : Queued next ps s.queue (map (drop r) xss)
    pub drained : s.empty ≡ true → AllEmpty (map (drop r) xss)

  -- The last round.
  last-InTurn :
      (next : Links) (ps : List ℕ) (queue : ℕ → RxQueue) (xss : List (List ℕ)) (count : ℕ)
      (input : List ℕ)
      → Distinct (reached ps)
      → Queued next ps queue xss
      → count < eth_rx_max_batch
      → InTurn next ps xss count input
          (record {
            empty = is_nil (heads xss);
            count = count + length (heads xss);
            queue = (process_round t next ps queue).0;
            input = input ++ heads xss;
          })
          1
  last-InTurn next ps queue xss count input apart h low = record {
    given = rw (append-nil (heads xss)) refl;
    counted = rw (append-nil (heads xss)) refl;
    bounded = omega (arith, length-heads xss);
    left = (process_round-heads next ps queue xss apart h).1;
    drained = heads-nil xss;
  }

  -- A round before others.
  more-InTurn :
      (next : Links) (ps : List ℕ) (xss : List (List ℕ)) (count : ℕ) (input : List ℕ) (s : Served)
      (r : ℕ)
      → InTurn next ps (map (drop 1) xss) (count + length (heads xss)) (input ++ heads xss) s r
      → InTurn next ps xss count input s (suc r)
  more-InTurn next ps xss count input s r t = record {
    given = t.given ∙ append_assoc input (heads xss) (turns r (map (drop 1) xss));
    counted =
        rw (length-append (heads xss) (turns r (map (drop 1) xss))) (omega (arith, t.counted));
    bounded = rw (sym (length-map-drop xss)) t.bounded;
    left = rw (sym (drop-drop r xss)) t.left;
    drained = rw (sym (drop-drop r xss)) t.drained;
  }

  process_rounds-InTurn :
      (n : ℕ) (next : Links) (ps : List ℕ) (queue : ℕ → RxQueue) (xss : List (List ℕ)) (count : ℕ)
      (input : List ℕ)
      → Distinct (reached ps)
      → Queued next ps queue xss
      → eth_rx_max_batch ≤ count + n
      → count < eth_rx_max_batch
      → (s : Served) × (r : ℕ) × (process_rounds t n next ps queue count input ≡ some s)
        × InTurn next ps xss count input s r
  unfolding process_rounds
  process_rounds-InTurn zero next ps queue xss count input apart h enough low = absurd (omega arith)
  process_rounds-InTurn (suc n) next ps queue xss count input apart h enough low =
      let (given, queued) = process_round-heads next ps queue xss apart h in
      elim (Bool-cases
        (not (is_nil (heads xss)) && ltb (count + length (heads xss)) eth_rx_max_batch)) [
          | inl more ↦
              let some_given : 1 ≤ length (heads xss) =
                is_nil-length (heads xss) (ground (arith, more)) in
              let (s, r, runs, turn) =
                process_rounds-InTurn n next ps (process_round t next ps queue).0 (map (drop 1) xss)
                  (count + length (heads xss)) (input ++ heads xss) apart queued (omega arith)
                  (ground (arith, more)) in
              (
                s,
                suc r,
                rw (given, more, process_rounds) runs,
                more-InTurn next ps xss count input s r turn,
              )
          | inr stop ↦ (
            record {
              empty = is_nil (heads xss);
              count = count + length (heads xss);
              queue = (process_round t next ps queue).0;
              input = input ++ heads xss;
            },
            1,
            rw (given, stop, process_rounds) refl,
            last-InTurn next ps queue xss count input apart h low,
          )
        ]

  -- Serving a CPU's queues, those that this_cpu_ptr(eth_rxqs[i]) leads to, no two at the same address,
  -- always ends, within the 64 rounds that the batch allows; it goes round the
  -- queues, each round giving `eth_input` the first packet of every queue that has one, in queue
  -- order; it gives out less than 64 packets more than there are queues, answers how many, leaves in
  -- every queue what was behind the packets given out, and says that the queues are empty only when
  -- they are.
  pub eth_process_recv-InTurn :
      (next : Links) (ps : List ℕ) (queue : ℕ → RxQueue) (xss : List (List ℕ)) (input : List ℕ)
      → Distinct (reached ps)
      → Queued next ps queue xss
      → (s : Served) × (r : ℕ) × (eth_process_recv t next ps queue input ≡ some s)
        × InTurn next ps xss 0 input s r
  unfolding eth_process_recv
  eth_process_recv-InTurn next ps queue xss input apart h =
      process_rounds-InTurn eth_rx_max_batch next ps queue xss 0 input apart h (omega arith)
        (omega arith)
