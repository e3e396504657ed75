-- ===== src/TcpApi/Ports.antt =====
-- The loop of net/tcp_api.c that looks for a local port whose packets come to this CPU.
use kns.Common.{
  ℕ, zero, suc, ◌+◌, ◌-◌, ◌*◌, ◌%◌, ◌^◌, ◌≤◌, ◌<◌, ◌≡◌, refl, ap, ◌∙◌, subst, Bool, true, false,
  ◌⊎◌, inl, inr, arith, List,
}
use kns.Common.Tests.{if◌then◌else◌, ◌==◌, leb, Bool-cases, le→ltb, eq→==, ==→eq}
use kns.Flow.World.{outbound_fg_idx}
use kns.TcpApi.Connect.{
  port_of, filter_of, group_of, get_local_port_and_set_queue, Port, ports_per_cpu, port_loop,
}
use kns.TcpApi.State.{Run, done, IpTuple, Filter}

-- A port that the loop may answer: one of the block of this CPU, whose packets come here.
pub record IsLocal (cpu : ℕ) (hits : ℕ → Bool) (group : ℕ → ℕ) (p : Port) : Type 0 where
  pub above : cpu * 2048 < p.src_port
  pub below : p.src_port ≤ (cpu + 1) * 2048
  pub hit : hits p.src_port ≡ true
  pub grouped : p.fg ≡ group p.src_port

le→leb : (a b : ℕ) → a ≤ b → leb a b ≡ true
le→leb a b h = ground arith

gt→leb : (a b : ℕ) → b < a → leb a b ≡ false
gt→leb a b h = ground arith

small : (n : ℕ) → n < 65536 → n % 2 ^ 16 ≡ n
small n h = omega arith

around : (cpu : ℕ) → cpu < 31 → ((cpu * ports_per_cpu + 1) % 2 ^ 16 + 1) % 2 ^ 16 ≡ cpu * 2048 + 2
around cpu h = omega arith

same_or_above : (p q : ℕ) → p ≤ q → (p ≡ q) ⊎ (p + 1 ≤ q)
same_or_above p q h = ground arith

not_both : (b : Bool) → b ≡ true → b ≡ false → ⊥
not_both b h k = ground arith

-- The port that is tried first.
port_of-bounds :
    (cpu local_port : ℕ)
    → cpu < 31
    → (local_port ≡ 0) ⊎ ((cpu * 2048 ≤ local_port) × (local_port < (cpu + 1) * 2048))
    → (cpu * 2048 < port_of cpu local_port) × (port_of cpu local_port ≤ (cpu + 1) * 2048)
port_of-bounds cpu local_port few start = ground arith

module _ (cpu : ℕ) (hits : ℕ → Bool) (group : ℕ → ℕ) where
  -- From the port `p` the loop finds a port up to the end of the block, or goes on at its start with
  -- none of them hit.
  Climbs : (n p : ℕ) → Type 0
  Climbs n p =
      ((found : Port) × IsLocal cpu hits group found
        × ((k : ℕ) → port_loop cpu (suc (n + k)) p p hits group ≡ done found))
      ⊎ (((q : ℕ) → p ≤ q → q ≤ p + n → hits q ≡ false)
          × ((k : ℕ)
              → port_loop cpu (suc (n + k)) p p hits group
                ≡ port_loop cpu k (cpu * 2048 + 2) (cpu * 2048 + 2) hits group))

  -- One round that finds a port, one that goes on, and one at the end of the block.
  step_hit :
      (p : ℕ)
      → p ≤ (cpu + 1) * 2048
      → cpu * 2048 < p
      → hits p ≡ true
      → (found : Port) × IsLocal cpu hits group found
        × ((k : ℕ) → port_loop cpu (suc k) p p hits group ≡ done found)
  unfolding port_loop
  step_hit p below above h = (
    record {
      fg = group p;
      local_port =
          if leb ((cpu + 1) * ports_per_cpu) p then (cpu * ports_per_cpu + 1) % 2 ^ 16 else p;
      src_port = p;
    },
    record { above = above; below = below; hit = h; grouped = refl },
    λ k. rw h refl,
  )

  step_on :
      (r p : ℕ)
      → cpu < 31
      → p < (cpu + 1) * 2048
      → hits p ≡ false
      → port_loop cpu (suc r) p p hits group ≡ port_loop cpu r (p + 1) (p + 1) hits group
  unfolding port_loop
  step_on r p few inside h =
      rw (h, gt→leb ((cpu + 1) * 2048) p inside, small (p + 1) (omega arith)) refl

  step_end :
      (r p : ℕ)
      → cpu < 31
      → p ≡ (cpu + 1) * 2048
      → hits p ≡ false
      → port_loop cpu (suc r) p p hits group
        ≡ port_loop cpu r (cpu * 2048 + 2) (cpu * 2048 + 2) hits group
  unfolding port_loop
  step_end r p few end h = rw (h, le→leb ((cpu + 1) * 2048) p (omega arith), around cpu few) refl

  rounds_of : (n k : ℕ) → suc (suc n + k) ≡ suc (suc (n + k))
  rounds_of n k = omega arith

  zero_plus : (k : ℕ) → 0 + k ≡ k
  zero_plus k = omega arith

  miss_from :
      (n p q : ℕ)
      → hits p ≡ false
      → ((x : ℕ) → p + 1 ≤ x → x ≤ p + 1 + n → hits x ≡ false)
      → p ≤ q
      → q ≤ p + suc n
      → hits q ≡ false
  miss_from n p q h misses low high = elim (same_or_above p q low) [
    | inl e ↦ subst (λ (x : ℕ). hits x ≡ false) e h
    | inr above ↦ misses q above (omega arith)
  ]

  climb : (n p : ℕ) → cpu < 31 → cpu * 2048 < p → p + n ≡ (cpu + 1) * 2048 → Climbs n p
  unfolding port_loop Climbs
  climb zero p few above end = elim (Bool-cases (hits p)) [
    | inl h ↦
        let (found, local, runs) = step_hit p (omega arith) above h in
        inl (found, local, λ k. runs (0 + k))
    | inr h ↦ inr (
      λ q low high. subst (λ (x : ℕ). hits x ≡ false) (omega arith) h,
      λ k.
          step_end (0 + k) p few (omega arith) h
          ∙ ap (λ (r : ℕ). port_loop cpu r (cpu * 2048 + 2) (cpu * 2048 + 2) hits group)
              (zero_plus k),
    )
  ]
  climb (suc n) p few above end = elim (Bool-cases (hits p)) [
    | inl h ↦
        let (found, local, runs) = step_hit p (omega arith) above h in
        inl (found, local, λ k. runs (suc n + k))
    | inr h ↦
        let on : (k : ℕ)
            → port_loop cpu (suc (suc n + k)) p p hits group
              ≡ port_loop cpu (suc (n + k)) (p + 1) (p + 1) hits group =
          λ k.
            ap (λ (r : ℕ). port_loop cpu r p p hits group) (rounds_of n k)
            ∙ step_on (suc (n + k)) p few (omega arith) h in
        elim (climb n (p + 1) few (omega arith) (omega arith)) [
          | inl (found, local, runs) ↦ inl (found, local, λ k. on k ∙ runs k)
          | inr (misses, goes) ↦
              inr (λ q low high. miss_from n p q h misses low high, λ k. on k ∙ goes k)
        ]
  ]

  for_rounds :
      (r r' p : ℕ) (out : Run Port)
      → r ≡ r'
      → port_loop cpu r p p hits group ≡ out
      → port_loop cpu r' p p hits group ≡ out
  for_rounds r r' p out same h = subst (λ (x : ℕ). port_loop cpu x p p hits group ≡ out) same h

  -- One round for each port is enough, with the block gone through twice.
  port_loop-IsLocal :
      (p q : ℕ)
      → cpu < 31
      → cpu * 2048 < p
      → p ≤ (cpu + 1) * 2048
      → cpu * 2048 + 2 ≤ q
      → q ≤ (cpu + 1) * 2048
      → hits q ≡ true
      → (found : Port) × (port_loop cpu 4096 p p hits group ≡ done found)
        × IsLocal cpu hits group found
  unfolding Climbs
  port_loop-IsLocal p q few above below low high h =
      let n : ℕ = (cpu + 1) * 2048 - p in
      let bottom : ℕ = cpu * 2048 + 2 in
      elim (climb n p few above (omega arith)) [
        | inl (found, local, runs) ↦ (
          found,
          for_rounds (suc (n + (4095 - n))) 4096 p (done found) (omega arith) (runs (4095 - n)),
          local,
        )
        | inr (misses, goes) ↦ elim (climb 2046 bottom few (omega arith) (omega arith)) [
          | inl (found, local, runs) ↦ (
            found,
            for_rounds (suc (n + (4095 - n))) 4096 p (done found) (omega arith) (
                goes (4095 - n)
                ∙ for_rounds (suc (2046 + (2048 - n))) (4095 - n) bottom (done found) (omega arith)
                    (runs (2048 - n))),
            local,
          )
          | inr (misses', goes') ↦ absurd (not_both (hits q) h (misses' q low (omega arith)))
        ]
      ]

-- With the checks compiled out, on a CPU below 31 and with one device: a connection gets a port in at
-- most 4096 rounds of the search, if `local_port` is not yet at the end of the CPU's block of 2048
-- ports, and one of the ports from cpu * 2048 + 2 to (cpu + 1) * 2048 is one whose packets belong to a
-- flow group of the CPU. The port that it gets lies above cpu * 2048 and is at most (cpu + 1) * 2048,
-- the first port of the next CPU's block. Either the driver has a new filter for the
-- port, and the group is the CPU's own for connections that it opens; or the group is that of the
-- port's packets, and is on this CPU.
pub get_local_port_and_set_queue-in_block :
    (cpu eth_dev_count nb_rx_fgs : ℕ) (key : List ℕ) (fgs_cpu : ℕ → ℕ) (same : ℕ → Bool)
    (filters : Filter → Bool) (local_port q : ℕ) (id : IpTuple)
    → cpu < 31
    → eth_dev_count ≤ 1
    → (local_port ≡ 0) ⊎ ((cpu * 2048 ≤ local_port) × (local_port < (cpu + 1) * 2048))
    → cpu * 2048 + 2 ≤ q
    → q ≤ (cpu + 1) * 2048
    → fgs_cpu (group_of key nb_rx_fgs id q) ≡ cpu
    → (found : Port) × (get_local_port_and_set_queue false cpu eth_dev_count 4096 nb_rx_fgs key
          fgs_cpu same filters local_port id
        ≡ done found)
      × (cpu * 2048 < found.src_port)
      × (found.src_port ≤ (cpu + 1) * 2048)
      × (((found.fg ≡ outbound_fg_idx cpu) × (filters (filter_of id found.src_port) ≡ true))
          ⊎ ((found.fg ≡ group_of key nb_rx_fgs id found.src_port) × (fgs_cpu found.fg ≡ cpu)))
unfolding get_local_port_and_set_queue
get_local_port_and_set_queue-in_block cpu eth_dev_count nb_rx_fgs key fgs_cpu same filters
      local_port q id few one start low high hit =
    let port : ℕ = port_of cpu local_port in
    let (above, below) = port_of-bounds cpu local_port few start in
    let group : ℕ → ℕ = group_of key nb_rx_fgs id in
    elim (Bool-cases (filters (filter_of id port))) [
      | inl accepted ↦ (
        record { fg = outbound_fg_idx cpu; local_port = port; src_port = port },
        rw (le→ltb 1 eth_dev_count one, accepted) refl,
        above,
        below,
        inl (refl, accepted),
      )
      | inr refused ↦
          let (found, runs, local) =
            port_loop-IsLocal cpu (λ p. fgs_cpu (group p) == cpu) group port q few above below low
              high (eq→== (fgs_cpu (group q)) cpu hit) in
          (
            found,
            rw (le→ltb 1 eth_dev_count one, refused, runs) refl,
            local.above,
            local.below,
            inr (
              local.grouped,
              ap fgs_cpu local.grouped ∙ ==→eq (fgs_cpu (group found.src_port)) cpu local.hit,
            ),
          )
    ]
