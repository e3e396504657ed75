-- ===== src/Flow/TransitionLaws.antt =====
-- What the end of a migration in core/ethfg.c does to the flow groups and to the packets held.
use kns.Common.{
  ℕ, zero, suc, ◌≤◌, ◌<◌, ◌≡◌, refl, ap, ◌∙◌, fun_ext, append-nil, append_assoc, Bool, true, false,
  ◌&&◌, Option, none, some, List, [], ◌∷◌, ◌++◌, arith, ℕ_discrete, inl, inr,
}
use kns.Common.Tests.{if◌then◌else◌, ltb, eq→==, ne→==, Bool-cases}
use kns.Common.Lists.{length}
use kns.Common.Links.{Links, has, Chain}
use kns.Common.Bug.{done}
use kns.Flow.Queue.{Queue, IsQueue, empty_queue}
use kns.Flow.World.{Fg, Info, World, RxQueue, update, eth_max_total_fg, no_cpu}
use kns.Flow.Held.{Held, Holds, update-both, remote_place, local_place}
use kns.Flow.Transition.{
  settle_groups, drain, transition_handler_target, early_transition_handler_prev,
}

-- A group that belongs to the CPU it was meant for, and to no transition.
abbrev pub arrived : Fg → Fg
arrived fg = record {
  fg_id = fg.fg_id;
  in_transition = false;
  cur_cpu = fg.target_cpu;
  target_cpu = no_cpu;
  prev_cpu = no_cpu;
  idx = fg.idx;
  dev_idx = fg.dev_idx;
  eth = fg.eth;
}

-- The flow groups with the marked ones below `n` arrived.
abbrev pub with_settled : ℕ → (ℕ → Bool) → (ℕ → Option Fg) → ℕ → Option Fg
with_settled n bitmap fgs i =
    if ltb i n && bitmap i
    then elim (fgs i) [ none ↦ none | some fg ↦ some (arrived fg) ]
    else fgs i

abbrev pub AllThere : ℕ → (ℕ → Bool) → (ℕ → Option Fg) → Type 0
AllThere n bitmap fgs = (i : ℕ) → i < n → bitmap i ≡ true → (fg : Fg) × (fgs i ≡ some fg)

settle_groups-settled :
    (n : ℕ) (bitmap : ℕ → Bool) (fgs : ℕ → Option Fg)
    → AllThere n bitmap fgs
    → settle_groups n bitmap fgs ≡ done (with_settled n bitmap fgs)
unfolding settle_groups
settle_groups-settled zero bitmap fgs there = ap done (fun_ext (λ i. ground arith))
settle_groups-settled (suc n) bitmap fgs there =
    let before = settle_groups-settled n bitmap fgs (λ i below. there i (omega arith)) in
    elim (Bool-cases (bitmap n)) [
      | inl marked ↦
          let (fg, here) = there n (omega arith) marked in
          let same : with_settled n bitmap fgs n ≡ some fg = ground (arith, here) in
          rw (before, same, marked, settle_groups)
            (ap done (
              fun_ext (λ i. elim (ℕ_discrete i n) [
                | yes e ↦ ground (arith, here, e, marked, ap fgs e, ap bitmap e)
                | no ne ↦ ground arith
              ])))
      | inr clear ↦
          rw (before, clear, settle_groups)
            (ap done (
              fun_ext (λ i. elim (ℕ_discrete i n) [
                | yes e ↦ ground (arith, clear, ap bitmap e)
                | no ne ↦ ground arith
              ])))
    ]

drain-Chain :
    (n : ℕ) (next : Links) (p : ℕ) (input xs : List ℕ)
    → length xs ≤ n
    → Chain next p xs
    → drain n next p input ≡ some (input ++ xs)
unfolding drain
drain-Chain zero next p input [] enough c = rw (c, append-nil input) refl
drain-Chain (suc n) next p input [] enough c = rw (c, append-nil input) refl
drain-Chain zero next p input (x ∷ xs) enough c = absurd (omega arith)
drain-Chain (suc n) next p input (x ∷ xs) enough c =
    rw (ne→== p 0 (ground arith), c.0, drain)
      (drain-Chain n next (next x) (input ++ x ∷ []) xs (omega arith) c.2
        ∙ ap some (append_assoc input (x ∷ []) xs))

-- The CPU's remote and local queues are empty afterwards.
abbrev pub emptied : ℕ → Held → Held
emptied cpu h = record h { remote = update (h.remote) cpu []; local = update (h.local) cpu [] }

emptied-placed :
    (place number : ℕ → ℕ) (lists : ℕ → List ℕ) (cpu : ℕ)
    → ((c a : ℕ) → has a (lists c) ≡ true → place a ≡ number c)
    → (c a : ℕ) → has a (update lists cpu [] c) ≡ true
    → place a ≡ number c
emptied-placed place number lists cpu placed c a = elim (ℕ_discrete c cpu) [
  | yes e ↦ rw (eq→== c cpu e) (λ m. absurd (ground (arith, m)))
  | no ne ↦ rw (ne→== c cpu ne) (placed c a)
]

emptied-IsQueue :
    (next : Links) (queues : ℕ → Queue) (lists : ℕ → List ℕ) (cpu : ℕ)
    → ((c : ℕ) → IsQueue next (queues c) (lists c))
    → (c : ℕ) → IsQueue next (update queues cpu empty_queue c) (update lists cpu [] c)
emptied-IsQueue next queues lists cpu hq =
    update-both (λ c q xs. IsQueue next q xs) queues lists cpu empty_queue []
      (record { chain = refl; last = tt; distinct = tt }) (λ c ne. hq c)

-- What the end of a migration has done at the CPU that takes over.
pub record Completed (cpu info_cpu : ℕ) (w : World) (rxq : RxQueue) (h : Held) (place : ℕ → ℕ)
    (w' : World) : Type 0 where
  pub input_order : w'.input ≡ w.input ++ (h.remote cpu ++ h.local cpu)
  pub groups : w'.fgs ≡ with_settled eth_max_total_fg (w.info info_cpu).fg_bitmap w.fgs
  pub queues : Holds w' rxq (emptied cpu h) place
  pub idle_here : (w'.info cpu).prev_cpu ≡ no_cpu
  pub idle_there : (w'.info info_cpu).prev_cpu ≡ no_cpu
  pub command_done : w'.ready (w.info info_cpu).prev_cpu ≡ true

-- If every marked flow group is there and the rounds suffice for both queues, the handler at the
-- target ends: first the packets that were handed over and then those that arrived at the target
-- are given to `eth_input`, each in order; the marked groups belong to their targets, the others are
-- unchanged; both queues are empty, all other queues hold what they held; the migration is over on
-- both CPUs, and the command of the previous CPU is done.
pub transition_handler_target-Completed :
    (packets cpu info_cpu : ℕ) (w : World) (rxq : RxQueue) (h : Held) (place : ℕ → ℕ)
    → Holds w rxq h place
    → AllThere eth_max_total_fg (w.info info_cpu).fg_bitmap w.fgs
    → length (h.remote cpu) ≤ packets
    → length (h.local cpu) ≤ packets
    → (w' : World) × (transition_handler_target packets cpu info_cpu w ≡ done (some w'))
      × Completed cpu info_cpu w rxq h place w'
unfolding transition_handler_target
transition_handler_target-Completed packets cpu info_cpu w rxq h place hh there remotes locals =
    let info = w.info info_cpu in
    let finish : ℕ → Info = λ i. record (w.info i) { prev_cpu = no_cpu } in
    (
      record w {
        fgs = with_settled eth_max_total_fg (info.fg_bitmap) (w.fgs);
        input = w.input ++ h.remote cpu ++ h.local cpu;
        remote = update (w.remote) cpu empty_queue;
        local = update (w.local) cpu empty_queue;
        info = update (update (w.info) cpu (finish cpu)) info_cpu (finish info_cpu);
        ready = update (w.ready) (info.prev_cpu) true;
      },
      rw
          (
            settle_groups-settled eth_max_total_fg info.fg_bitmap w.fgs there,
            drain-Chain packets w.next (w.remote cpu).head w.input (h.remote cpu) remotes
                (hh.remote_queue cpu).chain,
            drain-Chain packets w.next (w.local cpu).head (w.input ++ h.remote cpu) (h.local cpu)
                locals (hh.local_queue cpu).chain,
            transition_handler_target,
          )
          refl,
      record {
        input_order = append_assoc w.input (h.remote cpu) (h.local cpu);
        groups = refl;
        queues = record {
          remote_queue = emptied-IsQueue w.next (w.remote) (h.remote) cpu hh.remote_queue;
          local_queue = emptied-IsQueue w.next (w.local) (h.local) cpu hh.local_queue;
          rx_queue = hh.rx_queue;
          rx_len = hh.rx_len;
          remote_placed = emptied-placed place remote_place (h.remote) cpu hh.remote_placed;
          local_placed = emptied-placed place local_place (h.local) cpu hh.local_placed;
          rx_placed = hh.rx_placed;
        };
        idle_here = elim (ℕ_discrete cpu info_cpu) [
          | yes e ↦ rw (eq→== cpu info_cpu e) refl
          | no ne ↦ rw (ne→== cpu info_cpu ne, eq→== cpu cpu refl) refl
        ];
        idle_there = rw (eq→== info_cpu info_cpu refl) refl;
        command_done = rw (eq→== info.prev_cpu info.prev_cpu refl) refl;
      },
    )

-- A migration is ended early once: if polling the adapter leaves the CPU's timeout alone, a second
-- packet that arrives at the target, and the call it posts, change nothing more.
pub early_transition_handler_prev-once :
    (poll : World → World) (cpu : ℕ) (w : World)
    → ((v : World) → ((poll v).info cpu).timer ≡ (v.info cpu).timer)
    → early_transition_handler_prev poll cpu (early_transition_handler_prev poll cpu w)
      ≡ early_transition_handler_prev poll cpu w
unfolding early_transition_handler_prev
early_transition_handler_prev-once poll cpu w keeps =
    let stopped = record w { info = update (w.info) cpu (record (w.info cpu) { timer = false }) } in
    let off : ((poll stopped).info cpu).timer ≡ false =
      keeps stopped ∙ rw (eq→== cpu cpu refl) refl in
    elim (Bool-cases ((w.info cpu).timer)) [
      | inl armed ↦ rw (armed, off) refl
      | inr idle ↦ rw (idle, idle) refl
    ]
