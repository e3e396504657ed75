-- ===== src/Flow/Transition.antt =====
-- The end of a migration in core/ethfg.c: the handlers that run on the CPU that gave the flow groups
-- away, and the one on the CPU that takes them over.
use kns.Common.{ℕ, zero, suc, Bool, true, false, not, Option, none, some, List, [], ◌∷◌, ◌++◌}
use kns.Common.Tests.{◌==◌, if◌then◌else◌}
use kns.Common.Links.{Links, null}
use kns.Common.Bug.{Run, done, bug, bug_on, ◌>>=◌, ◌>>◌}
use kns.Flow.Queue.{empty_queue}
use kns.Flow.World.{Fg, Info, target, World, update, no_cpu, eth_max_total_fg}

-- A group at its target.
abbrev pub settled : Fg → Fg
settled fg = record fg {
  in_transition = false;
  cur_cpu = fg.target_cpu;
  target_cpu = no_cpu;
  prev_cpu = no_cpu;
}

-- The loop over the flow groups below `n`; a marked group that is not there is written through NULL.
unfoldable pub settle_groups : (n : ℕ) → (ℕ → Bool) → (ℕ → Option Fg) → Run (ℕ → Option Fg)
settle_groups zero bitmap fgs = done fgs
settle_groups (suc n) bitmap fgs = settle_groups n bitmap fgs >>= λ fgs'.
    if not (bitmap n)
    then done fgs'
    else elim (fgs' n) [ none ↦ bug | some fg ↦ done (update fgs' n (some (settled fg))) ]

-- The loop that gives the packets of a queue to `eth_input`, for at most so many packets; `none`
-- when they do not suffice.
unfoldable pub drain : (packets : ℕ) → Links → ℕ → List ℕ → Option (List ℕ)
drain zero next pkt input = if pkt == null then some input else none
drain (suc n) next pkt input = elim (pkt == null) [
  | true ↦ some input
  | false ↦ drain n next (next pkt) (input ++ pkt ∷ [])
]

-- `info_cpu` tells whose migration info the pointer refers to.
unfoldable pub transition_handler_target : (packets cpu info_cpu : ℕ) → World → Run (Option World)
transition_handler_target packets cpu info_cpu w =
    let info = w.info info_cpu in
    let finish : ℕ → Info = λ i. record (w.info i) { prev_cpu = no_cpu } in
    settle_groups eth_max_total_fg info.fg_bitmap w.fgs >>= λ fgs'.
    elim (drain packets w.next (w.remote cpu).head w.input) [
      | none ↦ done none
      | some input ↦ elim (drain packets w.next (w.local cpu).head input) [
        | none ↦ done none
        | some input' ↦ done (
            some (record w {
              fgs = fgs';
              input = input';
              remote = update (w.remote) cpu empty_queue;
              local = update (w.local) cpu empty_queue;
              info = update (update (w.info) cpu (finish cpu)) info_cpu (finish info_cpu);
              ready = update (w.ready) (info.prev_cpu) true;
            }))
      ]
    ]

-- The timeout of a migration, on the CPU that gave the groups away.
unfoldable pub transition_handler_prev : (traps : Bool) (cpu : ℕ) → World → Run World
transition_handler_prev traps cpu w =
    let info = w.info cpu in
    bug_on traps (info.timer_fg == null)
    >> done (record w {
      info = update (w.info) cpu (record info { timer = false });
      posted = w.posted ++ (info.target_cpu, target cpu) ∷ [];
    })

-- The early end; `eth_process_poll` is what polling the adapter does.
unfoldable pub early_transition_handler_prev :
    (eth_process_poll : World → World) (cpu : ℕ) → World → World
early_transition_handler_prev eth_process_poll cpu w =
    let info = w.info cpu in
    let polled =
      eth_process_poll (record w { info = update (w.info) cpu (record info { timer = false }) }) in
    if not info.timer
    then w
    else record polled { posted = polled.posted ++ ((polled.info cpu).target_cpu, target cpu) ∷ [] }
