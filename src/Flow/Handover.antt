-- ===== src/Flow/Handover.antt =====
-- A flow group given to another CPU in core/ethfg.c, from the assignment to the end of the transition.
use kns.Common.{ℕ, ◌≤◌, ◌<◌, ◌≡◌, ◌≢◌, refl, sym, ap, ◌∙◌, Bool, false, some, List, ◌∷◌, ◌++◌}
use kns.Common.Tests.{◌==◌, eq→==, ne→==, ==→eq, lt→ltb}
use kns.Common.Lists.{length, filter}
use kns.Common.Bug.{done}
use kns.Flow.World.{Fg, World, RxQueue, no_cpu, eth_max_total_fg}
use kns.Flow.Held.{Held, Holds}
use kns.Flow.Migrate.{migrate_pkts_to_remote}
use kns.Flow.MigrateStep.{Frame}
use kns.Flow.MigrateLaws.{after_move, migrate_pkts_to_remote-moves}
use kns.Flow.Transition.{transition_handler_target}
use kns.Flow.TransitionLaws.{transition_handler_target-Completed, AllThere}
use kns.Flow.Assign.{Steering, eth_fg_assign_single_to_cpu, leaving, set_fg, steer, migrate_from}

set_fg-Holds :
    (fg_id : ℕ) (fg : Fg) (w : World) (rxq : RxQueue) (h : Held) (place : ℕ → ℕ)
    → Holds w rxq h place
    → Holds (set_fg fg_id fg w) rxq h place
set_fg-Holds fg_id fg w rxq h place hh = record {
  remote_queue = hh.remote_queue;
  local_queue = hh.local_queue;
  rx_queue = hh.rx_queue;
  rx_len = hh.rx_len;
  remote_placed = hh.remote_placed;
  local_placed = hh.local_placed;
  rx_placed = hh.rx_placed;
}

migrate_from-first :
    (packets stray : ℕ) (fg : Fg) (rxq : RxQueue) (rxqs : List RxQueue) (w : World) (rxq' : RxQueue)
    (w' : World)
    → fg.eth ≡ rxq.dev
    → migrate_pkts_to_remote packets stray fg rxq w ≡ some (rxq', w')
    → migrate_from packets stray fg (rxq ∷ rxqs) w ≡ done (some (rxq' ∷ rxqs, w'))
unfolding migrate_from
migrate_from-first packets stray fg rxq rxqs w rxq' w' same moved =
    rw (eq→== fg.eth rxq.dev same, moved, migrate_from) refl

assign-leaving :
    (packets stray self fg_id cpu : ℕ) (s : Steering) (fg : Fg) (rxqs' : List RxQueue) (w' : World)
    → s.world.fgs fg_id ≡ some fg
    → fg.cur_cpu ≢ cpu
    → fg.cur_cpu ≢ no_cpu
    → migrate_from packets stray (leaving cpu fg) s.rxqs (set_fg fg_id (leaving cpu fg) s.world)
      ≡ done (some (rxqs', w'))
    → eth_fg_assign_single_to_cpu false packets stray self fg_id cpu s
      ≡ done (some (1, steer fg_id cpu (leaving cpu fg) (record s { world = w'; rxqs = rxqs' })))
unfolding eth_fg_assign_single_to_cpu
assign-leaving packets stray self fg_id cpu s fg rxqs' w' found away owned moved =
    rw
      (
        found,
        ne→== fg.cur_cpu cpu away,
        ne→== fg.cur_cpu no_cpu owned,
        moved,
        eth_fg_assign_single_to_cpu,
      )
      refl

-- The world as the group starts to leave.
abbrev pub departed : (fg_id cpu : ℕ) → Fg → World → World
departed fg_id cpu fg w = set_fg fg_id (leaving cpu fg) w

-- With the checks passed, the first receive queue on the group's device and rounds enough for the
-- packets in it, a group that another CPU is to get from its present CPU is marked as leaving, and those packets of it that wait in the receive queue of its device go, in order, to
-- the remote queue of the new CPU; the call answers 1, and the memory shared with the control plane
-- names the new CPU.
pub eth_fg_assign_single_to_cpu-moves :
    (packets stray self fg_id cpu : ℕ) (s : Steering) (fg : Fg) (rxq : RxQueue)
    (rxqs : List RxQueue) (h : Held) (place : ℕ → ℕ)
    → s.world.fgs fg_id ≡ some fg
    → fg.cur_cpu ≢ cpu
    → fg.cur_cpu ≢ no_cpu
    → s.rxqs ≡ rxq ∷ rxqs
    → fg.eth ≡ rxq.dev
    → Holds s.world rxq h place
    → length h.rx ≤ packets
    → (s' : Steering) × (rxq' : RxQueue) × (place' : ℕ → ℕ) × (eth_fg_assign_single_to_cpu false
          packets stray self fg_id cpu s
        ≡ done (some (1, s')))
      × (s'.rxqs ≡ rxq' ∷ rxqs)
      × (s'.flow_cpu fg_id ≡ cpu)
      × Frame (departed fg_id cpu fg s.world) s'.world
      × Holds s'.world rxq' (after_move s.world (leaving cpu fg) h) place'
unfolding steer
eth_fg_assign_single_to_cpu-moves packets stray self fg_id cpu s fg rxq rxqs h place found away
      owned first dev hh enough =
    let w = departed fg_id cpu fg (s.world) in
    let (rxq', w', place', moved, frame, holds) =
      migrate_pkts_to_remote-moves packets stray (leaving cpu fg) rxq w h place
        (set_fg-Holds fg_id (leaving cpu fg) s.world rxq h place hh) enough in
    (
      steer fg_id cpu (leaving cpu fg) (record s { world = w'; rxqs = rxq' ∷ rxqs }),
      rxq',
      place',
      assign-leaving packets stray self fg_id cpu s fg (rxq' ∷ rxqs) w' found away owned (
          rw first
            (migrate_from-first packets stray (leaving cpu fg) rxq rxqs w rxq' w' dev moved)),
      refl,
      rw (eq→== fg_id fg_id refl) refl,
      frame,
      holds,
    )

-- The bitmap that marks one group.
abbrev pub only : ℕ → ℕ → Bool
only fg_id i = i == fg_id

-- With the checks passed, the group's number below the table's size, the first receive queue on the
-- group's device, no other group marked in the caller's migration info and rounds enough for each
-- queue, let a group with a present CPU be given to another CPU and the transition end there with
-- no packet between: the new CPU
-- gives to `eth_input` the packets handed over to it before, then those of the group that waited at
-- the previous CPU, in order, then its own; and it owns the group, which is no more in transition.
pub handover-in_order :
    (packets stray self fg_id cpu : ℕ) (s : Steering) (fg : Fg) (rxq : RxQueue)
    (rxqs : List RxQueue) (h : Held) (place : ℕ → ℕ)
    → s.world.fgs fg_id ≡ some fg
    → fg_id < eth_max_total_fg
    → fg.cur_cpu ≢ cpu
    → fg.cur_cpu ≢ no_cpu
    → s.rxqs ≡ rxq ∷ rxqs
    → fg.eth ≡ rxq.dev
    → Holds s.world rxq h place
    → (s.world.info self).fg_bitmap ≡ only fg_id
    → length h.rx ≤ packets
    → length ((after_move s.world (leaving cpu fg) h).remote cpu) ≤ packets
    → length (h.local cpu) ≤ packets
    → (s' : Steering) × (w' : World) × (eth_fg_assign_single_to_cpu false packets stray self fg_id
          cpu s
        ≡ done (some (1, s')))
      × (transition_handler_target packets cpu self s'.world ≡ done (some w'))
      × (w'.input
          ≡ s.world.input
            ++ (h.remote cpu ++ filter (λ p. fg.fg_id == s.world.pkt_fg p) h.rx ++ h.local cpu))
      × (w'.fgs fg_id
          ≡ some (record fg {
            in_transition = false;
            cur_cpu = cpu;
            target_cpu = no_cpu;
            prev_cpu = no_cpu;
          }))
handover-in_order packets stray self fg_id cpu s fg rxq rxqs h place found low away owned first dev
      hh marks enough remotes locals =
    let (s', rxq', place', assigned, queues, shared, frame, holds) =
      eth_fg_assign_single_to_cpu-moves packets stray self fg_id cpu s fg rxq rxqs h place found
        away owned first dev hh enough in
    let w = s'.world in
    let bitmap : (w.info self).fg_bitmap ≡ only fg_id =
      ap (λ f. (f self).fg_bitmap) frame.info ∙ marks in
    let here : w.fgs fg_id ≡ some (leaving cpu fg) =
      ap (λ f. f fg_id) frame.fgs ∙ rw (eq→== fg_id fg_id refl) refl in
    let there : AllThere eth_max_total_fg (w.info self).fg_bitmap w.fgs = λ i below marked.
      (leaving cpu fg, rw (==→eq i fg_id (sym (ap (λ f. f i) bitmap) ∙ marked)) here) in
    let (w', ends, completed) =
      transition_handler_target-Completed packets cpu self w rxq'
        (after_move s.world (leaving cpu fg) h) place' holds there remotes locals in
    (
      s',
      w',
      assigned,
      ends,
      completed.input_order ∙ rw (frame.input, eq→== cpu cpu refl) refl,
      ap (λ f. f fg_id) completed.groups
          ∙ rw (lt→ltb fg_id eth_max_total_fg low, bitmap, eq→== fg_id fg_id refl, here) refl,
    )
