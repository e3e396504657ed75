-- ===== src/Flow/HandoverTests.antt =====
-- A handover at concrete inputs: CPU 2 gives flow group 4 to CPU 6, while packet 7 of the group waits.
use kns.Common.{ℕ, List, ◌≡◌, refl, true, false, some, [], ◌∷◌, arith}
use kns.Common.Tests.{◌==◌, if◌then◌else◌}
use kns.Common.Bug.{done}
use kns.Flow.World.{Fg, World, Info, update, no_cpu, eth_max_total_fg}
use kns.Flow.Held.{Holds}
use kns.Flow.Transition.{transition_handler_target}
use kns.Flow.TransitionLaws.{Completed, transition_handler_target-Completed}
use kns.Flow.AssignAll.{assign_rss}
use kns.Flow.AssignAllLaws.{assign_rss-given}
use kns.Flow.AssignGiven.{chosen}
use kns.Flow.Assign.{Reta, Steering, eth_fg_assign_single_to_cpu}
use kns.Flow.Handover.{only, handover-in_order}
use kns.Flow.Tests.{world, rx_queue, held, settled_fg, moving_fg, world-Holds}

abbrev marked_info : Info
marked_info = record {
  timer = true;
  timer_fg = 0;
  prev_cpu = 2;
  target_cpu = 6;
  fg_bitmap = only 4;
}

abbrev marked_world : World
marked_world = record world { info = λ c. marked_info }

marked-Holds : Holds marked_world rx_queue held (λ a. 0)
marked-Holds = record {
  remote_queue = world-Holds.remote_queue;
  local_queue = world-Holds.local_queue;
  rx_queue = world-Holds.rx_queue;
  rx_len = world-Holds.rx_len;
  remote_placed = world-Holds.remote_placed;
  local_placed = world-Holds.local_placed;
  rx_placed = world-Holds.rx_placed;
}

abbrev steering : Steering
steering = record {
  world = marked_world;
  rxqs = rx_queue ∷ [];
  table = record { mask_lo = 0; mask_hi = 0; reta = λ i. 0 };
  flow_cpu = λ i. 2;
  eth = 0;
}

transition_handler_target-Completed_example :
    (w' : World) × (transition_handler_target 0 6 2 marked_world ≡ done (some w'))
    × Completed 6 2 marked_world rx_queue held (λ a. 0) w'
transition_handler_target-Completed_example =
    transition_handler_target-Completed 0 6 2 marked_world rx_queue held (λ a. 0) marked-Holds
      (λ i below marked. (if i == 4 then settled_fg else moving_fg, refl)) (omega arith)
      (omega arith)

handover-in_order_example :
    (s' : Steering) × (w' : World) × (eth_fg_assign_single_to_cpu false 3 1 2 4 6 steering
      ≡ done (some (1, s')))
    × (transition_handler_target 3 6 2 s'.world ≡ done (some w'))
    × (w'.input ≡ 7 ∷ [])
    × (w'.fgs 4 ≡ some (record settled_fg { cur_cpu = 6 }))
handover-in_order_example =
    handover-in_order 3 1 2 4 6 steering settled_fg rx_queue [] held (λ a. 0) refl (omega arith)
      (omega arith) (omega arith) refl refl marked-Holds refl (omega arith) (omega arith)
      (omega arith)

-- Groups as `eth_fg_init` leaves them.
abbrev new_fg : Fg
new_fg = record settled_fg { cur_cpu = no_cpu }

abbrev first_steering : Steering
first_steering = record steering { world = record marked_world { fgs = λ i. some new_fg } }

assign_rss-given_example :
    (s' : Steering) × (tables : List (ℕ × Reta)) × (assign_rss false 0 0 2 6
        (only 4)
        (λ i j. 0)
        first_steering
      ≡ done (some (s', tables)))
    × ((i : ℕ)
        → s'.world.fgs i ≡ (
            if chosen (only 4) eth_max_total_fg i
            then some (record new_fg { cur_cpu = 6 })
            else some new_fg))
    × ((i : ℕ) → s'.flow_cpu i ≡ (if chosen (only 4) eth_max_total_fg i then 6 else 2))
    × (s'.world ≡ record (first_steering.world) {
      fgs = s'.world.fgs;
      ready = update (first_steering.world.ready) 2 true;
    })
    × (s'.rxqs ≡ first_steering.rxqs)
assign_rss-given_example =
    assign_rss-given 0 0 2 6 (only 4) (λ i j. 0) first_steering (λ i marked. (new_fg, refl, refl))
      (omega arith)
