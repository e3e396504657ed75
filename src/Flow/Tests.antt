-- ===== src/Flow/Tests.antt =====
-- Flow groups at concrete inputs: CPU 2 hands flow group 3 over to CPU 6, with packets 5, 7 and 9 of
-- groups 3, 4 and 3 in its receive queue; group 4 stays.
use kns.Common.{ℕ, ◌≡◌, refl, true, false, some, [], ◌∷◌, arith}
use kns.Common.Tests.{◌==◌, if◌then◌else◌}
use kns.Common.Int.{pos}
use kns.Common.Bug.{done}
use kns.Flow.Queue.{empty_queue}
use kns.Flow.World.{Fg, World, RxQueue, Info, no_cpu}
use kns.Flow.Held.{Held, Holds, IsFresh}
use kns.Flow.Recv.{classify, dispatch, eth_recv_handle_fg_transition}
use kns.Flow.Delivery.{
  Delivered, deliver, role, eth_recv-refines, eth_recv_handle_fg_transition-exclusive,
}
use kns.Flow.Migrate.{migrate_pkts_to_remote}
use kns.Flow.MigrateStep.{Frame}
use kns.Flow.MigrateLaws.{after_move, migrate_pkts_to_remote-moves}

abbrev pub moving_fg : Fg
moving_fg = record {
  fg_id = 3;
  in_transition = true;
  cur_cpu = no_cpu;
  target_cpu = 6;
  prev_cpu = 2;
  idx = 3;
  dev_idx = 0;
  eth = 1;
}

abbrev pub settled_fg : Fg
settled_fg = record {
  fg_id = 4;
  in_transition = false;
  cur_cpu = 2;
  target_cpu = no_cpu;
  prev_cpu = no_cpu;
  idx = 4;
  dev_idx = 0;
  eth = 1;
}

abbrev pub idle_info : Info
idle_info = record {
  timer = false;
  timer_fg = 0;
  prev_cpu = no_cpu;
  target_cpu = no_cpu;
  fg_bitmap = λ i. false;
}

abbrev pub world : World
world = record {
  next = λ p. if p == 5 then 7 else if p == 7 then 9 else 0;
  pkt_fg = λ p. if p == 7 then 4 else 3;
  fgs = λ i. some (if i == 4 then settled_fg else moving_fg);
  remote = λ c. empty_queue;
  local = λ c. empty_queue;
  info = λ c. idle_info;
  posted = [];
  input = [];
  ready = λ c. false;
}

abbrev pub rx_queue : RxQueue
rx_queue = record { pending = record { head = 5; tail = 9 }; len = pos 3; dev = 1 }

abbrev pub held : Held
held = record { remote = λ c. []; local = λ c. []; rx = 5 ∷ 7 ∷ 9 ∷ [] }

pub world-Holds : Holds world rx_queue held (λ a. 0)
world-Holds = record {
  remote_queue = λ c. record { chain = refl; last = tt; distinct = tt };
  local_queue = λ c. record { chain = refl; last = tt; distinct = tt };
  rx_queue = record { chain = ground arith; last = refl; distinct = (refl, (refl, (refl, tt))) };
  rx_len = refl;
  remote_placed = λ c a m. absurd (ground (arith, m));
  local_placed = λ c a m. absurd (ground (arith, m));
  rx_placed = λ a m. refl;
}

fresh : IsFresh 11 held
fresh = record {
  some_pkt = omega arith;
  remote_out = λ c. refl;
  local_out = λ c. refl;
  rx_out = refl;
}

eth_recv-refines_example :
    Delivered 2 world rx_queue 11 (deliver (role 2 moving_fg) 2 moving_fg 11 held)
eth_recv-refines_example =
    eth_recv-refines 2 world rx_queue held (λ a. 0) moving_fg 11 world-Holds fresh refl

through : eth_recv_handle_fg_transition 2 world 7 ≡ done (false, world)
unfolding eth_recv_handle_fg_transition classify dispatch
through = refl

eth_recv_handle_fg_transition-exclusive_example :
    (settled_fg.in_transition ≡ false)
    × (settled_fg.cur_cpu ≡ 2)
    × (eth_recv_handle_fg_transition 6 world 7 ≡ done (true, classify 6 world 7))
eth_recv_handle_fg_transition-exclusive_example =
    eth_recv_handle_fg_transition-exclusive 2 6 world world 7 7 settled_fg world (omega arith) refl
      refl through

migrate_pkts_to_remote-moves_example :
    (rxq' : RxQueue) × (w' : World) × (place' : ℕ → ℕ) × (migrate_pkts_to_remote 3 1 moving_fg
        rx_queue world
      ≡ some (rxq', w'))
    × Frame world w'
    × Holds w' rxq' (after_move world moving_fg held) place'
migrate_pkts_to_remote-moves_example =
    migrate_pkts_to_remote-moves 3 1 moving_fg rx_queue world held (λ a. 0) world-Holds
      (omega arith)

-- The packets 5 and 9 move, in order.
moved_lists : (after_move world moving_fg held).remote 6 ≡ 5 ∷ 9 ∷ []
moved_lists = refl
