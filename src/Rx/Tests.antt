-- ===== src/Rx/Tests.antt =====
-- Two receive queues at concrete inputs: packets 1 and 2 in the first, 5 in the second.
use kns.Common.{ℕ, ◌+◌, ◌≡◌, refl, Option, none, some, List, [], ◌∷◌, arith}
use kns.Common.Tests.{◌==◌, if◌then◌else◌}
use kns.Common.Int.{pos}
use kns.Common.Links.{Links}
use kns.Flow.World.{RxQueue}
use kns.Rx.{Served, eth_process_recv, process_rounds, process_round, eth_process_recv_queue}
use kns.Rx.Laws.{InTurn, eth_process_recv-InTurn}

abbrev next : Links
next p = if p == 1 then 2 else 0

-- The CPU's memory lies 4096 bytes behind what its pointers name.
abbrev this_cpu_ptr : ℕ → ℕ
this_cpu_ptr p = p + 4096

abbrev eth_rxqs : List ℕ
eth_rxqs = 64 ∷ 128 ∷ []

abbrev first_queue : RxQueue
first_queue = record { pending = record { head = 1; tail = 2 }; len = pos 2; dev = 0 }

abbrev queue : ℕ → RxQueue
queue a =
    if a == 4160
    then first_queue
    else record { pending = record { head = 5; tail = 5 }; len = pos 1; dev = 1 }

eth_process_recv-InTurn_example :
    (s : Served) × (r : ℕ) × (eth_process_recv this_cpu_ptr next eth_rxqs queue [] ≡ some s)
    × InTurn this_cpu_ptr next eth_rxqs ((1 ∷ 2 ∷ []) ∷ (5 ∷ []) ∷ []) 0 [] s r
eth_process_recv-InTurn_example =
    eth_process_recv-InTurn this_cpu_ptr next eth_rxqs queue ((1 ∷ 2 ∷ []) ∷ (5 ∷ []) ∷ []) []
      (ground arith) (ground arith)

abbrev given_out : Option Served → List ℕ
given_out none = []
given_out (some s) = s.input

-- The queues take turns.
served_in_turn : given_out (eth_process_recv this_cpu_ptr next eth_rxqs queue []) ≡ 1 ∷ 5 ∷ 2 ∷ []
unfolding eth_process_recv process_rounds process_round eth_process_recv_queue
served_in_turn = refl
