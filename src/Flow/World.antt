-- ===== src/Flow/World.antt =====
-- The data of core/ethfg.c that its functions share: the flow groups, the packet queues of each CPU
-- and the state of a migration. CPU numbers are `unsigned int`, with -1 for no CPU.
use kns.Common.{ℕ, ◌+◌, ◌-◌, ◌*◌, ◌^◌, Bool, Option, List}
use kns.Common.Tests.{◌==◌, if◌then◌else◌}
use kns.Common.Int.{ℤ}
use kns.Common.Links.{Links}
use kns.Flow.Queue.{Queue}

-- `(unsigned int) -1`
abbrev pub no_cpu : ℕ
no_cpu = 2 ^ 32 - 1

abbrev pub eth_max_num_fg : ℕ
eth_max_num_fg = 512

abbrev pub eth_max_total_fg : ℕ
eth_max_total_fg = 512 * 16

abbrev pub mbuf_invalid_fg_id : ℕ
mbuf_invalid_fg_id = 0xffff

-- `struct eth_fg`, the fields of steering and migration.
pub record Fg : Type 0 where
  pub fg_id : ℕ
  pub in_transition : Bool
  pub cur_cpu : ℕ
  pub target_cpu : ℕ
  pub prev_cpu : ℕ
  pub idx : ℕ
  pub dev_idx : ℕ
  pub eth : ℕ

-- `struct eth_rx_queue`, the packets pending on one device queue.
pub record RxQueue : Type 0 where
  pub pending : Queue
  pub len : ℤ
  pub dev : ℕ

-- `struct migration_info`; `timer` says whether its timeout is armed, `timer_fg` is the timer's
-- `cur_fg`.
pub record Info : Type 0 where
  pub timer : Bool
  pub timer_fg : ℕ
  pub prev_cpu : ℕ
  pub target_cpu : ℕ
  pub fg_bitmap : ℕ → Bool

-- A function posted to another CPU by `cpu_run_on_one`: `early_transition_handler_prev`, or
-- `transition_handler_target` on the migration info of a CPU.
pub data Call : Type 0 where
  early : Call
  target : ℕ → Call

-- `next` and `pkt_fg` are fields of every packet, `remote`, `local` and `info` per-CPU variables.
-- `posted` are the calls posted so far, with their CPUs, `input` the packets given to `eth_input`,
-- `ready` the CPUs whose command is done.
pub record World : Type 0 where
  pub next : Links
  pub pkt_fg : ℕ → ℕ
  pub fgs : ℕ → Option Fg
  pub remote : ℕ → Queue
  pub local : ℕ → Queue
  pub info : ℕ → Info
  pub posted : List (ℕ × Call)
  pub input : List ℕ
  pub ready : ℕ → Bool

-- One entry of an array or a per-CPU variable replaced.
abbrev pub update {ℓ} : {A : Type ℓ} → (ℕ → A) → ℕ → A → ℕ → A
update f i a j = if j == i then a else f j

-- `outbound_fg_idx()`
abbrev pub outbound_fg_idx : ℕ → ℕ
outbound_fg_idx cpu = eth_max_total_fg + cpu
