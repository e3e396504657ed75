-- ===== src/Flow/Assign.antt =====
-- `eth_fg_init` and `eth_fg_assign_single_to_cpu` of core/ethfg.c: a flow group is created, and given
-- to a CPU by the CPU `self`.
use Prim.Native.Nat.{bit_or}
use kns.Common.{ℕ, ◌-◌, ◌%◌, ◌^◌, Bool, true, false, not, Option, none, some, List, [], ◌∷◌}
use kns.Common.Tests.{ltb, ◌==◌, if◌then◌else◌}
use kns.Common.Bug.{Run, done, bug, bug_on, ◌>>=◌, ◌>>◌}
use kns.Flow.World.{Fg, RxQueue, World, update, no_cpu}
use kns.Flow.Migrate.{migrate_pkts_to_remote}

-- The other fields keep what the storage had.
unfoldable pub eth_fg_init : Fg → ℕ → Fg
eth_fg_init fg idx = record fg { idx = idx; cur_cpu = no_cpu; in_transition = false }

-- `struct rte_eth_rss_reta`, the adapter's redirection table; it has 128 entries, and the code takes
-- every index for one of them.
pub record Reta : Type 0 where
  pub mask_lo : ℕ
  pub mask_hi : ℕ
  pub reta : ℕ → ℕ

-- What an assignment writes beside the flow group: the receive queues of the CPU, the table for the
-- adapter, the CPU of every group in the memory shared with the control plane, and the device.
pub record Steering : Type 0 where
  pub world : World
  pub rxqs : List RxQueue
  pub table : Reta
  pub flow_cpu : ℕ → ℕ
  pub eth : ℕ

-- `((uint64_t) 1) << k`, with the count taken modulo 64 as the processor does.
abbrev pub shl64 : ℕ → ℕ
shl64 k = 2 ^ (k % 64)

-- `migrate_pkts_to_remote`, on the receive queue of the group's device. When there is none,
-- `queue_from_fg` stops or has no result.
unfoldable pub migrate_from :
    (packets stray : ℕ) → Fg → List RxQueue → World → Run (Option (List RxQueue × World))
migrate_from packets stray fg [] w = bug
migrate_from packets stray fg (rxq ∷ rxqs) w =
    let further = migrate_from packets stray fg rxqs w in
    if fg.eth == rxq.dev
    then elim (migrate_pkts_to_remote packets stray fg rxq w) [
      | none ↦ done none
      | some (rxq', w') ↦ done (some (rxq' ∷ rxqs, w'))
    ]
    else (further >>= λ r. elim r [
      | none ↦ done none
      | some (rxqs', w') ↦ done (some (rxq ∷ rxqs', w'))
    ])

-- The end of the function: the table, the shared memory and the device.
unfoldable pub steer : (fg_id cpu : ℕ) → Fg → Steering → Steering
steer fg_id cpu fg s =
    let table = s.table in
    record s {
      table = record {
        mask_lo = if ltb fg.idx 64 then bit_or table.mask_lo (shl64 fg.idx) else table.mask_lo;
        mask_hi =
            if ltb fg.idx 64 then table.mask_hi else bit_or table.mask_hi (shl64 (fg.idx - 64));
        reta = update (table.reta) (fg.idx) (cpu % 2 ^ 16);
      };
      flow_cpu = update (s.flow_cpu) fg_id cpu;
      eth = fg.eth;
    }

-- A group on its way from its CPU to `cpu`.
abbrev pub leaving : (cpu : ℕ) → Fg → Fg
leaving cpu fg = record fg {
  in_transition = true;
  prev_cpu = fg.cur_cpu;
  cur_cpu = no_cpu;
  target_cpu = cpu;
}

abbrev pub set_fg : ℕ → Fg → World → World
set_fg fg_id fg w = record w { fgs = update (w.fgs) fg_id (some fg) }

-- The result is 1 when packets may still arrive at the previous CPU. The inner `none` is a loop
-- that ran out of rounds.
unfoldable pub eth_fg_assign_single_to_cpu :
    (traps : Bool) (packets stray self fg_id cpu : ℕ) → Steering → Run (Option (ℕ × Steering))
eth_fg_assign_single_to_cpu traps packets stray self fg_id cpu s = elim (s.world.fgs fg_id) [
  | none ↦ bug
  | some fg ↦
      bug_on traps (not fg.in_transition)
      >> (if fg.cur_cpu == cpu
          then done (some (0, s))
          else if fg.cur_cpu == no_cpu
          then (let fg' = record fg { cur_cpu = cpu } in
              done
                (some (0, steer fg_id cpu fg' (record s { world = set_fg fg_id fg' (s.world) }))))
          else (bug_on traps (fg.cur_cpu == self)
              >> (migrate_from packets stray (leaving cpu fg) s.rxqs
                    (set_fg fg_id (leaving cpu fg) s.world)
                  >>= λ r. elim r [
                    | none ↦ done none
                    | some (rxqs', w') ↦ done (
                        some (
                          1,
                          steer fg_id cpu (leaving cpu fg) (record s { world = w'; rxqs = rxqs' }),
                        ))
                  ])))
]
