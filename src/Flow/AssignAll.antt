-- ===== src/Flow/AssignAll.antt =====
-- The first part of `eth_fg_assign_to_cpu` of core/ethfg.c, up to the redirection tables: the CPU
-- `self` gives the flow groups of a bitmap to a CPU. The groups of the flow director, which
-- `migrate_fdir` moves after that, are left out, as are time stamps and counters.
use kns.Common.{
  ℕ, zero, suc, ◌+◌, ◌*◌, Bool, true, false, not, ◌&&◌, Option, none, some, List, [], ◌∷◌, ◌++◌,
}
use kns.Common.Tests.{◌==◌, if◌then◌else◌}
use kns.Common.Lists.{filter}
use kns.Common.Links.{null}
use kns.Common.Bug.{Run, done, bug_on, ◌>>=◌, ◌>>◌}
use kns.Flow.World.{Info, World, update, no_cpu, eth_max_num_fg}
use kns.Flow.Assign.{Reta, Steering, eth_fg_assign_single_to_cpu}

abbrev pub nethdev : ℕ
nethdev = 16

-- What the loop over the groups of a device carries on.
pub record Pass : Type 0 where
  pub steering : Steering
  pub first_eth : ℕ
  pub real : Bool

-- What the loop over the devices carries on; `tables` has a device and a table for each turn.
pub record Devices : Type 0 where
  pub steering : Steering
  pub real : Bool
  pub tables : List (ℕ × Reta)

-- `set_bit` on the caller's migration info.
abbrev pub mark_moving : (self fg_id : ℕ) → Steering → Steering
mark_moving self fg_id s =
    let info = s.world.info self in
    record s {
      world = record (s.world) {
        info =
            update (s.world.info) self
              (record info { fg_bitmap = update (info.fg_bitmap) fg_id true });
      };
    }

abbrev pub moved : (self fg_id result : ℕ) → Pass → Steering → Pass
moved self fg_id result p s = record {
  steering = if result == 0 then s else mark_moving self fg_id s;
  first_eth = if p.first_eth == null then s.eth else p.first_eth;
  real = if result == 0 then p.real else true;
}

module _ (traps : Bool) (packets stray self cpu : ℕ) (fg_bitmap : ℕ → Bool) where
  -- One turn of the inner loop.
  unfoldable pub assign_one : (fg_id : ℕ) → Pass → Run (Option Pass)
  assign_one fg_id p =
      eth_fg_assign_single_to_cpu traps packets stray self fg_id cpu p.steering >>= λ r. elim r [
        | none ↦ done none
        | some (result, s) ↦
            bug_on traps (not (p.first_eth == null) && (p.first_eth == s.eth))
            >> done (some (moved self fg_id result p s))
      ]

  -- The groups below `n` of the device whose groups begin at `from`.
  unfoldable pub assign_groups : (n from : ℕ) → Pass → Run (Option Pass)
  assign_groups zero from p = done (some p)
  assign_groups (suc n) from p = assign_groups n from p >>= λ r. elim r [
    | none ↦ done none
    | some p' ↦ if fg_bitmap (from + n) then assign_one (from + n) p' else done (some p')
  ]

  -- The devices below `i`; `fresh` is what `kmalloc` left in the entries of each table.
  unfoldable pub assign_devices : (i : ℕ) → (fresh : ℕ → ℕ → ℕ) → Steering → Run (Option Devices)
  assign_devices zero fresh s = done (some (record { steering = s; real = false; tables = [] }))
  assign_devices (suc i) fresh s = assign_devices i fresh s >>= λ r. elim r [
    | none ↦ done none
    | some d ↦
        assign_groups eth_max_num_fg (i * eth_max_num_fg) (record {
          steering = record (d.steering) {
            table = record { mask_lo = 0; mask_hi = 0; reta = fresh i };
            eth = null;
          };
          first_eth = null;
          real = d.real;
        })
        >>= λ r'. elim r' [
          | none ↦ done none
          | some p ↦ done (
              some (record {
                steering = p.steering;
                real = p.real;
                tables = d.tables ++ (p.steering.eth, p.steering.table) ∷ [];
              }))
        ]
  ]

-- The command is done at once, or the migration info goes to the other CPU and the timer is started.
unfoldable pub announce : (self cpu : ℕ) → (real : Bool) → World → World
announce self cpu false w = record w { ready = update (w.ready) self true }
announce self cpu true w =
    let info : Info = record (w.info self) { prev_cpu = self; target_cpu = cpu; timer = true } in
    record w { info = update (update (w.info) self info) cpu info }

-- The steering that results, and the tables given to `reta_update` of each device, in order.
unfoldable pub assign_rss :
    (traps : Bool) (packets stray self cpu : ℕ) (fg_bitmap : ℕ → Bool) (fresh : ℕ → ℕ → ℕ)
    → Steering
    → Run (Option (Steering × List (ℕ × Reta)))
assign_rss traps packets stray self cpu fg_bitmap fresh s =
    bug_on traps ((s.world.info self).prev_cpu == no_cpu)
    >> bug_on traps ((s.world.info cpu).prev_cpu == no_cpu)
    >> (assign_devices traps packets stray self cpu fg_bitmap nethdev fresh s >>= λ r. elim r [
      | none ↦ done none
      | some d ↦ done (
          some (
            record (d.steering) { world = announce self cpu (d.real) (d.steering.world) },
            filter (λ (eth, table). not (eth == null)) d.tables,
          ))
    ])
