-- ===== src/Flow/AssignGiven.antt =====
-- What the steering of core/ethfg.c is after the flow groups of a bitmap, up to a number, were given to a CPU.
use kns.Common.{ℕ, suc, ◌≡◌, ◌≢◌, Bool, true, false, ◌&&◌, Option, none, some, arith}
use kns.Common.Tests.{ltb, if◌then◌else◌, lt→ltb, le→ltb}
use kns.Flow.World.{Fg, World, no_cpu}
use kns.Flow.Assign.{Steering}

-- A marked group below `m` has been given to the CPU.
abbrev pub chosen : (ℕ → Bool) → (m i : ℕ) → Bool
chosen fg_bitmap m i = ltb i m && fg_bitmap i

abbrev pub given_to : ℕ → Option Fg → Option Fg
given_to cpu none = none
given_to cpu (some fg) = some (record fg { cur_cpu = cpu })

-- Each marked group is there, and no CPU has it.
abbrev pub Unowned : (ℕ → Bool) → World → Type 0
Unowned fg_bitmap w =
    (i : ℕ) → fg_bitmap i ≡ true → (fg : Fg) × (w.fgs i ≡ some fg) × (fg.cur_cpu ≡ no_cpu)

-- The steering `s` after the marked groups of `s0` below `m` were given to the CPU.
pub record Given (fg_bitmap : ℕ → Bool) (cpu : ℕ) (s0 : Steering) (m : ℕ) (s : Steering)
    : Type 0 where
  pub groups :
      (i : ℕ)
      → s.world.fgs i
        ≡ (if chosen fg_bitmap m i then given_to cpu (s0.world.fgs i) else s0.world.fgs i)
  pub shared : (i : ℕ) → s.flow_cpu i ≡ (if chosen fg_bitmap m i then cpu else s0.flow_cpu i)
  pub others : s.world ≡ record (s0.world) { fgs = s.world.fgs }
  pub queues : s.rxqs ≡ s0.rxqs

pub chosen-next : (f : ℕ → Bool) (m i : ℕ) → i ≢ m → chosen f (suc m) i ≡ chosen f m i
chosen-next f m i other = ground arith

pub chosen-here : (f : ℕ → Bool) (m : ℕ) → (chosen f (suc m) m ≡ f m) × (chosen f m m ≡ false)
chosen-here f m = (rw (lt→ltb m (suc m) (omega arith)), rw (le→ltb m m (omega arith)))
