-- ===== src/Flow/AssignAllLaws.antt =====
-- The flow groups of a bitmap given to a CPU in core/ethfg.c, when no CPU has them yet.
use kns.Common.{
  ℕ, zero, suc, ◌+◌, ◌*◌, ◌≡◌, ◌≢◌, refl, sym, ap, ◌∙◌, inl, inr, Bool, true, false, some, List, [],
  ◌∷◌, ◌++◌, not, arith, ℕ_discrete,
}
use kns.Common.Tests.{◌==◌, if◌then◌else◌, eq→==, ne→==, le→ltb, Bool-cases}
use kns.Common.Lists.{filter}
use kns.Common.Links.{null}
use kns.Common.Bug.{done}
use kns.Flow.World.{Fg, World, update, no_cpu, eth_max_num_fg, eth_max_total_fg}
use kns.Flow.Assign.{Reta, Steering, eth_fg_assign_single_to_cpu, steer, set_fg}
use kns.Flow.AssignAll.{
  nethdev, Pass, Devices, moved, assign_one, assign_groups, assign_devices, announce, assign_rss,
}
use kns.Flow.AssignGiven.{chosen, given_to, Unowned, Given, chosen-next, chosen-here}

module _ (fg_bitmap : ℕ → Bool) (packets stray self cpu : ℕ) (s0 : Steering)
    (free : Unowned fg_bitmap s0.world) (real_cpu : cpu ≢ no_cpu) where
  -- An unmarked group is passed over.
  Given-skip :
      (m : ℕ) (s : Steering)
      → fg_bitmap m ≡ false
      → Given fg_bitmap cpu s0 m s
      → Given fg_bitmap cpu s0 (suc m) s
  Given-skip m s unmarked g =
      let same : (i : ℕ) → chosen fg_bitmap m i ≡ chosen fg_bitmap (suc m) i = λ i.
        elim (ℕ_discrete i m) [
          | yes e ↦
              rw e ((chosen-here fg_bitmap m).1 ∙ sym unmarked ∙ sym ((chosen-here fg_bitmap m).0))
          | no other ↦ sym (chosen-next fg_bitmap m i other)
        ] in
      record {
        groups = λ i. rw (same i) at (g.groups i);
        shared = λ i. rw (same i) at (g.shared i);
        others = g.others;
        queues = g.queues;
      }

  -- A marked group goes to the CPU at once.
  given : (m : ℕ) → Fg → Steering → Steering
  given m fg s =
      let fg' = record fg { cur_cpu = cpu } in
      steer m cpu fg' (record s { world = set_fg m fg' (s.world) })

  assign-given :
      (m : ℕ) (s : Steering) (fg : Fg)
      → s.world.fgs m ≡ some fg
      → fg.cur_cpu ≡ no_cpu
      → eth_fg_assign_single_to_cpu false packets stray self m cpu s ≡ done (some (0, given m fg s))
  unfolding eth_fg_assign_single_to_cpu given
  assign-given m s fg found unowned =
      let away : fg.cur_cpu ≢ cpu = λ e. real_cpu (sym e ∙ unowned) in
      rw
        (
          found,
          ne→== fg.cur_cpu cpu away,
          eq→== fg.cur_cpu no_cpu unowned,
          eth_fg_assign_single_to_cpu,
        )
        refl

  Given-mark :
      (m : ℕ) (s : Steering) (fg : Fg)
      → fg_bitmap m ≡ true
      → s0.world.fgs m ≡ some fg
      → Given fg_bitmap cpu s0 m s
      → Given fg_bitmap cpu s0 (suc m) (given m fg s)
  unfolding given steer
  Given-mark m s fg marked found g = record {
    groups = λ i. elim (ℕ_discrete i m) [
      | yes e ↦ rw (e, eq→== m m refl, (chosen-here fg_bitmap m).0, marked, found) refl
      | no other ↦ rw (ne→== i m other, chosen-next fg_bitmap m i other) (g.groups i)
    ];
    shared = λ i. elim (ℕ_discrete i m) [
      | yes e ↦ rw (e, eq→== m m refl, (chosen-here fg_bitmap m).0, marked) refl
      | no other ↦ rw (ne→== i m other, chosen-next fg_bitmap m i other) (g.shared i)
    ];
    others = ap (λ w. set_fg m (record fg { cur_cpu = cpu }) w) (g.others) ∙ refl;
    queues = g.queues;
  }

  assign_groups-Given :
      (n from : ℕ) (p : Pass)
      → p.real ≡ false
      → Given fg_bitmap cpu s0 from p.steering
      → (p' : Pass) × (assign_groups false packets stray self cpu fg_bitmap n from p
          ≡ done (some p'))
        × (p'.real ≡ false)
        × Given fg_bitmap cpu s0 (from + n) p'.steering
  unfolding assign_groups assign_one
  assign_groups-Given zero from p still g =
      let here : from + 0 ≡ from = omega arith in (p, refl, still, rw here g)
  assign_groups-Given (suc n) from p still g =
      let (p', ran, still', g') = assign_groups-Given n from p still g in
      let next : from + suc n ≡ suc (from + n) = omega arith in
      let m : ℕ = from + n in
      elim (Bool-cases (fg_bitmap m)) [
        | inl marked ↦
            let (fg, found, unowned) = free m marked in
            let there : p'.steering.world.fgs m ≡ some fg =
              g'.groups m ∙ rw (chosen-here fg_bitmap m).1 found in
            let s = given m fg p'.steering in
            (
              moved self m 0 p' s,
              rw
                  (
                    ran,
                    assign_groups,
                    marked,
                    assign_one,
                    assign-given m p'.steering fg there unowned,
                  )
                  refl,
              still',
              rw next (Given-mark m p'.steering fg marked found g'),
            )
        | inr unmarked ↦ (
          p',
          rw (ran, assign_groups, unmarked) refl,
          still',
          rw next (Given-skip m p'.steering unmarked g'),
        )
      ]

  assign_devices-Given :
      (i : ℕ) (fresh : ℕ → ℕ → ℕ)
      → (d : Devices) × (assign_devices false packets stray self cpu fg_bitmap i fresh s0
          ≡ done (some d))
        × (d.real ≡ false)
        × Given fg_bitmap cpu s0 (i * eth_max_num_fg) d.steering
  unfolding assign_devices
  assign_devices-Given zero fresh = (
    record { steering = s0; real = false; tables = [] },
    refl,
    refl,
    record {
      groups = λ i. rw (le→ltb i 0 (omega arith)) refl;
      shared = λ i. rw (le→ltb i 0 (omega arith)) refl;
      others = refl;
      queues = refl;
    },
  )
  assign_devices-Given (suc i) fresh =
      let (d, ran, still, g) = assign_devices-Given i fresh in
      let cleared : Steering = record (d.steering) {
        table = record { mask_lo = 0; mask_hi = 0; reta = fresh i };
        eth = null;
      } in
      let (p, ran', still', g') =
        assign_groups-Given eth_max_num_fg (i * eth_max_num_fg)
          (record { steering = cleared; first_eth = null; real = d.real }) still
          (record { groups = g.groups; shared = g.shared; others = g.others; queues = g.queues }) in
      let next : suc i * eth_max_num_fg ≡ i * eth_max_num_fg + eth_max_num_fg = omega arith in
      (
        record {
          steering = p.steering;
          real = p.real;
          tables = d.tables ++ (p.steering.eth, p.steering.table) ∷ [];
        },
        rw (ran, assign_devices, ran') refl,
        still',
        rw next g',
      )

-- With the checks compiled out, let each marked group be there without a CPU, as after its
-- creation. Then the part of `eth_fg_assign_to_cpu` that gives the groups of a bitmap to a CPU
-- returns: each marked group below the table's size has that CPU, in its record and in the memory
-- shared with the control plane, every other group is as before, no packet and no migration info is
-- touched, and the command of the calling CPU is done.
pub assign_rss-given :
    (packets stray self cpu : ℕ) (fg_bitmap : ℕ → Bool) (fresh : ℕ → ℕ → ℕ) (s : Steering)
    → Unowned fg_bitmap s.world
    → cpu ≢ no_cpu
    → (s' : Steering) × (tables : List (ℕ × Reta)) × (assign_rss false packets stray self cpu
          fg_bitmap fresh s
        ≡ done (some (s', tables)))
      × ((i : ℕ)
          → s'.world.fgs i ≡ (
              if chosen fg_bitmap eth_max_total_fg i
              then given_to cpu (s.world.fgs i)
              else s.world.fgs i))
      × ((i : ℕ)
          → s'.flow_cpu i ≡ (if chosen fg_bitmap eth_max_total_fg i then cpu else s.flow_cpu i))
      × (s'.world
          ≡ record (s.world) { fgs = s'.world.fgs; ready = update (s.world.ready) self true })
      × (s'.rxqs ≡ s.rxqs)
unfolding assign_rss announce
assign_rss-given packets stray self cpu fg_bitmap fresh s free real_cpu =
    let (d, ran, still, g) =
      assign_devices-Given fg_bitmap packets stray self cpu s free real_cpu nethdev fresh in
    (
      record (d.steering) { world = announce self cpu false (d.steering.world) },
      filter (λ (eth, table). not (eth == null)) d.tables,
      rw (ran, assign_rss, still) refl,
      g.groups,
      g.shared,
      ap {A = World} (λ w. record w { ready = update (w.ready) self true }) (g.others),
      g.queues,
    )
