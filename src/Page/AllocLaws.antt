-- ===== src/Page/AllocLaws.antt =====
-- What becomes of the ring of free pages of core/page.c, and of every allocation from it.
use kns.Common.{Bool, ap, ◌∙◌, ℕ, suc, ◌<◌, ◌≡◌, refl, true, false, ◌⊎◌, inl, inr, List, [], arith}
use kns.Common.Tests.{if◌then◌else◌, lt→ltb}
use kns.Page.{num_pages}
use kns.Page.Alloc.{
  Out, done, bug, running, Allocator, page_init, page_alloc, page_alloc_on_node, checked, filled,
  ignored,
}
use kns.Ring.{fail, free_entries, sp_do_enqueue, Ring, enqueue_room}
use kns.Ring.Create.{ring_create-IsValid}
use kns.Ring.MultiOps.{Outcome, returns, ring_enqueue_bulk, mp_do_enqueue, mp_claim}
use kns.Ring.Valid.{IsValid, contents, free_entries-length, size_bounds}
use kns.Common.Lists.{tabulate}
use kns.Common.Errno.{enobufs}

either_way : {x y z : Outcome} (b : Bool) → x ≡ z → y ≡ z → (if b then x else y) ≡ z
either_way true h k = h
either_way false h k = k

bulk-refused :
    (rounds : ℕ) (obj_table : List ℕ) {r : Ring}
    → IsValid 12 r
    → ring_enqueue_bulk (suc rounds) r obj_table 4096 ≡ returns (fail enobufs) r
unfolding ring_enqueue_bulk mp_do_enqueue mp_claim enqueue_room sp_do_enqueue
bulk-refused rounds obj_table {r} v =
    let over : free_entries r < 4096 = omega (arith, free_entries-length v, size_bounds v, v) in
    either_way r.prod.sp_enqueue (rw (lt→ltb (free_entries r) 4096 over, sp_do_enqueue) refl)
      (rw (lt→ltb (free_entries r) 4096 over, mp_claim) refl)

-- The ring has room for one object less than it has slots, so the enqueue of all pages is refused.
pub page_init-empty :
    (rounds : ℕ) (address : ℕ → ℕ)
    → (r : Ring) × (page_init false true (suc rounds) address ≡ done r) × (contents r ≡ [])
unfolding page_init
page_init-empty rounds address =
    let (r, made, valid, empty, mark) = ring_create-IsValid 12 0 (omega arith) in
    (
      r,
      ap (filled (suc rounds) address) made
          ∙ ap ignored (bulk-refused rounds (tabulate num_pages address) valid),
      empty,
    )

checked-bug :
    (rounds : ℕ) (page_no : ℕ → ℕ) (phy_addrs : ℕ) (o : Out (List ℕ × Allocator))
    → (checked true rounds page_no phy_addrs o ≡ bug)
      ⊎ (checked true rounds page_no phy_addrs o ≡ running)
checked-bug rounds page_no phy_addrs bug = inl refl
checked-bug rounds page_no phy_addrs running = inr refl
checked-bug rounds page_no phy_addrs (done (out, a)) = inl refl

-- With BUG_ON in force no allocation returns: it stops after a dequeue that succeeds, and if none
-- does, at its end.
pub page_alloc-bug :
    (rounds : ℕ) (page_no : ℕ → ℕ) (nr : ℕ) (page_index : List ℕ) (phy_addrs : ℕ) (a : Allocator)
    → (page_alloc true rounds page_no nr page_index phy_addrs a ≡ bug)
      ⊎ (page_alloc true rounds page_no nr page_index phy_addrs a ≡ running)
unfolding page_alloc
page_alloc-bug rounds page_no nr page_index phy_addrs a =
    checked-bug rounds page_no phy_addrs (page_alloc_on_node true rounds page_no page_index nr a)
