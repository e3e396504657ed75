-- ===== src/Page/Alloc.antt =====
-- The allocation of pages from the ring of free pages, core/page.c. `rounds` bounds the loops of the
-- ring; `page_no` tells the number that stands at an address of the array of that name.
use kns.Common.{
  ℕ, zero, suc, ◌+◌, ◌-◌, ◌%◌, ◌^◌, Bool, false, not, ◌&&◌, Option, none, some, List, [], ◌∷◌,
}
use kns.Common.Tests.{if◌then◌else◌, ◌==◌}
use kns.Common.Int.{ℤ, pos, negsuc, ◌+ℤ◌, ◌-ℤ◌}
use kns.Common.Lists.{tabulate}
use kns.Common.Bug
use kns.Flow.World.{update}
use kns.Page.{num_pages}
use kns.Ring.{Ring, Ret, ret, fail, quota, ring_create}
use kns.Ring.MultiOps.{Outcome, returns, Taken, takes, ring_enqueue_bulk, ring_dequeue_bulk}

-- What a call comes to: a value, the stop at a `BUG_ON`, or a loop of the ring that outlasts its
-- rounds.
pub data Out {ℓ} (A : Type ℓ) : Type ℓ where
  done : A → Out A
  bug running : Out A

-- `free_page_ring`, this CPU's `page_tbl_cpu` and `page_num_cpu`, and `pagenum_free`.
pub record Allocator : Type 0 where
  pub free_page_ring : Ring
  pub page_tbl_cpu : ℕ → ℕ
  pub page_num_cpu : ℤ
  pub pagenum_free : ℤ

-- Where a call of the ring's comes back; its answer is ignored.
abbrev pub ignored : Outcome → Out Ring
ignored (returns s r) = done r
ignored (Outcome.spins r) = running

-- What follows the creation of the ring; `address` is that of each element of `page_no`.
abbrev pub filled : (rounds : ℕ) (address : ℕ → ℕ) → Bug.Run (Option Ring) → Out Ring
filled rounds address Bug.bug = bug
filled rounds address (Bug.done none) = bug
filled rounds address (Bug.done (some r)) =
    ignored (ring_enqueue_bulk rounds r (tabulate num_pages address) num_pages)

unfoldable pub page_init : (traps memory : Bool) (rounds : ℕ) (address : ℕ → ℕ) → Out Ring
page_init traps memory rounds address = filled rounds address (ring_create traps memory num_pages 0)

-- A return code of 0.
abbrev pub is_ok : Ret → Bool
is_ok (ret n) = n == 0
is_ok (fail e) = false
is_ok (quota n) = false

-- One more reference to each of the first `n` pages of a table.
unfoldable pub count_pages : (page_no : ℕ → ℕ) (n : ℕ) → List ℕ → (ℕ → ℕ) → ℕ → ℕ
count_pages page_no zero pages tbl = tbl
count_pages page_no (suc n) [] tbl = tbl
count_pages page_no (suc n) (p ∷ pages) tbl =
    let i : ℕ = page_no p in count_pages page_no n pages (update tbl i ((tbl i + 1) % 2 ^ 32))

-- One reference less to each of the first `n` pages of a table; a count of 0 is a bug.
unfoldable pub uncount_pages :
    (traps : Bool) (page_no : ℕ → ℕ) (n : ℕ) → List ℕ → (ℕ → ℕ) → Out (ℕ → ℕ)
uncount_pages traps page_no zero pages tbl = done tbl
uncount_pages traps page_no (suc n) [] tbl = done tbl
uncount_pages traps page_no (suc n) (p ∷ pages) tbl =
    let i : ℕ = page_no p in
    let rest =
      uncount_pages traps page_no n pages (update tbl i ((tbl i + (2 ^ 32 - 1)) % 2 ^ 32)) in
    if traps && (tbl i == 0) then bug else rest

module _ (traps : Bool) (rounds : ℕ) (page_no : ℕ → ℕ) where
  -- What follows the dequeue: the table comes back beside the result, which is 0.
  abbrev pub counted : (nr : ℕ) → Allocator → Taken → Out (List ℕ × Allocator)
  counted nr a (Taken.spins r) = running
  counted nr a (takes s out r) =
      if traps && is_ok s
      then bug
      else done (
        out,
        record a {
          free_page_ring = r;
          page_tbl_cpu = count_pages page_no nr out (a.page_tbl_cpu);
          page_num_cpu = a.page_num_cpu +ℤ pos nr;
          pagenum_free = a.pagenum_free +ℤ pos nr;
        },
      )

  unfoldable pub page_alloc_on_node :
      (pages : List ℕ) (nr : ℕ) → Allocator → Out (List ℕ × Allocator)
  page_alloc_on_node pages nr a =
      counted nr a (ring_dequeue_bulk rounds (a.free_page_ring) pages nr)

  -- The check of the result, which is 0, and the table that page_alloc returns.
  abbrev pub checked : (phy_addrs : ℕ) → Out (List ℕ × Allocator) → Out (ℕ × Allocator)
  checked phy_addrs bug = bug
  checked phy_addrs running = running
  checked phy_addrs (done (out, a)) = if traps then bug else done (phy_addrs, a)

  -- `page_index` and `phy_addrs` are what the two variables, never set, hold.
  unfoldable pub page_alloc :
      (nr : ℕ) (page_index : List ℕ) (phy_addrs : ℕ) → Allocator → Out (ℕ × Allocator)
  page_alloc nr page_index phy_addrs a = checked phy_addrs (page_alloc_on_node page_index nr a)

  abbrev pub uncounted : (nr : ℕ) → Allocator → Out (ℕ → ℕ) → Out (ℤ × Allocator)
  uncounted nr a bug = bug
  uncounted nr a running = running
  uncounted nr a (done tbl) =
      done (pos 0, record a { page_tbl_cpu = tbl; page_num_cpu = a.page_num_cpu -ℤ pos nr })

  -- What follows the enqueue; `here` is the CPU that the call runs on.
  abbrev pub freed : (pages : List ℕ) (nr cpu here : ℕ) → Allocator → Outcome → Out (ℤ × Allocator)
  freed pages nr cpu here a (Outcome.spins r) = running
  freed pages nr cpu here a (returns s r) =
      let a' : Allocator = record a { free_page_ring = r } in
      if traps && is_ok s
      then bug
      else if not (cpu == here)
      then done (negsuc 0, a')
      else uncounted nr a' (uncount_pages traps page_no nr pages (a.page_tbl_cpu))

  unfoldable pub page_free_from_node :
      (pages : List ℕ) (nr cpu here : ℕ) → Allocator → Out (ℤ × Allocator)
  page_free_from_node pages nr cpu here a =
      freed pages nr cpu here a (ring_enqueue_bulk rounds (a.free_page_ring) pages nr)
