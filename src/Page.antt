-- ===== src/Page.antt =====
-- References to 2 MB pages, of inc/kns/page.h and core/page.c. A page that will be freed counts its
-- references in its entry of the table; every other page, in the CPU's own counter.
pub mod Laws
pub mod Alloc
pub mod AllocLaws
use Prim.Native.Nat.{bit_and}
use kns.Common.{ℕ, ◌+◌, ◌-◌, ◌*◌, ◌/◌, ◌%◌, ◌^◌, Bool, not, ◌&&◌, ◌||◌}
use kns.Common.Tests.{ltb, leb, ◌==◌, if◌then◌else◌}
use kns.Common.Int.{ℤ, pos, ◌+ℤ◌, ◌-ℤ◌, eqb_ℤ}
use kns.Common.Bug.{Run, done, bug, ◌>>=◌}
use kns.Flow.World.{update}

abbrev pub page_size_2mb : ℕ
page_size_2mb = 2097152

abbrev pub num_pages : ℕ
num_pages = 4096

abbrev pub page_flag_will_free : ℕ
page_flag_will_free = 1

abbrev pub page_flag_can_free : ℕ
page_flag_can_free = 2

-- `struct page_ent`
pub record PageEnt : Type 0 where
  pub maddr : ℕ
  pub refcnt : ℤ
  pub flags : ℕ

-- `page_tbl`, this CPU's `page_refs`, and `pagenum_free`.
pub record Pages : Type 0 where
  pub page_tbl : ℕ → PageEnt
  pub page_refs : ℕ → ℤ
  pub pagenum_free : ℤ

-- `PGOFF_2MB`, `PGADDR_2MB` and `PAGE_NUM`: the mask of a power of two is the remainder, and
-- MEM_VIRTUAL_BASE_ADDR is 0.
abbrev pub pgoff_2mb : ℕ → ℕ
pgoff_2mb addr = addr % 2097152

abbrev pub pgaddr_2mb : ℕ → ℕ
pgaddr_2mb addr = addr - addr % 2097152

abbrev pub page_num : ℕ → ℕ
page_num addr = addr / 2097152

abbrev pub will_free : PageEnt → Bool
will_free ent = not (bit_and (ent.flags) page_flag_will_free == 0)

abbrev pub set_refcnt : Pages → ℕ → ℤ → Pages
set_refcnt p idx v = record p {
  page_tbl = update (p.page_tbl) idx (record (p.page_tbl idx) { refcnt = v });
}

abbrev pub set_refs : Pages → ℕ → ℤ → Pages
set_refs p idx v = record p { page_refs = update (p.page_refs) idx v }

-- The machine address, and the pages with one more reference. An index outside the table is an
-- access outside of it.
unfoldable pub page_get : ℕ → Pages → Run (ℕ × Pages)
page_get addr p =
    let idx : ℕ = page_num addr in
    let ent = p.page_tbl idx in
    let maddr : ℕ = (ent.maddr + pgoff_2mb addr) % 2 ^ 64 in
    if not (ltb idx num_pages)
    then bug
    else if will_free ent
    then done (maddr, set_refcnt p idx (ent.refcnt +ℤ pos 1))
    else done (maddr, set_refs p idx (p.page_refs idx +ℤ pos 1))

-- `__page_put_slow`; the page itself is kept.
unfoldable pub page_put_slow : ℕ → Pages → Pages
page_put_slow addr p =
    let idx : ℕ = page_num addr in
    let ent = p.page_tbl idx in
    let p' : Pages = set_refcnt p idx (ent.refcnt -ℤ pos 1) in
    if not (eqb_ℤ (ent.refcnt -ℤ pos 1) (pos 0)) || bit_and (ent.flags) page_flag_can_free == 0
    then p'
    else record p' { pagenum_free = p.pagenum_free +ℤ pos 1 }

unfoldable pub page_put : ℕ → Pages → Run Pages
page_put addr p =
    let idx : ℕ = page_num addr in
    if not (ltb idx num_pages)
    then bug
    else if will_free (p.page_tbl idx)
    then done (page_put_slow addr p)
    else done (set_refs p idx (p.page_refs idx -ℤ pos 1))
