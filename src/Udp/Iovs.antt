-- ===== src/Udp/Iovs.antt =====
-- The scatter-gather array of a datagram of net/udp.c: which memory it names, which pages it pins,
-- and that its release unpins them.
use kns.Common.{ℕ, ◌+◌, ◌-◌, ◌%◌, ◌^◌, ◌≤◌, ◌<◌, ◌≡◌, refl, true, false, ◌⊎◌, inl, inr, min, arith}
use kns.Common.Tests.{leb, if◌then◌else◌, eq→==, ne→==}
use kns.Flow.World.{update}
use kns.Page.{Pages, pgoff_2mb, page_num}
use kns.Page.Laws.{
  references, got, put, page_get-got, page_put-put, references-put-got, references-put-got_two,
}
use kns.Arp.State.{returns}
use kns.Udp.{free_iovs, create_iovs}
use kns.Udp.State.{MbufIov, World, mbuf_iov_create, mbuf_iov_free}

-- The `nr` IOVs name the `len` bytes at `addr`: one, or two where the end of a page divides the bytes.
abbrev pub Covers : (addr len nr : ℕ) → (ℕ → MbufIov) → Type 0
Covers addr len nr iovs =
    ((nr ≡ 1) × ((iovs 0).base ≡ addr) × ((iovs 0).len ≡ len) × (pgoff_2mb addr + len ≤ 2097152))
    ⊎ ((nr ≡ 2)
        × ((iovs 0).base ≡ addr)
        × (pgoff_2mb addr + (iovs 0).len ≡ 2097152)
        × ((iovs 1).base ≡ addr + (iovs 0).len)
        × ((iovs 0).len + (iovs 1).len ≡ len)
        × (1 ≤ (iovs 1).len))

-- What the array of a payload comes to, over the pages `p`.
pub record Pinned (addr len : ℕ) (old : ℕ → MbufIov) (w : World) : Type 0 where
  pub first : ℕ
  pub nr : ℕ
  pub iovs : ℕ → MbufIov
  pub pages : Pages
  pub runs : create_iovs addr len old w ≡ returns (first, nr, iovs, record w { pages = pages })
  pub covers : Covers addr len nr iovs
  pub first_len : first ≡ (iovs 0).len
  pub unpinned : Pages → Pages
  pub frees :
      (w' : World) → free_iovs nr 0 iovs w' ≡ returns (record w' { pages = unpinned (w'.pages) })
  pub restores : (idx : ℕ) → references (unpinned pages) idx ≡ references w.pages idx

-- The payload lies in the memory that the page table covers.
pub record InPages (addr len : ℕ) : Type 0 where
  pub start : addr < 8589934592
  pub end : addr + len ≤ 8589934592

iov_free :
    (iov : MbufIov) (a : ℕ) (w : World)
    → iov.base ≡ a
    → page_num a < 4096
    → mbuf_iov_free iov w ≡ returns (record w { pages = put a (w.pages) })
unfolding mbuf_iov_free
iov_free iov a w e h = rw (e, page_put-put a w.pages h) refl

abbrev maddr_of : ℕ → Pages → ℕ
maddr_of addr p = ((p.page_tbl (page_num addr)).maddr + pgoff_2mb addr) % 2 ^ 64

iov_create :
    (addr len : ℕ) (w : World)
    → page_num addr < 4096
    → mbuf_iov_create (record { base = addr; len = len }) w
      ≡ returns (
        min len (2097152 - pgoff_2mb addr),
        record {
          base = addr;
          maddr = maddr_of addr (w.pages);
          len = min len (2097152 - pgoff_2mb addr);
        },
        record w { pages = got addr (w.pages) },
      )
unfolding mbuf_iov_create
iov_create addr len w h = rw (page_get-got addr w.pages h) refl

pub free_one :
    (iovs : ℕ → MbufIov) (a : ℕ) (w : World)
    → (iovs 0).base ≡ a
    → page_num a < 4096
    → free_iovs 1 0 iovs w ≡ returns (record w { pages = put a (w.pages) })
unfolding free_iovs
free_one iovs a w e h = rw (iov_free (iovs 0) a w e h) refl

free_two :
    (iovs : ℕ → MbufIov) (a b : ℕ) (w : World)
    → (iovs 0).base ≡ a
    → (iovs 1).base ≡ b
    → page_num a < 4096
    → page_num b < 4096
    → free_iovs 2 0 iovs w ≡ returns (record w { pages = put b (put a (w.pages)) })
unfolding free_iovs
free_two iovs a b w e f h k =
    let w' : World = record w { pages = put a (w.pages) } in
    rw (iov_free (iovs 0) a w e h, iov_free (iovs 1) b w' f k) refl

min_left : (a b : ℕ) → a ≤ b → min a b ≡ a
min_left a b h = omega arith

min_right : (a b : ℕ) → b ≤ a → min a b ≡ b
min_right a b h = omega arith

fits_or_crosses : (n : ℕ) → (n ≤ 2097152) ⊎ (2097152 < n)
fits_or_crosses n = ground arith

le→leb : (a b : ℕ) → a ≤ b → leb a b ≡ true
le→leb a b h = ground arith

gt→leb : (a b : ℕ) → b < a → leb a b ≡ false
gt→leb a b h = ground arith

no_wrap : (a : ℕ) → a ≤ 8589934592 → a % 2 ^ 64 ≡ a
no_wrap a h = omega arith

-- One page holds the whole payload.
one_page-Pinned :
    (addr len : ℕ) (old : ℕ → MbufIov) (w : World)
    → InPages addr len
    → pgoff_2mb addr + len ≤ 2097152
    → Pinned addr len old w
unfolding create_iovs
one_page-Pinned addr len old w h fits =
    let page : page_num addr < 4096 = omega (arith, h.start) in
    let iov : MbufIov = record { base = addr; maddr = maddr_of addr (w.pages); len = len } in
    record {
      first = len;
      nr = 1;
      iovs = update old 0 iov;
      pages = got addr (w.pages);
      runs =
          rw
            (
              iov_create addr len w page,
              min_left len (2097152 - pgoff_2mb addr) (omega arith),
              eq→== len len refl,
            )
            refl;
      covers = inl (refl, refl, refl, fits);
      first_len = refl;
      unpinned = put addr;
      frees = λ w'. free_one (update old 0 iov) addr w' refl page;
      restores = references-put-got addr (w.pages);
    }

-- The payload crosses into a second page.
two_pages-Pinned :
    (addr len : ℕ) (old : ℕ → MbufIov) (w : World)
    → InPages addr len
    → len ≤ 1472
    → 2097152 < pgoff_2mb addr + len
    → Pinned addr len old w
unfolding create_iovs
two_pages-Pinned addr len old w h short crosses =
    let page : page_num addr < 4096 = omega (arith, h.start) in
    let size : ℕ = 2097152 - pgoff_2mb addr in
    let next_page : page_num (addr + size) < 4096 = omega (arith, h.end) in
    let p : Pages = got addr (w.pages) in
    let iov : MbufIov = record { base = addr; maddr = maddr_of addr (w.pages); len = size } in
    let iov' : MbufIov = record {
      base = addr + size;
      maddr = maddr_of (addr + size) p;
      len = len - size;
    } in
    record {
      first = size;
      nr = 2;
      iovs = update (update old 0 iov) 1 iov';
      pages = got (addr + size) p;
      runs =
          rw
            (
              iov_create addr len w page,
              min_right len size (omega arith),
              ne→== len size (omega arith),
              no_wrap (addr + size) (omega (arith, h.end)),
              page_get-got (addr + size) p next_page,
            )
            refl;
      covers = inr (refl, refl, omega arith, refl, omega arith, omega arith);
      first_len = refl;
      unpinned = λ q. put (addr + size) (put addr q);
      frees = λ w'.
          free_two (update (update old 0 iov) 1 iov') addr (addr + size) w' refl refl page
            next_page;
      restores = references-put-got_two addr (addr + size) (w.pages);
    }

pub create_iovs-Pinned :
    (addr len : ℕ) (old : ℕ → MbufIov) (w : World)
    → InPages addr len
    → len ≤ 1472
    → Pinned addr len old w
create_iovs-Pinned addr len old w h short = elim (fits_or_crosses (pgoff_2mb addr + len)) [
  | inl fits ↦ one_page-Pinned addr len old w h fits
  | inr crosses ↦ two_pages-Pinned addr len old w h short crosses
]

-- The descriptors that a datagram takes: one for the mbuf, and one for each IOV.
abbrev pub descriptors : (addr len : ℕ) → ℕ
descriptors addr len = if leb (pgoff_2mb addr + len) 2097152 then 2 else 3

pub Covers-descriptors :
    (addr len nr : ℕ) (iovs : ℕ → MbufIov)
    → len ≤ 1472
    → Covers addr len nr iovs
    → 1 + nr ≡ descriptors addr len
Covers-descriptors addr len nr iovs short (inl (one, base, all, fits)) =
    rw (one, le→leb (pgoff_2mb addr + len) 2097152 fits) refl
Covers-descriptors addr len nr iovs short (inr (two, base, first, next, all, some_last)) =
    rw (two, gt→leb (pgoff_2mb addr + len) 2097152 (omega arith)) refl
