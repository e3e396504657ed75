-- ===== src/Page/Laws.antt =====
-- What page_get and page_put of inc/kns/page.h do to the references of a page.
use Prim.Native.Nat.{bit_and}
use kns.Common.{
  ℕ, ◌||◌, Bool, ◌∙◌, ap, ◌+◌, ◌%◌, ◌^◌, ◌<◌, ◌≡◌, refl, true, false, not, inl, inr, arith,
}
use kns.Common.Tests.{◌==◌, if◌then◌else◌, eq→==, ==→eq, lt→ltb, Bool-cases}
use kns.Common.Int.{ℤ, pos, negsuc, eqb_ℤ, ◌+ℤ◌, ◌-ℤ◌}
use kns.Common.Bug.{done}
use kns.Page.{
  Pages, page_flag_can_free, page_num, pgoff_2mb, num_pages, will_free, set_refcnt, set_refs,
  page_get, page_put, page_put_slow,
}

-- The references that a page's counter tells.
abbrev pub references : Pages → ℕ → ℤ
references p idx = if will_free (p.page_tbl idx) then (p.page_tbl idx).refcnt else p.page_refs idx

-- One reference more to the page of `addr`.
abbrev pub got : ℕ → Pages → Pages
got addr p =
    let idx : ℕ = page_num addr in
    let ent = p.page_tbl idx in
    if will_free ent
    then set_refcnt p idx (ent.refcnt +ℤ pos 1)
    else set_refs p idx (p.page_refs idx +ℤ pos 1)

abbrev pub put : ℕ → Pages → Pages
put addr p =
    let idx : ℕ = page_num addr in
    if will_free (p.page_tbl idx)
    then page_put_slow addr p
    else set_refs p idx (p.page_refs idx -ℤ pos 1)

pub page_get-got :
    (addr : ℕ) (p : Pages)
    → page_num addr < num_pages
    → page_get addr p
      ≡ done (((p.page_tbl (page_num addr)).maddr + pgoff_2mb addr) % 2 ^ 64, got addr p)
unfolding page_get
page_get-got addr p h = elim (Bool-cases (will_free (p.page_tbl (page_num addr)))) [
  | inl f ↦ rw (lt→ltb (page_num addr) num_pages h, f) refl
  | inr f ↦ rw (lt→ltb (page_num addr) num_pages h, f) refl
]

pub page_put-put :
    (addr : ℕ) (p : Pages) → page_num addr < num_pages → page_put addr p ≡ done (put addr p)
unfolding page_put
page_put-put addr p h = elim (Bool-cases (will_free (p.page_tbl (page_num addr)))) [
  | inl f ↦ rw (lt→ltb (page_num addr) num_pages h, f) refl
  | inr f ↦ rw (lt→ltb (page_num addr) num_pages h, f) refl
]

-- A count one higher, or one lower, if `hit`.
abbrev plus_if : Bool → ℤ → ℤ
plus_if hit n = if hit then n +ℤ pos 1 else n

abbrev minus_if : Bool → ℤ → ℤ
minus_if hit n = if hit then n -ℤ pos 1 else n

references-got :
    (addr : ℕ) (p : Pages) (idx : ℕ)
    → references (got addr p) idx ≡ plus_if (idx == page_num addr) (references p idx)
references-got addr p idx = elim (Bool-cases (idx == page_num addr)) [
  | inl hit ↦ elim (Bool-cases (will_free (p.page_tbl (page_num addr)))) [
    | inl f ↦
        rw (==→eq idx (page_num addr) hit, f, eq→== (page_num addr) (page_num addr) refl, f) refl
    | inr f ↦
        rw (==→eq idx (page_num addr) hit, f, eq→== (page_num addr) (page_num addr) refl, f) refl
  ]
  | inr miss ↦ elim (Bool-cases (will_free (p.page_tbl (page_num addr)))) [
    | inl f ↦ rw (f, miss) refl
    | inr f ↦ rw (f, miss) refl
  ]
]

page_put_slow-references :
    (addr : ℕ) (p : Pages) (idx : ℕ)
    → references (page_put_slow addr p) idx
      ≡ references (set_refcnt p (page_num addr) ((p.page_tbl (page_num addr)).refcnt -ℤ pos 1)) idx
unfolding page_put_slow
page_put_slow-references addr p idx =
    let ent = p.page_tbl (page_num addr) in
    elim (Bool-cases
      (not (eqb_ℤ (ent.refcnt -ℤ pos 1) (pos 0)) || bit_and (ent.flags) page_flag_can_free == 0)) [
        | inl c ↦ rw (c, page_put_slow) refl
        | inr c ↦ rw (c, page_put_slow) refl
      ]

references-put :
    (addr : ℕ) (p : Pages) (idx : ℕ)
    → references (put addr p) idx ≡ minus_if (idx == page_num addr) (references p idx)
references-put addr p idx = elim (Bool-cases (will_free (p.page_tbl (page_num addr)))) [
  | inl f ↦ elim (Bool-cases (idx == page_num addr)) [
    | inl hit ↦ rw f (
        page_put_slow-references addr p idx
        ∙ rw (==→eq idx (page_num addr) hit, eq→== (page_num addr) (page_num addr) refl, f) refl)
    | inr miss ↦ rw f (page_put_slow-references addr p idx ∙ rw miss refl)
  ]
  | inr f ↦ elim (Bool-cases (idx == page_num addr)) [
    | inl hit ↦
        rw (==→eq idx (page_num addr) hit, f, eq→== (page_num addr) (page_num addr) refl, f) refl
    | inr miss ↦ rw (f, miss) refl
  ]
]

add_sub : (n : ℤ) → n +ℤ pos 1 -ℤ pos 1 ≡ n
add_sub (pos n) = ground arith
add_sub (negsuc n) = ground arith

minus_if-plus_if : (a : Bool) (n : ℤ) → minus_if a (plus_if a n) ≡ n
minus_if-plus_if true n = add_sub n
minus_if-plus_if false n = refl

minus_if-plus_if_two : (a b : Bool) (n : ℤ) → minus_if b (minus_if a (plus_if b (plus_if a n))) ≡ n
minus_if-plus_if_two true true n = ap (λ m. m -ℤ pos 1) (add_sub (n +ℤ pos 1)) ∙ add_sub n
minus_if-plus_if_two true false n = add_sub n
minus_if-plus_if_two false true n = add_sub n
minus_if-plus_if_two false false n = refl

-- A page that was pinned and unpinned has the references it had.
pub references-put-got :
    (a : ℕ) (p : Pages) (idx : ℕ) → references (put a (got a p)) idx ≡ references p idx
references-put-got a p idx =
    references-put a (got a p) idx
    ∙ ap (minus_if (idx == page_num a)) (references-got a p idx)
    ∙ minus_if-plus_if (idx == page_num a) (references p idx)

-- So have two pages, or the same one twice.
pub references-put-got_two :
    (a b : ℕ) (p : Pages) (idx : ℕ)
    → references (put b (put a (got b (got a p)))) idx ≡ references p idx
references-put-got_two a b p idx =
    references-put b (put a (got b (got a p))) idx
    ∙ ap (minus_if (idx == page_num b)) (
        references-put a (got b (got a p)) idx
        ∙ ap (minus_if (idx == page_num a)) (
            references-got b (got a p) idx
            ∙ ap (plus_if (idx == page_num b)) (references-got a p idx)))
    ∙ minus_if-plus_if_two (idx == page_num a) (idx == page_num b) (references p idx)
