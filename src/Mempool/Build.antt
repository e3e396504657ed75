-- ===== src/Mempool/Build.antt =====
-- The chunks that `mempool_init_buf_with_pages` of core/mempool.c makes of fresh memory.
use kns.Common.{
  ℕ, ◌≡◌, ◌≢◌, refl, sym, ap, ◌∙◌, subst, fun_ext, append-nil, true, false, List, [], ◌∷◌, ◌++◌,
  arith, ℕ_discrete, inl, inr,
}
use kns.Common.Tests.{◌==◌, eq→==, ne→==, Bool-cases, ==→eq}
use kns.Common.Lists.{length, length-append}
use kns.Common.Links.{Links, set_link, has, Chain, Distinct, has-append}
use kns.Flow.Queue.{Chain-snoc, Distinct-snoc}
use kns.Flow.Unlink.{last_of, tail_of, IsLast-last_of, has-last_of}
use kns.Mempool.View.{flat, Chunks, Chunks-set_link, Chunks-set_chunk}
use kns.Mempool.Setup.{Building, close_chunk, link_elem}

-- No element of the one list is in the other.
abbrev pub Apart : List ℕ → List ℕ → Type 0
Apart xs ys = (a : ℕ) → has a xs ≡ true → has a ys ≡ false

-- The chunks `cs` are in the datastore, `part` is the chunk begun, and the memory of `ahead` is
-- fresh: zero, not NULL, and in no chunk. Chunks have `k` elements, the memory starts at `base`.
pub record Threading (k base : ℕ) (b : Building) (cs : List (List ℕ)) (part ahead : List ℕ)
    : Type 0 where
  pub size : b.store.chunk_size ≡ k
  pub at : b.store.buf ≡ base
  pub chunk_chains : Chunks b.mem b.store.chunk_head cs
  pub part_chain : Chain b.mem.next b.head part
  pub part_tail : b.prev ≡ tail_of part
  pub counted : b.chunk_count ≡ length part
  pub part_chunk : (a : ℕ) → has a part ≡ true → b.mem.next_chunk a ≡ 0
  pub fresh : (a : ℕ) → has a ahead ≡ true → (a ≢ 0) × (b.mem.next a ≡ 0) × (b.mem.next_chunk a ≡ 0)
  pub ahead_distinct : Distinct ahead
  pub part_distinct : Distinct part
  pub flat_distinct : Distinct (flat cs)
  pub ahead_part : Apart ahead part
  pub ahead_flat : Apart ahead (flat cs)
  pub part_flat : Apart part (flat cs)

pub Distinct-append :
    (xs ys : List ℕ) → Distinct xs → Distinct ys → Apart xs ys → Distinct (xs ++ ys)
Distinct-append [] ys dx dy ap = dy
Distinct-append (x ∷ xs) ys dx dy apart = (
  rw (has-append x xs ys) (ground (arith, dx, apart x)),
  Distinct-append xs ys dx.1 dy (λ a h. apart a (ground (arith, h))),
)

set_link-fresh : (next : Links) (a : ℕ) → next a ≡ 0 → set_link next a 0 ≡ next
set_link-fresh next a h = fun_ext (λ c. elim (ℕ_discrete c a) [
  | yes e ↦ rw (eq→== c a e, e, h) refl
  | no ne ↦ rw (ne→== c a ne) refl
])

true-false : true ≡ false → ⊥
true-false h = ground arith

has-later : (a x : ℕ) (xs : List ℕ) → has a xs ≡ true → has a (x ∷ xs) ≡ true
has-later a x xs h = ground (arith, h)

only-has : (a x : ℕ) → has a (x ∷ []) ≡ true → a ≡ x
only-has a x h = ground (arith, h)

last-listed : (y : ℕ) (ys : List ℕ) → has (last_of y ys) (y ∷ ys) ≡ true
last-listed y ys =
    subst (λ l. has (last_of y ys) (y ∷ l) ≡ true) (append-nil ys) (has-last_of y ys [])

Chain-some :
    (next : Links) (p : ℕ) (xs : List ℕ) (a : ℕ) → Chain next p xs → has a xs ≡ true → a ≢ 0
Chain-some next p [] a c h = absurd (ground (arith, h))
Chain-some next p (x ∷ xs) a c h = elim (Bool-cases (a == x)) [
  | inl same ↦ λ e. c.1 (sym (==→eq a x same) ∙ e)
  | inr other ↦ Chain-some next (next x) xs a c.2 (rw other at h)
]

tail_of-snoc : (xs : List ℕ) (x : ℕ) → tail_of (xs ++ x ∷ []) ≡ x
tail_of-snoc [] x = refl
tail_of-snoc (y ∷ []) x = refl
tail_of-snoc (y ∷ z ∷ xs) x = tail_of-snoc (z ∷ xs) x

apart-snoc :
    (a x : ℕ) (xs ahead : List ℕ)
    → ((c : ℕ) → has c ahead ≡ true → has c xs ≡ false)
    → has x ahead ≡ false
    → has a ahead ≡ true
    → has a (xs ++ x ∷ []) ≡ false
apart-snoc a x xs ahead apart out m =
    let ne : a ≢ x = λ e. true-false (sym m ∙ (ap (λ c. has c ahead) e ∙ out)) in
    rw (has-append a xs (x ∷ []), apart a m, ne→== a x ne) refl

-- One element more in the chunk begun.
pub link_elem-Threading :
    (k base : ℕ) (b : Building) (cs : List (List ℕ)) (part : List ℕ) (x : ℕ) (ahead : List ℕ)
    → Threading k base b cs part (x ∷ ahead)
    → Threading k base (record (link_elem b x) { prev = x }) cs (part ++ x ∷ []) ahead
link_elem-Threading k base b cs [] x ahead t =
    let (some_x, next_x, chunk_x) = t.fresh x (ground arith) in
    rw (eq→== b.prev 0 t.part_tail) (record {
      size = t.size;
      at = t.at;
      chunk_chains = t.chunk_chains;
      part_chain = (refl, some_x, next_x);
      part_tail = refl;
      counted = omega (arith, t.counted);
      part_chunk = λ a m. rw (only-has a x m) chunk_x;
      fresh = λ a m. t.fresh a (has-later a x ahead m);
      ahead_distinct = t.ahead_distinct.1;
      part_distinct = (refl, tt);
      flat_distinct = t.flat_distinct;
      ahead_part = λ a m. apart-snoc a x [] ahead (λ c n. refl) t.ahead_distinct.0 m;
      ahead_flat = λ a m. t.ahead_flat a (has-later a x ahead m);
      part_flat = λ a m. rw (only-has a x m) (t.ahead_flat x (ground arith));
    })
link_elem-Threading k base b cs (y ∷ ys) x ahead t =
    let (some_x, next_x, chunk_x) = t.fresh x (ground arith) in
    let prev = last_of y ys in
    let listed : has prev (y ∷ ys) ≡ true = last-listed y ys in
    let some_prev = Chain-some b.mem.next b.head (y ∷ ys) prev t.part_chain listed in
    rw (ne→== b.prev 0 (λ e. some_prev (sym t.part_tail ∙ e)), t.part_tail)
      (record {
        size = t.size;
        at = t.at;
        chunk_chains =
            Chunks-set_link b.mem prev x b.store.chunk_head cs (t.part_flat prev listed)
              t.chunk_chains;
        part_chain =
            subst (λ l. Chain (set_link l prev x) b.head ((y ∷ ys) ++ x ∷ []))
              (set_link-fresh b.mem.next x next_x)
              (Chain-snoc b.mem.next prev x b.head ys y (IsLast-last_of y ys) t.part_distinct
                (t.ahead_part x (ground arith)) some_x t.part_chain);
        part_tail = sym (tail_of-snoc (y ∷ ys) x);
        counted = rw (length-append (y ∷ ys) (x ∷ [])) (omega (arith, t.counted));
        part_chunk = λ a m. ground (arith, has-append a (y ∷ ys) (x ∷ []), t.part_chunk a, chunk_x);
        fresh = λ a m.
            let (some_a, next_a, chunk_a) = t.fresh a (has-later a x ahead m) in
            let ne : a ≢ prev = λ e. true-false (
              sym listed
              ∙ (ap (λ c. has c (y ∷ ys)) (sym e) ∙ t.ahead_part a (has-later a x ahead m))) in
            (some_a, rw (ne→== a prev ne) next_a, chunk_a);
        ahead_distinct = t.ahead_distinct.1;
        part_distinct = Distinct-snoc x (y ∷ ys) t.part_distinct (t.ahead_part x (ground arith));
        flat_distinct = t.flat_distinct;
        ahead_part = λ a m.
            apart-snoc a x (y ∷ ys) ahead (λ c n. t.ahead_part c (has-later c x ahead n))
              t.ahead_distinct.0 m;
        ahead_flat = λ a m. t.ahead_flat a (has-later a x ahead m);
        part_flat =
            λ a m. ground (arith, has-append a (y ∷ ys) (x ∷ []), t.part_flat a, t.ahead_flat x);
      })

-- The chunk begun goes to the datastore.
pub close_chunk-Threading :
    (k base : ℕ) (b : Building) (cs : List (List ℕ)) (y : ℕ) (ys ahead : List ℕ)
    → Threading k base b cs (y ∷ ys) ahead
    → Threading k base (close_chunk b) ((y ∷ ys) ∷ cs) [] ahead
close_chunk-Threading k base b cs y ys ahead t =
    let some_head : b.head ≢ 0 = λ e. t.part_chain.1 (sym t.part_chain.0 ∙ e) in
    let listed : has b.head (y ∷ ys) ≡ true = rw t.part_chain.0 (ground arith) in
    let flat_apart : Apart ahead ((y ∷ ys) ++ flat cs) =
      λ a m. rw (has-append a (y ∷ ys) (flat cs), t.ahead_part a m, t.ahead_flat a m) refl in
    elim (Bool-cases (b.store.chunk_head == 0)) [
      | inl first ↦ rw first (record {
        size = t.size;
        at = t.at;
        chunk_chains = (
          some_head,
          t.part_chain,
          subst (λ p. Chunks b.mem p cs)
              (==→eq b.store.chunk_head 0 first ∙ sym (t.part_chunk b.head listed)) t.chunk_chains,
        );
        part_chain = refl;
        part_tail = refl;
        counted = refl;
        part_chunk = λ a m. absurd (ground (arith, m));
        fresh = t.fresh;
        ahead_distinct = t.ahead_distinct;
        part_distinct = tt;
        flat_distinct =
            Distinct-append (y ∷ ys) (flat cs) t.part_distinct t.flat_distinct t.part_flat;
        ahead_part = λ a m. refl;
        ahead_flat = flat_apart;
        part_flat = λ a m. absurd (ground (arith, m));
      })
      | inr further ↦ rw further (record {
        size = t.size;
        at = t.at;
        chunk_chains = (
          some_head,
          t.part_chain,
          rw (eq→== b.head b.head refl) (
              Chunks-set_chunk b.mem b.head b.store.chunk_head b.store.chunk_head cs
                (t.part_flat b.head listed) t.chunk_chains),
        );
        part_chain = refl;
        part_tail = refl;
        counted = refl;
        part_chunk = λ a m. absurd (ground (arith, m));
        fresh = λ a m.
            let (some_a, next_a, chunk_a) = t.fresh a m in
            let ne : a ≢ b.head = λ e.
              true-false (sym listed ∙ (ap (λ c. has c (y ∷ ys)) (sym e) ∙ t.ahead_part a m)) in
            (some_a, next_a, rw (ne→== a b.head ne) chunk_a);
        ahead_distinct = t.ahead_distinct;
        part_distinct = tt;
        flat_distinct =
            Distinct-append (y ∷ ys) (flat cs) t.part_distinct t.flat_distinct t.part_flat;
        ahead_part = λ a m. refl;
        ahead_flat = flat_apart;
        part_flat = λ a m. absurd (ground (arith, m));
      })
    ]
