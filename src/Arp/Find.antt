-- ===== src/Arp/Find.antt =====
-- Looking up entries in the table of net/arp.c after writes to it, and conditions on results.
use kns.Common.{
  ℕ, ◌%◌, ◌≡◌, ◌≢◌, refl, sym, ◌∙◌, subst, Bool, true, false, Option, none, some, List, [], ◌∷◌,
  arith, ◌⊎◌, inl, inr, ℕ_discrete,
}
use kns.Common.Tests.{◌==◌, if◌then◌else◌, eq→==, ne→==, ==→eq, Bool-cases}
use kns.Arp.Table.{Entry, lookup_in, put}
use kns.Arp.State.{Out, returns, waits, faults, ◌>>=◌, Net}
use kns.Arp.{arp_ip_to_idx, arp_find, put_entry, add_entry, arp_lookup}

pub some-inj : {A : Type 0} {x y : A} → some x ≡ some y → x ≡ y
some-inj h = cc

pub none-some : {A : Type 0} {x : A} → none ≡ some x → ⊥
none-some h = ground arith

pub true-false : true ≡ false → ⊥
true-false h = ground arith

-- The entry found for an address is an entry of that address.
pub lookup_in-addr :
    (addr : ℕ) (es : List Entry) (e : Entry) → lookup_in addr es ≡ some e → e.addr ≡ addr
lookup_in-addr addr [] e h = ground arith
lookup_in-addr addr (x ∷ es) e h = elim (Bool-cases (x.addr == addr)) [
  | inl same ↦ subst (λ y. y.addr ≡ addr) (some-inj (rw same at h)) (==→eq x.addr addr same)
  | inr other ↦ lookup_in-addr addr es e (rw other at h)
]

pub lookup_in-put_same :
    (e x : Entry) (es : List Entry)
    → lookup_in e.addr es ≡ some x
    → lookup_in e.addr (put e es) ≡ some e
lookup_in-put_same e x [] h = ground arith
lookup_in-put_same e x (y ∷ es) h = elim (Bool-cases (y.addr == e.addr)) [
  | inl same ↦ rw (same, eq→== e.addr e.addr refl) refl
  | inr other ↦ rw (other) (rw (other) (lookup_in-put_same e x es (rw other at h)))
]

pub lookup_in-put_other :
    (e : Entry) (b : ℕ) (es : List Entry) → b ≢ e.addr → lookup_in b (put e es) ≡ lookup_in b es
lookup_in-put_other e b [] ne = refl
lookup_in-put_other e b (y ∷ es) ne = elim (Bool-cases (y.addr == e.addr)) [
  | inl same ↦
      rw
        (
          same,
          ne→== e.addr b (λ q. ne (sym q)),
          ne→== y.addr b (λ q. ne (sym q ∙ ==→eq y.addr e.addr same)),
        )
        refl
  | inr other ↦ rw other (ground (arith, lookup_in-put_other e b es ne))
]

-- A condition on what a call returns, if it returns.
abbrev pub Always : {A : Type 0} → (A → Type 0) → Out A → Type 0
Always P (returns a) = P a
Always P waits = Unit
Always P faults = Unit

pub Always-bind :
    {A B : Type 0} (P : A → Type 0) (Q : B → Type 0) (m : Out A) (f : A → Out B)
    → Always P m
    → ((a : A) → P a → Always Q (f a))
    → Always Q (m >>= f)
Always-bind P Q (returns a) f h k = k a h
Always-bind P Q waits f h k = tt
Always-bind P Q faults f h k = tt

pub if-Always :
    {A : Type 0} (P : A → Type 0) (b : Bool) (x y : Out A)
    → Always P x
    → Always P y
    → Always P (if b then x else y)
if-Always P true x y hx hy = hx
if-Always P false x y hx hy = hy

pub Option-cases : {A : Type 0} (o : Option A) → (o ≡ none) ⊎ ((a : A) × (o ≡ some a))
Option-cases none = inl refl
Option-cases (some a) = inr (a, refl)

module _ (hash : ℕ → ℕ) where
  pub find-put_same :
      (n : Net) (e x : Entry)
      → arp_find hash n e.addr ≡ some x
      → arp_find hash (put_entry hash n e) e.addr ≡ some e
  find-put_same n e x h =
      rw (eq→== (hash e.addr % 65536) (hash e.addr % 65536) refl)
        (lookup_in-put_same e x (n.tbl (arp_ip_to_idx hash e.addr)) h)

  pub find-put_other :
      (n : Net) (e : Entry) (b : ℕ)
      → b ≢ e.addr
      → arp_find hash (put_entry hash n e) b ≡ arp_find hash n b
  find-put_other n e b ne = elim (ℕ_discrete (hash b % 65536) (hash e.addr % 65536)) [
    | yes q ↦
        rw (eq→== (hash b % 65536) (hash e.addr % 65536) q, q)
          (lookup_in-put_other e b (n.tbl (arp_ip_to_idx hash e.addr)) ne)
    | no q ↦ rw (ne→== (hash b % 65536) (hash e.addr % 65536) q) refl
  ]

  pub find-add_same : (n : Net) (e : Entry) → arp_find hash (add_entry hash n e) e.addr ≡ some e
  find-add_same n e =
      rw (eq→== (hash e.addr % 65536) (hash e.addr % 65536) refl, eq→== e.addr e.addr refl) refl

  pub find-add_other :
      (n : Net) (e : Entry) (b : ℕ)
      → b ≢ e.addr
      → arp_find hash (add_entry hash n e) b ≡ arp_find hash n b
  find-add_other n e b ne = elim (ℕ_discrete (hash b % 65536) (hash e.addr % 65536)) [
    | yes q ↦
        rw (eq→== (hash b % 65536) (hash e.addr % 65536) q, ne→== e.addr b (λ r. ne (sym r)), q)
          refl
    | no q ↦ rw (ne→== (hash b % 65536) (hash e.addr % 65536) q) refl
  ]

  pub find-addr : (n : Net) (addr : ℕ) (e : Entry) → arp_find hash n addr ≡ some e → e.addr ≡ addr
  find-addr n addr e h = lookup_in-addr addr (n.tbl (arp_ip_to_idx hash addr)) e h

  pub known-lookup :
      (n : Net) (addr : ℕ) (create : Bool) (e : Entry)
      → arp_find hash n addr ≡ some e
      → arp_lookup hash n addr create ≡ returns (some e, n)
  unfolding arp_lookup
  known-lookup n addr create e h = rw (h, arp_lookup) refl
