-- ===== src/Arp/Silent.antt =====
-- What `arp_lookup_mac` of net/arp.c leaves of the transmit queues, where no timer is armed.
use kns.Common.{
  ℕ, ◌≡◌, refl, ap, sym, ◌∙◌, subst, true, false, Option, none, some, ◌⊎◌, arith, inl, inr,
}
use kns.Common.Tests.{◌==◌, Bool-cases}
use kns.Common.Errno.{Errno}
use kns.Arp.Table.{Entry}
use kns.Arp.State.{returns, waits, Net}
use kns.Arp.{arp_find, arp_lookup, arp_lookup_mac, mac_found}
use kns.Arp.Find.{Always, Always-bind, if-Always, Option-cases}
use kns.Arp.Calm.{Quiet, timer_of, find-Calm}

-- The transmit queues and the buffers of `n'` are those of `n`.
pub record Unsent (n n' : Net) : Type 0 where
  pub sent : n'.sent ≡ n.sent
  pub cap : n'.cap ≡ n.cap
  pub mbufs : n'.mbufs ≡ n.mbufs

same : (n : Net) → Unsent n n
same n = record { sent = refl; cap = refl; mbufs = refl }

module _ (hash : ℕ → ℕ) (n : Net) where
  abbrev Still : Option Entry × Net → Type 0
  Still (found, n') = Unsent n n' × ((x : Entry) → found ≡ some x → x.timer ≡ false)

  arp_lookup-Still : (a : ℕ) → Quiet n → Always Still (arp_lookup hash n a true)
  unfolding arp_lookup
  arp_lookup-Still a h = elim (Option-cases (arp_find hash n a)) [
    | inl missing ↦
        rw (missing, arp_lookup)
          (if-Always Still (n.arp_lock) waits _ tt (
            if-Always Still (n.entries == 0) (returns (none, record n { arp_lock = true })) _
              (record { sent = refl; cap = refl; mbufs = refl }, λ x q. ground arith)
              (
                record { sent = refl; cap = refl; mbufs = refl },
                λ x q. ap (λ o. timer_of o) (sym q),
              )))
    | inr there ↦
        let (x, found) = there in
        rw (found, arp_lookup) (same n, λ y q. find-Calm hash n a y h (found ∙ q))
  ]

  mac_found-Unsent :
      (n' : Net) (a : ℕ) (found : Option Entry)
      → Still (found, n')
      → Unsent n (mac_found hash a found n').1
  mac_found-Unsent n' a none h = h.0
  mac_found-Unsent n' a (some e) h = elim (Bool-cases (e.valid)) [
    | inl valid ↦ rw valid h.0
    | inr unknown ↦ rw (unknown, h.1 e refl) h.0
  ]

  pub arp_lookup_mac-Unsent :
      (a : ℕ) (found : Errno ⊎ ℕ) (n' : Net)
      → Quiet n
      → arp_lookup_mac hash n a ≡ returns (found, n')
      → Unsent n n'
  unfolding arp_lookup_mac
  arp_lookup_mac-Unsent a found n' h e = subst (Always (λ r. Unsent n r.1)) e (
      Always-bind Still (λ r. Unsent n r.1) (arp_lookup hash n a true)
        (λ (found, n'). returns (mac_found hash a found n')) (arp_lookup-Still a h)
        (λ (found, n') f. mac_found-Unsent n' a found f))
