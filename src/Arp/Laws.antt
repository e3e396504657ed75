-- ===== src/Arp/Laws.antt =====
-- What the operations of net/arp.c promise on the addresses they know.
use kns.Common.{ℕ, ◌≡◌, ◌≢◌, refl, sym, ◌∙◌, subst, Bool, true, false, none, some, ◌++◌, inr}
use kns.Arp.Table.{Pending, Entry, to_post}
use kns.Common.Lists.{filter}
use kns.Common.{not, List, [], ◌∷◌, arith, ap}
use kns.Arp.State.{returns, Net}
use kns.Arp.{arp_find, put_entry, resolved, arp_update_mac, arp_lookup_mac}
use kns.Arp.Find.{find-put_same, find-put_other, find-addr, known-lookup}

to_post-filter : (ps : List Pending) → to_post ps ≡ filter (λ p. not p.dispatched) ps
to_post-filter [] = refl
to_post-filter (p ∷ ps) = ground (arith, to_post-filter ps)

module _ (hash : ℕ → ℕ) where
  -- An address that is known, and not by a static entry, is updated: the next lookup answers the new
  -- MAC address, every packet that waited and was not yet posted is posted, in the order of the
  -- list, and what is known of other addresses stays.
  pub arp_update_mac-arp_lookup_mac :
      (n : Net) (addr mac : ℕ) (create : Bool) (e : Entry)
      → arp_find hash n addr ≡ some e
      → e.static ≡ false
      → (n' : Net) × (arp_update_mac hash n addr mac create ≡ returns (none, n'))
        × (arp_lookup_mac hash n' addr ≡ returns (inr mac, n'))
        × (n'.posted ≡ n.posted ++ filter (λ p. not p.dispatched) e.pending)
        × ((b : ℕ) → b ≢ addr → arp_find hash n' b ≡ arp_find hash n b)
  unfolding arp_update_mac arp_lookup_mac
  arp_update_mac-arp_lookup_mac n addr mac create e known dynamic =
      let e' = resolved hash mac e in
      let n' : Net = record (put_entry hash n e') { posted = n.posted ++ to_post (e.pending) } in
      let same : e.addr ≡ addr = find-addr hash n addr e known in
      let after : arp_find hash n' addr ≡ some e' =
        subst (λ a. arp_find hash (put_entry hash n e') a ≡ some e') same
          (find-put_same hash n e' e (subst (λ a. arp_find hash n a ≡ some e) (sym same) known)) in
      (
        n',
        rw (known-lookup hash n addr create e known, dynamic) refl,
        rw (known-lookup hash n' addr true e' after) refl,
        ap (λ l. n.posted ++ l) (to_post-filter e.pending),
        λ b ne. find-put_other hash n e' b (λ q. ne (q ∙ same)),
      )
