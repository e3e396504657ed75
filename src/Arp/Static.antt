-- ===== src/Arp/Static.antt =====
-- Static entries of net/arp.c are not changed from outside.
use kns.Common.{
  ℕ, ◌%◌, ◌≡◌, ◌≢◌, refl, sym, ap, ◌∙◌, Bool, true, false, not, ◌&&◌, ◌||◌, Option, none, some,
  ◌++◌, inl, inr,
}
use kns.Common.Tests.{ltb, leb, ◌==◌, if◌then◌else◌, Bool-cases}
use kns.Common.Errno.{Errno}
use kns.Arp.Table.{Entry, lookup_in, to_post}
use kns.Arp.State.{Out, returns, Net, Cfg, ArpPacket, new_entry, arp_op_request}
use kns.Arp.{
  arp_ip_to_idx, arp_find, put_entry, add_entry, resolved, update_found, arp_lookup, arp_update_mac,
  arp_input, arp_send_response_reuse, drop_pkt,
}
use kns.Arp.Find.{
  some-inj, none-some, true-false, Always, Always-bind, if-Always, Option-cases, Option-cases,
  find-put_other, find-add_same, find-add_other, find-addr,
}

module _ (hash : ℕ → ℕ) where
  -- What `arp_lookup` leaves of what was known, and what it says of the entry it returns.
  abbrev Looked : Net → ℕ → Option Entry × Net → Type 0
  Looked n a (found, n') =
      ((b : ℕ) (y : Entry) → arp_find hash n b ≡ some y → arp_find hash n' b ≡ some y)
      × ((x : Entry) → found ≡ some x → arp_find hash n' a ≡ some x)

  create-Looked :
      (n : Net) (a : ℕ)
      → arp_find hash n a ≡ none
      → Looked n a (some (new_entry a), add_entry hash n (new_entry a))
  create-Looked n a missing = (
    λ b y k.
        find-add_other hash n (new_entry a) b
          (λ q. none-some (sym missing ∙ (ap (arp_find hash n) (sym q) ∙ k)))
        ∙ k,
    λ x q. find-add_same hash n (new_entry a) ∙ q,
  )

  arp_lookup-Looked :
      (n : Net) (a : ℕ) (create : Bool) → Always (Looked n a) (arp_lookup hash n a create)
  unfolding arp_lookup
  arp_lookup-Looked n a create = elim (Option-cases (arp_find hash n a)) [
    | inl missing ↦ elim (Bool-cases create) [
      | inr keep ↦ rw (missing, keep, arp_lookup) ((λ b y k. k), λ x q. absurd (none-some q))
      | inl make ↦ elim (Bool-cases (n.arp_lock)) [
        | inl locked ↦ rw (missing, make, locked, arp_lookup) tt
        | inr free ↦ elim (Bool-cases (n.entries == 0)) [
          | inl used ↦
              rw (missing, make, free, used, arp_lookup) ((λ b y k. k), λ x q. absurd (none-some q))
          | inr room ↦ rw (missing, make, free, room, arp_lookup) (create-Looked n a missing)
        ]
      ]
    ]
    | inr there ↦ let (x, h) = there in rw (h, arp_lookup) ((λ b y k. k), λ z q. h ∙ q)
  ]

  -- The entry of `addr` is there and static, and unchanged.
  abbrev pub Fixed : ℕ → Entry → Net → Type 0
  Fixed addr e n = (arp_find hash n addr ≡ some e) × (e.static ≡ true)

  put-Fixed :
      (n n' : Net) (addr a : ℕ) (e x : Entry)
      → Fixed addr e n
      → arp_find hash n a ≡ some x
      → x.static ≡ false
      → (x' : Entry) → x'.addr ≡ a
      → n'.tbl ≡ (put_entry hash n x').tbl
      → Fixed addr e n'
  put-Fixed n n' addr a e x fixed found dynamic x' same tbl =
      let ne : addr ≢ x'.addr = λ q. true-false (
        sym fixed.1
        ∙ (ap (λ z. z.static) (some-inj (sym fixed.0 ∙ (ap (arp_find hash n) (q ∙ same) ∙ found)))
            ∙ dynamic)) in
      (
        ap (λ t. lookup_in addr (t (arp_ip_to_idx hash addr))) tbl
            ∙ (find-put_other hash n x' addr ne ∙ fixed.0),
        fixed.1,
      )

  update_found-Fixed :
      (n : Net) (addr a mac : ℕ) (e : Entry) (found : Option Entry)
      → Fixed addr e n
      → ((x : Entry) → found ≡ some x → arp_find hash n a ≡ some x)
      → Fixed addr e (update_found hash mac found n).1
  update_found-Fixed n addr a mac e none fixed says = fixed
  update_found-Fixed n addr a mac e (some x) fixed says = elim (Bool-cases (x.static)) [
    | inl static ↦ rw static fixed
    | inr dynamic ↦ rw dynamic (
        put-Fixed n
          (record (put_entry hash n (resolved hash mac x)) {
            posted = n.posted ++ to_post (x.pending);
          })
          addr a e x fixed (says x refl) dynamic (resolved hash mac x)
          (find-addr hash n a x (says x refl)) refl)
  ]

  update-Fixed :
      (n : Net) (addr a mac : ℕ) (create : Bool) (e : Entry)
      → Fixed addr e n
      → Always (λ r. Fixed addr e r.1) (arp_update_mac hash n a mac create)
  unfolding arp_update_mac
  update-Fixed n addr a mac create e fixed =
      Always-bind (Looked n a) (λ r. Fixed addr e r.1) (arp_lookup hash n a create)
        (λ (found, n'). returns (update_found hash mac found n')) (arp_lookup-Looked n a create)
        (λ (found, n') looked.
          update_found-Fixed n' addr a mac e found (looked.0 addr e fixed.0, fixed.1) looked.1)

  reply-Fixed :
      (n : Net) (pkt target_ip target_mac addr : ℕ) (e : Entry) (answers : Bool)
      → Fixed addr e n
      → Always (Fixed addr e) (
          if answers
          then returns (arp_send_response_reuse hash n pkt target_ip target_mac).1
          else returns (drop_pkt hash n pkt))
  unfolding arp_send_response_reuse
  reply-Fixed n pkt target_ip target_mac addr e false fixed = fixed
  reply-Fixed n pkt target_ip target_mac addr e true fixed = elim (Bool-cases (ltb (n.cap 0) 1)) [
    | inl full ↦ rw (full, arp_send_response_reuse) fixed
    | inr room ↦ rw (room, arp_send_response_reuse) fixed
  ]

  -- No ARP packet that arrives, whatever it holds, changes what a static entry says.
  pub arp_input-Fixed :
      (cfg : Cfg) (n : Net) (pkt : ℕ) (hdr : ArpPacket) (addr : ℕ) (e : Entry)
      → Fixed addr e n
      → Always (Fixed addr e) (arp_input hash cfg n pkt hdr)
  unfolding arp_input
  arp_input-Fixed cfg n pkt hdr addr e fixed =
      let dropped = returns (drop_pkt hash n pkt) in
      let am_target = cfg.host_addr == hdr.target_ip in
      let updated = arp_update_mac hash n hdr.sender_ip hdr.sender_mac am_target in
      let answer : Option Errno × Net → Out Net = λ (ignored, n').
        if am_target && (hdr.op == arp_op_request)
        then returns (arp_send_response_reuse hash n' pkt hdr.sender_ip hdr.sender_mac).1
        else returns (drop_pkt hash n' pkt) in
      let last =
        Always-bind (λ r. Fixed addr e r.1) (Fixed addr e) updated answer
          (update-Fixed n addr hdr.sender_ip hdr.sender_mac am_target e fixed)
          (λ (ignored, n') kept.
            reply-Fixed n' pkt hdr.sender_ip hdr.sender_mac addr e
              (am_target && (hdr.op == arp_op_request)) kept) in
      if-Always (Fixed addr e) (not (leb 22 hdr.len)) dropped _ fixed (
        if-Always (Fixed addr e)
          (not (hdr.htype == 1)
            || not (hdr.ptype == 0x0800)
            || not (hdr.hlen == 6)
            || not (hdr.plen == 4))
          dropped _ fixed
          (if-Always (Fixed addr e) (not (leb 42 hdr.len)) dropped _ fixed
            (if-Always (Fixed addr e) (hdr.sender_mac % 2 == 1) dropped _ fixed last)))
