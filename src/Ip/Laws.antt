-- ===== src/Ip/Laws.antt =====
-- Which packets net/ip.c lets in, and where the packets it sends go.
use Prim.Native.Nat.{bit_and}
use kns.Common.{
  ℕ, ◌+◌, ◌-◌, ◌≤◌, ◌≡◌, refl, sym, subst, Bool, true, false, none, some, [], ◌∷◌, ◌++◌, arith, inl,
  inr,
}
use kns.Common.Tests.{eq→==, ne→==, le→ltb}
use kns.Common.Errno.{eagain, enomem}
use kns.Flow.World.{update}
use kns.Arp.Table.{Pending, Entry}
use kns.Common.Lists.{filter}
use kns.Common.{not}
use kns.Arp.State.{Net, Cfg, ip_frame, returns}
use kns.Arp.{arp_lookup_mac, arp_add_pending_pkt, arp_find, put_entry, arp_update_mac}
use kns.Arp.Find.{known-lookup, find-put_same, find-addr}
use kns.Arp.Laws.{arp_update_mac-arp_lookup_mac}
use kns.Ip.{
  IpPacket, Verdict, to_tcp, to_udp, to_icmp, to_arp, dropped, ip_input, eth_input, next_hop,
  sent_to, ip_send_one,
}

-- A payload that a handler may read, of a whole IPv4 packet.
abbrev pub IsSound : IpPacket → ℕ → ℕ → Type 0
IsSound p payload len =
    (34 ≤ payload)
    × (payload + len ≤ p.len)
    × (payload + len ≡ 14 + p.total)
    × (p.version ≡ 4)
    × (bit_and p.off 0x3fff ≡ 0)

abbrev pub Checked : IpPacket → Verdict → Type 0
Checked p (to_tcp payload len) = IsSound p payload len × (p.proto ≡ 6) × (p.ethtype ≡ 0x0800)
Checked p (to_udp payload len) = IsSound p payload len × (p.proto ≡ 17) × (p.ethtype ≡ 0x0800)
Checked p (to_icmp payload len) = IsSound p payload len × (p.proto ≡ 1) × (p.ethtype ≡ 0x0800)
Checked p to_arp = p.ethtype ≡ 0x0806
Checked p dropped = Unit

-- Whatever arrives, a packet that reaches the handler of TCP, UDP or ICMP is a whole IPv4 packet and
-- no fragment; its payload starts behind a header of 20 bytes at least, ends where the length in the
-- header says, and lies within the data received.
pub eth_input-Checked : (p : IpPacket) → Checked p (eth_input p)
unfolding eth_input ip_input
eth_input-Checked p = ground arith

module _ (hash : ℕ → ℕ) where
  lookup_mac-unresolved :
      (n : Net) (a : ℕ) (e : Entry)
      → arp_find hash n a ≡ some e
      → e.valid ≡ false
      → e.timer ≡ false
      → arp_lookup_mac hash n a ≡ returns (inl eagain, n)
  unfolding arp_lookup_mac
  lookup_mac-unresolved n a e found invalid idle =
      rw (known-lookup hash n a true e found, invalid, idle) refl

  lookup_mac-valid :
      (n : Net) (a : ℕ) (e : Entry)
      → arp_find hash n a ≡ some e
      → e.valid ≡ true
      → arp_lookup_mac hash n a ≡ returns (inr e.mac, n)
  unfolding arp_lookup_mac
  lookup_mac-valid n a e found valid = rw (known-lookup hash n a true e found, valid) refl

  abbrev with_frame : Net → (dev_idx mbuf mac : ℕ) → Net
  with_frame n dev_idx mbuf mac = record n {
    cap = update (n.cap) dev_idx (n.cap dev_idx - 1);
    sent = update (n.sent) dev_idx (n.sent dev_idx ++ ip_frame mbuf mac ∷ []);
  }

  sent_to-room :
      (cpu dev_idx fg hop mbuf len mac : ℕ) (n : Net)
      → 1 ≤ n.cap dev_idx
      → sent_to hash cpu dev_idx fg hop mbuf len (inr mac, n)
        ≡ returns (none, with_frame n dev_idx mbuf mac)
  sent_to-room cpu dev_idx fg hop mbuf len mac n room =
      rw (le→ltb (n.cap dev_idx) 1 room, sent_to) refl

  -- An IP packet whose next hop is resolved goes, with the hop's MAC address, to the end of the
  -- transmit queue of its flow group's device and takes one descriptor; the call answers 0.
  pub ip_send_one-sent :
      (cfg : Cfg) (cpu dev_idx : ℕ) (n : Net) (fg dst_addr mbuf len : ℕ) (e : Entry)
      → arp_find hash n (next_hop cfg dst_addr) ≡ some e
      → e.valid ≡ true
      → 1 ≤ n.cap dev_idx
      → (n' : Net) × (ip_send_one hash cfg cpu dev_idx n fg dst_addr mbuf len ≡ returns (none, n'))
        × (n'.sent dev_idx ≡ n.sent dev_idx ++ ip_frame mbuf e.mac ∷ [])
        × (n'.cap dev_idx + 1 ≡ n.cap dev_idx)
        × (n'.tbl ≡ n.tbl)
  unfolding ip_send_one
  ip_send_one-sent cfg cpu dev_idx n fg dst_addr mbuf len e found valid room = (
    with_frame n dev_idx mbuf (e.mac),
    rw (lookup_mac-valid n (next_hop cfg dst_addr) e found valid)
        (sent_to-room cpu dev_idx fg (next_hop cfg dst_addr) mbuf len e.mac n room),
    rw (eq→== dev_idx dev_idx refl) refl,
    rw (eq→== dev_idx dev_idx refl) (omega arith),
    refl,
  )

  -- The packet that waits for its next hop.
  abbrev pub waiting : (cpu fg hop mbuf len : ℕ) → Pending
  waiting cpu fg hop mbuf len = record {
    dst_addr = hop;
    fg = fg;
    mbuf = mbuf;
    len = len;
    cpu = cpu;
    dispatched = false;
  }

  add_pending-room :
      (cpu : ℕ) (n : Net) (hop fg mbuf len : ℕ) (e : Entry)
      → arp_find hash n hop ≡ some e
      → 1 ≤ n.pendings
      → arp_add_pending_pkt hash cpu n hop fg mbuf len
        ≡ returns (
          none,
          record (put_entry hash n
              (record e { pending = waiting cpu fg hop mbuf len ∷ e.pending })) {
                pendings = n.pendings - 1;
              },
        )
  unfolding arp_add_pending_pkt
  add_pending-room cpu n hop fg mbuf len e found room =
      rw (known-lookup hash n hop false e found, ne→== n.pendings 0 (omega arith)) refl

  add_pending-full :
      (cpu : ℕ) (n : Net) (hop fg mbuf len : ℕ) (e : Entry)
      → arp_find hash n hop ≡ some e
      → n.pendings ≡ 0
      → arp_add_pending_pkt hash cpu n hop fg mbuf len ≡ returns (some enomem, n)
  unfolding arp_add_pending_pkt
  add_pending-full cpu n hop fg mbuf len e found full =
      rw (known-lookup hash n hop false e found, eq→== n.pendings 0 full) refl

  -- An IP packet whose next hop has an entry, neither resolved nor static and with no timer running,
  -- waits, if the pool of pending packets has room, and the call answers 0; as soon as ARP learns the hop's MAC address, the packet is posted
  -- to its CPU, before the packets that waited already.
  pub ip_send_one-posted :
      (cfg : Cfg) (cpu dev_idx : ℕ) (n : Net) (fg dst_addr mbuf len mac : ℕ) (create : Bool)
      (e : Entry)
      → arp_find hash n (next_hop cfg dst_addr) ≡ some e
      → e.valid ≡ false
      → e.timer ≡ false
      → e.static ≡ false
      → 1 ≤ n.pendings
      → (n' : Net) × (n'' : Net) × (ip_send_one hash cfg cpu dev_idx n fg dst_addr mbuf len
          ≡ returns (none, n'))
        × (arp_update_mac hash n' (next_hop cfg dst_addr) mac create ≡ returns (none, n''))
        × (n''.posted
            ≡ n.posted
              ++ waiting cpu fg (next_hop cfg dst_addr) mbuf len
                ∷ filter (λ p. not p.dispatched) e.pending)
  unfolding ip_send_one
  ip_send_one-posted cfg cpu dev_idx n fg dst_addr mbuf len mac create e found invalid idle dynamic
        room =
      let hop = next_hop cfg dst_addr in
      let e' : Entry = record e { pending = waiting cpu fg hop mbuf len ∷ e.pending } in
      let n' : Net = record (put_entry hash n e') { pendings = n.pendings - 1 } in
      let same : e.addr ≡ hop = find-addr hash n hop e found in
      let kept : arp_find hash n' hop ≡ some e' =
        subst (λ a. arp_find hash (put_entry hash n e') a ≡ some e') same
          (find-put_same hash n e' e (subst (λ a. arp_find hash n a ≡ some e) (sym same) found)) in
      let (n'', updated, answers, posted, others) =
        arp_update_mac-arp_lookup_mac hash n' hop mac create e' kept dynamic in
      (
        n',
        n'',
        rw
            (
              lookup_mac-unresolved n hop e found invalid idle,
              add_pending-room cpu n hop fg mbuf len e found room,
            )
            refl,
        updated,
        posted,
      )

  -- When the pool of pending packets is empty, a packet whose next hop has an entry, not resolved and
  -- with no timer running, is lost from view: the call answers 0 and changes nothing, so the packet is neither sent nor waiting nor
  -- freed.
  pub ip_send_one-leaks :
      (cfg : Cfg) (cpu dev_idx : ℕ) (n : Net) (fg dst_addr mbuf len : ℕ) (e : Entry)
      → arp_find hash n (next_hop cfg dst_addr) ≡ some e
      → e.valid ≡ false
      → e.timer ≡ false
      → n.pendings ≡ 0
      → ip_send_one hash cfg cpu dev_idx n fg dst_addr mbuf len ≡ returns (none, n)
  unfolding ip_send_one
  ip_send_one-leaks cfg cpu dev_idx n fg dst_addr mbuf len e found invalid idle full =
      let hop = next_hop cfg dst_addr in
      rw
        (
          lookup_mac-unresolved n hop e found invalid idle,
          add_pending-full cpu n hop fg mbuf len e found full,
        )
        refl
