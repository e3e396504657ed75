-- ===== src/Arp.antt =====
-- Address resolution: net/arp.c. `hash` is the processor's CRC instruction behind
-- `hash_crc32c_one`. Addresses are numbers in host order; a MAC address has its first byte lowest.
pub mod Table
pub mod State
pub mod Find
pub mod Laws
pub mod Static
pub mod Calm
pub mod Quiet
pub mod Silent
mod Tests
use kns.Common.{
  ℕ, ◌+◌, ◌-◌, ◌%◌, Bool, true, false, not, ◌&&◌, ◌||◌, Option, none, some, List, [], ◌∷◌, ◌++◌,
  ◌⊎◌, inl, inr,
}
use kns.Common.Tests.{ltb, leb, ◌==◌, if◌then◌else◌}
use kns.Common.Errno.{Errno, enomem, eagain, enoent, eio}
use kns.Flow.World.{update}
use Table.{Pending, Entry, lookup_in, put, remove, to_post, dispatched_all}
use State.{
  Out, returns, waits, faults, ◌>>=◌, Frame, arp_frame, ip_frame, Net, ArpPacket, Cfg,
  arp_max_entries, arp_max_attempts, broadcast, arp_op_request, arp_op_reply, eth_send_one,
  new_entry,
}

module _ (hash : ℕ → ℕ) where
  abbrev pub arp_ip_to_idx : ℕ → ℕ
  arp_ip_to_idx addr = hash addr % arp_max_entries

  abbrev pub arp_find : Net → ℕ → Option Entry
  arp_find n addr = lookup_in addr (n.tbl (arp_ip_to_idx addr))

  -- The entry that `e` was read from, written.
  abbrev pub put_entry : Net → Entry → Net
  put_entry n e = record n {
    tbl = update (n.tbl) (arp_ip_to_idx (e.addr)) (put e (n.tbl (arp_ip_to_idx e.addr)));
  }

  abbrev pub add_entry : Net → Entry → Net
  add_entry n e = record n {
    tbl = update (n.tbl) (arp_ip_to_idx (e.addr)) (e ∷ n.tbl (arp_ip_to_idx e.addr));
    entries = n.entries - 1;
  }

  -- An element of the pool has no pending packets: fresh memory is zero, and an entry is given back
  -- without any. When the pool is empty the function returns with the lock held.
  unfoldable pub arp_lookup : Net → (addr : ℕ) → (create_okay : Bool) → Out (Option Entry × Net)
  arp_lookup n addr create_okay = elim (arp_find n addr) [
    | some e ↦ returns (some e, n)
    | none ↦
        if not create_okay
        then returns (none, n)
        else if n.arp_lock
        then waits
        else if n.entries == 0
        then returns (none, record n { arp_lock = true })
        else returns (some (new_entry addr), add_entry n (new_entry addr))
  ]

  -- An entry with a MAC address; its packets are posted.
  abbrev pub resolved : ℕ → Entry → Entry
  resolved mac e = record e {
    mac = mac;
    resolving = false;
    valid = true;
    static = false;
    retries = 0;
    pending = dispatched_all (e.pending);
  }

  abbrev pub update_found : (mac : ℕ) → Option Entry → Net → Option Errno × Net
  update_found mac none n = (some enomem, n)
  update_found mac (some e) n = if e.static then (none, n) else (
    none,
    record (put_entry n (resolved mac e)) { posted = n.posted ++ to_post (e.pending) },
  )

  -- `none` is the result 0. A timer that is armed stays so.
  unfoldable pub arp_update_mac :
      Net → (addr mac : ℕ) → (create_okay : Bool) → Out (Option Errno × Net)
  arp_update_mac n addr mac create_okay =
      arp_lookup n addr create_okay >>= λ (found, n'). returns (update_found mac found n')

  unfoldable pub arp_send_pkt : Net → (op target_ip target_mac : ℕ) → Option Errno × Net
  arp_send_pkt n op target_ip target_mac =
      if n.mbufs == 0
      then (some enomem, n)
      else elim (eth_send_one (record n { mbufs = n.mbufs - 1 }) 0
          (arp_frame op target_ip target_mac)) [ none ↦ (some eio, n) | some n' ↦ (none, n') ]

  unfoldable pub arp_send_response_reuse : Net → (pkt target_ip target_mac : ℕ) → Option Errno × Net
  arp_send_response_reuse n pkt target_ip target_mac =
      elim (eth_send_one n 0 (arp_frame arp_op_reply target_ip target_mac)) [
        | none ↦ (some eio, record n { freed = n.freed ++ pkt ∷ [] })
        | some n' ↦ (none, n')
      ]

  abbrev pub drop_pkt : Net → ℕ → Net
  drop_pkt n pkt = record n { freed = n.freed ++ pkt ∷ [] }

  unfoldable pub arp_input : Cfg → Net → (pkt : ℕ) → ArpPacket → Out Net
  arp_input cfg n pkt hdr =
      let am_target = cfg.host_addr == hdr.target_ip in
      if not (leb 22 hdr.len)
      then returns (drop_pkt n pkt)
      else if not (hdr.htype == 1)
          || not (hdr.ptype == 0x0800)
          || not (hdr.hlen == 6)
          || not (hdr.plen == 4)
      then returns (drop_pkt n pkt)
      else if not (leb 42 hdr.len)
      then returns (drop_pkt n pkt)
      else if hdr.sender_mac % 2 == 1
      then returns (drop_pkt n pkt)
      else arp_update_mac n hdr.sender_ip hdr.sender_mac am_target >>= λ (ignored, n').
          if am_target && (hdr.op == arp_op_request)
          then returns (arp_send_response_reuse n' pkt hdr.sender_ip hdr.sender_mac).1
          else returns (drop_pkt n' pkt)

  -- A request is sent only when the timer is armed already.
  abbrev pub mac_found : (addr : ℕ) → Option Entry → Net → (Errno ⊎ ℕ) × Net
  mac_found addr none n = (inl enoent, n)
  mac_found addr (some e) n =
      if not e.valid
      then if e.timer
        then (
          inl eagain,
          (arp_send_pkt (put_entry n (record e { resolving = true })) arp_op_request addr
              broadcast).1,
        )
        else (inl eagain, n)
      else (inr e.mac, n)

  -- The MAC address, or an error.
  unfoldable pub arp_lookup_mac : Net → (addr : ℕ) → Out ((Errno ⊎ ℕ) × Net)
  arp_lookup_mac n addr =
      arp_lookup n addr true >>= λ (found, n'). returns (mac_found addr found n')

  -- An entry that is there already gets the MAC address and no flag.
  abbrev pub insert_found : (addr mac : ℕ) → Option Entry → Net → Option Errno × Net
  insert_found addr mac (some e) n = (none, put_entry n (record e { mac = mac; timer = false }))
  insert_found addr mac none n =
      if n.entries == 0
      then (some enomem, n)
      else (none, add_entry n (record (new_entry addr) { mac = mac; valid = true; static = true }))

  unfoldable pub arp_insert : Net → (addr mac : ℕ) → Out (Option Errno × Net)
  arp_insert n addr mac =
      arp_lookup n addr false >>= λ (found, n'). returns (insert_found addr mac found n')

  abbrev pub pending_found : Pending → Option Entry → Net → Option Errno × Net
  pending_found pkt none n = (some enoent, n)
  pending_found pkt (some e) n = if n.pendings == 0 then (some enomem, n) else (
    none,
    record (put_entry n (record e { pending = pkt ∷ e.pending })) { pendings = n.pendings - 1 },
  )

  unfoldable pub arp_add_pending_pkt :
      (cpu : ℕ) → Net → (dst_addr fg mbuf len : ℕ) → Out (Option Errno × Net)
  arp_add_pending_pkt cpu n dst_addr fg mbuf len =
      let pkt : Pending = record {
        dst_addr = dst_addr;
        fg = fg;
        mbuf = mbuf;
        len = len;
        cpu = cpu;
        dispatched = false;
      } in
      arp_lookup n dst_addr false >>= λ (found, n'). returns (pending_found pkt found n')

  -- Giving up on an entry with packets pending: `hlist_for_each_safe` is called with its first two
  -- arguments exchanged, so the body works on the element behind the cursor, which behind the last
  -- is NULL, and behind any other is deleted and then followed.
  unfoldable pub arp_timer_handler : Net → Entry → Out Net
  arp_timer_handler n e =
      if leb arp_max_attempts (e.retries + 1)
      then elim (e.pending) [
        | [] ↦ returns (record n {
          tbl =
              update (n.tbl) (arp_ip_to_idx (e.addr))
                (remove (e.addr) (n.tbl (arp_ip_to_idx e.addr)));
          entries = n.entries + 1;
        })
        | p ∷ ps ↦ faults
      ]
      else returns
          (arp_send_pkt (put_entry n (record e { retries = e.retries + 1; resolving = true }))
            arp_op_request e.addr (if e.valid then e.mac else broadcast)).1
