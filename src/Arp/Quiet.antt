-- ===== src/Arp/Quiet.antt =====
-- No call of net/arp.c ever asks the network for an address: a request is sent only for an entry
-- whose timer is armed, and a timer is armed only when it was.
use kns.Common.{
  ℕ, ◌-◌, ◌%◌, ◌≡◌, refl, sym, ap, ◌∙◌, subst, Bool, true, false, not, ◌&&◌, ◌||◌, Option, none,
  some, [], ◌∷◌, ◌++◌, arith, ◌⊎◌, inl, inr,
}
use kns.Common.Tests.{ltb, leb, ◌==◌, if◌then◌else◌, Bool-cases}
use kns.Common.Errno.{Errno, enomem, eagain}
use kns.Arp.Table.{Pending, Entry, to_post}
use kns.Arp.State.{
  Out, returns, waits, Net, Cfg, ArpPacket, arp_frame, new_entry, arp_op_request, arp_op_reply,
}
use kns.Arp.{
  arp_find, put_entry, add_entry, resolved, update_found, arp_lookup, arp_update_mac, arp_input,
  arp_lookup_mac, mac_found, insert_found, pending_found, arp_insert, arp_add_pending_pkt,
  arp_timer_handler, arp_send_response_reuse, drop_pkt,
}
use kns.Arp.Find.{Always, Always-bind, if-Always, Option-cases}
use kns.Arp.Calm.{
  Quiet, snoc-NoRequest, snoc-NoRequest, snoc-NoRequest, timer_of, timer_of, update-NoRequest,
  put_entry-Quiet, add_entry-Quiet, mixed-Quiet, find-Calm,
}

module _ (hash : ℕ → ℕ) where
  abbrev Found : Option Entry × Net → Type 0
  Found (found, n') = Quiet n' × ((x : Entry) → found ≡ some x → x.timer ≡ false)

  arp_lookup-Quiet :
      (n : Net) (a : ℕ) (create : Bool) → Quiet n → Always Found (arp_lookup hash n a create)
  unfolding arp_lookup
  arp_lookup-Quiet n a create h = elim (Option-cases (arp_find hash n a)) [
    | inl missing ↦
        rw (missing, arp_lookup)
          (if-Always Found (not create) (returns (none, n)) _ (h, λ x q. ground arith)
            (if-Always Found (n.arp_lock) waits _ tt (
              if-Always Found (n.entries == 0) (returns (none, record n { arp_lock = true })) _
                (mixed-Quiet hash n (record n { arp_lock = true }) h refl refl, λ x q. ground arith)
                (
                  add_entry-Quiet hash n (new_entry a) h refl,
                  λ x q. ap (λ o. timer_of o) (sym q),
                ))))
    | inr there ↦
        let (x, found) = there in
        rw (found, arp_lookup) (h, λ y q. find-Calm hash n a y h (found ∙ q))
  ]

  update_found-Quiet :
      (n : Net) (mac : ℕ) (found : Option Entry)
      → Found (found, n)
      → Quiet (update_found hash mac found n).1
  update_found-Quiet n mac none h = h.0
  update_found-Quiet n mac (some e) h = elim (Bool-cases (e.static)) [
    | inl static ↦ rw static h.0
    | inr dynamic ↦ rw dynamic (
        mixed-Quiet hash (put_entry hash n (resolved hash mac e))
          (record (put_entry hash n (resolved hash mac e)) {
            posted = n.posted ++ to_post (e.pending);
          })
          (put_entry-Quiet hash n (resolved hash mac e) h.0 (h.1 e refl)) refl refl)
  ]

  update-Quiet :
      (n : Net) (a mac : ℕ) (create : Bool)
      → Quiet n
      → Always (λ r. Quiet r.1) (arp_update_mac hash n a mac create)
  unfolding arp_update_mac
  update-Quiet n a mac create h =
      Always-bind Found (λ r. Quiet r.1) (arp_lookup hash n a create)
        (λ (found, n'). returns (update_found hash mac found n')) (arp_lookup-Quiet n a create h)
        (λ (found, n') f. update_found-Quiet n' mac found f)

  reply-Quiet :
      (n : Net) (pkt ip mac : ℕ) (answers : Bool)
      → Quiet n
      → Always Quiet (
          if answers
          then returns (arp_send_response_reuse hash n pkt ip mac).1
          else returns (drop_pkt hash n pkt))
  unfolding arp_send_response_reuse
  reply-Quiet n pkt ip mac false h = mixed-Quiet hash n (drop_pkt hash n pkt) h refl refl
  reply-Quiet n pkt ip mac true h = elim (Bool-cases (ltb (n.cap 0) 1)) [
    | inl full ↦
        rw (full, arp_send_response_reuse) (mixed-Quiet hash n (drop_pkt hash n pkt) h refl refl)
    | inr room ↦
        rw (room, arp_send_response_reuse)
          (record {
            calm = h.calm;
            no_request =
                update-NoRequest (n.sent) 0 (n.sent 0 ++ arp_frame arp_op_reply ip mac ∷ [])
                  h.no_request (snoc-NoRequest (n.sent 0) ip mac (h.no_request 0));
          })
  ]

  input-Quiet :
      (cfg : Cfg) (n : Net) (pkt : ℕ) (hdr : ArpPacket)
      → Quiet n
      → Always Quiet (arp_input hash cfg n pkt hdr)
  unfolding arp_input
  input-Quiet cfg n pkt hdr h =
      let dropped = returns (drop_pkt hash n pkt) in
      let kept : Quiet (drop_pkt hash n pkt) =
        mixed-Quiet hash n (drop_pkt hash n pkt) h refl refl in
      let am_target = cfg.host_addr == hdr.target_ip in
      let answer : Option Errno × Net → Out Net = λ (ignored, n').
        if am_target && (hdr.op == arp_op_request)
        then returns (arp_send_response_reuse hash n' pkt hdr.sender_ip hdr.sender_mac).1
        else returns (drop_pkt hash n' pkt) in
      if-Always Quiet (not (leb 22 hdr.len)) dropped _ kept (
        if-Always Quiet
          (not (hdr.htype == 1)
            || not (hdr.ptype == 0x0800)
            || not (hdr.hlen == 6)
            || not (hdr.plen == 4))
          dropped _ kept
          (if-Always Quiet (not (leb 42 hdr.len)) dropped _ kept (
            if-Always Quiet (hdr.sender_mac % 2 == 1) dropped _ kept (
              Always-bind (λ r. Quiet r.1) Quiet
                (arp_update_mac hash n hdr.sender_ip hdr.sender_mac am_target) answer
                (update-Quiet n hdr.sender_ip hdr.sender_mac am_target h)
                (λ (ignored, n') q.
                  reply-Quiet n' pkt hdr.sender_ip hdr.sender_mac
                    (am_target && (hdr.op == arp_op_request)) q)))))

  -- A test on two results.
  if-Quiet :
      {A : Type 0} (b : Bool) (x y : A × Net) → Quiet x.1 → Quiet y.1 → Quiet (if b then x else y).1
  if-Quiet true x y hx hy = hx
  if-Quiet false x y hx hy = hy

  mac_found-Quiet :
      (n : Net) (a : ℕ) (found : Option Entry)
      → Found (found, n)
      → Quiet (mac_found hash a found n).1
  mac_found-Quiet n a none h = h.0
  mac_found-Quiet n a (some e) h =
      rw (h.1 e refl) (if-Quiet (not e.valid) (inl eagain, n) (inr e.mac, n) h.0 h.0)

  lookup_mac-Quiet : (n : Net) (a : ℕ) → Quiet n → Always (λ r. Quiet r.1) (arp_lookup_mac hash n a)
  unfolding arp_lookup_mac
  lookup_mac-Quiet n a h =
      Always-bind Found (λ r. Quiet r.1) (arp_lookup hash n a true)
        (λ (found, n'). returns (mac_found hash a found n')) (arp_lookup-Quiet n a true h)
        (λ (found, n') f. mac_found-Quiet n' a found f)

  insert_found-Quiet :
      (n : Net) (a mac : ℕ) (found : Option Entry)
      → Found (found, n)
      → Quiet (insert_found hash a mac found n).1
  insert_found-Quiet n a mac none h =
      let e : Entry = record (new_entry a) { mac = mac; valid = true; static = true } in
      if-Quiet (n.entries == 0) (some enomem, n) (none, add_entry hash n e) h.0
        (add_entry-Quiet hash n e h.0 refl)
  insert_found-Quiet n a mac (some e) h =
      put_entry-Quiet hash n (record e { mac = mac; timer = false }) h.0 refl

  insert-Quiet : (n : Net) (a mac : ℕ) → Quiet n → Always (λ r. Quiet r.1) (arp_insert hash n a mac)
  unfolding arp_insert
  insert-Quiet n a mac h =
      Always-bind Found (λ r. Quiet r.1) (arp_lookup hash n a false)
        (λ (found, n'). returns (insert_found hash a mac found n')) (arp_lookup-Quiet n a false h)
        (λ (found, n') f. insert_found-Quiet n' a mac found f)

  pending_found-Quiet :
      (n : Net) (pkt : Pending) (found : Option Entry)
      → Found (found, n)
      → Quiet (pending_found hash pkt found n).1
  pending_found-Quiet n pkt none h = h.0
  pending_found-Quiet n pkt (some e) h =
      let e' : Entry = record e { pending = pkt ∷ e.pending } in
      let n' : Net = record (put_entry hash n e') { pendings = n.pendings - 1 } in
      if-Quiet (n.pendings == 0) (some enomem, n) (none, n') h.0
        (mixed-Quiet hash (put_entry hash n e') n' (put_entry-Quiet hash n e' h.0 (h.1 e refl)) refl
          refl)

  add_pending-Quiet :
      (cpu : ℕ) (n : Net) (a fg mbuf len : ℕ)
      → Quiet n
      → Always (λ r. Quiet r.1) (arp_add_pending_pkt hash cpu n a fg mbuf len)
  unfolding arp_add_pending_pkt
  add_pending-Quiet cpu n a fg mbuf len h =
      let pkt : Pending = record {
        dst_addr = a;
        fg = fg;
        mbuf = mbuf;
        len = len;
        cpu = cpu;
        dispatched = false;
      } in
      Always-bind Found (λ r. Quiet r.1) (arp_lookup hash n a false)
        (λ (found, n'). returns (pending_found hash pkt found n')) (arp_lookup-Quiet n a false h)
        (λ (found, n') f. pending_found-Quiet n' pkt found f)

-- One call of the service that returns. The handler of a timer runs for an armed timer of an entry
-- that is in the table.
pub data Step (hash : ℕ → ℕ) (cfg : Cfg) : Net → Net → Type 0 where
  received :
      (n n' : Net) (pkt : ℕ) (hdr : ArpPacket)
      → arp_input hash cfg n pkt hdr ≡ returns n'
      → Step hash cfg n n'
  looked_up :
      (n n' : Net) (a : ℕ) (r : Errno ⊎ ℕ)
      → arp_lookup_mac hash n a ≡ returns (r, n')
      → Step hash cfg n n'
  inserted :
      (n n' : Net) (a mac : ℕ) (r : Option Errno)
      → arp_insert hash n a mac ≡ returns (r, n')
      → Step hash cfg n n'
  delayed :
      (n n' : Net) (cpu a fg mbuf len : ℕ) (r : Option Errno)
      → arp_add_pending_pkt hash cpu n a fg mbuf len ≡ returns (r, n')
      → Step hash cfg n n'
  expired :
      (n n' : Net) (a : ℕ) (e : Entry)
      → arp_find hash n a ≡ some e
      → e.timer ≡ true
      → arp_timer_handler hash n e ≡ returns n'
      → Step hash cfg n n'

-- Any number of calls.
pub data Steps (hash : ℕ → ℕ) (cfg : Cfg) : Net → Net → Type 0 where
  at_rest : (n : Net) → Steps hash cfg n n
  then_call : (n n' n'' : Net) → Steps hash cfg n n' → Step hash cfg n' n'' → Steps hash cfg n n''

Step-Quiet : (hash : ℕ → ℕ) (cfg : Cfg) (n n' : Net) → Quiet n → Step hash cfg n n' → Quiet n'
Step-Quiet hash cfg n n' h (received _ _ pkt hdr e) =
    subst (Always Quiet) e (input-Quiet hash cfg n pkt hdr h)
Step-Quiet hash cfg n n' h (looked_up _ _ a r e) =
    subst (Always (λ r. Quiet r.1)) e (lookup_mac-Quiet hash n a h)
Step-Quiet hash cfg n n' h (inserted _ _ a mac r e) =
    subst (Always (λ r. Quiet r.1)) e (insert-Quiet hash n a mac h)
Step-Quiet hash cfg n n' h (delayed _ _ cpu a fg mbuf len r e) =
    subst (Always (λ r. Quiet r.1)) e (add_pending-Quiet hash cpu n a fg mbuf len h)
Step-Quiet hash cfg n n' h (expired _ _ a e found armed _) =
    absurd (ground (arith, find-Calm hash n a e h found, armed))

-- From a state with no armed timer and no ARP request among the frames sent, such as the empty table, no
-- number of calls, in whatever order they come, arms a timer or puts an ARP request in a transmit
-- queue.
pub Steps-Quiet : (hash : ℕ → ℕ) (cfg : Cfg) (n n' : Net) → Quiet n → Steps hash cfg n n' → Quiet n'
Steps-Quiet hash cfg n n' h (at_rest _) = h
Steps-Quiet hash cfg n n'' h (then_call _ n' _ before call) =
    Step-Quiet hash cfg n' n'' (Steps-Quiet hash cfg n n' h before) call
