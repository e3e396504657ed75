-- ===== src/Arp/Calm.antt =====
-- Tables without armed timers and queues without requests, for net/arp.c.
use kns.Common.{
  ℕ, ◌≡◌, ◌≢◌, sym, subst, Bool, false, Option, none, some, List, [], ◌∷◌, ◌++◌, arith, inl, inr,
  ℕ_discrete,
}
use kns.Common.Tests.{◌==◌, eq→==, ne→==, Bool-cases}
use kns.Flow.World.{update}
use kns.Arp.Table.{Entry, lookup_in, put}
use kns.Arp.State.{Net, Frame, arp_frame, ip_frame, arp_op_request, arp_op_reply}
use kns.Arp.{arp_ip_to_idx, arp_find, put_entry, add_entry}

abbrev pub Calm : List Entry → Type 0
Calm [] = Unit
Calm (e ∷ es) = (e.timer ≡ false) × Calm es

abbrev pub NoRequest : List Frame → Type 0
NoRequest [] = Unit
NoRequest (arp_frame op ip mac ∷ fs) = (op ≢ arp_op_request) × NoRequest fs
NoRequest (ip_frame mbuf dhost ∷ fs) = NoRequest fs

-- No timer is armed, and no request has been sent.
pub record Quiet (n : Net) : Type 0 where
  pub calm : (i : ℕ) → Calm (n.tbl i)
  pub no_request : (q : ℕ) → NoRequest (n.sent q)

pub put-Calm : (e : Entry) (es : List Entry) → e.timer ≡ false → Calm es → Calm (put e es)
put-Calm e [] h c = tt
put-Calm e (x ∷ es) h c = elim (Bool-cases (x.addr == e.addr)) [
  | inl same ↦ rw same (h, c.1)
  | inr other ↦ rw other (c.0, put-Calm e es h c.1)
]

pub lookup_in-Calm :
    (a : ℕ) (es : List Entry) (e : Entry) → Calm es → lookup_in a es ≡ some e → e.timer ≡ false
lookup_in-Calm a [] e c h = ground arith
lookup_in-Calm a (x ∷ es) e c h = elim (Bool-cases (x.addr == a)) [
  | inl same ↦ ground (arith, same, h, c)
  | inr other ↦ lookup_in-Calm a es e c.1 (rw other at h)
]

pub snoc-NoRequest :
    (fs : List Frame) (ip mac : ℕ)
    → NoRequest fs
    → NoRequest (fs ++ arp_frame arp_op_reply ip mac ∷ [])
snoc-NoRequest [] ip mac h = (omega arith, tt)
snoc-NoRequest (arp_frame op ip' mac' ∷ fs) ip mac h = (h.0, snoc-NoRequest fs ip mac h.1)
snoc-NoRequest (ip_frame mbuf dhost ∷ fs) ip mac h = snoc-NoRequest fs ip mac h

-- One bucket rewritten.
pub update-Calm :
    (tbl : ℕ → List Entry) (k : ℕ) (es : List Entry)
    → ((i : ℕ) → Calm (tbl i))
    → Calm es
    → (i : ℕ) → Calm (update tbl k es i)
update-Calm tbl k es h c i = elim (ℕ_discrete i k) [
  | yes e ↦ rw (eq→== i k e) c
  | no ne ↦ rw (ne→== i k ne) (h i)
]

-- The timer of an entry, if there is one.
abbrev pub timer_of : Option Entry → Bool
timer_of none = false
timer_of (some e) = e.timer

pub update-NoRequest :
    (sent : ℕ → List Frame) (k : ℕ) (fs : List Frame)
    → ((q : ℕ) → NoRequest (sent q))
    → NoRequest fs
    → (q : ℕ) → NoRequest (update sent k fs q)
update-NoRequest sent k fs h c q = elim (ℕ_discrete q k) [
  | yes e ↦ rw (eq→== q k e) c
  | no ne ↦ rw (ne→== q k ne) (h q)
]

module _ (hash : ℕ → ℕ) where
  pub put_entry-Quiet :
      (n : Net) (e : Entry) → Quiet n → e.timer ≡ false → Quiet (put_entry hash n e)
  put_entry-Quiet n e h calm = record {
    calm =
        update-Calm (n.tbl) (arp_ip_to_idx hash (e.addr))
          (put e (n.tbl (arp_ip_to_idx hash e.addr))) h.calm
          (put-Calm e (n.tbl (arp_ip_to_idx hash e.addr)) calm
            (h.calm (arp_ip_to_idx hash e.addr)));
    no_request = h.no_request;
  }

  pub add_entry-Quiet :
      (n : Net) (e : Entry) → Quiet n → e.timer ≡ false → Quiet (add_entry hash n e)
  add_entry-Quiet n e h calm = record {
    calm =
        update-Calm (n.tbl) (arp_ip_to_idx hash (e.addr)) (e ∷ n.tbl (arp_ip_to_idx hash e.addr))
          h.calm (calm, h.calm (arp_ip_to_idx hash e.addr));
    no_request = h.no_request;
  }

  -- The table of one quiet state, the frames of another.
  pub mixed-Quiet : (n m : Net) → Quiet n → m.tbl ≡ n.tbl → m.sent ≡ n.sent → Quiet m
  mixed-Quiet n m h tbl sent = record {
    calm = λ i. subst (λ t. Calm (t i)) (sym tbl) (h.calm i);
    no_request = λ q. subst (λ s. NoRequest (s q)) (sym sent) (h.no_request q);
  }

  pub find-Calm :
      (n : Net) (a : ℕ) (e : Entry) → Quiet n → arp_find hash n a ≡ some e → e.timer ≡ false
  find-Calm n a e h found =
      lookup_in-Calm a (n.tbl (arp_ip_to_idx hash a)) e (h.calm (arp_ip_to_idx hash a)) found
