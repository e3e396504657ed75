-- ===== src/Arp/Table.antt =====
-- The entries of one bucket of `arp_tbl` in net/arp.c and the packets that wait for an address.
use kns.Common.{ℕ, Bool, true, Option, none, some, List, [], ◌∷◌}
use kns.Common.Tests.{◌==◌, if◌then◌else◌}

-- `struct pending_pkt`
pub record Pending : Type 0 where
  pub dst_addr : ℕ
  pub fg : ℕ
  pub mbuf : ℕ
  pub len : ℕ
  pub cpu : ℕ
  pub dispatched : Bool

-- `struct arp_entry`: `flags` bit by bit; `timer` says whether the timer is armed.
pub record Entry : Type 0 where
  pub addr : ℕ
  pub mac : ℕ
  pub resolving : Bool
  pub valid : Bool
  pub static : Bool
  pub retries : ℕ
  pub timer : Bool
  pub pending : List Pending

abbrev pub lookup_in : ℕ → List Entry → Option Entry
lookup_in addr [] = none
lookup_in addr (e ∷ es) = if e.addr == addr then some e else lookup_in addr es

-- A write through a pointer to the first entry of an address.
abbrev pub put : Entry → List Entry → List Entry
put e [] = []
put e (x ∷ es) = if x.addr == e.addr then e ∷ es else x ∷ put e es

abbrev pub remove : ℕ → List Entry → List Entry
remove addr [] = []
remove addr (e ∷ es) = if e.addr == addr then es else e ∷ remove addr es

-- The loop of `arp_update_mac` over the pending packets: those to post, and the list afterwards.
abbrev pub to_post : List Pending → List Pending
to_post [] = []
to_post (p ∷ ps) = if p.dispatched then to_post ps else p ∷ to_post ps

abbrev pub dispatched_all : List Pending → List Pending
dispatched_all [] = []
dispatched_all (p ∷ ps) = record p { dispatched = true } ∷ dispatched_all ps
