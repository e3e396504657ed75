-- ===== src/TcpApi/Order.antt =====
-- Received data is delivered in the order of arrival: packets before and after the application accepts
-- a connection of net/tcp_api.c.
use kns.Common.{
  ℕ, zero, suc, ◌≤◌, ◌≡◌, ◌≢◌, refl, sym, subst, true, false, Bool, List, [], ◌∷◌, ◌++◌, map,
  append-nil, append_assoc, arith,
}
use kns.Common.Tests.{eq→==, ne→==}
use kns.Common.Links.{Links, has, Chain}
use kns.Common.Lists.{length}
use kns.Mempool
use kns.Mempool.{kns_mempool_free}
use kns.TcpApi.Calls.{recv_all}
use kns.TcpApi.Events.{on_recv}
use kns.TcpApi.State.{Run, done, ◌>>=◌, Event, Pbuf, World}
use kns.TcpApi.Deliver.{
  notice, notices, Packets, Conn, recv_a_pbuf-Conn, on_recv-waits, on_recv-notes,
}

module _ {S : Type 0} {a handle cookie id : ℕ} {pb : ℕ → Pbuf} {pcbs ids : Mempool.State} where
  pub recv_all-Conn :
      {accepted : Bool} {xs : List ℕ} (bufs : ℕ → List ℕ) (n rounds tmp : ℕ) (ps : List ℕ)
      (evs : List Event) (w : World S)
      → Conn a handle cookie id accepted pb pcbs ids xs evs w
      → Packets pb bufs n ps
      → Chain w.api_next tmp ps
      → length ps ≤ rounds
      → (w' : World S) × (recv_all false rounds n a tmp w ≡ done w')
        × Conn a handle cookie id accepted pb pcbs ids xs
            (evs ++ notices handle cookie pb bufs ps)
            w'
  unfolding recv_all
  recv_all-Conn bufs n zero tmp [] evs w c all chain h =
      (w, rw (eq→== tmp 0 chain) refl, rw (append-nil evs) c)
  recv_all-Conn bufs n zero tmp (p ∷ ps) evs w c all chain h = absurd (omega arith)
  recv_all-Conn bufs n (suc rounds) tmp [] evs w c all chain h =
      (w, rw (eq→== tmp 0 chain) refl, rw (append-nil evs) c)
  recv_all-Conn bufs n (suc rounds) tmp (p ∷ ps) evs w c all chain h =
      let first : List Event = map (notice handle cookie pb) (bufs p) in
      let (w1, runs, c1, same) = recv_a_pbuf-Conn n p (bufs p) c all.0 all.1 all.2 in
      let (w2, more, c2) =
        recv_all-Conn bufs n rounds (w1.api_next p) ps _ w1 c1 all.3
          (subst (λ (x : Links). Chain x (x p) ps) (sym same) chain.2) (omega arith) in
      (
        w2,
        rw (chain.0, ne→== p 0 all.0, runs) more,
        rw (← append_assoc evs first (notices handle cookie pb bufs ps)) c2,
      )

-- The packets `ps` come in, one after the other.
pub arrive : {S : Type 0} (n a : ℕ) → List ℕ → World S → Run (World S)
arrive n a [] w = done w
arrive n a (p ∷ ps) w = on_recv false n a p w >>= λ (err, w'). arrive n a ps w'

abbrev pub Apart : List ℕ → List ℕ → Type 0
Apart xs [] = Unit {0}
Apart xs (p ∷ ps) = (has p xs ≡ false) × Apart (xs ++ p ∷ []) ps

module _ {S : Type 0} {a handle cookie id : ℕ} {pb : ℕ → Pbuf} {pcbs ids : Mempool.State} where
  -- Before the connection is accepted, packets are kept and nothing is notified.
  pub arrive-waits :
      (bufs : ℕ → List ℕ) (n : ℕ) (ps xs : List ℕ) (evs : List Event) (w : World S)
      → a ≢ 0
      → Conn a handle cookie id false pb pcbs ids xs evs w
      → Packets pb bufs n ps
      → Apart xs ps
      → (w' : World S) × (arrive n a ps w ≡ done w')
        × Conn a handle cookie id false pb pcbs ids (xs ++ ps) evs w'
  unfolding arrive
  arrive-waits bufs n [] xs evs w some_a c all apart = (
    w,
    refl,
    subst (λ l. Conn a handle cookie id false pb pcbs ids l evs w) (sym (append-nil xs)) c,
  )
  arrive-waits bufs n (p ∷ ps) xs evs w some_a c all apart =
      let (w1, runs, c1) = on_recv-waits n p c some_a apart.0 all.0 in
      let (w2, more, c2) = arrive-waits bufs n ps (xs ++ p ∷ []) evs w1 some_a c1 all.3 apart.1 in
      (
        w2,
        rw (runs) more,
        subst (λ l. Conn a handle cookie id false pb pcbs ids l evs w2)
            (append_assoc xs (p ∷ []) ps) c2,
      )

  -- Then they are notified as they come.
  pub arrive-notes :
      (bufs : ℕ → List ℕ) (n : ℕ) (ps xs : List ℕ) (evs : List Event) (w : World S)
      → a ≢ 0
      → Conn a handle cookie id true pb pcbs ids xs evs w
      → Packets pb bufs n ps
      → Apart xs ps
      → (w' : World S) × (arrive n a ps w ≡ done w')
        × Conn a handle cookie id true pb pcbs ids
            (xs ++ ps)
            (evs ++ notices handle cookie pb bufs ps)
            w'
  unfolding arrive
  arrive-notes bufs n [] xs evs w some_a c all apart =
      (w, refl, rw (append-nil xs, append-nil evs) c)
  arrive-notes bufs n (p ∷ ps) xs evs w some_a c all apart =
      let first : List Event = map (notice handle cookie pb) (bufs p) in
      let (w1, runs, c1) = on_recv-notes n p (bufs p) c some_a apart.0 all.0 all.1 all.2 in
      let (w2, more, c2) =
        arrive-notes bufs n ps (xs ++ p ∷ []) (evs ++ first) w1 some_a c1 all.3 apart.1 in
      (
        w2,
        rw (runs) more,
        rw
            (
              ← append_assoc evs first (notices handle cookie pb bufs ps),
              ← append_assoc xs (p ∷ []) ps,
            )
            c2,
      )
