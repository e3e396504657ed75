-- ===== src/Udp/Loaded.antt =====
-- A mbuf of net/udp.c that carries a datagram, and what its release gives back: on the error path of
-- bsys_udp_send, and when the adapter is done with it.
use kns.Common.{ℕ, ◌≡◌, ◌≢◌, refl, ap, sym, ◌∙◌, subst, false, List, [], ◌∷◌, ◌++◌}
use kns.Common.Links.{has}
use kns.Page.{Pages}
use kns.Page.Laws.{references}
use kns.Arp.State.{Net, Out, returns, ◌>>=◌}
use kns.Udp.{Ret, free_iovs, udp_mbuf_done, mbuf_xmit_done, answer, give_back}
use kns.Udp.State.{Mbuf, World, udp_sent, udp_done, emit, set_mbuf, put_pool, mbuf_free}
use kns.Udp.Pool.{IsFree, mbuf_free-gives, set_mbuf-same}

-- The mbuf `pkt` of `pool` carries IOVs whose release leaves the references of `p0`; the pool can
-- still hand out `rest`.
pub record Loaded (pkt pool cookie : ℕ) (rest : List ℕ) (p0 : Pages) (w : World) : Type 0 where
  pub own : (w.mbuf pkt).pool ≡ pool
  pub handler : (w.mbuf pkt).done ≡ udp_done
  pub tag : (w.mbuf pkt).done_data ≡ cookie
  pub stack : IsFree pool w rest
  pub unpinned : Pages → Pages
  pub frees :
      (w' : World)
      → free_iovs ((w.mbuf pkt).nr_iov) 0 ((w.mbuf pkt).iovs) w'
        ≡ returns (record w' { pages = unpinned (w'.pages) })
  pub restores : (idx : ℕ) → references (unpinned (w.pages)) idx ≡ references p0 idx

-- The mbuf is back on its pool, and every page has the references of `p0`.
pub record Undone (pkt pool : ℕ) (rest : List ℕ) (p0 : Pages) (w : World) : Type 0 where
  pub stack : IsFree pool w (pkt ∷ rest)
  pub restored : (idx : ℕ) → references w.pages idx ≡ references p0 idx

pub give_back-Undone :
    (pkt pool cookie : ℕ) (rest : List ℕ) (p0 : Pages) (ret : Ret) (w : World)
    → Loaded pkt pool cookie rest p0 w
    → pkt ≢ 0
    → has pkt rest ≡ false
    → (w' : World) × (give_back false pkt ret w ≡ returns (ret, w'))
      × Undone pkt pool rest p0 w'
      × (w'.events ≡ w.events)
      × (w'.net ≡ w.net)
give_back-Undone pkt pool cookie rest p0 ret w l some_mbuf apart =
    let u : World = record w { pages = l.unpinned (w.pages) } in
    let given = mbuf_free-gives pkt pool rest u l.own l.stack some_mbuf apart in
    (
      put_pool pool (given.left) u,
      ap (λ (r : Out World). r >>= λ v. mbuf_free false pkt v >>= answer false ret) (l.frees w)
          ∙ ap (λ (r : Out World). r >>= answer false ret) given.runs,
      record { stack = given.stack; restored = l.restores },
      refl,
      refl,
    )

-- The adapter is done with a loaded mbuf.
pub mbuf_xmit_done-Undone :
    (pkt pool cookie : ℕ) (rest : List ℕ) (p0 : Pages) (w : World)
    → Loaded pkt pool cookie rest p0 w
    → pkt ≢ 0
    → has pkt rest ≡ false
    → (w' : World) × (mbuf_xmit_done false pkt w ≡ returns w')
      × Undone pkt pool rest p0 w'
      × (w'.events ≡ w.events ++ udp_sent cookie ∷ [])
unfolding mbuf_xmit_done udp_mbuf_done
mbuf_xmit_done-Undone pkt pool cookie rest p0 w l some_mbuf apart =
    let u : World =
      emit (udp_sent ((w.mbuf pkt).done_data)) (record w { pages = l.unpinned (w.pages) }) in
    let given = mbuf_free-gives pkt pool rest u l.own l.stack some_mbuf apart in
    (
      put_pool pool (given.left) u,
      rw (l.handler, mbuf_xmit_done) refl
          ∙ ap
              (λ (r : Out World).
                r >>= λ v. mbuf_free false pkt (emit (udp_sent ((w.mbuf pkt).done_data)) v))
              (l.frees w)
          ∙ given.runs,
      record { stack = given.stack; restored = l.restores },
      ap (λ (c : ℕ). w.events ++ udp_sent c ∷ []) l.tag,
    )

-- A mbuf that is written with what a loaded one holds is loaded.
pub load :
    (pkt pool cookie : ℕ) (rest : List ℕ) (p0 : Pages) (v : Mbuf) (w : World)
    (unpinned : Pages → Pages)
    → v.pool ≡ pool
    → v.done ≡ udp_done
    → v.done_data ≡ cookie
    → IsFree pool w rest
    → ((w' : World)
        → free_iovs (v.nr_iov) 0 (v.iovs) w' ≡ returns (record w' { pages = unpinned (w'.pages) }))
    → ((idx : ℕ) → references (unpinned (w.pages)) idx ≡ references p0 idx)
    → Loaded pkt pool cookie rest p0 (set_mbuf pkt v w)
load pkt pool cookie rest p0 v w unpinned own handler tag stack frees restores =
    let same = set_mbuf-same pkt v w in
    record {
      own = ap (λ (b : Mbuf). b.pool) same ∙ own;
      handler = ap (λ (b : Mbuf). b.done) same ∙ handler;
      tag = ap (λ (b : Mbuf). b.done_data) same ∙ tag;
      stack = stack;
      unpinned = unpinned;
      frees = λ w'.
          subst
            (λ (b : Mbuf).
              free_iovs (b.nr_iov) 0 (b.iovs) w'
              ≡ returns (record w' { pages = unpinned (w'.pages) }))
            (sym same) (frees w');
      restores = restores;
    }

pub moved :
    (pkt pool cookie : ℕ) (rest : List ℕ) (p0 : Pages) (net : Net) (w : World)
    → Loaded pkt pool cookie rest p0 w
    → Loaded pkt pool cookie rest p0 (record w { net = net })
moved pkt pool cookie rest p0 net w l = record {
  own = l.own;
  handler = l.handler;
  tag = l.tag;
  stack = l.stack;
  unpinned = l.unpinned;
  frees = l.frees;
  restores = l.restores;
}
