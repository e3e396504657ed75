-- ===== src/Udp/Pool.antt =====
-- The packet buffers of inc/kns/mbuf.h over the memory pools: what an allocation takes and what a
-- release gives back.
use kns.Common.{ℕ, ◌≡◌, ◌≢◌, refl, subst, sym, false, List, ◌∷◌}
use kns.Common.Tests.{eq→==, ne→==}
use kns.Common.Links.{null, has}
use kns.Mempool
use kns.Mempool.{kns_mempool_alloc, kns_mempool_free}
use kns.Mempool.View.{IsStack}
use kns.Mempool.Pop.{kns_mempool_alloc-pops}
use kns.Mempool.Push.{kns_mempool_free-pushes}
use kns.Mempool.Top.{IsStack-top}
use kns.Arp.State.{returns}
use kns.Udp.State.{
  Mbuf, World, pool_at, put_pool, set_mbuf, default_done, mbuf_alloc, mbuf_alloc_local, mbuf_free,
}

-- The mbufs that the pool at `a` can hand out.
abbrev pub IsFree : (a : ℕ) → World → List ℕ → Type 0
IsFree a w free = IsStack (pool_at a w) free

put_pool-at : (a : ℕ) (s : Mempool.State) (w : World) → pool_at a (put_pool a s w) ≡ s
put_pool-at a s w = rw (eq→== a a refl) refl

-- The world with the mbuf `m` taken from the CPU's pool, which is left as `s`.
abbrev pub taken : (m : ℕ) → Mempool.State → World → World
taken m s w =
    set_mbuf m (record (w.mbuf m) { pool = w.mbuf_mempool; next = null; done = default_done })
      (put_pool (w.mbuf_mempool) s w)

pub record Taken (m : ℕ) (rest : List ℕ) (w : World) : Type 0 where
  pub left : Mempool.State
  pub runs : mbuf_alloc_local false w ≡ returns (m, taken m left w)
  pub stack : IsFree w.mbuf_mempool (taken m left w) rest
  pub some_mbuf : m ≢ 0
  pub apart : has m rest ≡ false

pub mbuf_alloc_local-takes :
    (m : ℕ) (rest : List ℕ) (w : World) → IsFree w.mbuf_mempool w (m ∷ rest) → Taken m rest w
unfolding mbuf_alloc_local mbuf_alloc
mbuf_alloc_local-takes m rest w h =
    let (s, popped, stack) = kns_mempool_alloc-pops h in
    let (some_mbuf, apart) = IsStack-top h in
    record {
      left = s;
      runs = rw (popped, ne→== m 0 some_mbuf) refl;
      stack =
          subst (λ (x : Mempool.State). IsStack x rest) (sym (put_pool-at w.mbuf_mempool s w))
            stack;
      some_mbuf = some_mbuf;
      apart = apart;
    }

-- The value that was written to a mbuf.
pub set_mbuf-same : (m : ℕ) (v : Mbuf) (w : World) → (set_mbuf m v w).mbuf m ≡ v
set_mbuf-same m v w = rw (eq→== m m refl) refl

-- The world after a release: the pool that the mbuf came from has it back, on top.
pub record Given (m pool : ℕ) (free : List ℕ) (w : World) : Type 0 where
  pub left : Mempool.State
  pub runs : mbuf_free false m w ≡ returns (put_pool pool left w)
  pub stack : IsFree pool (put_pool pool left w) (m ∷ free)

pub mbuf_free-gives :
    (m pool : ℕ) (free : List ℕ) (w : World)
    → (w.mbuf m).pool ≡ pool
    → IsFree pool w free
    → m ≢ 0
    → has m free ≡ false
    → Given m pool free w
unfolding mbuf_free
mbuf_free-gives m pool free w own h some_mbuf apart =
    let (s, pushed, stack) = kns_mempool_free-pushes m h some_mbuf apart in
    record {
      left = s;
      runs = rw (own, pushed) refl;
      stack =
          subst (λ (x : Mempool.State). IsStack x (m ∷ free)) (sym (put_pool-at pool s w)) stack;
    }
