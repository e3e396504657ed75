-- ===== src/Udp/Input.antt =====
-- Datagrams that arrive at net/udp.c, from the arrival to the release by the application.
use kns.Common.{
  ℕ, ◌+◌, ◌-◌, ◌*◌, ◌/◌, ◌%◌, ◌^◌, ◌≤◌, ◌<◌, ◌≡◌, ◌≢◌, refl, ap, ◌∙◌, true, false, List, [], ◌∷◌,
  ◌++◌, arith,
}
use kns.Common.Tests.{eq→==, leb}
use kns.Common.Links.{has}
use kns.Flow.World.{update}
use kns.Page.{pgoff_2mb, pgaddr_2mb}
use kns.Arp.State.{Out, returns, ◌>>=◌}
use kns.TcpApi.State.{IpTuple}
use kns.Udp.{Datagram, ok, inval, udp_input, recv_done_at, bsys_udp_recv_done}
use kns.Udp.State.{
  mbuf_len, Mbuf, World, udp_recv, dead_beef, no_done, set_mbuf, put_pool, emit, mbuf_free,
}
use kns.Udp.Pool.{IsFree, mbuf_free-gives, set_mbuf-same}

-- The mbuf `m` is the `k`-th one of the 2 MB page `g`.
pub record IsMbuf (m g k : ℕ) : Type 0 where
  pub place : m ≡ 2097152 * g + 2112 * k
  pub inside : 2112 * k + 2112 ≤ 2097152
  pub word : m + 2112 ≤ 2 ^ 64

-- The tuple of a datagram.
abbrev pub tuple_of : Datagram → IpTuple
tuple_of d = record {
  src_ip = d.src_addr;
  dst_ip = d.dst_addr;
  src_port = d.src_port;
  dst_port = d.dst_port;
}

-- The mbuf is found from any place inside of it.
mbuf_place :
    (m g k x : ℕ)
    → IsMbuf m g k
    → x < 2112
    → pgaddr_2mb (m + x) + pgoff_2mb (m + x) / mbuf_len * mbuf_len ≡ m
mbuf_place m g k x h small = rw h.place (omega (arith, h.inside))

iomap_back :
    (p off : ℕ) → p < 2 ^ 64 → off < 2 ^ 64 → ((p + off) % 2 ^ 64 + 2 ^ 64 - off) % 2 ^ 64 ≡ p
iomap_back p off h o = omega arith

-- The world once the application was told of the datagram, whose pool has the offset `off`.
abbrev pub told : (m off : ℕ) → Datagram → World → World
told m off d w =
    emit (udp_recv ((m + 64 + d.udphdr + 8 + off) % 2 ^ 64) (d.len) ((m + 64 + off) % 2 ^ 64)) (
      set_mbuf m (record (w.mbuf m) { done = dead_beef })
        (record w { tuple = update (w.tuple) m (tuple_of d) }))

le→leb : (a b : ℕ) → a ≤ b → leb a b ≡ true
le→leb a b h = ground arith

gt→leb : (a b : ℕ) → b < a → leb a b ≡ false
gt→leb a b h = ground arith

udp_input-told :
    (m off : ℕ) (d : Datagram) (w : World)
    → d.udphdr + d.len ≤ (w.mbuf m).len
    → w.iomap_offset (w.mbuf m).pool ≡ off
    → udp_input false m d w ≡ returns (told m off d w)
unfolding udp_input
udp_input-told m off d w h at =
    rw (le→leb (d.udphdr + d.len) (w.mbuf m).len h, eq→== m m refl, at) refl

-- Any address inside a mbuf, given as the application sees it, leads to the mbuf.
recv_done-at :
    (m g k x off : ℕ) (w : World)
    → IsMbuf m g k
    → x < 2112
    → w.iomap_offset w.mbuf_mempool ≡ off
    → off < 2 ^ 64
    → bsys_udp_recv_done false ((m + x + off) % 2 ^ 64) w ≡ recv_done_at false m w
unfolding bsys_udp_recv_done
recv_done-at m g k x off w h small at word = rw at (
    ap (λ (a : ℕ). recv_done_at false (pgaddr_2mb a + pgoff_2mb a / mbuf_len * mbuf_len) w)
      (iomap_back (m + x) off (omega (arith, h.word)) word)
    ∙ ap (λ (a : ℕ). recv_done_at false a w) (mbuf_place m g k x h small))

recv_done_at-marked :
    (m : ℕ) (w : World)
    → (w.mbuf m).done ≡ dead_beef
    → recv_done_at false m w ≡ (
        mbuf_free false m (set_mbuf m (record (w.mbuf m) { done = no_done }) w) >>= λ w'.
        returns (ok, w'))
unfolding recv_done_at
recv_done_at-marked m w h = rw (h, recv_done_at) refl

-- The mbuf of a datagram that the application was told of is released.
recv_done_at-frees :
    (m pool : ℕ) (free : List ℕ) (w : World)
    → (w.mbuf m).done ≡ dead_beef
    → (w.mbuf m).pool ≡ pool
    → IsFree pool w free
    → m ≢ 0
    → has m free ≡ false
    → (w' : World) × (recv_done_at false m w ≡ returns (ok, w'))
      × IsFree pool w' (m ∷ free)
      × ((w'.mbuf m).done ≡ no_done)
      × (w'.iomap_offset w'.mbuf_mempool ≡ w.iomap_offset w.mbuf_mempool)
unfolding recv_done_at
recv_done_at-frees m pool free w received own stack some_mbuf apart =
    let v : Mbuf = record (w.mbuf m) { done = no_done } in
    let same = set_mbuf-same m v w in
    let given =
      mbuf_free-gives m pool free (set_mbuf m v w) (ap (λ (b : Mbuf). b.pool) same ∙ own) stack
        some_mbuf apart in
    (
      put_pool pool (given.left) (set_mbuf m v w),
      recv_done_at-marked m w received
          ∙ ap (λ (r : Out World). r >>= λ w'. returns (ok, w')) given.runs,
      given.stack,
      ap (λ (b : Mbuf). b.done) same,
      refl,
    )

recv_done_at-refused :
    (m : ℕ) (w : World) → (w.mbuf m).done ≡ no_done → recv_done_at false m w ≡ returns (inval, w)
unfolding recv_done_at
recv_done_at-refused m w h = rw (h, recv_done_at) refl

-- With the checks compiled out, and where the packet's pool and the CPU's pool have the same offset:
-- the application is told, of a datagram whose length fits in the data received, where its payload
-- and its addresses are, as addresses of its own; the payload starts behind the UDP header, and the
-- length told is that of the header's field, which counts the header. From then on any
-- address inside the mbuf gives the mbuf back to its pool, once: another call answers RET_INVAL and
-- changes nothing.
pub udp_input-recv_done :
    (m g k x y off : ℕ) (d : Datagram) (free : List ℕ) (w : World)
    → IsMbuf m g k
    → d.udphdr + d.len ≤ (w.mbuf m).len
    → x < 2112
    → y < 2112
    → w.iomap_offset (w.mbuf m).pool ≡ off
    → w.iomap_offset w.mbuf_mempool ≡ off
    → off < 2 ^ 64
    → IsFree (w.mbuf m).pool w free
    → m ≢ 0
    → has m free ≡ false
    → (w1 : World) × (w2 : World) × (udp_input false m d w ≡ returns w1)
      × (w1.events
          ≡ w.events
            ++ udp_recv ((m + 64 + d.udphdr + 8 + off) % 2 ^ 64) (d.len) ((m + 64 + off) % 2 ^ 64)
              ∷ [])
      × (w1.tuple m ≡ tuple_of d)
      × (bsys_udp_recv_done false ((m + x + off) % 2 ^ 64) w1 ≡ returns (ok, w2))
      × IsFree (w.mbuf m).pool w2 (m ∷ free)
      × (bsys_udp_recv_done false ((m + y + off) % 2 ^ 64) w2 ≡ returns (inval, w2))
udp_input-recv_done m g k x y off d free w h fits x_inside y_inside of_pkt of_cpu word stack
      some_mbuf apart =
    let w1 : World = told m off d w in
    let marked : w1.mbuf m ≡ record (w.mbuf m) { done = dead_beef } = rw (eq→== m m refl) refl in
    let (w2, released, given, done, kept) =
      recv_done_at-frees m (w.mbuf m).pool free w1 (ap (λ (b : Mbuf). b.done) marked)
        (ap (λ (b : Mbuf). b.pool) marked) stack some_mbuf apart in
    (
      w1,
      w2,
      udp_input-told m off d w fits of_pkt,
      refl,
      rw (eq→== m m refl) refl,
      recv_done-at m g k x off w1 h x_inside of_cpu word ∙ released,
      given,
      recv_done-at m g k y off w2 h y_inside (kept ∙ of_cpu) word ∙ recv_done_at-refused m w2 done,
    )

-- A datagram whose length does not fit in the data received goes back to its pool.
udp_input-dropped :
    (m : ℕ) (d : Datagram) (free : List ℕ) (w : World)
    → (w.mbuf m).len < d.udphdr + d.len
    → IsFree (w.mbuf m).pool w free
    → m ≢ 0
    → has m free ≡ false
    → (w' : World) × (udp_input false m d w ≡ returns w')
      × IsFree (w.mbuf m).pool w' (m ∷ free)
      × (w'.events ≡ w.events)
unfolding udp_input
udp_input-dropped m d free w short stack some_mbuf apart =
    let given = mbuf_free-gives m (w.mbuf m).pool free w refl stack some_mbuf apart in
    (
      put_pool ((w.mbuf m).pool) (given.left) w,
      rw (gt→leb (d.udphdr + d.len) (w.mbuf m).len short, given.runs) refl,
      given.stack,
      refl,
    )
