-- ===== src/TcpApi/Deliver.antt =====
-- The delivery of received data by net/tcp_api.c: the application is notified of every buffer, in the
-- order of arrival, whether it came before or after the application accepted the connection.
use kns.Common.{
  ℕ, zero, suc, ◌+◌, ◌%◌, ◌^◌, ◌≤◌, ◌≡◌, ◌≢◌, refl, ap, sym, ◌∙◌, subst, true, false, inl, inr,
  Bool, not, List, [], ◌∷◌, ◌++◌, map, append_assoc, arith,
}
use kns.Common.Tests.{if◌then◌else◌, ◌==◌, eq→==, ne→==, Bool-cases}
use kns.Common.Links.{Links, has, Chain}
use kns.Common.Lists.{length}
use kns.Flow.World.{update}
use kns.Flow.Queue.{IsQueue}
use kns.Mempool
use kns.Mempool.{kns_mempool_free}
use kns.TcpApi.{recv_a_pbuf}
use kns.TcpApi.Events.{err_ok, on_recv}
use kns.TcpApi.Queue.{queue_of, appended, appended_links, appended-IsQueue}
use kns.TcpApi.State.{done, ◌>>=◌, Event, recv, Api, Pbuf, World, emit}

-- The next buffer of a packet.
abbrev pub buf_next : (ℕ → Pbuf) → Links
buf_next pb b = (pb b).next

-- The notification of the buffer `b`.
abbrev pub notice : (handle cookie : ℕ) → (ℕ → Pbuf) → ℕ → Event
notice handle cookie pb b = recv handle cookie ((pb b).payload % 2 ^ 64) (pb b).len

-- Those of the buffers of all packets, `bufs p` being those of `p`.
abbrev pub notices : (handle cookie : ℕ) → (ℕ → Pbuf) → (bufs : ℕ → List ℕ) → List ℕ → List Event
notices handle cookie pb bufs [] = []
notices handle cookie pb bufs (p ∷ ps) =
    map (notice handle cookie pb) (bufs p) ++ notices handle cookie pb bufs ps

-- The length that recv_a_pbuf leaves in each packet buffer.
abbrev noted_len : (ℕ → Pbuf) → List ℕ → (ℕ → ℕ) → ℕ → ℕ
noted_len pb [] len = len
noted_len pb (b ∷ bs) len = noted_len pb bs (update len ((pb b).mbuf) ((pb b).len))

abbrev noted : {S : Type 0} (a : ℕ) → List ℕ → World S → World S
noted a bs w = record w {
  events = w.events ++ map (notice (w.api a).handle (w.api a).cookie (w.pbuf)) bs;
  mbuf_len = noted_len (w.pbuf) bs (w.mbuf_len);
}

-- Every packet has its chain of buffers, of at most `n`.
abbrev pub Packets : (ℕ → Pbuf) → (bufs : ℕ → List ℕ) → (n : ℕ) → List ℕ → Type 0
Packets pb bufs n [] = Unit {0}
Packets pb bufs n (p ∷ ps) =
    (p ≢ 0) × Chain (buf_next pb) p (bufs p) × (length (bufs p) ≤ n) × Packets pb bufs n ps

module _ {S : Type 0} where
  plain_addr :
      (w : World S) (b : ℕ)
      → w.iomap_offset ≡ 0
      → ((w.pbuf b).payload + w.iomap_offset) % 2 ^ 64 ≡ (w.pbuf b).payload % 2 ^ 64
  plain_addr w b flat = ap (λ (t : ℕ). t % 2 ^ 64) (omega (arith, flat))

  recv_a_pbuf-noted :
      (rounds a p : ℕ) (b : ℕ) (bs : List ℕ) (w : World S)
      → w.iomap_offset ≡ 0
      → Chain (buf_next w.pbuf) p (b ∷ bs)
      → suc (length bs) ≤ rounds
      → recv_a_pbuf false rounds a p w ≡ done (noted a (b ∷ bs) w)
  unfolding recv_a_pbuf
  recv_a_pbuf-noted zero a p b bs w flat c h = absurd (omega arith)
  recv_a_pbuf-noted (suc rounds) a p b [] w flat c h =
      rw (c.0, eq→== (buf_next w.pbuf b) 0 c.2, plain_addr w b flat) refl
  recv_a_pbuf-noted (suc rounds) a p b (b' ∷ bs) w flat c h =
      let w' : World S =
        emit (notice (w.api a).handle (w.api a).cookie (w.pbuf) b)
          (record w { mbuf_len = update (w.mbuf_len) (w.pbuf b).mbuf (w.pbuf b).len }) in
      let more : buf_next w.pbuf b ≢ 0 = λ z. c.2.1 (sym c.2.0 ∙ z) in
      rw (c.0, ne→== (buf_next w.pbuf b) 0 more, plain_addr w b flat)
        (recv_a_pbuf-noted rounds a (buf_next w.pbuf b) b' bs w' flat c.2 (omega arith)
          ∙ ap
              (λ es. done (record w {
                events = es;
                mbuf_len = noted_len (w.pbuf) (b ∷ b' ∷ bs) (w.mbuf_len);
              }))
              (append_assoc (w.events) (notice (w.api a).handle (w.api a).cookie (w.pbuf) b ∷ [])
                (map (notice (w.api a).handle (w.api a).cookie (w.pbuf)) (b' ∷ bs))))

  -- The world with the packet `p` appended to those of the connection.
  abbrev stored : (a p : ℕ) → World S → World S
  stored a p w = record w {
    api = update (w.api) a (appended (w.api a) p);
    api_next = appended_links (w.api a) p (w.api_next);
  }

  on_recv-stored :
      (n a p : ℕ) (w : World S)
      → a ≢ 0
      → p ≢ 0
      → on_recv false n a p w ≡ (
          if not (w.api a).accepted
          then done (err_ok, stored a p w)
          else (recv_a_pbuf false n a p (stored a p w) >>= λ w2. done (err_ok, w2)))
  unfolding on_recv
  on_recv-stored n a p w some_a some_p = elim (Bool-cases ((w.api a).recvd == 0)) [
    | inl e ↦ rw (ne→== a 0 some_a, ne→== p 0 some_p, e) refl
    | inr e ↦ rw (ne→== a 0 some_a, ne→== p 0 some_p, e) refl
  ]

pub update_self {ℓ} : {B : Type ℓ} (f : ℕ → B) (a : ℕ) (v : B) → update f a v a ≡ v
update_self f a v = rw (eq→== a a refl) refl

-- An append changes the ends of the queue only.
appended_keeps :
    (api : Api) (p : ℕ)
    → ((appended api p).handle ≡ api.handle)
      × ((appended api p).cookie ≡ api.cookie)
      × ((appended api p).id ≡ api.id)
      × ((appended api p).accepted ≡ api.accepted)
appended_keeps api p = elim (Bool-cases (api.recvd == 0)) [
  | inl e ↦ rw e (refl, refl, refl, refl)
  | inr e ↦ rw e (refl, refl, refl, refl)
]

-- The connection `a` holds the packets `xs`, and the notifications so far are `evs`.
pub record Conn {S : Type 0} (a handle cookie id : ℕ) (accepted : Bool) (pb : ℕ → Pbuf)
    (pcbs ids : Mempool.State) (xs : List ℕ) (evs : List Event) (w : World S) : Type 0 where
  pub queue : IsQueue w.api_next (queue_of (w.api a)) xs
  pub handle_kept : (w.api a).handle ≡ handle
  pub cookie_kept : (w.api a).cookie ≡ cookie
  pub id_kept : (w.api a).id ≡ id
  pub accepted_kept : (w.api a).accepted ≡ accepted
  pub events_kept : w.events ≡ evs
  pub pbufs_kept : w.pbuf ≡ pb
  pub flat : w.iomap_offset ≡ 0
  pub pcbs_kept : w.pcbs ≡ pcbs
  pub ids_kept : w.ids ≡ ids

module _ {S : Type 0} {a handle cookie id : ℕ} {pb : ℕ → Pbuf} {pcbs ids : Mempool.State} where
  stored-Conn :
      {accepted : Bool} {xs : List ℕ} {evs : List Event} {w : World S} (p : ℕ)
      → Conn a handle cookie id accepted pb pcbs ids xs evs w
      → has p xs ≡ false
      → p ≢ 0
      → Conn a handle cookie id accepted pb pcbs ids (xs ++ p ∷ []) evs (stored a p w)
  stored-Conn {xs = xs} {w = w} p c out some_p =
      let self = update_self (w.api) a (appended (w.api a) p) in
      let (same_handle, same_cookie, same_id, same_accepted) = appended_keeps (w.api a) p in
      record {
        queue =
            subst (λ x. IsQueue (appended_links (w.api a) p w.api_next) (queue_of x) (xs ++ p ∷ []))
              (sym self) (appended-IsQueue w.api_next (w.api a) p xs c.queue out some_p);
        handle_kept = ap (λ x. x.handle) self ∙ same_handle ∙ c.handle_kept;
        cookie_kept = ap (λ x. x.cookie) self ∙ same_cookie ∙ c.cookie_kept;
        id_kept = ap (λ x. x.id) self ∙ same_id ∙ c.id_kept;
        accepted_kept = ap (λ x. x.accepted) self ∙ same_accepted ∙ c.accepted_kept;
        events_kept = c.events_kept;
        pbufs_kept = c.pbufs_kept;
        flat = c.flat;
        pcbs_kept = c.pcbs_kept;
        ids_kept = c.ids_kept;
      }

  noted-Conn :
      {accepted : Bool} {xs : List ℕ} {evs : List Event} {w : World S} (bs : List ℕ)
      → Conn a handle cookie id accepted pb pcbs ids xs evs w
      → Conn a handle cookie id accepted pb pcbs ids xs
          (evs ++ map (notice handle cookie pb) bs)
          (noted a bs w)
  noted-Conn {w = w} bs c = record {
    queue = c.queue;
    handle_kept = c.handle_kept;
    cookie_kept = c.cookie_kept;
    id_kept = c.id_kept;
    accepted_kept = c.accepted_kept;
    events_kept =
        rw (sym c.handle_kept, sym c.cookie_kept, sym c.pbufs_kept)
          (ap (λ es. es ++ map (notice (w.api a).handle (w.api a).cookie (w.pbuf)) bs)
            c.events_kept);
    pbufs_kept = c.pbufs_kept;
    flat = c.flat;
    pcbs_kept = c.pcbs_kept;
    ids_kept = c.ids_kept;
  }

  pub recv_a_pbuf-Conn :
      {accepted : Bool} {xs : List ℕ} {evs : List Event} {w : World S} (n p : ℕ) (bs : List ℕ)
      → Conn a handle cookie id accepted pb pcbs ids xs evs w
      → p ≢ 0
      → Chain (buf_next pb) p bs
      → length bs ≤ n
      → (w' : World S) × (recv_a_pbuf false n a p w ≡ done w')
        × Conn a handle cookie id accepted pb pcbs ids xs
            (evs ++ map (notice handle cookie pb) bs)
            w'
        × (w'.api_next ≡ w.api_next)
  recv_a_pbuf-Conn n p [] c some_p chain h = absurd (some_p chain)
  recv_a_pbuf-Conn {w = w} n p (b ∷ bs) c some_p chain h = (
    noted a (b ∷ bs) w,
    recv_a_pbuf-noted n a p b bs w c.flat
        (subst (λ (x : ℕ → Pbuf). Chain (buf_next x) p (b ∷ bs)) (sym c.pbufs_kept) chain) h,
    noted-Conn (b ∷ bs) c,
    refl,
  )

  pub on_recv-waits :
      {xs : List ℕ} {evs : List Event} {w : World S} (n p : ℕ)
      → Conn a handle cookie id false pb pcbs ids xs evs w
      → a ≢ 0
      → has p xs ≡ false
      → p ≢ 0
      → (w' : World S) × (on_recv false n a p w ≡ done (err_ok, w'))
        × Conn a handle cookie id false pb pcbs ids (xs ++ p ∷ []) evs w'
  on_recv-waits {w = w} n p c some_a out some_p = (
    stored a p w,
    on_recv-stored n a p w some_a some_p ∙ rw (c.accepted_kept) refl,
    stored-Conn p c out some_p,
  )

  pub on_recv-notes :
      {xs : List ℕ} {evs : List Event} {w : World S} (n p : ℕ) (bs : List ℕ)
      → Conn a handle cookie id true pb pcbs ids xs evs w
      → a ≢ 0
      → has p xs ≡ false
      → p ≢ 0
      → Chain (buf_next pb) p bs
      → length bs ≤ n
      → (w' : World S) × (on_recv false n a p w ≡ done (err_ok, w'))
        × Conn a handle cookie id true pb pcbs ids
            (xs ++ p ∷ [])
            (evs ++ map (notice handle cookie pb) bs)
            w'
  on_recv-notes {w = w} n p bs c some_a out some_p chain h =
      let (w', runs, c', same) =
        recv_a_pbuf-Conn n p bs (stored-Conn p c out some_p) some_p chain h in
      (
        w',
        on_recv-stored n a p w some_a some_p
            ∙ ap
                (λ t.
                  if not t
                  then done (err_ok, stored a p w)
                  else (recv_a_pbuf false n a p (stored a p w) >>= λ w2. done (err_ok, w2)))
                c.accepted_kept
            ∙ ap (λ m. m >>= λ w2. done (err_ok, w2)) runs,
        c',
      )
