-- ===== src/TcpApi/Done.antt =====
-- bsys_tcp_recv_done of net/tcp_api.c: which packets an acknowledgement of received data frees.
use kns.Common.{
  ℕ, zero, suc, ◌+◌, ◌-◌, ◌%◌, ◌^◌, ◌≤◌, ◌<◌, ◌≡◌, refl, ap, sym, ◌∙◌, subst, false, inl, inr, List,
  [], ◌∷◌, ◌++◌, append-nil, append_assoc, arith,
}
use kns.Common.Tests.{if◌then◌else◌, ◌==◌, ltb, eq→==, ne→==, Bool-cases}
use kns.Common.Links.{null, Chain, Distinct, Distinct-append_right}
use kns.Common.Lists.{length}
use kns.Flow.World.{update}
use kns.Flow.Queue.{IsQueue, IsLast}
use kns.TcpApi.{pbuf_free}
use kns.TcpApi.Calls.{free_covered, bsys_tcp_recv_done}
use kns.TcpApi.Deliver.{buf_next, update_self}
use kns.TcpApi.Handle.{handle_of, elem_at, IsOpen, looked_up, lookup_open}
use kns.TcpApi.Queue.{queue_of}
use kns.TcpApi.State.{Run, done, Api, Pbuf, World, Tcp, value, set_api}

-- The length of a list of buffers, each counted by its own length.
abbrev pub total : (ℕ → Pbuf) → List ℕ → ℕ
total pb [] = 0
total pb (p ∷ ps) = (pb p).len + total pb ps

-- `left` does not cover the first packet of the list.
abbrev pub Stops : (ℕ → Pbuf) → (left : ℕ) → List ℕ → Type 0
Stops pb left [] = Unit {0}
Stops pb left (p ∷ ps) = left < (pb p).len

-- What freeing the packets that `len` covers comes to, from the packets `xs`.
record Freed {S : Type 0} (xs : List ℕ) (len : ℕ) (w : World S) (out : Run (ℕ × World S))
    : Type 0 where
  gone : List ℕ
  rest : List ℕ
  head : ℕ
  parts : gone ++ rest ≡ xs
  within : total w.pbuf gone ≤ len
  stops : Stops w.pbuf (len - total w.pbuf gone) rest
  runs : out ≡ done (head, record w { freed = w.freed ++ gone })
  chain : Chain w.api_next head rest

module _ {S : Type 0} where
  free_covered-Freed :
      (rounds recvd len : ℕ) (xs : List ℕ) (w : World S)
      → Chain w.api_next recvd xs
      → length xs ≤ rounds
      → Freed xs len w (free_covered rounds recvd len w)
  unfolding free_covered
  free_covered-Freed zero recvd len [] w c h = record {
    gone = [];
    rest = [];
    head = recvd;
    parts = refl;
    within = omega arith;
    stops = tt;
    runs = rw (eq→== recvd 0 c, append-nil (w.freed)) refl;
    chain = c;
  }
  free_covered-Freed zero recvd len (x ∷ xs) w c h = absurd (omega arith)
  free_covered-Freed (suc rounds) recvd len [] w c h = record {
    gone = [];
    rest = [];
    head = recvd;
    parts = refl;
    within = omega arith;
    stops = tt;
    runs = rw (eq→== recvd 0 c, append-nil (w.freed)) refl;
    chain = c;
  }
  free_covered-Freed (suc rounds) recvd len (x ∷ xs) w c h =
      let size : ℕ = (w.pbuf x).len in
      elim (Bool-cases (ltb len size)) [
        | inl short ↦ record {
          gone = [];
          rest = x ∷ xs;
          head = recvd;
          parts = refl;
          within = omega arith;
          stops = ground arith;
          runs = rw (c.0, ne→== x 0 c.1, short, append-nil (w.freed)) refl;
          chain = c;
        }
        | inr covered ↦
            let more =
              free_covered-Freed rounds (w.api_next x) (len - size) xs (pbuf_free x w) c.2
                (omega arith) in
            record {
              gone = x ∷ more.gone;
              rest = more.rest;
              head = more.head;
              parts = ap (λ l. x ∷ l) more.parts;
              within = ground (arith, more.within);
              stops = subst (λ t. Stops w.pbuf t more.rest) (omega arith) more.stops;
              runs =
                  rw (c.0, ne→== x 0 c.1, covered)
                    (more.runs
                      ∙ ap (λ l. done (more.head, record w { freed = l }))
                          (append_assoc (w.freed) (x ∷ []) more.gone));
              chain = more.chain;
            }
      ]

IsLast-append_right : (t : ℕ) (xs ys : List ℕ) → IsLast t (xs ++ ys) → IsLast t ys
IsLast-append_right t [] ys h = h
IsLast-append_right t (x ∷ xs) [] h = tt
IsLast-append_right t (x ∷ []) (y ∷ ys) h = h
IsLast-append_right t (x ∷ x' ∷ xs) (y ∷ ys) h = IsLast-append_right t (x' ∷ xs) (y ∷ ys) h

both_gone :
    (pb : ℕ → Pbuf) (p q : ℕ) (bs xs gone rest : List ℕ)
    → gone ++ rest ≡ p ∷ q ∷ xs
    → Stops pb (total pb (p ∷ bs) - total pb gone) rest
    → (pb q).len ≤ total pb bs
    → (more : List ℕ) × (gone ≡ p ∷ q ∷ more)
both_gone pb p q bs xs [] [] e stops long = absurd (cc e)
both_gone pb p q bs xs [] (r ∷ rest) e stops long = absurd (ground arith)
both_gone pb p q bs xs (g ∷ []) [] e stops long = absurd (cc e)
both_gone pb p q bs xs (g ∷ []) (r ∷ rest) e stops long = absurd (ground arith)
both_gone pb p q bs xs (g ∷ g' ∷ gone) rest e stops long = (gone, cc)

module _ {S : Type 0} (tcp : Tcp S) where
  -- TCP's state after it is told of `len` bytes.
  abbrev pub told : (fg_id idx len : ℕ) → World S → S
  told fg_id idx len w =
      let pcb = (w.api (elem_at w idx)).pcb in
      if pcb == null then w.tcp else tcp.recved fg_id pcb (len % 2 ^ 32) (w.tcp)

  told_world : (fg_id idx len : ℕ) → World S → World S
  told_world fg_id idx len w = record (looked_up fg_id idx w) { tcp = told fg_id idx len w }

  told-branch :
      (fg_id idx len : ℕ) (w : World S)
      → (let w1 = looked_up fg_id idx w in
          let pcb = (w1.api (elem_at w idx)).pcb in
          if pcb == null
          then w1
          else record w1 { tcp = tcp.recved (w1.cur_fg) pcb (len % 2 ^ 32) (w1.tcp) })
        ≡ told_world fg_id idx len w
  unfolding told_world
  told-branch fg_id idx len w = elim (Bool-cases ((w.api (elem_at w idx)).pcb == 0)) [
    | inl e ↦ rw e refl
    | inr e ↦ rw e refl
  ]

  -- With the checks passed, an acknowledgement of `len` bytes on an open connection with the packets
  -- `xs` ends and answers 0: it frees the packets at the front for which `len` suffices, each
  -- counted by its first buffer, and keeps the others in order; TCP is told of `len` bytes.
  pub bsys_tcp_recv_done-frees :
      {w : World S} (nr_cpus fg_id idx rounds len : ℕ) (xs : List ℕ)
      → IsOpen nr_cpus fg_id idx w
      → IsQueue w.api_next (queue_of (w.api (elem_at w idx))) xs
      → length xs ≤ rounds
      → (gone : List ℕ) × (rest : List ℕ) × (w' : World S) × (gone ++ rest ≡ xs)
        × (total w.pbuf gone ≤ len)
        × Stops w.pbuf (len - total w.pbuf gone) rest
        × (bsys_tcp_recv_done tcp false nr_cpus rounds (handle_of fg_id idx) len w
            ≡ done (value 0, w'))
        × (w'.freed ≡ w.freed ++ gone)
        × IsQueue w'.api_next (queue_of (w'.api (elem_at w idx))) rest
        × (w'.tcp ≡ told fg_id idx len w)
  unfolding bsys_tcp_recv_done told_world
  bsys_tcp_recv_done-frees {w} nr_cpus fg_id idx rounds len xs o q room =
      let a : ℕ = elem_at w idx in
      let w2 : World S = told_world fg_id idx len w in
      let f = free_covered-Freed rounds (w.api a).recvd len xs w2 q.chain room in
      let w3 : World S = record w2 { freed = w.freed ++ f.gone } in
      let api' : Api = record (w.api a) { recvd = f.head } in
      let self : update (w.api) a api' a ≡ api' = update_self (w.api) a api' in
      (
        f.gone,
        f.rest,
        set_api a api' w3,
        f.parts,
        f.within,
        f.stops,
        rw (lookup_open o, told-branch fg_id idx len w, f.runs) refl,
        refl,
        subst (λ x. IsQueue w.api_next (queue_of x) f.rest) (sym self)
            (record {
              chain = f.chain;
              last =
                  IsLast-append_right (w.api a).recvd_tail f.gone f.rest
                    (subst (λ l. IsLast (w.api a).recvd_tail l) (sym f.parts) q.last);
              distinct =
                  Distinct-append_right f.gone f.rest
                    (subst (λ l. Distinct l) (sym f.parts) q.distinct);
            }),
        refl,
      )

  -- With the checks passed and the rounds enough, the application that acknowledges all buffers of
  -- the first packet of an open connection frees the second packet too, if the further buffers of
  -- the first are as long as it.
  pub bsys_tcp_recv_done-frees_unread :
      {w : World S} (nr_cpus fg_id idx rounds p q : ℕ) (bs xs : List ℕ)
      → IsOpen nr_cpus fg_id idx w
      → IsQueue w.api_next (queue_of (w.api (elem_at w idx))) (p ∷ q ∷ xs)
      → length (p ∷ q ∷ xs) ≤ rounds
      → Chain (buf_next w.pbuf) p (p ∷ bs)
      → (w.pbuf q).len ≤ total w.pbuf bs
      → (more : List ℕ) × (w' : World S) × (bsys_tcp_recv_done tcp false nr_cpus rounds
            (handle_of fg_id idx)
            (total w.pbuf (p ∷ bs))
            w
          ≡ done (value 0, w'))
        × (w'.freed ≡ w.freed ++ p ∷ q ∷ more)
  bsys_tcp_recv_done-frees_unread {w} nr_cpus fg_id idx rounds p q bs xs o queue room chain long =
      let (gone, rest, w', parts, within, stops, runs, freed, queue', told) =
        bsys_tcp_recv_done-frees nr_cpus fg_id idx rounds (total w.pbuf (p ∷ bs)) (p ∷ q ∷ xs) o
          queue room in
      let (more, e) = both_gone w.pbuf p q bs xs gone rest parts stops long in
      (more, w', runs, rw (← e) freed)
