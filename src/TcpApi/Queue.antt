-- ===== src/TcpApi/Queue.antt =====
-- The packets that a connection of net/tcp_api.c holds: `recvd` and `recvd_tail` are the two ends of a
-- queue, and a packet that comes in is appended.
use kns.Common.{ℕ, ◌≡◌, ◌≢◌, fun_ext, false, inl, inr, List, [], ◌∷◌, ◌++◌, arith}
use kns.Common.Tests.{if◌then◌else◌, ◌==◌, eq→==, Bool-cases}
use kns.Common.Links.{Links, null, set_link, has}
use kns.Flow.Queue.{Queue, IsQueue, enqueue, enqueue-IsQueue, has-last}
use kns.TcpApi.State.{Api}

abbrev pub queue_of : Api → Queue
queue_of api = record { head = api.recvd; tail = api.recvd_tail }

-- The two writes of an append, in the order of net/tcp_api.c.
abbrev pub appended_links : Api → ℕ → Links → Links
appended_links api p next =
    if api.recvd == null
    then set_link next p null
    else set_link (set_link next (api.recvd_tail) p) p null

abbrev pub appended : Api → ℕ → Api
appended api p =
    if api.recvd == null
    then record api { recvd = p; recvd_tail = p }
    else record api { recvd_tail = p }

set_link_swap :
    (next : Links) (t p : ℕ)
    → t ≢ p
    → set_link (set_link next t p) p null ≡ set_link (set_link next p null) t p
set_link_swap next t p h = fun_ext (λ c. ground arith)

tail_apart :
    (next : Links) (q : Queue) (p : ℕ) (xs : List ℕ)
    → IsQueue next q xs
    → has p xs ≡ false
    → q.head ≢ 0
    → q.tail ≢ p
tail_apart next q p [] h out some_head = absurd (some_head h.chain)
tail_apart next q p (x ∷ xs) h out some_head = λ e. ground (arith, has-last q.tail x xs h.last)

pub appended-IsQueue :
    (next : Links) (api : Api) (p : ℕ) (xs : List ℕ)
    → IsQueue next (queue_of api) xs
    → has p xs ≡ false
    → p ≢ 0
    → IsQueue (appended_links api p next) (queue_of (appended api p)) (xs ++ p ∷ [])
unfolding enqueue
appended-IsQueue next api p xs h out some_p =
    let pushed = enqueue-IsQueue next (queue_of api) p xs h out some_p in
    elim (Bool-cases (api.recvd == 0)) [
      | inl e ↦ rw e (rw e at pushed)
      | inr e ↦
          let apart = tail_apart next (queue_of api) p xs h out (λ z. cc (eq→== (api.recvd) 0 z)) in
          rw (e, set_link_swap next (api.recvd_tail) p apart) (rw e at pushed)
    ]
