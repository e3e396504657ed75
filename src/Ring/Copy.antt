-- ===== src/Ring/Copy.antt =====
-- ENQUEUE_PTRS and DEQUEUE_PTRS of inc/kns/ring.h: pointers are copied between the ring and the
-- caller's table, four to a round and then one by one, or in two runs where the ring wraps.
use Prim.Native.Nat.{bit_and}
use kns.Common.{ℕ, zero, suc, ◌+◌, ◌-◌, ◌*◌, ◌/◌, ◌%◌, ◌^◌, List}
use kns.Common.Tests.{ltb, ◌==◌, if◌then◌else◌}
use kns.Common.Lists.{get_or, set}

-- `dst[di] = src[si]`
abbrev pub put1 : List ℕ → ℕ → List ℕ → ℕ → List ℕ
put1 dst di src si = set dst di (get_or src si 0)

-- `for (...; i++, idx++) dst[..] = src[..]`, `k` rounds
unfoldable pub singles : ℕ → List ℕ → ℕ → List ℕ → ℕ → List ℕ
singles zero dst di src si = dst
singles (suc k) dst di src si = singles k (put1 dst di src si) (di + 1) src (si + 1)

-- the loop that copies four pointers a round
unfoldable pub quads : ℕ → List ℕ → ℕ → List ℕ → ℕ → List ℕ
quads zero dst di src si = dst
quads (suc k) dst di src si =
    let a = put1 dst di src si in
    let b = put1 a (di + 1) src (si + 1) in
    let c = put1 b (di + 2) src (si + 2) in
    quads k (put1 c (di + 3) src (si + 3)) (di + 4) src (si + 4)

-- `switch (n & 0x3)`, whose cases fall through
unfoldable pub rest : ℕ → List ℕ → ℕ → List ℕ → ℕ → List ℕ
rest m dst di src si =
    if m == 3
    then put1 (put1 (put1 dst di src si) (di + 1) src (si + 1)) (di + 2) src (si + 2)
    else if m == 2
    then put1 (put1 dst di src si) (di + 1) src (si + 1)
    else if m == 1
    then put1 dst di src si
    else dst

-- The branch without a wrap: `n / 4` rounds of four, then `n & 3` single ones.
unfoldable pub unrolled : ℕ → List ℕ → ℕ → List ℕ → ℕ → List ℕ
unrolled n dst di src si =
    let m = n / 4 in rest (bit_and n 3) (quads m dst di src si) (di + 4 * m) src (si + 4 * m)

unfoldable pub enqueue_ptrs :
    (size mask : ℕ) (ring : List ℕ) (prod_head : ℕ) (obj_table : List ℕ) (n : ℕ) → List ℕ
enqueue_ptrs size mask ring prod_head obj_table n =
    let idx = bit_and prod_head mask in
    if ltb ((idx + n) % 2 ^ 32) size
    then unrolled n ring idx obj_table 0
    else singles (n - (size - idx)) (singles (size - idx) ring idx obj_table 0) 0 obj_table
        (size - idx)

unfoldable pub dequeue_ptrs :
    (size mask : ℕ) (ring : List ℕ) (cons_head : ℕ) (obj_table : List ℕ) (n : ℕ) → List ℕ
dequeue_ptrs size mask ring cons_head obj_table n =
    let idx = bit_and cons_head mask in
    if ltb ((idx + n) % 2 ^ 32) size
    then unrolled n obj_table 0 ring idx
    else singles (n - (size - idx)) (singles (size - idx) obj_table 0 ring idx) (size - idx) ring 0
