-- ===== src/Lib.antt =====
-- KNS is a network stack inside the Linux kernel: a driver polls packets into per-CPU receive
-- queues, flow groups tie packets to CPUs and move between CPUs, and the stack above handles
-- Ethernet, ARP, IP, UDP and TCP. Memory comes from pools of fixed-size elements and from a
-- lockless ring of pages. This library models the parts below as functions over explicit states
-- and proves what they promise.
--
-- - Ring: core/ring.c and inc/kns/ring.h. `Ring` is `struct ring` with its slots as a list; each
--   function is one thread's call from start to end, and the 32-bit indices keep their wrap.
--   `Ring/Copy` has the unrolled copies ENQUEUE_PTRS and DEQUEUE_PTRS, `Ring/MultiOps` the
--   multi-producer and multi-consumer calls. `Ring/Steps` takes the single-producer enqueue and
--   the single-consumer dequeue apart into the reads and writes of the shared ring, which any
--   list of events interleaves, with memory that is seen in the order of the stores;
--   `Ring/RaceSteps` does so for two multi-producer enqueues, with the kernel's atomic_cmpxchg as
--   a parameter.
-- - Mempool: core/mempool.c and inc/kns/mempool.h. `Mem` holds the links of all elements, `Pool`
--   and `Datastore` are the two structures, `State` what one call can read and write; the two
--   links of an element are maps of their own, so elements have at least 16 bytes;
--   `Mempool/Setup` creates datastores and pools.
-- - Flow: core/ethfg.c, inc/kns/ethfg.h and the receive side of inc/kns/ethqueue.h. `World` holds
--   the flow groups, the links of all packets and the per-CPU queues; `Flow/Recv` is the
--   reception of a packet, `Flow/Migrate` the move of queued packets to the CPU that a group goes
--   to, `Flow/Assign` the assignment of a group, `Flow/AssignAll` that of the groups of a bitmap,
--   `Flow/Transition` the handlers that end a migration. `Flow/Held` is the abstract view, lists
--   of packets, that the theorems speak of; `Flow/Handover` puts assignment and end together.
-- - Rx: the processing of the receive queues in core/ethqueue.c. The queues lie in memory, by
--   address; the kernel's this_cpu_ptr, which the code applies to the pointers stored for the
--   CPU, is a parameter.
-- - Arp: net/arp.c. `Net` in `Arp/State` is the table, the pools, the transmit queues and what
--   was posted to other CPUs; `Arp/Quiet` has the calls as steps.
-- - Ip: net/ip.c, and send_pending_pkt of net/arp.c, which calls it. `Ip/Output` is
--   ip_output_hinted and tcp_output_packet of net/tcp_api.c, over the buffers of Udp; a chain of
--   lwIP's buffers is the list of their bytes, and one that does not fit in the 2048 bytes of a
--   buffer is a fault.
-- - TcpApi: net/tcp_api.c, the system calls on TCP connections (`TcpApi/Calls`, and
--   `TcpApi/Connect` for bsys_tcp_connect) and the callbacks from TCP (`TcpApi/Events`), over the
--   pools of Mempool. `World` is what one CPU's calls read and write; the field `alive` of a
--   connection is the link word of its pool element, as in the C code. TCP below, `Tcp`, is a
--   record of operations.
-- - Page: references to 2 MB pages, inc/kns/page.h and core/page.c. The page table and the CPU's
--   counters are maps. `Page/Alloc` is the allocator over the ring of free pages.
-- - Udp: net/udp.c over the buffers of inc/kns/mbuf.h. `Udp/State` has the buffers and the world,
--   with the memory pools of Mempool by their addresses, the pages of Page and the network of
--   Arp; `Udp/Iovs` is the scatter-gather array of a payload, `Udp/Loaded` what a queued datagram
--   holds, `Udp/Sent` its way from the call to the release. The offset between the stack's
--   addresses and the application's is one of each pool. The address that a payload is sent from,
--   which the code leaves unset, is an argument. ARP's own packets come from the count of buffers
--   in its network, as in Arp, not from the pools; `Arp/Silent` shows that a lookup sends none
--   while no timer is armed. A new entry of the table is taken to be clear memory. The counters
--   of references are unbounded integers.
-- - Toeplitz: core/toeplitz.c and inc/kns/toeplitz.h, the hash from a table, and
--   compute_toeplitz_hash of net/tcp_api.c, the hash bit by bit.
-- - Chksum: the internet checksum of inc/kns/chksum.h, instruction by instruction on the sum and
--   the carry flag.
-- - Common: Boolean tests, lists, integers, bit masks, linked lists and BUG_ON.
--
-- Each function of the C code has a definition of the same name, less a leading `__`;
-- `assign_rss` is the first part of eth_fg_assign_to_cpu, whose second, migrate_fdir for the
-- groups of the flow director with TCP's tables, is not modelled. A function's pointer arguments
-- become states that it takes and returns. Pointers are natural numbers and NULL is 0. Errors are
-- values: a negated error number is a constructor of its own, and a fault or a BUG_ON that stops
-- is `bug`. BUG_ON is often used the wrong way round in this code, so whether it stops is a
-- parameter, `traps`.
--
-- The loops of the multi-producer and multi-consumer calls wait for other threads, so they run on
-- a number of rounds; with other threads at rest one round of each loop is enough, which the
-- theorems state. The steps of a call in `Ring/Steps` are bounded by its length and need no fuel.
-- The loops of net/tcp_api.c over the packets of a connection, and over the buffers of a packet,
-- run on a number of rounds that the theorems compare with the lengths. The search for a local
-- port runs for at most 4096 rounds, the block of a CPU's ports twice. The loops over queues of
-- packets run for a number of packets, and the length of the queue is enough. The processing of
-- the receive queues runs for 64 rounds, the size of a batch, since every round but the last
-- gives out a packet.
--
-- A packet given to `eth_input` by the queues is recorded in a list; what `eth_input` does with
-- it is modelled apart, in Ip. The checksum instruction behind the hash of the address table is a
-- parameter. Locks (but for the one that net/arp.c fails to give back), memory barriers, logging,
-- the time stamps and counters kept for measurements, and the adapter's flow director filters are
-- left out. The driver under ixgbe, the copies of lwIP under lwip and inc/lwip, and the Linux
-- kernel are not modelled. TCP itself, lwIP's as adapted in net/tcp.c and net/tcp_out.c, is a
-- parameter of TcpApi, as are which user memory may be read, the number of CPUs, what the driver
-- answers to a new filter, and the hash key that bsys_tcp_connect leaves unset.
pub mod Arp
pub mod Chksum
pub mod Common
pub mod Flow
pub mod Ip
pub mod Mempool
pub mod Page
pub mod Ring
pub mod Rx
pub mod TcpApi
pub mod Toeplitz
pub mod Udp
