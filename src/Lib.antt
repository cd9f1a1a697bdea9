-- ===== src/Lib.antt =====
-- fast_mpmc_queue: the queues of the library, with the theorems that make them correct.
--
-- The program. include/xtxn/static_fast_mpmc_queue.hpp is a queue over a fixed array of slots,
-- and include/xtxn/dynamic_fast_mpmc_queue.hpp one over a ring of slots that grows by blocks. A
-- producer or a consumer asks for a slot, gets an accessor to it, works on the payload in place,
-- and its accessor's destructor hands the slot on. Both take the states of a slot and the
-- completion of an accessor from include/xtxn/fast_mpmc_queue_commons.hpp; the static queue
-- visits its slots by the counters of include/xtxn/algo.hpp, the dynamic one guards `grow` by
-- include/xtxn/spinlock.hpp. include/xtxn/mpsc_queue.hpp and include/xtxn/mpmcsl_queue.hpp are
-- unbounded queues of linked nodes, the second with the spinlock around each operation.
-- include/xtxn/color_barrier.hpp is a barrier of two kinds of locks, which
-- include/xtxn/mpmcdd_queue.hpp, a linked queue with deferred deletion, uses.
-- include/xtxn/mpmc_queue.hpp is a linked queue whose `purge` deletes the nodes of old epochs.
--
-- The files.
--   Prelude    names of the libraries passed on, Boolean tests, integers, sums over families.
--   Algo       `iterate_post_inc` and `iterate_pre_inc` (algo.hpp).
--   Slots      `queue_slot_state` and the completion; the slot protocol, an abstract
--              specification of what both queues do with a slot (Protocol), its invariant
--              (Counts, Invariant, Moves, Bounds), what it hands over (Delivery), and threads
--              that run a program (Threads).
--   Static     `static_fast_mpmc_queue`: a function for each access that its functions make;
--              Machine runs threads, View maps a state to the protocol, Refine and Invariant
--              carry the proofs.
--   Barrier    `color_barrier` with `red_lock` and `green_lock`.
--   Spinlock   `spinlock`, and the region that it guards.
--   Linked     `mpsc_queue` and `mpmcsl_queue` in one model: the functions and the threads, the
--              chain of nodes (Chain), its accesses (Steps) and gaps (Whole), the invariant
--              (Invariant), calls of `empty` by the consumer (Reading), the theorems (Safety, and
--              Destroy for the destructors and `empty` at rest).
--   Nodes      what the linked queues share: the pointers that wait after the head, and nodes that
--              are named in the order of their links; Destroy has the loops of two destructors.
--   Deferred   `mpmcdd_queue`: `purge` as it runs alone (Laws), and the threads interleaved
--              (Machine): what becomes of the calls of `enqueue` (Account), the order of the nodes and what threads know (Order), marks and retired
--              nodes (Shape), the invariant (Invariant), the place of `m_tail` (Tail), Safety,
--              and Destroy for the destructor.
--   Epoch      `mpmc_queue`: its state, Register for the map of epochs, Transfer for the loops of
--              `enqueue` and `dequeue`, Purge, Machine for the threads; Account and Balance for what
--              becomes of the calls of `enqueue`, Order, Moves and Invariant for the nodes, Locks, Epochs and Ages, Sweep and Retain for what `purge` does to
--              its list, Safety, and Destroy for the destructor.
--   Dynamic    `dynamic_fast_mpmc_queue`: Grow, Produce and Consume hold the functions, Machine
--              runs threads, View, Access and Refine map to the protocol, Ring, Capacity, Limit
--              and Lock carry what is the dynamic queue's own, Invariant puts it together.
--
-- How the model reads the code. A thread is at a program point (`Pc`) that carries the local
-- variables that are live; one step of a thread is one access of a shared variable with the local
-- work that follows it. A schedule is a list of pairs of a thread and what it chooses (a call, a
-- write, the destruction of its accessor, a spurious failure of a weak compare-exchange, a
-- failing allocation), and `run` executes it, so a statement about every schedule is one about
-- every interleaving. Accesses are sequentially consistent. A slot of the dynamic queue is named
-- by its place in the order of allocation, so slot `k` of block `b` is `b * block_size + k`.
-- Counters keep the width of the source: the free counter and the capacity are signed of 32 bits,
-- the counters of the static queue unsigned of 64, the attempts unsigned of 32. The parameters of
-- a dynamic queue fit `n` threads (`IsFit`) when a block has more than one slot, a block is
-- allowed, and the slots of `max_blocks + 2 * n + 1` blocks are fewer than 2^31, so that its
-- counters do not wrap. Loops are steps of the machine, so they need no fuel; the subtraction
-- loop of `iterate_post_inc` runs on fuel equal to its argument, which is enough since a round
-- takes at least one off. The destructor of a linked queue runs on fuel of one round for each
-- node from the head to the tail; the loop of `purge` of mpmcdd_queue, as it runs
-- alone, takes its fuel as an argument. A
-- node of a linked queue is named by its place in the order in which `m_tail.exchange` takes the
-- nodes in, since it is private to its thread before that; what a thread does to a node right
-- after an access, without another access between, belongs to that step.
--
-- The nodes of mpmcdd_queue and mpmc_queue are named by their place in the order of the
-- compare-exchanges that link them; a deleted node is marked as such (`freed`) and keeps its
-- members. The assertions on the epoch are a place where a thread stops (`aborted`). Both machines
-- log the payloads that `enqueue` is called with (`called`), those of the calls that return false
-- (`refused`), those that it drops and returns true since its loop finds `m_producing` clear
-- (`leaked`), and those that enter the queue (`enqueued`). The map from
-- threads to epochs is a list of pairs, in which a thread stands once.
--
-- The destructors of mpmcdd_queue and mpmc_queue run on fuel of a round for each node that was
-- ever linked.
--
-- Not modelled. The relaxed memory orders, the alignment of members, the destructor of the dynamic
-- queue, exceptions of a payload's own operations, and the programs under src and tests, which
-- exercise the queues.
pub mod Prelude
pub mod Spinlock
pub mod Barrier
pub mod Nodes
pub mod Linked
pub mod Deferred
pub mod Epoch
pub mod Slots
pub mod Algo
pub mod Static
pub mod Dynamic
