-- ===== src/Lib.antt =====
-- libckit, a library of data structures and event primitives in C (`include/ckit` and `src`), as a
-- model that computes, with proofs about it.
--
-- The parts, and the files that model them:
--
-- - `Heap.antt`: the heap of `include/ckit/heap.h` and `src/heap.c`, one function for each of the
--   source's, by the source's names less their prefix (`insert` for heap_insert, `heapify` for
--   heap_heapify). An item is embedded in an object of any type; a pointer to one is a number, and
--   `World` is a heap together with what the pointers point to. `Heap/Valid.antt` has the
--   invariants; the files beside it have the proofs, by operation.
-- - `Time.antt`: the macros of `include/ckit/time.h`, in `Time/Timespec.antt` and
--   `Time/Timeval.antt`, and what they do to the instant that a value stands for.
-- - `Atomic.antt`: the counters of `include/ckit/atomic.h`, on an `int` that wraps round.
-- - `Signal.antt`: the signal between threads of `include/ckit/signal.h` and `src/signal.c`, over a
--   pipe. `Signal/Pipe.antt` names the system calls and what their manual pages say of a pipe.
-- - `Timer.antt`: the timer queue of `include/ckit/timer.h` and `src/timer.c`, as commands over its
--   state (`Timer/State.antt`); `Timer/Expiry.antt` has timer_handle_timeout, and the start and the
--   end of a queue. It is a client of the heap, the signal and the time macros, and
--   calls their models. A callback is a number, and the environment says what a call of it does.
-- - `NodeList.antt`: the circular lists of `include/ckit/list.h`, as nodes in a store, and the
--   sequences of nodes that they stand for (`NodeList/Ring.antt`, `Back.antt`, `Del.antt`,
--   `Move.antt`, `Among.antt`).
-- - `Pbuf.antt`: the packet buffers of `include/ckit/pbuf.h` and `src/pbuf.c`, and their bounds;
--   `Pbuf/Pool.antt` is the pool that they are taken from, a client of the lists, and
--   `Pbuf/Pool/Lists.antt`, `Start.antt`, `Copy.antt` and `History.antt` are about what its
--   operations do to it.
-- - `HashTable.antt`: the hash table of `include/ckit/hashtable.h` and `src/hashtable.c`, a client of
--   the lists and the counters, by the source's names less their prefix (`hash` for hashtable_hash,
--   `remove` for `__unhash`). `HashTable/State.antt` has the table, its slots and the elements, and
--   `HashTable/Valid.antt` the invariant; an element and its list node have one number.
-- - `RbTree.antt`: the tree of `include/ckit/rbtree.h` and `src/rbtree.c`, by the source's names less
--   their prefix (`insert` for `_rb_tree_insert`, `insert_copies` for rb_tree_insert, which is another
--   function). `RbTree/State.antt` has the nodes, `RbTree/Shape.antt` the trees that they make,
--   `RbTree/Turn.antt` the rotations, and `RbTree/Walk.antt` the walk of rb_tree_print_in_order.
-- - `Event.antt`: events on descriptors, `include/ckit/event.h`, over epoll (`Event/Epoll.antt` for
--   `src/event_epoll.c`) and over kqueue (`Event/Kqueue.antt` for `src/event_kqueue.c`). The kernel
--   and the numbers of its interfaces are parameters; a word of flags is kept as its bits.
-- - `Log.antt`: the logs of `include/ckit/log.h` and `src/log.c`. A stream is a number, and what is
--   written is text of any type; fopen and what vfprintf returns are parameters.
-- - `Debug.antt`: logs with a level, and the default log, of `include/ckit/debug.h` and
--   `src/debug.c`, a client of the logs. `Debug/Hexdump.antt` is hexdump, with what snprintf writes.
-- - `Hash.antt`: the hash functions of `include/ckit/hash.h`, on 64 bits.
-- - `Common.antt`: what these share: integers over the native numbers, words of 32 bits, lists in
--   place of arrays, and runs of code that may end in a fault.
--
-- How the code is rendered. An access outside of an array, and a failed `assert`, is a `fault`; so
-- is locking a mutex that is held. An `unsigned int` is a number with its wrap-around written out;
-- `long` and `time_t` are integers without bounds, so that overflow there is not modelled. A
-- function that writes through a pointer returns what it writes. Sizes are those of an LP64 machine:
-- `struct pbuf` has 80 bytes, four of which are the first ones from its `head` on.
--
-- Fuel. The loop of heap_insert gets one round more than the heap's size, since the index halves in
-- each round; heap_heapify likewise, since it grows. The loops of signal_clear_val and
-- signal_wait_val and that of timer_list_destroy take their fuel as an argument, and the theorems
-- about them say how much is enough. A walk over a slot of the hash table gets one round more than
-- the slot counts elements. The loops on the red-black tree take their fuel as an argument.
--
-- Not modelled: the use of memory after it was given back to the allocator; threads that run between
-- the steps of a call on the hash table; values that the kernel writes to `errno`; the messages that
-- the other parts log, and how a message is put together from its format; and the parts for Android.
pub mod Common
pub mod Heap
pub mod Time
pub mod Atomic
pub mod Signal
pub mod Timer
pub mod Debug
pub mod Event
pub mod Hash
pub mod HashTable
pub mod Log
pub mod NodeList
pub mod Pbuf
pub mod RbTree
