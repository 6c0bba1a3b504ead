-- ===== src/Pbuf/Tests.antt =====
-- src/pbuf.c on a buffer and a pool, and the theorems about it at these.
use libckit.Common.{ℕ, ◌+◌, zero, suc, ◌≤◌, ◌≡◌, refl, [], arith, Option, some}
use libckit.Common.Int.{pos}
use libckit.Common.Run.{ok, fault, Returns}
use libckit.Common.{◌∷◌, false, ◌==◌, if◌then◌else◌}
use libckit.Atomic.{dec, dec_and_test}
use libckit.NodeList.Ring.{Linked}
use libckit.Pbuf.Pool.{
  zeros, Pool, alloc, free, copy, pool_init, move_entry, write_buf, pbuf_init, free_list, use_list,
}
use libckit.NodeList
use libckit.Pbuf.Pool.History
use libckit.Pbuf.Pool.History.{IsPool, Steps-IsPool, allocating, freeing}
use libckit.Pbuf.Pool.Start.{AreNew, Started, pool_init_lem}
use libckit.Pbuf.Pool.Copy.{Copied, copy_lem}
use libckit.Pbuf.Pool.Lists.{HasEntries, Allocated, alloc_lem, free_lem}
use libckit.Pbuf.{Pbuf, head_inside, max_size, push, pull, put, reserve, trim}
use libckit.Pbuf.Bounds.{IsValid, here, next, pushing, trimming, moves_lem, bounds_lem}

-- 16 bytes before the data, 20 bytes of data, and 12 behind them
abbrev packet : Pbuf
packet = record {
  refcount = pos 1;
  ifindex = 0;
  cb = [];
  alloc_len = 48;
  len = 20;
  data_at = 16;
  tail = 36;
  end = 48;
  link_offset = 0;
  network_offset = 0;
  transport_offset = 0;
  payload_offset = 0;
  head = [];
}

packet-IsValid : IsValid packet
packet-IsValid = record { filled = refl; within = omega arith; bounded = omega arith }

-- 12 bytes can be put behind the data, and 14 before them.
moves_lem_example :
    (push packet 14 ≡ ok (2, record packet { data_at = 2; len = 34 }))
    × (put packet 14 ≡ fault)
    × (pull packet 14 ≡ ok (30, record packet { data_at = 30; len = 6 }))
    × (reserve packet 14 ≡ ok (30, record packet { data_at = 30; tail = 50 }))
moves_lem_example = moves_lem packet 14 packet-IsValid

-- 8 bytes are pushed, and all but 4 are cut off.
bounds_lem_example : IsValid (record packet { data_at = 8; len = 4; tail = 12 })
unfolding push trim
bounds_lem_example =
    bounds_lem (next (next here (pushing {at = 8} 8 refl)) (trimming 4 (omega arith)))
      packet-IsValid

-- the packet with the bytes of an entry
abbrev pooled : Pbuf
pooled = record packet { head = zeros (head_inside + max_size) }

-- a pool whose entries 2 and 3 are free, and whose entry 4 is used
abbrev pool : Pool
pool = record {
  nodes = λ q.
      if q == 0
      then (record { prev = 3; next = 2 })
      else if q == 2
      then (record { prev = 0; next = 3 })
      else if q == 3
      then (record { prev = 2; next = 0 })
      else if q == 1
      then (record { prev = 4; next = 4 })
      else record { prev = 1; next = 1 };
  bufs = λ q. pooled;
  locked = false;
  objects = some 2;
  given_back = [];
}

pool-HasEntries : HasEntries pool (2 ∷ 3 ∷ []) (4 ∷ [])
unfolding Linked
pool-HasEntries = record {
  unlocked = refl;
  free_ring = record {
    linked = (refl, refl, (refl, refl, (refl, refl)));
    distinct = ((omega arith, (omega arith, tt)), ((omega arith, tt), (tt, tt)));
  };
  use_ring = record {
    linked = (refl, refl, (refl, refl));
    distinct = ((omega arith, tt), (tt, tt));
  };
  apart = (
    (omega arith, (omega arith, tt)),
    ((omega arith, (omega arith, tt)), ((omega arith, (omega arith, tt)), tt)),
  );
}

alloc_lem_example : Returns (Allocated 100 pool (4 ∷ []) (2 ∷ 3 ∷ [])) (alloc 100 pool)
alloc_lem_example = alloc_lem 100 pool (2 ∷ 3 ∷ []) (4 ∷ []) (omega arith) pool-HasEntries

free_lem_example :
    Returns (λ p'. ((p'.bufs 4).refcount ≡ pos 0) × HasEntries p' (4 ∷ 2 ∷ 3 ∷ []) []) (free 4 pool)
unfolding dec dec_and_test
free_lem_example = free_lem 4 pool (2 ∷ 3 ∷ []) [] [] pool-HasEntries

far-AreNew : (n e : ℕ) → 5 ≤ e → AreNew n e (2 ∷ 3 ∷ []) (4 ∷ [])
far-AreNew zero e far = tt
far-AreNew (suc n) e far = (
  (omega arith, (omega arith, (omega arith, tt))),
  (omega arith, (omega arith, tt)),
  far-AreNew n (suc e) (omega arith),
)

abbrev calloc_example : ℕ → Option ℕ
calloc_example n = some 100

pool_init_lem_example :
    Started pool (2 ∷ 3 ∷ []) (4 ∷ []) 20 (some 100) (pool_init calloc_example 1 pool)
pool_init_lem_example =
    pool_init_lem calloc_example 1 pool (2 ∷ 3 ∷ []) (4 ∷ [])
      (λ n e found. far-AreNew n e (at e found)) pool-HasEntries
  where
    at : (e : ℕ) → some 100 ≡ some e → 5 ≤ e
    at e found = let same : 100 ≡ e = cc in omega arith

copy_lem_example : Returns (Copied 4 pool (4 ∷ []) (2 ∷ 3 ∷ [])) (copy 4 pool)
copy_lem_example =
    copy_lem 4 pool (2 ∷ 3 ∷ []) (4 ∷ []) (omega arith, (omega arith, tt)) (omega arith)
      (omega arith) pool-HasEntries

-- the pool after pbuf_alloc of 100 bytes, and pbuf_free of entry 4
abbrev allocated : Pool
allocated =
    write_buf 2 (record (pbuf_init pooled 100) { alloc_len = 100 })
      (record pool { nodes = NodeList.move 2 use_list pool.nodes })

abbrev freed : Pool
freed = record (write_buf 4 (record pooled { refcount = pos 0 }) allocated) {
  nodes = NodeList.move 4 free_list allocated.nodes;
}

Steps-IsPool_example : IsPool freed 3
unfolding alloc free move_entry dec dec_and_test NodeList.move NodeList.del NodeList.add_front
    NodeList.set_next NodeList.set_prev
Steps-IsPool_example =
    Steps-IsPool 3
      (History.next
        (History.next History.here (allocating 100 {r = (some 2, allocated)} (omega arith) refl))
        (freeing 4 {p' = freed} (record { other = omega arith; links = 2; found = refl }) refl))
      (record { frees = 2 ∷ 3 ∷ []; uses = 4 ∷ []; entries = pool-HasEntries; number = refl })
