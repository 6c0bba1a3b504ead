-- ===== src/Timer/Tests.antt =====
-- src/timer.c on a queue with two timers, and the theorems about it at this queue.
use mathlib.Core.List.{Perm}
use libckit.Common.{
  ℕ, ◌≡◌, refl, true, false, ◌∷◌, [], none, some, arith, ◌==◌, ltb, ◌&&◌, if◌then◌else◌,
}
use libckit.Common.Int.{pos, scale, ltb_ℤ, ◌-ℤ◌}
use libckit.Common.Run.{ok, Returns}
use libckit.Common.Arrays.{at}
use libckit.Heap.{HeapItem}
use libckit.Heap.Valid.{IsValid, contents}
use libckit.Heap.Remove.{Removed}
use libckit.Heap.Tests.{calloc, calloc-IsHonest}
use libckit.Signal.Tests.{sample_kernel, sig, two}
use libckit.Time.Timespec.{Timespec, add_nsec}
use libckit.Time.Timespec.Totals.{IsNormal, total}
use libckit.Timer.{Queue, heap_cmp, next_timeout_timespec, add, scheduled}
use libckit.Timer.Expiry.{run, handle_timeout, list_destroy}
use libckit.Timer.State.{Env, Timer}
use libckit.Timer.Removal.{handle_timeout_lem, list_destroy_lem}
use libckit.Timer.Next.{next_timeout_timespec_lem}
use libckit.Timer.Adding.{add_lem}

abbrev at_second : ℕ → Timespec
at_second n = record { sec = pos n; nsec = pos 0 }

-- thread 0, at second 5; callbacks do nothing
abbrev env : Env
env = record {
  kernel = sample_kernel;
  rounds = 3;
  malloc = calloc;
  self = 0;
  clock_gettime = λ ts s. ((pos 0, at_second 5), s);
  call = λ f t q. q;
  junk = at_second 0;
}

-- timer 1 at second 9, timer 2 at second 7; timer 3 was not added yet
abbrev items : ℕ → HeapItem Timer
items p = record {
  index = if p == 2 then 1 else 0;
  active = if ltb 0 p && ltb p 3 then 1 else 0;
  owner = record {
    timeout = at_second (if p == 1 then 9 else if p == 2 then 7 else 0);
    expires = pos 1_000_000;
    callback = some 4;
    destruct = none;
    user_data = 0;
  };
}

abbrev queue : Queue env
queue = record {
  queue = record {
    heap = record { max_size = 4; size = 2; cmp = heap_cmp; map = 1 ∷ 2 ∷ 0 ∷ 0 ∷ [] };
    items = items;
  };
  locked = false;
  signal = sig;
  thr = 0;
  freed = [];
  system = two (pos 5) (pos 9);
}

queue-IsValid : IsValid queue.queue
unfolding at
queue-IsValid = grind arith

handle_timeout_lem_example :
    Returns
      (λ r.
        (r.0 ≡ pos 0)
        × (q' : Queue env) × Removed queue.queue 0 (some 1, q'.queue)
        × (q'.locked ≡ false)
        × (run env (some 4) 1 q' ≡ ok (tt, r.1)))
      (handle_timeout env queue)
unfolding at
handle_timeout_lem_example = handle_timeout_lem env queue refl queue-IsValid (omega arith)

list_destroy_lem_example :
    Returns (λ r. (r.1.queue.heap.size ≡ 0) × (r.1.locked ≡ false)) (list_destroy env 3 queue)
list_destroy_lem_example =
    list_destroy_lem env 3 queue refl (λ f t q v. (v, refl)) queue-IsValid (omega arith)

at_second-IsNormal : (n : ℕ) → IsNormal (at_second n)
at_second-IsNormal n = record { low = omega arith; high = omega arith }

next_timeout_timespec_lem_example :
    Returns
      (λ r.
        (r.0.0 ≡ pos 1)
        × ((t : Timespec) × (r.0.1 ≡ some t)
            × IsNormal t
            × (total t ≡ (
                if ltb_ℤ (total (at_second 9)) (total (at_second 5))
                then pos 0
                else total (at_second 9) -ℤ total (at_second 5))))
        × (r.1.queue ≡ queue.queue)
        × (r.1.locked ≡ false))
      (next_timeout_timespec env queue)
unfolding at
next_timeout_timespec_lem_example =
    next_timeout_timespec_lem env queue refl queue-IsValid (omega arith) (at_second-IsNormal 9)
      (at_second-IsNormal 5)

add_lem_example :
    Returns
      (λ r.
        (r.0 ≡ pos 1)
        × IsValid r.1.queue
        × Perm (contents r.1.queue) (3 ∷ 1 ∷ 2 ∷ [])
        × (scheduled env r.1 3 ≡ true)
        × ((r.1.queue.items 3).owner ≡ record (items 3).owner {
          timeout = add_nsec (at_second 5) (scale 1000 (pos 1_000_000));
        })
        × (r.1.locked ≡ false))
      (add env 3 queue)
add_lem_example =
    add_lem env queue 3 refl queue-IsValid (omega arith) calloc-IsHonest (λ f. cc) refl
