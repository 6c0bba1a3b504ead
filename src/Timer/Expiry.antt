-- ===== src/Timer/Expiry.antt =====
-- src/timer.c on timers whose time has come, and the start and the end of a queue.
use libckit.Common.{ℕ, zero, suc, false, Option, none, some, if◌then◌else◌}
use libckit.Common.Int.{ℤ, pos, negsuc}
use libckit.Common.Run.{ok, fault, out_of_fuel}
use libckit.Heap
use libckit.Heap.{Items, HeapItem, Malloc}
use libckit.Signal
use mathlib.Core.Option
use libckit.Timer.State.{Env, reading, pure, ◌>>=◌, ◌>>◌}
use libckit.Timer.{Cmd, item_of, lock, unlock, heap_cmp, heap_remove, is_empty}

module _ (e : Env) where
  -- `t->callback(t)`, or the destructor, if there is one
  abbrev pub run : Option ℕ → ℕ → Cmd e (Unit {0})
  run none t q = ok (tt, q)
  run (some f) t q = ok (tt, e.call f t q)

  -- timer_destroy
  abbrev pub destroy : ℕ → Cmd e (Unit {0})
  destroy t = reading λ q. run (item_of e q t).owner.destruct t

  -- heap_remove_first_entry, of a queue that is not empty
  unfoldable pub take_first : Cmd e ℕ
  take_first = heap_remove e 0 >>= λ r. elim r [ some t ↦ pure t | none ↦ λ _. fault ]

  unfoldable pub handle_timeout : Cmd e ℤ
  handle_timeout = do
    lock e
    reading λ q. if is_empty e q then (do unlock e; pure (negsuc 0)) else (do
      t ← take_first
      unlock e
      reading λ q'. run (item_of e q' t).owner.callback t
      pure (pos 0))

  -- the loop of timer_list_destroy
  unfoldable pub destroy_loop : ℕ → Cmd e (Unit {0})
  destroy_loop zero q = out_of_fuel
  destroy_loop (suc k) q =
      let rest : Cmd e (Unit {0}) = do
        t ← take_first
        reading λ q'. run (item_of e q' t).owner.destruct t
        destroy_loop k
      in if is_empty e q then ok (tt, q) else rest q

  unfoldable pub list_destroy : ℕ → Cmd e (Unit {0})
  list_destroy k = do lock e; destroy_loop k; unlock e

  -- The queue is cleared first: its signal has no ends yet, and its heap no array.
  pub queue_init : Cmd e ℤ
  queue_init q =
      let cleared : Signal.Signal = record { read_end = 0; write_end = 0; waiting = pos 0 } in
      let ((ret, sig), s) = Signal.init e.kernel (some cleared) q.system in
      let (status, heap) = Heap.init e.malloc 0 heap_cmp in
      ok (
        ret,
        record {
          queue = record q.queue { heap = heap };
          locked = false;
          signal = Option.get_or sig cleared;
          thr = e.self;
          freed = q.freed;
          system = s;
        },
      )

  pub queue_fini : ℕ → Cmd e (Unit {0})
  queue_fini k = do
    reading λ q q'. ok (tt, record q' { system = Signal.destroy e.kernel q.signal q'.system })
    list_destroy k
    reading λ q q'. ok (tt, record q' { queue = record q.queue { heap = Heap.fini q.queue.heap } })
