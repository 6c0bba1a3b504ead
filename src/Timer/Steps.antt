-- ===== src/Timer/Steps.antt =====
-- What the steps that the functions of src/timer.c share do to a queue.
use libckit.Common.{ℕ, ◌<◌, ◌≡◌, refl, true, false}
use libckit.Common.Run.{Run, ok, Returns, returns, Returns-inv}
use libckit.Heap.Valid.{IsValid}
use libckit.Heap.Remove.{Removed, remove-Removed}
use libckit.Timer.{Queue, lock, signal_raise, heap_remove}
use libckit.Timer.State.{Env, TimerQueue, and_then}

pub Returns-then :
    {S A B : Type 0} {P : A × TimerQueue S → Type 0} {Q : B × TimerQueue S → Type 0}
    {r : Run (A × TimerQueue S)} {f : A → TimerQueue S → Run (B × TimerQueue S)}
    → Returns P r
    → ((a : A) (q : TimerQueue S) → P (a, q) → Returns Q (f a q))
    → Returns Q (and_then r f)
Returns-then (returns p) k = k _ _ p

module _ (e : Env) where
  pub lock-ok : (q : Queue e) → q.locked ≡ false → lock e q ≡ ok (tt, record q { locked = true })
  unfolding lock
  lock-ok q free = rw free refl

  -- The queue differs at most in the system's state.
  pub signal_raise-Keeps :
      (q : Queue e)
      → Returns (λ r. (r.1.queue ≡ q.queue) × (r.1.locked ≡ q.locked)) (signal_raise e q)
  unfolding signal_raise
  signal_raise-Keeps q = returns (refl, refl)

  pub heap_remove-Removed :
      (q : Queue e) (index : ℕ)
      → IsValid q.queue
      → index < q.queue.heap.size
      → Returns
          (λ r. Removed q.queue index (r.0, r.1.queue) × (r.1 ≡ record q { queue = r.1.queue }))
          (heap_remove e index q)
  unfolding heap_remove
  heap_remove-Removed q index v inside =
      let ((r, w), done, removed) = Returns-inv (remove-Removed q.queue index v inside) in
      rw (done, heap_remove) (returns (removed, refl))
