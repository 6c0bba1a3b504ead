-- ===== src/Timer/Next.antt =====
-- timer_queue_signal_lower, timer_next_timeout_timespec
use libckit.Common.{
  ℕ, ◌<◌, ◌≡◌, refl, ap, true, false, List, [], some, arith, Bool-cases, ◌==◌, if◌then◌else◌, inl,
  inr,
}
use libckit.Common.Int.{ℤ, pos, ◌-ℤ◌, ltb_ℤ, -ℤ_parts, eq_of_parts}
use libckit.Common.Run.{ok, Returns, returns, Returns-inv}
use libckit.Heap.Slots.{load-ok}
use libckit.Heap.Valid.{IsValid, slot}
use libckit.Signal.Pipe.{IsPipe}
use libckit.Signal.Drain.{clear_val_lem}
use libckit.Time.Timespec
use libckit.Time.Timespec.{Timespec}
use libckit.Time.Timespec.Totals.{IsNormal, total, total_parts, total-sub}
use libckit.Timer.{
  Queue, none_raised, signal_lower, classify, next_timeout_timespec, gettime, clamp, zero_time,
  remaining, now, front,
}
use libckit.Timer.State.{Env}
use libckit.Timer.Steps.{lock-ok}

clamp-total :
    (t : Timespec)
    → IsNormal t
    → IsNormal (clamp t) × (total (clamp t) ≡ (if ltb_ℤ (total t) (pos 0) then pos 0 else total t))
unfolding clamp
clamp-total t n = elim (Bool-cases (ltb_ℤ t.sec (pos 0))) [
  | inl before ↦
      let is_less : ltb_ℤ (total t) (pos 0) ≡ true = ground (arith, total_parts t, n.low, n.high) in
      rw (before, is_less) (record { low = omega arith; high = omega arith }, zero_total)
  | inr later ↦
      let not_less : ltb_ℤ (total t) (pos 0) ≡ false =
        ground (arith, total_parts t, n.low, n.high) in
      rw (later, not_less) (n, refl)
]
  where
    zero_total : total zero_time ≡ pos 0
    zero_total = eq_of_parts _ _ (omega (arith, total_parts zero_time))

before-sub : (a b : ℤ) → ltb_ℤ (a -ℤ b) (pos 0) ≡ ltb_ℤ a b
before-sub a b = ground (arith, -ℤ_parts a b)

module _ (e : Env) where
  -- If the kernel keeps the laws of a pipe on the queue's signal, timer_queue_signal_lower, given
  -- more rounds than values fit into the pipe, empties the pipe and returns TIMER_SIGNAL_NONE,
  -- whatever was in the pipe; the timers stay.
  pub signal_lower_lem :
      (q : Queue e) (pending : e.kernel.State → List ℤ) (capacity : ℕ)
      → IsPipe e.kernel q.signal.read_end q.signal.write_end pending capacity
      → capacity < e.rounds
      → Returns
          (λ r. (r.0 ≡ none_raised) × (pending r.1.system ≡ []) × (r.1.queue ≡ q.queue))
          (signal_lower e q)
  unfolding signal_lower classify
  signal_lower_lem q pending capacity law fuel =
      let (((ret, val), s), done, (got, left)) =
        Returns-inv
          (clear_val_lem e.kernel q.signal pending capacity law e.rounds (pos 0) q.system fuel) in
      rw (done, signal_lower) (rw (ap (λ (x : ℤ × ℤ). x.0) got) (returns (refl, left, refl)))

  front-ok :
      (q : Queue e) → IsValid q.queue → 0 < q.queue.heap.size → front e q ≡ ok (slot q.queue 0, q)
  unfolding front
  front-ok q v inside = rw (load-ok q.queue.heap 0 (omega (arith, v.room, v.whole)), front) refl

  remaining-ok :
      (q : Queue e)
      → IsValid q.queue
      → 0 < q.queue.heap.size
      → let ((err, n), s) = gettime e e.junk q.system in
        remaining e q
        ≡ ok
            (Timespec.sub (q.queue.items (slot q.queue 0)).owner.timeout n, record q { system = s })
  unfolding remaining now
  remaining-ok q v inside =
      rw (front-ok (record q { system = (gettime e e.junk q.system).1 }) v inside) refl

  -- timer_next_timeout_timespec on a queue that is not locked and whose heap is valid and not empty
  -- returns 1 and a normal time: what is left until the timeout of the timer in front, or 0 if
  -- that is past. The timers stay as they are, and the queue is unlocked. The timeout and
  -- what the clock says must be normal.
  pub next_timeout_timespec_lem :
      (q : Queue e)
      → q.locked ≡ false
      → IsValid q.queue
      → 0 < q.queue.heap.size
      → let timeout = (q.queue.items (slot q.queue 0)).owner.timeout in
        let n = (gettime e e.junk q.system).0.1 in
        IsNormal timeout
        → IsNormal n
        → Returns
            (λ r.
              (r.0.0 ≡ pos 1)
              × ((t : Timespec) × (r.0.1 ≡ some t)
                  × IsNormal t
                  × (total t ≡ (
                      if ltb_ℤ (total timeout) (total n) then pos 0 else total timeout -ℤ total n)))
              × (r.1.queue ≡ q.queue)
              × (r.1.locked ≡ false))
            (next_timeout_timespec e q)
  unfolding next_timeout_timespec
  next_timeout_timespec_lem q free v inside normal normal_now =
      let some_in : (q.queue.heap.size == 0) ≡ false = ground arith in
      let timeout = (q.queue.items (slot q.queue 0)).owner.timeout in
      let n = (gettime e e.junk q.system).0.1 in
      let (nd, td) = total-sub timeout n normal normal_now in
      let (nc, tc) = clamp-total (Timespec.sub timeout n) nd in
      rw (lock-ok e q free, some_in, remaining-ok (record q { locked = true }) v inside)
        (returns
          (refl, (_, refl, nc, rw (td, before-sub (total timeout) (total n)) at tc), refl, refl))
