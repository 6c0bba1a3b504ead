-- ===== src/Timer/Removal.antt =====
-- timer_del, timer_handle_timeout and timer_list_destroy
use libckit.Common.{
  ℕ, zero, suc, ◌<◌, ◌≡◌, refl, sym, ap, ◌∙◌, true, false, ◌&&◌, ◌==◌, Option, none, some, arith,
  Bool-cases, inl, inr,
}
use libckit.Common.Int.{pos}
use libckit.Common.Run.{ok, Returns, returns}
use libckit.Heap.Valid.{IsValid, slot}
use libckit.Heap.Remove.{Removed}
use libckit.Timer.{Queue, del_locked, del, foreign}
use libckit.Timer.Expiry.{take_first, handle_timeout, run, destroy_loop, list_destroy}
use libckit.Timer.State.{Env}
use libckit.Timer.Steps.{Returns-then, lock-ok, signal_raise-Keeps, heap_remove-Removed}

module _ (e : Env) where
  del_locked-Removed :
      (q : Queue e) (t : ℕ)
      → IsValid q.queue
      → (q.queue.items t).index < q.queue.heap.size
      → let index = (q.queue.items t).index in
        Returns
          (λ r.
            Removed q.queue index (some (slot q.queue index), r.1.queue) × (r.1.locked ≡ q.locked))
          (del_locked e t q)
  unfolding del_locked
  del_locked-Removed q t v inside =
      let index = (q.queue.items t).index in
      Returns-then (heap_remove-Removed e q index v inside) λ r q' (removed, same).
        let gone : Removed q.queue index (some (slot q.queue index), q'.queue) =
          rw removed.item at removed in
        elim (Bool-cases ((index == 0) && foreign e q)) [
          | inl far ↦ rw far (
              Returns-then (signal_raise-Keeps e q') λ n q'' (kept, locks).
                returns (rw (sym kept) at gone, locks ∙ ap (λ (x : Queue e). x.locked) same))
          | inr near ↦ rw near (returns (gone, ap (λ (x : Queue e). x.locked) same))
        ]

  -- timer_del on a queue that is not locked and whose heap is valid, for a timer whose index is
  -- below the heap's size: it takes out the timer in the slot of that index, whether or not that is
  -- the timer itself, exactly as heap_remove does, and leaves the queue unlocked.
  pub del_lem :
      (q : Queue e) (t : ℕ)
      → q.locked ≡ false
      → IsValid q.queue
      → (q.queue.items t).index < q.queue.heap.size
      → Returns
          (λ r.
            Removed q.queue
              (q.queue.items t).index
              (some (slot q.queue (q.queue.items t).index), r.1.queue)
            × (r.1.locked ≡ false))
          (del e t q)
  unfolding del
  del_lem q t free v inside = rw (lock-ok e q free) (
      Returns-then (del_locked-Removed (record q { locked = true }) t v inside)
        λ r q' (removed, locks). returns (removed, refl))

  take_first-Removed :
      (q : Queue e)
      → IsValid q.queue
      → 0 < q.queue.heap.size
      → Returns
          (λ r.
            (r.0 ≡ slot q.queue 0)
            × Removed q.queue 0 (some (slot q.queue 0), r.1.queue)
            × (r.1.locked ≡ q.locked))
          (take_first e q)
  unfolding take_first
  take_first-Removed q v inside =
      Returns-then (heap_remove-Removed e q 0 v inside) λ r q' (removed, same).
        let gone : Removed q.queue 0 (some (slot q.queue 0), q'.queue) =
          rw removed.item at removed in
        rw removed.item (returns (refl, gone, ap (λ (x : Queue e). x.locked) same))

  run-Ran :
      (c : Option ℕ) (t : ℕ) (q : Queue e) → Returns (λ r. run e c t q ≡ ok (tt, r.1)) (run e c t q)
  run-Ran none t q = returns refl
  run-Ran (some f) t q = returns refl

  -- timer_handle_timeout on a queue that is not locked and whose heap is valid and not empty takes
  -- out the timer in front, unlocks the queue, and only then runs the timer's callback, if it has
  -- one. It returns 0.
  pub handle_timeout_lem :
      (q : Queue e)
      → q.locked ≡ false
      → IsValid q.queue
      → 0 < q.queue.heap.size
      → let t = slot q.queue 0 in
        Returns
          (λ r.
            (r.0 ≡ pos 0)
            × (q' : Queue e) × Removed q.queue 0 (some t, q'.queue)
            × (q'.locked ≡ false)
            × (run e (q.queue.items t).owner.callback t q' ≡ ok (tt, r.1)))
          (handle_timeout e q)
  unfolding handle_timeout
  handle_timeout_lem q free v inside =
      let some_in : (q.queue.heap.size == 0) ≡ false = ground arith in
      rw (lock-ok e q free, some_in)
        (Returns-then (take_first-Removed (record q { locked = true }) v inside)
          λ t q' (first, removed, locks).
            let q0 : Queue e = record q' { locked = false } in
            let whose = removed.owner t in
            Returns-then (run-Ran (q'.queue.items t).owner.callback t q0)
              λ u q'' done. returns (refl, q0, removed, refl, rw first at (rw whose at done)))

  run-Kept :
      (c : Option ℕ) (t : ℕ) (q : Queue e)
      → ((f t : ℕ) (q : Queue e)
          → IsValid q.queue
          → IsValid (e.call f t q).queue × ((e.call f t q).queue.heap.size ≡ q.queue.heap.size))
      → IsValid q.queue
      → Returns (λ r. IsValid r.1.queue × (r.1.queue.heap.size ≡ q.queue.heap.size)) (run e c t q)
  run-Kept none t q kept v = returns (v, refl)
  run-Kept (some f) t q kept v = returns (kept f t q v)

  destroy_loop-Emptied :
      (k : ℕ) (q : Queue e)
      → ((f t : ℕ) (q : Queue e)
          → IsValid q.queue
          → IsValid (e.call f t q).queue × ((e.call f t q).queue.heap.size ≡ q.queue.heap.size))
      → IsValid q.queue
      → q.queue.heap.size < k
      → Returns (λ r. r.1.queue.heap.size ≡ 0) (destroy_loop e k q)
  unfolding destroy_loop
  destroy_loop-Emptied zero q kept v fuel = absurd (omega arith)
  destroy_loop-Emptied (suc k) q kept v fuel = elim (Bool-cases (q.queue.heap.size == 0)) [
    | inl none_in ↦ rw none_in (returns (ground arith))
    | inr some_in ↦ rw some_in (
        Returns-then (take_first-Removed q v (ground arith)) λ t q' (first, removed, locks).
          Returns-then (run-Kept (q'.queue.items t).owner.destruct t q' kept removed.valid)
            λ u q'' (v', size). destroy_loop-Emptied k q'' kept v' (omega (arith, removed.size)))
  ]

  -- timer_list_destroy on a queue that is not locked and whose heap is valid ends, with the heap
  -- empty and the queue unlocked, if a call of a destructor leaves a valid heap valid and of the
  -- same size. Fuel for one round more than there are timers is enough.
  pub list_destroy_lem :
      (k : ℕ) (q : Queue e)
      → q.locked ≡ false
      → ((f t : ℕ) (q : Queue e)
          → IsValid q.queue
          → IsValid (e.call f t q).queue × ((e.call f t q).queue.heap.size ≡ q.queue.heap.size))
      → IsValid q.queue
      → q.queue.heap.size < k
      → Returns (λ r. (r.1.queue.heap.size ≡ 0) × (r.1.locked ≡ false)) (list_destroy e k q)
  unfolding list_destroy
  list_destroy_lem k q free kept v fuel = rw (lock-ok e q free) (
      Returns-then (destroy_loop-Emptied k (record q { locked = true }) kept v fuel)
        λ u q' gone. returns (gone, refl))
