-- ===== src/Timer/Adding.antt =====
-- timer_add, and timer_mod of a timer that is not scheduled
use mathlib.Core.List.{Perm}
use libckit.Common.{
  ℕ, ◌+◌, ◌^◌, ◌<◌, ◌≡◌, ◌≢◌, refl, sym, ◌∙◌, Bool, true, false, ◌&&◌, ◌||◌, ◌∷◌, none, arith,
  Bool-cases, ◌==◌, if◌then◌else◌, inl, inr,
}
use libckit.Common.Int.{ℤ, pos, scale}
use libckit.Common.Run.{ok, Returns, returns, Returns-inv}
use libckit.Heap.{Items, World, full, default_increase_size}
use libckit.Heap.Valid.{IsValid, IsHonest, slot, contents}
use libckit.Heap.Insert.{insert-Inserted}
use libckit.Heap.Settle.{Inserted}
use libckit.Time.Timespec.{add_nsec}
use libckit.Timer.{
  Queue, write_item, gettime, arm, notify, unschedule, scheduled, heap_insert, mod_timer, add,
  foreign,
}
use libckit.Timer.State.{Env, Timer}
use libckit.Timer.Steps.{Returns-then, lock-ok, signal_raise-Keeps}

write_item-owner :
    (items : Items Timer) (t : ℕ) (o : Timer) (p : ℕ)
    → let item = write_item items t (record (items t) { owner = o }) p in
      (item.active ≡ (items p).active) × (item.owner ≡ (if t == p then o else (items p).owner))
unfolding write_item
write_item-owner items t o p = ground arith

write_item-IsValid :
    (w : World Timer) (t : ℕ) (o : Timer)
    → IsValid w
    → IsValid (record w { items = write_item w.items t (record (w.items t) { owner = o }) })
write_item-IsValid w t o v = record {
  room = v.room;
  whole = v.whole;
  small = v.small;
  distinct = v.distinct;
  active = λ i hi. (write_item-owner w.items t o (slot w i)).0 ∙ v.active i hi;
}

module _ (e : Env) where
  unschedule-idle :
      (q : Queue e) (t : ℕ) (x : ℤ) → scheduled e q t ≡ false → unschedule e t x q ≡ ok (false, q)
  unfolding unschedule
  unschedule-idle q t x idle = rw idle refl

  -- timer_mod does not look at `expires` if the timer is not scheduled: whatever the caller passes,
  -- it does the same.
  pub mod_timer_same :
      (q : Queue e) (t : ℕ) (x y : ℤ)
      → scheduled e q t ≡ false
      → mod_timer e t x q ≡ mod_timer e t y q
  unfolding mod_timer
  mod_timer_same q t x y idle = rw (unschedule-idle q t x idle, unschedule-idle q t y idle) refl

  notify-Keeps :
      (q : Queue e) (t : ℕ) (first : Bool)
      → Returns (λ r. (r.1.queue ≡ q.queue) × (r.1.locked ≡ q.locked)) (notify e t first q)
  unfolding notify
  notify-Keeps q t first =
      elim (Bool-cases (foreign e q && (((q.queue.items t).index == 0) || first))) [
        | inl far ↦ rw far (Returns-then (signal_raise-Keeps e q) λ n q' kept. returns kept)
        | inr near ↦ rw near (returns (refl, refl))
      ]

  heap_insert-Inserted :
      (q : Queue e) (t : ℕ)
      → IsValid q.queue
      → q.queue.heap.max_size + default_increase_size < 2 ^ 31
      → IsHonest e.malloc
      → (full q.queue.heap ≡ true → e.malloc (q.queue.heap.max_size + default_increase_size) ≢ none)
      → (q.queue.items t).active ≢ 1
      → Returns (λ r. Inserted q.queue t (r.0, r.1.queue)) (heap_insert e t q)
  unfolding heap_insert
  heap_insert-Inserted q t v small honest got idle =
      let ((r, w), done, inserted) =
        Returns-inv (insert-Inserted e.malloc q.queue t v small honest got idle) in
      rw (done, heap_insert) (returns inserted)

  mod_timer-idle :
      (q : Queue e) (t : ℕ) (x : ℤ)
      → q.locked ≡ false
      → IsValid q.queue
      → q.queue.heap.max_size + default_increase_size < 2 ^ 31
      → IsHonest e.malloc
      → (full q.queue.heap ≡ true → e.malloc (q.queue.heap.max_size + default_increase_size) ≢ none)
      → scheduled e q t ≡ false
      → let timer = (q.queue.items t).owner in
        Returns
          (λ r.
            (r.0 ≡ pos 1)
            × IsValid r.1.queue
            × Perm (contents r.1.queue) (t ∷ contents q.queue)
            × (scheduled e r.1 t ≡ true)
            × ((r.1.queue.items t).owner ≡ record timer {
              timeout = add_nsec (gettime e timer.timeout q.system).0.1 (scale 1000 timer.expires);
            })
            × (r.1.locked ≡ false))
          (mod_timer e t x q)
  unfolding mod_timer arm
  mod_timer-idle q t x free v small honest got idle =
      let timer = (q.queue.items t).owner in
      let ((err, now), s) = gettime e timer.timeout q.system in
      let o : Timer = record timer { timeout = add_nsec now (scale 1000 timer.expires) } in
      let q1 : Queue e = record q {
        queue = record q.queue {
          items = write_item q.queue.items t (record (q.queue.items t) { owner = o });
        };
        system = s;
      } in
      let q2 : Queue e = record q1 { locked = true } in
      let written = write_item-owner q.queue.items t o t in
      let own : (q2.queue.items t).owner ≡ o = ground (arith, written) in
      rw (unschedule-idle q t x idle, lock-ok e q1 free)
        (Returns-then
          (heap_insert-Inserted q2 t (write_item-IsValid q.queue t o v) small honest got
            (ground (arith, written)))
          λ status q3 inserted.
            let marked : scheduled e q3 t ≡ true = ground (arith, inserted.active t) in
            let whose : (q3.queue.items t).owner ≡ o = inserted.owner t ∙ own in
            rw inserted.status (
              Returns-then (notify-Keeps q3 t false) λ u q4 (kept, locks). returns (
                refl,
                rw (sym kept) at inserted.valid,
                rw (sym kept) at inserted.perm,
                rw (sym kept) at marked,
                rw (sym kept) at whose,
                refl,
              )))

  -- timer_add of a timer that is not scheduled, to a queue that is not locked and whose heap is
  -- valid, returns 1. The timer is then scheduled, for `expires` microseconds after what the clock
  -- says; the heap is valid and holds it and exactly the timers from before; the queue is unlocked.
  -- The array has fewer than `2 ^ 31 - 100` slots; a full one grows first, for which `malloc` must
  -- succeed and return a block of the size asked for.
  pub add_lem :
      (q : Queue e) (t : ℕ)
      → q.locked ≡ false
      → IsValid q.queue
      → q.queue.heap.max_size + default_increase_size < 2 ^ 31
      → IsHonest e.malloc
      → (full q.queue.heap ≡ true → e.malloc (q.queue.heap.max_size + default_increase_size) ≢ none)
      → scheduled e q t ≡ false
      → let timer = (q.queue.items t).owner in
        Returns
          (λ r.
            (r.0 ≡ pos 1)
            × IsValid r.1.queue
            × Perm (contents r.1.queue) (t ∷ contents q.queue)
            × (scheduled e r.1 t ≡ true)
            × ((r.1.queue.items t).owner ≡ record timer {
              timeout = add_nsec (gettime e timer.timeout q.system).0.1 (scale 1000 timer.expires);
            })
            × (r.1.locked ≡ false))
          (add e t q)
  unfolding add
  add_lem q t free v small honest got idle =
      rw idle (mod_timer-idle q t (q.queue.items t).owner.expires free v small honest got idle)
