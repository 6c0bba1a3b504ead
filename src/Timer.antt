-- ===== src/Timer.antt =====
-- include/ckit/timer.h and src/timer.c: timers in a heap, with a mutex and a signal to the main
-- thread. timer_mod's `unsigned long` is the `long` that it is stored as.
pub mod State
pub mod Expiry
pub mod Steps
pub mod Removal
pub mod Next
pub mod Adding
mod Tests
use libckit.Common.{
  ℕ, zero, suc, ◌+◌, Bool, true, false, not, ◌&&◌, ◌||◌, Option, none, some, ◌∷◌, ◌==◌,
  if◌then◌else◌,
}
use libckit.Common.Int.{ℤ, pos, negsuc, ◌+ℤ◌, scale, quot, to_u64, ltb_ℤ, eqb_ℤ}
use libckit.Common.Run.{Run, ok, fault, out_of_fuel}
use libckit.Heap
use libckit.Heap.{Items, HeapItem, Malloc}
use libckit.Signal
use libckit.Signal.Pipe.{Kernel}
use libckit.Time.Timespec
use libckit.Time.Timespec.{Timespec}
use libckit.Time.Timeval.{Timeval}
use mathlib.Core.Option
use State.{Timer, Env, TimerQueue, reading, pure, ◌>>=◌, ◌>>◌}

-- `enum signal_result`
pub data SignalResult : Type 0 where
  error none_raised raised exit : SignalResult

abbrev pub heap_cmp : Timer → Timer → Bool
heap_cmp t1 t2 = Timespec.lt t1.timeout t2.timeout

abbrev pub zero_time : Timespec
zero_time = record { sec = pos 0; nsec = pos 0 }

pub clamp : Timespec → Timespec
clamp t = if ltb_ℤ t.sec (pos 0) then zero_time else t

-- all bytes 0
abbrev pub blank : HeapItem Timer
blank = record {
  index = 0;
  active = 0;
  owner = record {
    timeout = zero_time;
    expires = pos 0;
    callback = none;
    destruct = none;
    user_data = 0;
  };
}

pub write_item : Items Timer → ℕ → HeapItem Timer → Items Timer
write_item items t item p = if t == p then item else items p

module _ (e : Env) where
  abbrev pub Queue : Type 0
  Queue = TimerQueue e.kernel.State

  abbrev pub Cmd : Type 0 → Type 0
  Cmd A = Queue → Run (A × Queue)

  abbrev pub item_of : Queue → ℕ → HeapItem Timer
  item_of q t = q.queue.items t

  -- `*t = item`
  abbrev pub put : ℕ → HeapItem Timer → Cmd (Unit {0})
  put t item q =
      ok (tt, record q { queue = record q.queue { items = write_item q.queue.items t item } })

  -- The mutex is not recursive: a thread that holds it waits for itself.
  pub lock : Cmd (Unit {0})
  lock q = if q.locked then fault else ok (tt, record q { locked = true })

  abbrev pub unlock : Cmd (Unit {0})
  unlock q = ok (tt, record q { locked = false })

  pub init : ℕ → Cmd (Unit {0})
  init t = put t blank

  -- `fresh` is what `malloc` returns
  pub new_callback : Option ℕ → Option ℕ → ℕ → Cmd (Option ℕ)
  new_callback none callback user_data = pure none
  new_callback (some t) callback user_data = do
    init t
    reading λ q.
        let item = item_of q t in
        put t
          (record item { owner = record item.owner { callback = callback; user_data = user_data } })
    pure (some t)

  -- The free of NULL does nothing.
  pub free : Option ℕ → Cmd (Unit {0})
  free none = pure tt
  free (some t) = λ q. ok (tt, record q { freed = t ∷ q.freed })

  abbrev pub scheduled : Queue → ℕ → Bool
  scheduled q t = not ((item_of q t).active == 0)

  -- The clock is the processor time of the thread.
  abbrev pub gettime : Timespec → e.kernel.State → (ℤ × Timespec) × e.kernel.State
  gettime ts s = e.clock_gettime ts s

  abbrev pub get_signal : Queue → ℕ
  get_signal q = Signal.get_fd e.kernel q.signal

  pub signal_raise : Cmd ℤ
  signal_raise q =
      let (n, s) = Signal.raise e.kernel q.signal q.system in ok (n, record q { system = s })

  -- the `switch` of timer_queue_signal_lower
  pub classify : ℤ → ℤ → SignalResult
  classify ret val =
      if eqb_ℤ ret (negsuc 0)
      then error
      else if eqb_ℤ ret (pos 0)
      then none_raised
      else if eqb_ℤ val (pos 0)
      then exit
      else if eqb_ℤ val (negsuc 0)
      then error
      else raised

  pub signal_lower : Cmd SignalResult
  signal_lower q = elim (Signal.clear_val e.kernel e.rounds q.signal (pos 0) q.system) [
    | ok ((ret, val), s) ↦ ok (classify ret val, record q { system = s })
    | fault ↦ fault
    | out_of_fuel ↦ out_of_fuel
  ]

  abbrev pub foreign : Queue → Bool
  foreign q = not (q.thr == e.self)

  -- heap_remove and heap_insert on the queue
  pub heap_remove : ℕ → Cmd (Option ℕ)
  heap_remove index q = elim (Heap.remove q.queue index) [
    | ok (r, w) ↦ ok (r, record q { queue = w })
    | fault ↦ fault
    | out_of_fuel ↦ out_of_fuel
  ]

  pub heap_insert : ℕ → Cmd ℤ
  heap_insert t q = elim (Heap.insert e.malloc q.queue t) [
    | ok (status, w) ↦ ok (status, record q { queue = w })
    | fault ↦ fault
    | out_of_fuel ↦ out_of_fuel
  ]

  -- `_timer_del`
  pub del_locked : ℕ → Cmd (Unit {0})
  del_locked t = reading λ q.
      let index = (item_of q t).index in
      heap_remove index >>= λ _.
      if (index == 0) && foreign q then (signal_raise >>= λ _. pure tt) else pure tt

  pub del : ℕ → Cmd (Unit {0})
  del t = do lock; del_locked t; unlock

  -- `gettime(&t->timeout); timespec_add_nsec(&t->timeout, t->expires * 1000)`
  pub arm : ℕ → Cmd (Unit {0})
  arm t q =
      let item = item_of q t in
      let ((err, now), s) = gettime item.owner.timeout q.system in
      let timeout = Timespec.add_nsec now (scale 1000 item.owner.expires) in
      put t (record item { owner = record item.owner { timeout = timeout } })
        (record q { system = s })

  -- the removal of a timer that timer_mod finds scheduled; returns `was_first`
  pub unschedule : ℕ → ℤ → Cmd Bool
  unschedule t expires = reading λ q.
      let first = (item_of q t).index == 0 in
      if scheduled q t
      then (do
        del t
        reading λ q'.
            let item = item_of q' t in
            put t (record item { owner = record item.owner { expires = expires } })
        pure first)
      else pure false

  -- the end of timer_mod, with the lock held
  pub notify : ℕ → Bool → Cmd (Unit {0})
  notify t was_first = reading λ q.
      if foreign q && (((item_of q t).index == 0) || was_first)
      then (signal_raise >>= λ _. pure tt)
      else pure tt

  pub mod_timer : ℕ → ℤ → Cmd ℤ
  mod_timer t expires = do
    was_first ← unschedule t expires
    arm t
    lock
    status ← heap_insert t
    if not (eqb_ℤ status (pos 0))
        then (do unlock; pure (negsuc 0))
        else (do notify t was_first; unlock; pure (pos 1))

  pub add : ℕ → Cmd ℤ
  add t =
      reading
        λ q. if scheduled q t then pure (negsuc 0) else mod_timer t (item_of q t).owner.expires

  -- timer_set_secs, timer_set_msecs, timer_set_usecs
  pub set_usecs : ℕ → ℤ → Cmd (Unit {0})
  set_usecs t s = reading λ q.
      let item = item_of q t in put t (record item { owner = record item.owner { expires = s } })

  abbrev pub set_msecs : ℕ → ℤ → Cmd (Unit {0})
  set_msecs t s = set_usecs t (scale 1000 s)

  abbrev pub set_secs : ℕ → ℤ → Cmd (Unit {0})
  set_secs t s = set_usecs t (scale 1_000_000 s)

  pub schedule_secs : ℕ → ℤ → Cmd ℤ
  schedule_secs t s = do set_secs t s; add t

  pub schedule_msecs : ℕ → ℤ → Cmd ℤ
  schedule_msecs t s = do set_msecs t s; add t

  -- heap_front, on the queue
  pub front : Cmd ℕ
  front q = elim (Heap.front q.queue.heap) [
    | ok t ↦ ok (t, q)
    | fault ↦ fault
    | out_of_fuel ↦ out_of_fuel
  ]

  -- `gettime(&now)`, of a variable on the stack
  pub now : Cmd Timespec
  now q = let ((err, n), s) = gettime e.junk q.system in ok (n, record q { system = s })

  abbrev pub is_empty : Queue → Bool
  is_empty q = Heap.empty q.queue.heap

  -- the time from now until the first timeout
  pub remaining : Cmd Timespec
  remaining = do n ← now; t ← front; reading λ q. pure (Timespec.sub (item_of q t).owner.timeout n)

  -- `*timeout` is `none` where it is not written.
  pub next_timeout : Cmd (ℤ × Option ℕ)
  next_timeout = do
    lock
    reading λ q. if is_empty q then (do unlock; r ← signal_lower; pure (pos 0, none)) else (do
      later ← remaining
      unlock
      r ← signal_lower
      pure (pos 1, some (to_u64 (scale 1_000_000 later.sec +ℤ quot later.nsec 1000))))

  pub next_timeout_timespec : Cmd (ℤ × Option Timespec)
  next_timeout_timespec = do
    lock
    reading λ q.
        if is_empty q
        then (do unlock; pure (pos 0, none))
        else (do later ← remaining; unlock; pure (pos 1, some (clamp later)))

  -- The conversion also reads the `struct timespec` where it was not written.
  pub next_timeout_timeval : Cmd (ℤ × Timeval)
  next_timeout_timeval = do
    (ret, ts) ← next_timeout_timespec
    let t = Option.get_or ts e.junk
    pure (ret, record { sec = t.sec; usec = quot t.nsec 1000 })
