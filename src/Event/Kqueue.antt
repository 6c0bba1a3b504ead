-- ===== src/Event/Kqueue.antt =====
-- src/event_kqueue.c. The numbers of the kqueue interface are parameters, and so is the kernel.
pub mod Changes
pub mod Wait
use libckit.Common.{
  ℕ, zero, suc, ◌+◌, ◌*◌, ◌%◌, ◌^◌, Bool, true, false, Option, none, some, List, [], ◌∷◌, ◌++◌, ltb,
  ◌==◌, if◌then◌else◌,
}
use libckit.Common.Int.{ℤ, pos, negsuc, scale, eqb_ℤ}
use libckit.Common.Run.{Run, ok, fault, ◌>>=◌}
use libckit.Time.Timespec.{Timespec, add_nsec}
use libckit.Event.{
  Word, no_flags, set_flag, pass, event_types, EventCtl, add, delete, modify, Event, write_event,
  set_fd, set_ptr,
}

-- `struct kevent`; `fflags` is 0 throughout and left out.
pub record Kevent : Type 0 where
  pub ident : ℕ
  pub filter : ℤ
  pub flags : Word
  pub error : ℤ
  pub udata : ℕ

-- EVFILT_READ and EVFILT_WRITE, and the bits of the flags
pub record Numbers : Type 0 where
  pub filter_read : ℤ
  pub filter_write : ℤ
  pub ev_add : ℕ
  pub ev_delete : ℕ
  pub ev_oneshot : ℕ
  pub ev_eof : ℕ
  pub ev_error : ℕ

-- The kernel, with a state of its own: kevent is given the changes, the most events to return, and
-- the timeout.
pub record Kernel : Type 1 where
  pub State : Type 0
  pub kqueue : State → ℤ × State
  pub close : ℤ → State → State
  pub kevent : ℤ → List Kevent → ℕ → Option Timespec → State → (ℤ × (ℕ → Kevent)) × State

unfoldable pub kevent_flags : Numbers → EventCtl → Event → Word
kevent_flags c ctl ev =
    let flags : Word = elim ctl [
      | add ↦ set_flag c.ev_add no_flags
      | modify ↦ set_flag c.ev_add no_flags
      | delete ↦ set_flag c.ev_delete no_flags
    ] in
    pass event_types.oneshot c.ev_oneshot ev.events flags

unfoldable pub kevent_to_event : Numbers → Kevent → Event
kevent_to_event c kev =
    let w0 = no_flags in
    let w1 = if eqb_ℤ kev.filter c.filter_read then set_flag event_types.input w0 else w0 in
    let w2 = if eqb_ℤ kev.filter c.filter_write then set_flag event_types.output w1 else w1 in
    let w3 = pass c.ev_eof event_types.rdhup kev.flags w2 in
    record { events = w3; bytes = set_ptr kev.udata (set_fd kev.ident 0) }

-- EV_SET, with the last arguments as event_ctl gives them
abbrev pub set_kevent : ℕ → ℤ → Word → ℕ → Kevent
set_kevent ident filter flags udata = record {
  ident = ident;
  filter = filter;
  flags = flags;
  error = pos 0;
  udata = udata;
}

-- the array that event_ctl fills
unfoldable pub changes : Numbers → EventCtl → ℕ → Event → List Kevent
changes c ctl fd ev =
    let flags = kevent_flags c ctl ev in
    (if ev.events event_types.input then set_kevent fd c.filter_read flags ev.bytes ∷ [] else [])
    ++ (if ev.events event_types.output
        then set_kevent fd c.filter_write flags ev.bytes ∷ []
        else [])

-- `ts_ptr`, for a timeout in milliseconds
unfoldable pub timeout_spec : ℤ → Option Timespec
timeout_spec timeout =
    let ts = add_nsec (record { sec = pos 0; nsec = pos 0 }) (scale 1_000_000 timeout) in
    if eqb_ℤ timeout (negsuc 0) then none else some ts

-- what event_wait leaves: what it returns, `errno` as it sets it itself, and the array of events
pub record Waited : Type 0 where
  pub ret : ℤ
  pub errno : ℤ
  pub events : ℕ → Event

-- the loop of event_wait over `n` more events, from the one at `i` on, in an array of `size`; `ret`
-- is what kevent returned
unfoldable pub fill : Numbers → ℕ → (ℕ → Kevent) → ℕ → ℕ → Waited → Run Waited
fill c size kevs zero i r = ok r
fill c size kevs (suc n) i r = elim (ltb i size) [
  | true ↦ elim ((kevs i).flags c.ev_error) [
    | true ↦ ok (record r { ret = negsuc 0; errno = (kevs i).error })
    | false ↦
        fill c size kevs n (i + 1)
          (record r { events = write_event i (kevent_to_event c (kevs i)) r.events })
  ]
  | false ↦ fault
]

module _ (k : Kernel) where
  unfoldable pub event_open : k.State → ℤ × k.State
  event_open s = k.kqueue s

  unfoldable pub event_close : ℤ → k.State → k.State
  event_close efd s = k.close efd s

  unfoldable pub event_ctl : Numbers → ℤ → EventCtl → ℕ → Event → k.State → ℤ × k.State
  event_ctl c efd ctl fd ev s =
      let ((ret, kevs), s') = k.kevent efd (changes c ctl fd ev) 0 none s in (ret, s')

  -- An array of no entries is a fault. What the call logs is left out.
  unfoldable pub event_wait :
      Numbers → ℤ → ℕ → ℤ → ℤ → (ℕ → Event) → k.State → Run (Waited × k.State)
  event_wait c efd maxevents timeout errno events s = elim (maxevents == 0) [
    | true ↦ fault
    | false ↦
        let ((ret, kevs), s') = k.kevent efd [] maxevents (timeout_spec timeout) s in
        let r : Waited = record { ret = ret; errno = errno; events = events } in
        elim ret [
          | pos n ↦ fill c maxevents kevs n 0 r >>= λ r'. ok (r', s')
          | negsuc n ↦ ok (r, s')
        ]
  ]
