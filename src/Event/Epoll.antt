-- ===== src/Event/Epoll.antt =====
-- src/event_epoll.c. The numbers of the epoll interface are parameters, and so is the kernel.
pub mod Flow
pub mod Wait
use libckit.Common.{ℕ, zero, suc, ◌+◌, Bool, true, false, ltb, ◌==◌}
use libckit.Common.Int.{ℤ, pos, negsuc}
use libckit.Common.Run.{Run, ok, fault, ◌>>=◌}
use libckit.Event.{
  Word, no_flags, pass, Flags, event_types, EventCtl, add, delete, modify, Event, write_event,
}

-- `struct epoll_event`
pub record EpollEvent : Type 0 where
  pub events : Word
  pub bytes : ℕ

-- The kernel, with a state of its own. epoll_create and epoll_ctl return -1 if they fail;
-- epoll_wait is given the most events to return, and the timeout.
pub record Kernel : Type 1 where
  pub State : Type 0
  pub epoll_create : ℕ → State → ℤ × State
  pub close : ℤ → State → State
  pub epoll_ctl : ℤ → ℕ → ℤ → EpollEvent → State → ℤ × State
  pub epoll_wait : ℤ → ℕ → ℤ → State → (ℤ × (ℕ → EpollEvent)) × State

-- EPOLL_CTL_ADD, EPOLL_CTL_MOD and EPOLL_CTL_DEL
pub record Commands : Type 0 where
  pub ctl_add : ℕ
  pub ctl_mod : ℕ
  pub ctl_del : ℕ

unfoldable pub epoll_cmd : Commands → EventCtl → ℕ
epoll_cmd c add = c.ctl_add
epoll_cmd c modify = c.ctl_mod
epoll_cmd c delete = c.ctl_del

-- The flags of `epoll` are EPOLLIN, EPOLLOUT, EPOLLHUP, EPOLLRDHUP, EPOLLET and EPOLLONESHOT.
unfoldable pub event_to_epoll_event : Flags → Event → EpollEvent
event_to_epoll_event epoll ev =
    let w0 = no_flags in
    let w1 = pass event_types.input epoll.input ev.events w0 in
    let w2 = pass event_types.output epoll.output ev.events w1 in
    let w3 = pass event_types.hup epoll.hup ev.events w2 in
    let w4 = pass event_types.rdhup epoll.rdhup ev.events w3 in
    let w5 = pass event_types.edge epoll.edge ev.events w4 in
    let w6 = pass event_types.oneshot epoll.oneshot ev.events w5 in
    record { events = w6; bytes = ev.bytes }

unfoldable pub epoll_event_to_event : Flags → EpollEvent → Event
epoll_event_to_event epoll eev =
    let w0 = no_flags in
    let w1 = pass epoll.input event_types.input eev.events w0 in
    let w2 = pass epoll.output event_types.output eev.events w1 in
    let w3 = pass epoll.hup event_types.hup eev.events w2 in
    let w4 = pass epoll.rdhup event_types.rdhup eev.events w3 in
    let w5 = pass epoll.edge event_types.edge eev.events w4 in
    let w6 = pass epoll.oneshot event_types.oneshot eev.events w5 in
    record { events = w6; bytes = eev.bytes }

-- the loop of event_wait over `n` more events, from the one at `i` on, in an array of `size`
unfoldable pub fill : Flags → ℕ → (ℕ → EpollEvent) → ℕ → ℕ → (ℕ → Event) → Run (ℕ → Event)
fill epoll size eevs zero i events = ok events
fill epoll size eevs (suc n) i events = elim (ltb i size) [
  | true ↦
      fill epoll size eevs n (i + 1) (write_event i (epoll_event_to_event epoll (eevs i)) events)
  | false ↦ fault
]

module _ (k : Kernel) where
  unfoldable pub event_open : k.State → ℤ × k.State
  event_open s = k.epoll_create 10 s

  unfoldable pub event_close : ℤ → k.State → k.State
  event_close efd s = k.close efd s

  unfoldable pub event_ctl : Commands → Flags → ℤ → EventCtl → ℤ → Event → k.State → ℤ × k.State
  event_ctl c epoll efd ctl fd ev s =
      k.epoll_ctl efd (epoll_cmd c ctl) fd (event_to_epoll_event epoll ev) s

  -- An array of no entries is a fault. What the call logs is left out.
  unfoldable pub event_wait :
      Flags → ℤ → ℕ → ℤ → (ℕ → Event) → k.State → Run (ℤ × (ℕ → Event) × k.State)
  event_wait epoll efd maxevents timeout events s = elim (maxevents == 0) [
    | true ↦ fault
    | false ↦
        let ((ret, eevs), s') = k.epoll_wait efd maxevents timeout s in
        elim ret [
          | pos n ↦ fill epoll maxevents eevs n 0 events >>= λ events'. ok (pos n, events', s')
          | negsuc n ↦ ok (negsuc n, events, s')
        ]
  ]
