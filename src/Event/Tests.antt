-- ===== src/Event/Tests.antt =====
-- src/event_epoll.c and src/event_kqueue.c with the numbers of Linux and FreeBSD, over kernels that
-- have one event to report.
use libckit.Common.{ℕ, ◌≡◌, ◌≢◌, [], ◌∷◌, ◌&&◌, ◌||◌, map, arith, ◌==◌}
use libckit.Common.Int.{pos, negsuc}
use libckit.Common.Run.{Returns}
use libckit.Event.{no_flags, Flags, event_types, add, Event}
use libckit.Event.Epoll
use libckit.Event.Epoll.{EpollEvent, event_to_epoll_event, epoll_event_to_event}
use libckit.NodeList.Ring.{AreDistinct}
use libckit.Event.Epoll.Flow.{bits, is_event_type, round_trip}
use libckit.Event.Kqueue
use libckit.Event.Kqueue.{Kevent, Numbers, Waited, kevent_to_event, changes, timeout_spec}
use libckit.Event.Kqueue.Changes.{one_flag, kevent_to_event-changes}
use libckit.Event.Kqueue.Wait.{Outcome, event_wait_errors}

abbrev epoll : Flags
epoll = record { input = 0; output = 2; hup = 4; rdhup = 13; edge = 31; oneshot = 30 }

-- EVENT_IN and EVENT_ONESHOT, and a bit that is not named
abbrev asked : Event
asked = record { events = λ b. b == 0 || b == 11 || b == 20; bytes = 1234 }

abbrev blank : Event
blank = record { events = no_flags; bytes = 0 }

abbrev reported : EpollEvent
reported = record { events = λ b. b == 0; bytes = 1234 }

abbrev linux : Epoll.Kernel
linux = record {
  State = ℕ;
  epoll_create = λ size s. (pos 3, s);
  close = λ fd s. s;
  epoll_ctl = λ efd cmd fd ev s. (pos 0, s);
  epoll_wait = λ efd maxevents timeout s. ((pos 1, λ i. reported), s);
}

abbrev numbers : Numbers
numbers = record {
  filter_read = negsuc 0;
  filter_write = negsuc 1;
  ev_add = 0;
  ev_delete = 1;
  ev_oneshot = 4;
  ev_eof = 15;
  ev_error = 14;
}

abbrev failing : Kevent
failing = record { ident = 5; filter = negsuc 0; flags = λ b. b == 14; error = pos 9; udata = 7 }

abbrev bsd : Kqueue.Kernel
bsd = record {
  State = ℕ;
  kqueue = λ s. (pos 3, s);
  close = λ fd s. s;
  kevent = λ efd asked_for maxevents timeout s. ((pos 1, λ i. failing), s);
}

epoll-AreDistinct : AreDistinct (bits epoll)
epoll-AreDistinct = (
  (omega arith, (omega arith, (omega arith, (omega arith, (omega arith, tt))))),
  (
    (omega arith, (omega arith, (omega arith, (omega arith, tt)))),
    (
      (omega arith, (omega arith, (omega arith, tt))),
      ((omega arith, (omega arith, tt)), ((omega arith, tt), (tt, tt))),
    ),
  ),
)

round_trip_example :
    let back = epoll_event_to_event epoll (event_to_epoll_event epoll asked) in
    (back.bytes ≡ 1234) × ((j : ℕ) → back.events j ≡ (is_event_type j && asked.events j))
round_trip_example = round_trip epoll asked epoll-AreDistinct

differ : numbers.filter_read ≢ numbers.filter_write
differ e = cc

kevent_to_event-changes_example :
    map (kevent_to_event numbers) (changes numbers add 5 asked)
    ≡ one_flag event_types.input 1234 ∷ []
kevent_to_event-changes_example =
    kevent_to_event-changes numbers differ
      (
        (omega arith, (omega arith, (omega arith, tt))),
        ((omega arith, (omega arith, tt)), ((omega arith, tt), (tt, tt))),
      )
      add 5 asked

event_wait_errors_example :
    Returns
      (λ r.
        Outcome numbers
          (λ i. failing)
          0
          1
          (record { ret = pos 1; errno = pos 0; events = λ j. blank })
          r.0
        × (r.1 ≡ 0))
      (Kqueue.event_wait bsd numbers (pos 3) 8 (negsuc 0) (pos 0) (λ j. blank) 0)
event_wait_errors_example =
    event_wait_errors bsd numbers (pos 3) 8 (negsuc 0) (pos 0) (λ j. blank) 0 (omega arith)
      (omega arith)
