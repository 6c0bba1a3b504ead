-- ===== src/Event/Epoll/Wait.antt =====
-- event_wait of src/event_epoll.c
use libckit.Common.{
  ℕ, zero, suc, ◌+◌, ◌≤◌, ◌<◌, ◌≡◌, refl, ◌∙◌, true, false, ◌&&◌, arith, ltb, leb, ◌==◌,
  if◌then◌else◌,
}
use libckit.Common.Int.{ℤ, pos, negsuc, pos_part}
use libckit.Common.Run.{ok, ◌>>=◌, Returns, returns, Returns-bind, Returns-map}
use libckit.Event.{Flags, Event, write_event}
use libckit.Event.Epoll.{EpollEvent, Kernel, epoll_event_to_event, fill, event_wait}

fill_lem :
    (epoll : Flags) (size : ℕ) (eevs : ℕ → EpollEvent) (n i : ℕ) (events : ℕ → Event)
    → i + n ≤ size
    → Returns
        (λ events'.
          (j : ℕ)
          → events' j
            ≡ (if leb i j && ltb j (i + n) then epoll_event_to_event epoll (eevs j) else events j))
        (fill epoll size eevs n i events)
unfolding fill write_event
fill_lem epoll size eevs zero i events fits = returns (λ j. ground arith)
fill_lem epoll size eevs (suc n) i events fits =
    let inside : ltb i size ≡ true = ground arith in
    let ev = epoll_event_to_event epoll (eevs i) in
    rw (fill, inside)
      (Returns-map (fill_lem epoll size eevs n (i + 1) (write_event i ev events) (omega arith))
        λ events' h j. grind (arith, h j))

-- event_wait once epoll_wait has returned
finish_lem :
    {S : Type 0} (epoll : Flags) (size : ℕ) (eevs : ℕ → EpollEvent) (events : ℕ → Event) (s : S)
    (ret : ℤ)
    → pos_part ret ≤ size
    → Returns
        (λ (r : ℤ × (ℕ → Event) × S).
          (r.0 ≡ ret)
          × ((j : ℕ)
              → r.1 j
                ≡ (if ltb j (pos_part ret) then epoll_event_to_event epoll (eevs j) else events j))
          × (r.2 ≡ s))
        (elim ret [
          | pos n ↦ fill epoll size eevs n 0 events >>= λ events'. ok (pos n, events', s)
          | negsuc n ↦ ok (negsuc n, events, s)
        ])
finish_lem epoll size eevs events s (pos n) fits =
    Returns-bind (fill_lem epoll size eevs n 0 events (omega arith))
      λ events' h. returns (refl, λ j. h j ∙ ground arith, refl)
finish_lem epoll size eevs events s (negsuc n) fits =
    let same : (j : ℕ)
        → (events j ≡ (if ltb j 0 then epoll_event_to_event epoll (eevs j) else events j)) =
      λ j. ground arith in
    returns (refl, same, refl)

-- event_wait of epoll, with room for at least one event and a kernel that returns no more events
-- than there is room for, returns what epoll_wait returned. As many entries of the array as that
-- says are the kernel's, translated, and the others are as they were: all of them, if epoll_wait
-- failed.
pub event_wait_lem :
    (k : Kernel) (epoll : Flags) (efd : ℤ) (maxevents : ℕ) (timeout : ℤ) (events : ℕ → Event)
    (s : k.State)
    → 0 < maxevents
    → pos_part (k.epoll_wait efd maxevents timeout s).0.0 ≤ maxevents
    → let waited = k.epoll_wait efd maxevents timeout s in
      Returns
        (λ r.
          (r.0 ≡ waited.0.0)
          × ((j : ℕ)
              → r.1 j ≡ (
                  if ltb j (pos_part waited.0.0)
                  then epoll_event_to_event epoll (waited.0.1 j)
                  else events j))
          × (r.2 ≡ waited.1))
        (event_wait k epoll efd maxevents timeout events s)
unfolding event_wait
event_wait_lem k epoll efd maxevents timeout events s some_room fits =
    let waited = k.epoll_wait efd maxevents timeout s in
    let room : (maxevents == 0) ≡ false = ground arith in
    rw (event_wait, room) (finish_lem epoll maxevents waited.0.1 events waited.1 waited.0.0 fits)
