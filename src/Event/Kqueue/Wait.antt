-- ===== src/Event/Kqueue/Wait.antt =====
-- event_wait of src/event_kqueue.c
use libckit.Common.{
  ℕ, zero, suc, ◌+◌, ◌≤◌, ◌<◌, ◌≡◌, ◌⊎◌, inl, inr, refl, ◌∙◌, sym, Bool, true, false, ◌&&◌, none,
  some, [], arith, ltb, leb, ◌==◌, if◌then◌else◌, Bool-cases,
}
use libckit.Common.Int.{ℤ, pos, negsuc, pos_part, scale, eqb_ℤ, +ℤ_parts, eq_of_parts}
use libckit.Common.Run.{ok, ◌>>=◌, Returns, returns, Returns-bind, Returns-map}
use libckit.Time.Timespec.{Timespec, add_nsec}
use libckit.Time.Timespec.Totals as Totals
use libckit.Event.{Event, write_event}
use libckit.Event.Kqueue.{
  Kevent, Numbers, Kernel, Waited, kevent_to_event, fill, timeout_spec, event_wait,
}

-- The first `n` entries have no error, and each is what the kernel reported, translated.
pub record AllWell (c : Numbers) (kevs : ℕ → Kevent) (i n : ℕ) (r r' : Waited) : Type 0 where
  pub ret : r'.ret ≡ r.ret
  pub errno : r'.errno ≡ r.errno
  pub well : (j : ℕ) → i ≤ j → j < i + n → (kevs j).flags c.ev_error ≡ false
  pub events :
      (j : ℕ)
      → r'.events j ≡ (if leb i j && ltb j (i + n) then kevent_to_event c (kevs j) else r.events j)

-- The entry at `k` is the first with an error; those in front of it are translated.
pub record Failed (c : Numbers) (kevs : ℕ → Kevent) (i k : ℕ) (r r' : Waited) : Type 0 where
  pub ret : r'.ret ≡ negsuc 0
  pub errno : r'.errno ≡ (kevs k).error
  pub error : (kevs k).flags c.ev_error ≡ true
  pub well : (j : ℕ) → i ≤ j → j < k → (kevs j).flags c.ev_error ≡ false
  pub events :
      (j : ℕ)
      → r'.events j ≡ (if leb i j && ltb j k then kevent_to_event c (kevs j) else r.events j)

abbrev pub Outcome : Numbers → (ℕ → Kevent) → ℕ → ℕ → Waited → Waited → Type 0
Outcome c kevs i n r r' =
    AllWell c kevs i n r r' ⊎ ((k : ℕ) × (i ≤ k) × (k < i + n) × Failed c kevs i k r r')

-- An entry more is written in front of those that are.
filled_one_more :
    (new old : ℕ → Event) (i k j : ℕ) (x : Event)
    → i < k
    → x ≡ (if leb (i + 1) j && ltb j k then new j else if i == j then new i else old j)
    → x ≡ (if leb i j && ltb j k then new j else old j)
filled_one_more new old i k j x fits e = grind arith

well_one_more :
    (error : ℕ → Bool) (i k : ℕ)
    → error i ≡ false
    → ((j : ℕ) → i + 1 ≤ j → j < k → error j ≡ false)
    → (j : ℕ) → i ≤ j
    → j < k
    → error j ≡ false
well_one_more error i k good rest j low high = elim (Bool-cases (i == j)) [
  | inl here ↦ let at : i ≡ j = ground arith in rw (sym at) good
  | inr later ↦ rest j (ground arith) high
]

fill_lem :
    (c : Numbers) (size : ℕ) (kevs : ℕ → Kevent) (n i : ℕ) (r : Waited)
    → i + n ≤ size
    → Returns (Outcome c kevs i n r) (fill c size kevs n i r)
unfolding fill write_event
fill_lem c size kevs zero i r fits = returns (
    inl (record {
      ret = refl;
      errno = refl;
      well = λ j low high. absurd (omega arith);
      events = λ j. ground arith;
    }))
fill_lem c size kevs (suc n) i r fits =
    let inside : ltb i size ≡ true = ground arith in
    elim (Bool-cases ((kevs i).flags c.ev_error)) [
      | inl bad ↦
          rw (fill, inside, bad)
            (returns (
              inr (
                i,
                omega arith,
                omega arith,
                record {
                  ret = refl;
                  errno = refl;
                  error = bad;
                  well = λ j low high. absurd (omega arith);
                  events = λ j. ground arith;
                },
              )))
      | inr good ↦
          let r1 : Waited = record r {
            events = write_event i (kevent_to_event c (kevs i)) r.events;
          } in
          rw (fill, inside, good)
            (Returns-map (fill_lem c size kevs n (i + 1) r1 (omega arith)) λ r' outcome.
              elim outcome [
                | inl all ↦ inl (record {
                  ret = all.ret;
                  errno = all.errno;
                  well = λ j low high.
                      well_one_more (λ j. (kevs j).flags c.ev_error) i (i + suc n) good
                        (λ j low high. all.well j low (omega arith)) j low high;
                  events = λ j.
                      let same : ltb j (i + 1 + n) ≡ ltb j (i + suc n) = ground arith in
                      filled_one_more (λ j. kevent_to_event c (kevs j)) r.events i (i + suc n) j
                        (r'.events j) (omega arith) (rw same at (all.events j));
                })
                | inr (k, low, high, failed) ↦ inr (
                  k,
                  omega arith,
                  omega arith,
                  record {
                    ret = failed.ret;
                    errno = failed.errno;
                    error = failed.error;
                    well = well_one_more (λ j. (kevs j).flags c.ev_error) i k good failed.well;
                    events = λ j.
                        filled_one_more (λ j. kevent_to_event c (kevs j)) r.events i k j
                          (r'.events j) (omega arith) (failed.events j);
                  },
                )
              ])
    ]

finish_lem :
    {S : Type 0} (c : Numbers) (size : ℕ) (kevs : ℕ → Kevent) (errno : ℤ) (events : ℕ → Event)
    (s : S) (ret : ℤ)
    → pos_part ret ≤ size
    → let r : Waited = record { ret = ret; errno = errno; events = events } in
      Returns
        (λ (r' : Waited × S). Outcome c kevs 0 (pos_part ret) r r'.0 × (r'.1 ≡ s))
        (elim ret [ pos n ↦ fill c size kevs n 0 r >>= λ r'. ok (r', s) | negsuc n ↦ ok (r, s) ])
finish_lem c size kevs errno events s (pos n) fits =
    Returns-bind (fill_lem c size kevs n 0 _ (omega arith)) λ r' outcome. returns (outcome, refl)
finish_lem c size kevs errno events s (negsuc n) fits = returns (
  inl (record {
    ret = refl;
    errno = refl;
    well = λ j low high. absurd (omega arith);
    events = λ j. ground arith;
  }),
  refl,
)

-- event_wait of kqueue, with room for at least one event and a kernel that returns no more events
-- than there is room for: if none of the returned events has EV_ERROR, it returns what kevent
-- returned, and writes the events, translated, and nothing else. Else it returns -1 with the error
-- of the first event that has one, and has written only the events in front of that one.
pub event_wait_errors :
    (k : Kernel) (c : Numbers) (efd : ℤ) (maxevents : ℕ) (timeout errno : ℤ) (events : ℕ → Event)
    (s : k.State)
    → 0 < maxevents
    → pos_part (k.kevent efd [] maxevents (timeout_spec timeout) s).0.0 ≤ maxevents
    → let waited = k.kevent efd [] maxevents (timeout_spec timeout) s in
      let before : Waited = record { ret = waited.0.0; errno = errno; events = events } in
      Returns
        (λ r. Outcome c waited.0.1 0 (pos_part waited.0.0) before r.0 × (r.1 ≡ waited.1))
        (event_wait k c efd maxevents timeout errno events s)
unfolding event_wait
event_wait_errors k c efd maxevents timeout errno events s some_room fits =
    let waited = k.kevent efd [] maxevents (timeout_spec timeout) s in
    let room : (maxevents == 0) ≡ false = ground arith in
    rw (event_wait, room) (finish_lem c maxevents waited.0.1 errno events waited.1 waited.0.0 fits)

-- A timeout of -1 ms is no timeout; another one is the normal timespec of so many milliseconds.
pub timeout_spec_lem :
    (timeout : ℤ)
    → ((timeout ≡ negsuc 0) × (timeout_spec timeout ≡ none))
      ⊎ ((ts : Timespec) × (timeout_spec timeout ≡ some ts)
          × Totals.IsNormal ts
          × (Totals.total ts ≡ scale 1_000_000 timeout))
unfolding timeout_spec
timeout_spec_lem timeout =
    let start : Timespec = record { sec = pos 0; nsec = pos 0 } in
    let ms = scale 1_000_000 timeout in
    let (normal, same) = Totals.total-add_nsec start ms (omega arith) in
    elim (Bool-cases (eqb_ℤ timeout (negsuc 0))) [
      | inl forever ↦ inl (eq_of_parts timeout (negsuc 0) (ground arith), rw forever refl)
      | inr ends ↦ inr (
        add_nsec start ms,
        rw ends refl,
        normal,
        same
            ∙ eq_of_parts _ _
                (omega (arith, +ℤ_parts (Totals.total start) ms, Totals.total_parts start)),
      )
    ]
