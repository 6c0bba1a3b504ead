-- ===== src/Event/Kqueue/Changes.antt =====
-- What event_ctl of src/event_kqueue.c asks the kernel for, and what comes back.
use libckit.Common.{
  ℕ, ◌≡◌, ◌≢◌, refl, sym, inl, inr, [], ◌∷◌, ◌++◌, true, false, arith, if◌then◌else◌, Bool-cases,
  map,
}
use libckit.Common.Int.{ℤ, eqb_ℤ, eq_of_parts}
use libckit.NodeList.Ring.{AreDistinct}
use libckit.Event.{
  Word, no_flags, set_flag, pass, event_types, EventCtl, add, delete, modify, Event,
}
use libckit.Event.Kqueue.{Numbers, changes, set_kevent, kevent_flags, kevent_to_event}

-- the event that has one flag
abbrev pub one_flag : ℕ → ℕ → Event
one_flag flag bytes = record { events = set_flag flag no_flags; bytes = bytes }

eqb_refl : (a : ℤ) → eqb_ℤ a a ≡ true
eqb_refl a = ground arith

eqb_apart : (a b : ℤ) → a ≢ b → eqb_ℤ a b ≡ false
eqb_apart a b ne = elim (Bool-cases (eqb_ℤ a b)) [
  | inl same ↦ absurd (ne (eq_of_parts a b (ground arith)))
  | inr other ↦ other
]

module _ (c : Numbers) (filters : c.filter_read ≢ c.filter_write)
    (flags : AreDistinct (c.ev_eof ∷ c.ev_add ∷ c.ev_delete ∷ c.ev_oneshot ∷ [])) where
  no_eof : (ctl : EventCtl) (ev : Event) → kevent_flags c ctl ev c.ev_eof ≡ false
  unfolding kevent_flags pass set_flag
  no_eof add ev = ground (arith, flags)
  no_eof modify ev = ground (arith, flags)
  no_eof delete ev = ground (arith, flags)

  read_back :
      (fd : ℕ) (w : Word) (ptr : ℕ)
      → w c.ev_eof ≡ false
      → kevent_to_event c (set_kevent fd c.filter_read w ptr) ≡ one_flag event_types.input ptr
  unfolding kevent_to_event pass
  read_back fd w ptr off =
      rw
        (
          kevent_to_event,
          eqb_refl c.filter_read,
          eqb_apart c.filter_read c.filter_write filters,
          off,
        )
        refl

  write_back :
      (fd : ℕ) (w : Word) (ptr : ℕ)
      → w c.ev_eof ≡ false
      → kevent_to_event c (set_kevent fd c.filter_write w ptr) ≡ one_flag event_types.output ptr
  unfolding kevent_to_event pass
  write_back fd w ptr off =
      rw
        (
          kevent_to_event,
          eqb_refl c.filter_write,
          eqb_apart c.filter_write c.filter_read λ e. filters (sym e),
          off,
        )
        refl

  -- If the two filters differ, and EV_EOF is not the bit of another flag, then the changes that
  -- event_ctl asks for, reported as they were asked for, come back as an event with EVENT_IN
  -- alone if that was asked for, and then one with EVENT_OUT alone if that was, each with the data
  -- that was given; no other flag comes back.
  pub kevent_to_event-changes :
      (ctl : EventCtl) (fd : ℕ) (ev : Event)
      → map (kevent_to_event c) (changes c ctl fd ev)
        ≡ (if ev.events event_types.input then one_flag event_types.input ev.bytes ∷ [] else [])
          ++ (if ev.events event_types.output
              then one_flag event_types.output ev.bytes ∷ []
              else [])
  unfolding changes
  kevent_to_event-changes ctl fd ev =
      let w = kevent_flags c ctl ev in
      let r = read_back fd w ev.bytes (no_eof ctl ev) in
      let s = write_back fd w ev.bytes (no_eof ctl ev) in
      elim (Bool-cases (ev.events event_types.input)) [
        | inl i ↦ elim (Bool-cases (ev.events event_types.output)) [
          | inl o ↦ rw (changes, i, o, r, s) refl
          | inr o ↦ rw (changes, i, o, r) refl
        ]
        | inr i ↦ elim (Bool-cases (ev.events event_types.output)) [
          | inl o ↦ rw (changes, i, o, s) refl
          | inr o ↦ rw (changes, i, o) refl
        ]
      ]
