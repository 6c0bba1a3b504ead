-- ===== src/Event.antt =====
-- include/ckit/event.h: events on file descriptors, which src/event_epoll.c and
-- src/event_kqueue.c wait for.
pub mod Epoll
pub mod Kqueue
mod Tests
use libckit.Common.{ℕ, ◌+◌, ◌*◌, ◌/◌, ◌%◌, ◌^◌, Bool, true, false, ◌==◌, if◌then◌else◌}

-- a word of flags, as its bits
abbrev pub Word : Type 0
Word = ℕ → Bool

abbrev pub no_flags : Word
no_flags bit = false

unfoldable pub set_flag : ℕ → Word → Word
set_flag bit w b = if bit == b then true else w b

-- `if (a & FROM) b |= TO;`, where FROM and TO are single bits
unfoldable pub pass : ℕ → ℕ → Word → Word → Word
pass from to a b = if a from then set_flag to b else b

-- the bits of the six flags that events have
pub record Flags : Type 0 where
  pub input : ℕ
  pub output : ℕ
  pub hup : ℕ
  pub rdhup : ℕ
  pub edge : ℕ
  pub oneshot : ℕ

-- `enum event_types`
abbrev pub event_types : Flags
event_types = record { input = 0; output = 1; hup = 2; rdhup = 3; edge = 10; oneshot = 11 }

-- `enum event_ctl`
pub data EventCtl : Type 0 where
  add delete modify : EventCtl

-- `struct event`; `data` is the 8 bytes of the union, the low ones first.
pub record Event : Type 0 where
  pub events : Word
  pub bytes : ℕ

-- `ev->data.fd = fd`
abbrev pub set_fd : ℕ → ℕ → ℕ
set_fd fd bytes = bytes / 2 ^ 32 * 2 ^ 32 + fd % 2 ^ 32

-- `ev->data.ptr = ptr`
abbrev pub set_ptr : ℕ → ℕ → ℕ
set_ptr ptr bytes = ptr

-- `events[i] = ev`
unfoldable pub write_event : ℕ → Event → (ℕ → Event) → ℕ → Event
write_event i ev events j = if i == j then ev else events j
