-- ===== src/Log.antt =====
-- include/ckit/log.h and src/log.c: a log is a stream with flags. A stream is a number, and what
-- is written is text of any type, with its arguments put in.
use libckit.Common.{
  ℕ, zero, suc, Bool, false, not, ◌&&◌, ◌||◌, ◌==◌, Option, none, some, List, ◌∷◌, if◌then◌else◌,
}
use libckit.Common.Int.{ℤ, pos, negsuc}
use libckit.Common.Run.{Run, ok, fault}

-- `ck_log_mode_t`
pub data Mode : Type 0 where
  append trunc : Mode

-- the bits of an `unsigned char`, or of the flags of a log
abbrev pub Flags : Type 0
Flags = ℕ → Bool

abbrev pub no_flags : Flags
no_flags bit = false

-- CK_LOG_F_SYNC
abbrev pub sync : Flags
sync bit = bit == 0

-- `struct ck_log`
pub record Log : Type 0 where
  pub fp : Option ℕ
  pub flags : Flags
  pub mode : Mode

-- What has happened to the streams, the last first. That a stream is used after it was closed is
-- not found out here.
pub record Streams (T : Type 0) : Type 0 where
  pub written : List (ℕ × T)
  pub flushed : List ℕ
  pub closed : List ℕ

-- The rest of the system: the standard streams, fopen with its mode, what vfprintf returns, and
-- the message about a file that does not open.
pub record System (T P : Type 0) : Type 0 where
  pub stdout : ℕ
  pub stderr : ℕ
  pub fopen : P → Mode → Option ℕ
  pub printed : ℕ → T → ℤ
  pub complaint : P → T

unfoldable pub init : Option ℕ → Mode → Log
init fp mode = record { fp = fp; flags = no_flags; mode = mode }

unfoldable pub set_flag : Flags → Log → Log
set_flag f log = record log { flags = λ b. log.flags b || f b }

unfoldable pub unset_flag : Flags → Log → Log
unset_flag f log = record log { flags = λ b. log.flags b && not (f b) }

-- whether two words have one of the first `n` bits in common
unfoldable pub common_bit : ℕ → Flags → Flags → Bool
common_bit zero a b = false
common_bit (suc n) a b = a n && b n || common_bit n a b

unfoldable pub check_flag : Flags → Log → Bool
check_flag f log = common_bit 8 log.flags f

module _ {T P : Type 0} (sys : System T P) where
  -- The log is the second of what it returns; it is left alone if the file does not open.
  unfoldable pub open_log : P → Mode → Log → Streams T → ℤ × Log × Streams T
  open_log path mode log s = elim (sys.fopen path mode) [
    | none ↦ (negsuc 0, log, record s { written = (sys.stderr, sys.complaint path) ∷ s.written })
    | some fp ↦ (pos 0, init (some fp) mode, s)
  ]

  unfoldable pub close : Log → Streams T → Run (Streams T)
  close log s = elim log.fp [ none ↦ fault | some fp ↦ ok (record s { closed = fp ∷ s.closed }) ]

  unfoldable pub vprint : Log → T → Streams T → Run (ℤ × Streams T)
  vprint log text s = elim log.fp [
    | none ↦ fault
    | some fp ↦ ok (sys.printed fp text, record s { written = (fp, text) ∷ s.written })
  ]

  unfoldable pub print : Log → T → Streams T → Run (ℤ × Streams T)
  print log text s = elim log.fp [
    | none ↦ fault
    | some fp ↦
        let s' : Streams T = record s { written = (fp, text) ∷ s.written } in
        ok (
          sys.printed fp text,
          if check_flag sync log then record s' { flushed = fp ∷ s'.flushed } else s',
        )
  ]
