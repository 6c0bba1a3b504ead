-- ===== src/Debug.antt =====
-- include/ckit/debug.h and src/debug.c: logs with a level, and the default log that the macros
-- write to. The parts for Android are left out.
pub mod Print
pub mod Safety
pub mod Hexdump
mod Tests
use libckit.Common.{
  ℕ, zero, suc, Bool, true, false, not, ◌||◌, ◌==◌, ltb, Option, none, some, List, [], ◌∷◌,
  if◌then◌else◌,
}
use libckit.Common.Int.{ℤ, pos, negsuc, eqb_ℤ}
use libckit.Common.Run.{Run, ok, fault, ◌>>=◌}
use libckit.Log
use libckit.Log.{Log, Mode, append, System, Streams, sync, no_flags}

-- `ck_dbg_level_t`
pub data Level : Type 0 where
  verb dbg inf warn err : Level

abbrev pub rank : Level → ℕ
rank verb = 0
rank dbg = 1
rank inf = 2
rank warn = 3
rank err = 4

-- `levelstr`, in ASCII
abbrev level_to_str : Level → List ℕ
level_to_str verb = 86 ∷ 69 ∷ 82 ∷ 66 ∷ []
level_to_str dbg = 68 ∷ 66 ∷ 71 ∷ []
level_to_str inf = 73 ∷ 78 ∷ 70 ∷ []
level_to_str warn = 87 ∷ 65 ∷ 82 ∷ 78 ∷ []
level_to_str err = 69 ∷ 82 ∷ 82 ∷ []

-- `struct ck_dbg`
pub record Dbg : Type 0 where
  pub log : Log
  pub level : Level

-- `default_dbg`, as a pointer
abbrev pub default_dbg : ℕ
default_dbg = 0

-- the logs in memory, `dbg_log`, and the streams
pub record World (T : Type 0) : Type 0 where
  pub dbgs : ℕ → Dbg
  pub dbg_log : Option ℕ
  pub streams : Streams T

abbrev pub blank_log : Log
blank_log = record { fp = none; flags = no_flags; mode = append }

module _ {T : Type 0} where
  unfoldable pub set_dbg : ℕ → Dbg → World T → World T
  set_dbg d new w = record w { dbgs = λ p. if d == p then new else w.dbgs p }

  abbrev pub set_fp : ℕ → Option ℕ → World T → World T
  set_fp d fp w = set_dbg d (record (w.dbgs d) { log = record (w.dbgs d).log { fp = fp } }) w

  unfoldable pub set_default_log : Option ℕ → World T → World T
  set_default_log d w = record w { dbg_log = d }

  unfoldable pub init : ℕ → Option ℕ → World T → ℤ × World T
  init d fp w = (pos 0, set_dbg d (record { log = Log.init fp append; level = dbg }) w)

  unfoldable pub is_open : ℕ → World T → Bool
  is_open d w = elim (w.dbgs d).log.fp [ none ↦ d == default_dbg | some fp ↦ true ]

  unfoldable pub set_level : ℕ → Level → World T → World T
  set_level d level w = set_dbg d (record (w.dbgs d) { level = level }) w

  unfoldable pub set_sync_mode : ℕ → World T → World T
  set_sync_mode d w = set_dbg d (record (w.dbgs d) { log = Log.set_flag sync (w.dbgs d).log }) w

module _ {T P : Type 0} (sys : System T P) where
  -- the stream that the default log gets for a message
  abbrev pub stream_of : Level → ℕ
  stream_of err = sys.stderr
  stream_of level = sys.stdout

  -- what ck_dbg_print does to the default log before a message, and after it
  unfoldable pub lend : ℕ → Level → World T → World T
  lend d level w = if d == default_dbg then set_fp d (some (stream_of level)) w else w

  unfoldable pub take_back : ℕ → World T → World T
  take_back d w = if d == default_dbg then set_fp d none w else w

  unfoldable pub emit : ℕ → T → World T → Run (ℤ × World T)
  emit d text w = do
    (ret, s) ← Log.vprint sys (w.dbgs d).log text w.streams
    ok (ret, take_back d (record w { streams = s }))

  unfoldable pub print : ℕ → Level → T → World T → Run (ℤ × World T)
  print d level text w =
      if ltb (rank level) (rank (w.dbgs d).level)
      then ok (pos 0, w)
      else emit d text (lend d level w)

  -- `start` is the message of a log that opens.
  unfoldable pub open_dbg : ℕ → P → T → World T → Run (ℤ × World T)
  open_dbg d path start w =
      let (ret, log, s) = Log.open_log sys path append blank_log w.streams in
      let w1 : World T = record (set_dbg d (record { log = log; level = dbg }) w) { streams = s } in
      if eqb_ℤ ret (pos 0) then (print d inf start w1 >>= λ r. ok (ret, r.1)) else ok (ret, w1)

  unfoldable pub close_stream : ℕ → World T → Run (World T)
  close_stream d w = Log.close sys (w.dbgs d).log w.streams >>= λ s. ok (record w { streams = s })

  -- In the case of NULL, the source tests NULL against the default log, and not `dbg_log`.
  unfoldable pub close : Option ℕ → World T → Run (World T)
  close (some d) w = do
    w1 ← if d == default_dbg then ok w else close_stream d w
    ok (elim w1.dbg_log as (λ x. World T) [
      | none ↦ w1
      | some g ↦ if d == g then record w1 { dbg_log = none } else w1
    ])
  close none w = elim w.dbg_log [
    | none ↦ ok w
    | some g ↦ close_stream g w >>= λ w1. ok (record w1 { dbg_log = none })
  ]

  -- the macros LOG_ERR, LOG_WARN and LOG_INF
  unfoldable pub log_message : Level → T → World T → Run (ℤ × World T)
  log_message level text w = elim w.dbg_log [ none ↦ fault | some g ↦ print g level text w ]
