-- ===== src/Debug/Tests.antt =====
-- src/debug.c on some logs, hexdump on some bytes, and the theorems about them at these.
use libckit.Common.{ℕ, ◌≡◌, refl, [], ◌∷◌, none, some, ◌+◌, arith}
use libckit.Common.Int.{pos}
use libckit.Common.Run.{ok, fault}
use libckit.Log
use libckit.Log.{Log, System, Streams}
use libckit.Debug.{
  err, inf, dbg, World, default_dbg, blank_log, set_dbg, set_fp, lend, take_back, emit, print,
  open_dbg, close_stream, close, is_open,
}
use libckit.Debug.Print.{print_lem}
use libckit.Debug.Hexdump.{hexdump}
use libckit.Debug.Hexdump.Room.{hexdump_lem, hexdump-past}
use libckit.Debug.Safety.{IsSafe, here, next, opening, closing, printing, Steps-IsSafe}

-- Texts and paths are numbers, and the file of a path opens as a stream above the standard ones.
abbrev system : System ℕ ℕ
system = record {
  stdout = 1;
  stderr = 2;
  fopen = λ path mode. some (3 + path);
  printed = λ fp text. pos text;
  complaint = λ path. path;
}

-- as the program starts
abbrev started : World ℕ
started = record {
  dbgs = λ d. record { log = blank_log; level = dbg };
  dbg_log = some default_dbg;
  streams = record { written = []; flushed = []; closed = [] };
}

-- An error goes to stderr.
print_lem_example :
    print system 0 err 40 started
    ≡ ok (pos 40, record started { streams = record started.streams { written = (2, 40) ∷ [] } })
unfolding is_open
print_lem_example = print_lem system 0 err 40 started (λ e. refl) refl

started-IsSafe : IsSafe system started
started-IsSafe = record { idle = refl; own = λ d. tt; closed = tt }

-- Log 5 opens the file of path 7, the default log writes to stdout and is closed, and then log 5
-- is closed.
abbrev ended : World ℕ
ended =
    record (set_fp 0 none (
      set_fp 0 (some 1)
        (set_dbg 5 (record { log = record blank_log { fp = some 10 }; level = dbg }) started))) {
          dbg_log = none;
          streams = record { written = (1, 40) ∷ (10, 20) ∷ []; flushed = []; closed = 10 ∷ [] };
        }

Steps-IsSafe_example : IsSafe system ended
unfolding open_dbg print set_dbg Log.open_log Log.init lend emit take_back Log.vprint close
    close_stream Log.close
Steps-IsSafe_example =
    Steps-IsSafe system (λ path. (omega arith, omega arith)) {w = started}
      (next
        (next (next (next (here) (opening 5 7 20 (omega arith) refl)) (printing 0 inf 40 refl))
          (closing (some 0) refl))
        (closing (some 5) refl))
      started-IsSafe

-- the bytes 18, 171 and 255, and a buffer for their text, "12ab ff00 "
hexdump_lem_example :
    hexdump (18 ∷ 171 ∷ 255 ∷ []) 12 (7 ∷ 7 ∷ 7 ∷ 7 ∷ 7 ∷ 7 ∷ 7 ∷ 7 ∷ 7 ∷ 7 ∷ 7 ∷ 7 ∷ [])
    ≡ ok (49 ∷ 50 ∷ 97 ∷ 98 ∷ 32 ∷ 102 ∷ 102 ∷ 48 ∷ 48 ∷ 32 ∷ 0 ∷ 7 ∷ [])
hexdump_lem_example =
    hexdump_lem (18 ∷ 171 ∷ 255 ∷ []) (7 ∷ 7 ∷ 7 ∷ 7 ∷ 7 ∷ 7 ∷ 7 ∷ 7 ∷ 7 ∷ 7 ∷ 7 ∷ 7 ∷ [])
      (omega arith) (omega arith)

-- a buffer for the text of the first byte only
hexdump-past_example : hexdump (18 ∷ 171 ∷ 255 ∷ []) 4 (7 ∷ 7 ∷ 7 ∷ 7 ∷ []) ≡ fault
hexdump-past_example =
    hexdump-past (18 ∷ 171 ∷ 255 ∷ []) (7 ∷ 7 ∷ 7 ∷ 7 ∷ []) (omega arith) (omega arith)
