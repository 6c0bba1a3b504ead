-- ===== src/Debug/Print.antt =====
-- ck_dbg_print, ck_dbg_close and the macros that use them
use libckit.Common.{
  ℕ, ◌≡◌, ◌≢◌, refl, ap, sym, ◌∙◌, subst, fun_ext, true, false, Option, none, some, ◌∷◌, arith,
  ◌==◌, ltb, if◌then◌else◌, Bool-cases, Option-cases, inl, inr,
}
use libckit.Common.Int.{pos}
use libckit.Common.Run.{ok, fault, Returns, returns}
use libckit.Log
use libckit.Log.{Log, System, Streams}
use libckit.Debug.{
  Level, rank, Dbg, World, default_dbg, set_dbg, set_fp, is_open, print, emit, lend, take_back,
  close, close_stream, log_message, stream_of,
}

module _ {T P : Type 0} (sys : System T P) where
  -- The default log has no stream of its own.
  abbrev pub IsIdle : World T → Type 0
  IsIdle w = (w.dbgs default_dbg).log.fp ≡ none

  pub print-low :
      (d : ℕ) (level : Level) (text : T) (w : World T)
      → ltb (rank level) (rank (w.dbgs d).level) ≡ true
      → print sys d level text w ≡ ok (pos 0, w)
  unfolding print
  print-low d level text w low = rw (print, low) refl

  set_fp-back :
      (w : World T) (s : Streams T) (fp : Option ℕ)
      → IsIdle w
      → let w1 : World T = record (set_fp default_dbg fp w) { streams = s } in
        set_fp default_dbg none w1 ≡ record w { streams = s }
  unfolding set_dbg
  set_fp-back w s fp idle =
      ap (λ (dbgs : ℕ → Dbg). record w { dbgs = dbgs; streams = s })
        (fun_ext λ p. elim (Bool-cases (default_dbg == p)) [
          | inl here ↦
              let at : default_dbg ≡ p = ground arith in
              let old = w.dbgs default_dbg in
              rw here (
                ap (λ (fp : Option ℕ). record old { log = record old.log { fp = fp } }) (sym idle)
                ∙ ap w.dbgs at)
          | inr away ↦ ground arith
        ])

  -- a message has been written
  abbrev pub wrote : ℕ → T → World T → World T
  wrote fp text w = record w {
    streams = record w.streams { written = (fp, text) ∷ w.streams.written };
  }

  lend-other :
      (d : ℕ) (level : Level) (w : World T) → (d == default_dbg) ≡ false → lend sys d level w ≡ w
  unfolding lend
  lend-other d level w other = rw other refl

  take_back-other : (d : ℕ) (w : World T) → (d == default_dbg) ≡ false → take_back sys d w ≡ w
  unfolding take_back
  take_back-other d w other = rw other refl

  emit-other :
      (d : ℕ) (text : T) (w : World T) (fp : ℕ)
      → (d == default_dbg) ≡ false
      → (w.dbgs d).log.fp ≡ some fp
      → emit sys d text w ≡ ok (sys.printed fp text, wrote fp text w)
  unfolding emit Log.vprint
  emit-other d text w fp other e =
      rw (emit, Log.vprint, e)
        (ap (λ (w' : World T). ok (sys.printed fp text, w'))
          (take_back-other d (wrote fp text w) other))

  pub print-high :
      (d : ℕ) (level : Level) (text : T) (w : World T) (fp : ℕ)
      → ltb (rank level) (rank (w.dbgs d).level) ≡ false
      → (d == default_dbg) ≡ false
      → (w.dbgs d).log.fp ≡ some fp
      → print sys d level text w ≡ ok (sys.printed fp text, wrote fp text w)
  unfolding print
  print-high d level text w fp high other e =
      rw (print, high)
        (ap (emit sys d text) (lend-other d level w other) ∙ emit-other d text w fp other e)

  pub print-default :
      (level : Level) (text : T) (w : World T)
      → ltb (rank level) (rank (w.dbgs default_dbg).level) ≡ false
      → IsIdle w
      → let fp = stream_of sys level in
        print sys default_dbg level text w ≡ ok (sys.printed fp text, wrote fp text w)
  unfolding print emit Log.vprint lend take_back set_dbg
  print-default level text w high idle =
      let fp = stream_of sys level in
      let s : Streams T = record w.streams { written = (fp, text) ∷ w.streams.written } in
      rw (print, high)
        (ap (λ (w' : World T). ok (sys.printed fp text, w')) (set_fp-back w s (some fp) idle))

  -- the stream that a message of a log goes to
  abbrev pub target : ℕ → Level → World T → ℕ
  target d level w =
      if d == default_dbg
      then stream_of sys level
      else elim (w.dbgs d).log.fp [ none ↦ 0 | some fp ↦ fp ]

  closed_off :
      (d : ℕ) (w : World T)
      → (d == default_dbg) ≡ false
      → (w.dbgs d).log.fp ≡ none
      → is_open d w ≢ true
  unfolding is_open
  closed_off d w other closed opened = ground (arith, other, closed, opened)

  -- ck_dbg_print to a log that is open does nothing and returns 0 if the level of the message is
  -- below that of the log. Else it writes the message once, to the log's stream, and returns what
  -- vfprintf returns; for the default log, if it has no stream of its own, that is stderr for an
  -- error and stdout for any other level, and the log has no stream of its own afterwards. Nothing
  -- else changes.
  pub print_lem :
      (d : ℕ) (level : Level) (text : T) (w : World T)
      → (d ≡ default_dbg → IsIdle w)
      → is_open d w ≡ true
      → let to = target d level w in
        print sys d level text w
        ≡ ok (
            if ltb (rank level) (rank (w.dbgs d).level) then (pos 0, w) else (
              sys.printed to text,
              record w { streams = record w.streams { written = (to, text) ∷ w.streams.written } },
            ))
  unfolding is_open
  print_lem d level text w idle opened =
      elim (Bool-cases (ltb (rank level) (rank (w.dbgs d).level))) [
        | inl low ↦ rw low (print-low d level text w low)
        | inr high ↦ elim (Bool-cases (d == default_dbg)) [
          | inl e ↦
              let at : d ≡ default_dbg = ground arith in
              let to = stream_of sys level in
              rw (high, e)
                (subst
                  (λ (x : ℕ). print sys x level text w ≡ ok (sys.printed to text, wrote to text w))
                  (sym at)
                  (print-default level text w
                    (subst (λ (x : ℕ). ltb (rank level) (rank (w.dbgs x).level) ≡ false) at high)
                    (idle at)))
          | inr other ↦ elim (Option-cases (w.dbgs d).log.fp) [
            | inl closed ↦ absurd (closed_off d w other closed opened)
            | inr (fp, e) ↦ rw (high, other, e) (print-high d level text w fp high other e)
          ]
        ]
      ]

  emit-closed :
      (d : ℕ) (text : T) (w : World T) → (w.dbgs d).log.fp ≡ none → emit sys d text w ≡ fault
  unfolding emit Log.vprint
  emit-closed d text w e = rw (emit, Log.vprint, e) refl

  pub print-closed :
      (d : ℕ) (level : Level) (text : T) (w : World T)
      → ltb (rank level) (rank (w.dbgs d).level) ≡ false
      → (d == default_dbg) ≡ false
      → (w.dbgs d).log.fp ≡ none
      → print sys d level text w ≡ fault
  unfolding print
  print-closed d level text w high other e =
      rw (print, high) (ap (emit sys d text) (lend-other d level w other) ∙ emit-closed d text w e)

  -- If the default log has no stream of its own and is the one that the macros write to, then
  -- ck_dbg_close of NULL closes a NULL stream; and after ck_dbg_close of the default log, every
  -- message by the macros accesses memory through NULL.
  pub close_lem :
      (w : World T)
      → IsIdle w
      → w.dbg_log ≡ some default_dbg
      → (close sys none w ≡ fault)
        × Returns
            (λ w'. (level : Level) (text : T) → log_message sys level text w' ≡ fault)
            (close sys (some default_dbg) w)
  unfolding close close_stream log_message Log.close
  close_lem w idle e =
      (rw (close, e, Log.close, idle) refl, rw (close, e) (returns (λ level text. refl)))
