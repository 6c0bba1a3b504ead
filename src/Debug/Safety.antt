-- ===== src/Debug/Safety.antt =====
-- What calls of the functions on logs do to the standard streams, in any order.
use libckit.Common.{
  ℕ, ◌≡◌, ◌≢◌, refl, sym, ◌∙◌, subst, false, Option, none, some, List, [], ◌∷◌, arith, ◌==◌, ltb,
  if◌then◌else◌, Bool-cases, Option-cases, inl, inr,
}
use libckit.Common.Int.{ℤ, pos}
use libckit.Common.Run.{Run, ok, fault, out_of_fuel, ◌>>=◌}
use libckit.Log
use libckit.Log.{Log, System, Streams, append, no_flags}
use libckit.Debug.{
  Level, rank, inf, dbg, Dbg, World, default_dbg, blank_log, set_dbg, print, init, open_dbg, close,
  close_stream, set_level, set_sync_mode, set_default_log,
}
use libckit.Debug.Print.{IsIdle, print-low, print-default, print-high, print-closed}

-- What holds of the result, if there is one.
abbrev pub OnOk {ℓ m} : {A : Type ℓ} → (A → Type m) → Run A → Type m
OnOk P (ok a) = P a
OnOk P fault = Unit
OnOk P out_of_fuel = Unit

OnOk-bind {ℓ m n k} :
    {A : Type ℓ} {B : Type m} (P : A → Type n) (Q : B → Type k) (run : Run A) (next : A → Run B)
    → OnOk P run
    → ((a : A) → P a → OnOk Q (next a))
    → OnOk Q (run >>= next)
OnOk-bind P Q (ok a) next p go = go a p
OnOk-bind P Q fault next p go = tt
OnOk-bind P Q out_of_fuel next p go = tt

module _ {T P : Type 0} (sys : System T P) where
  -- The stream is not a standard one.
  abbrev pub IsOwn : Option ℕ → Type 0
  IsOwn none = Unit {0}
  IsOwn (some fp) = (fp ≢ sys.stdout) × (fp ≢ sys.stderr)

  abbrev pub AreOwn : List ℕ → Type 0
  AreOwn [] = Unit {0}
  AreOwn (fp ∷ rest) = IsOwn (some fp) × AreOwn rest

  -- No log has a standard stream as its own, the default log has none, and no standard stream was
  -- closed.
  pub record IsSafe (w : World T) : Type 0 where
    pub idle : IsIdle sys w
    pub own : (d : ℕ) → IsOwn (w.dbgs d).log.fp
    pub closed : AreOwn w.streams.closed

  -- One call. Its caller keeps the default log out of ck_dbg_init and ck_dbg_open, and the standard
  -- streams out of ck_dbg_init.
  pub data Step (w : World T) : World T → Type 0 where
    initializing : (d : ℕ) (fp : Option ℕ) → default_dbg ≢ d → IsOwn fp → Step w (init d fp w).1
    opening :
        (d : ℕ) (path : P) (start : T) {r : ℤ × World T}
        → default_dbg ≢ d
        → open_dbg sys d path start w ≡ ok r
        → Step w r.1
    closing : (d : Option ℕ) {w' : World T} → close sys d w ≡ ok w' → Step w w'
    printing :
        (d : ℕ) (level : Level) (text : T) {r : ℤ × World T}
        → print sys d level text w ≡ ok r
        → Step w r.1
    levelling : (d : ℕ) (level : Level) → Step w (set_level d level w)
    syncing : (d : ℕ) → Step w (set_sync_mode d w)
    choosing : (d : Option ℕ) → Step w (set_default_log d w)

  pub data Steps (w : World T) : World T → Type 0 where
    here : Steps w w
    next : {t u : World T} → Steps w t → Step t u → Steps w u

  print-IsSafe :
      (d : ℕ) (level : Level) (text : T) (w : World T)
      → IsSafe w
      → OnOk (λ r. IsSafe r.1) (print sys d level text w)
  print-IsSafe d level text w safe = elim (Bool-cases (ltb (rank level) (rank (w.dbgs d).level))) [
    | inl low ↦ rw (print-low sys d level text w low) safe
    | inr high ↦ elim (Bool-cases (d == default_dbg)) [
      | inl e ↦
          let at : d ≡ default_dbg = ground arith in
          subst (λ (x : ℕ). OnOk (λ r. IsSafe r.1) (print sys x level text w)) (sym at)
            (rw
              (print-default sys level text w
                (subst (λ (x : ℕ). ltb (rank level) (rank (w.dbgs x).level) ≡ false) at high)
                safe.idle)
              (record { idle = safe.idle; own = safe.own; closed = safe.closed }))
      | inr other ↦ elim (Option-cases (w.dbgs d).log.fp) [
        | inl e ↦ rw (print-closed sys d level text w high other e) tt
        | inr (fp, e) ↦
            rw (print-high sys d level text w fp high other e)
              (record { idle = safe.idle; own = safe.own; closed = safe.closed })
      ]
    ]
  ]

  set_dbg-IsSafe :
      (d : ℕ) (new : Dbg) (w : World T)
      → IsSafe w
      → IsOwn new.log.fp
      → ((default_dbg ≡ d) → new.log.fp ≡ none)
      → IsSafe (set_dbg d new w)
  unfolding set_dbg
  set_dbg-IsSafe d new w safe own idle = record {
    idle = elim (Bool-cases (d == default_dbg)) [
      | inl e ↦ rw e (idle (ground arith))
      | inr e ↦ rw e safe.idle
    ];
    own = λ p. elim (Bool-cases (d == p)) [ inl e ↦ rw e own | inr e ↦ rw e (safe.own p) ];
    closed = safe.closed;
  }

  -- A write that leaves the stream alone.
  set_same-IsSafe :
      (d : ℕ) (new : Dbg) (w : World T)
      → IsSafe w
      → new.log.fp ≡ (w.dbgs d).log.fp
      → IsSafe (set_dbg d new w)
  set_same-IsSafe d new w safe same =
      set_dbg-IsSafe d new w safe (rw same (safe.own d))
        (λ e. same ∙ subst (λ (x : ℕ). (w.dbgs x).log.fp ≡ none) e safe.idle)

  closed-IsSafe :
      (fp : ℕ) (w : World T)
      → IsSafe w
      → IsOwn (some fp)
      → IsSafe (record w { streams = record w.streams { closed = fp ∷ w.streams.closed } })
  closed-IsSafe fp w safe own = record {
    idle = safe.idle;
    own = safe.own;
    closed = (own, safe.closed);
  }

  chosen-IsSafe : (d : Option ℕ) (w : World T) → IsSafe w → IsSafe (record w { dbg_log = d })
  chosen-IsSafe d w safe = record { idle = safe.idle; own = safe.own; closed = safe.closed }

  close_stream-IsSafe : (d : ℕ) (w : World T) → IsSafe w → OnOk IsSafe (close_stream sys d w)
  unfolding close_stream Log.close
  close_stream-IsSafe d w safe = elim (Option-cases (w.dbgs d).log.fp) [
    | inl e ↦ rw (close_stream, Log.close, e) tt
    | inr (fp, e) ↦ rw (close_stream, Log.close, e) (closed-IsSafe fp w safe (rw e at (safe.own d)))
  ]

  -- the end of ck_dbg_close of a log
  forgetting-IsSafe :
      (d : ℕ) (g : Option ℕ) (w : World T)
      → IsSafe w
      → IsSafe (elim g as (λ x. World T) [
        | none ↦ w
        | some g ↦ if d == g then record w { dbg_log = none } else w
      ])
  forgetting-IsSafe d none w safe = safe
  forgetting-IsSafe d (some g) w safe = elim (Bool-cases (d == g)) [
    | inl e ↦ rw e (chosen-IsSafe none w safe)
    | inr e ↦ rw e safe
  ]

  close-IsSafe : (d : Option ℕ) (w : World T) → IsSafe w → OnOk IsSafe (close sys d w)
  unfolding close
  close-IsSafe none w safe = elim (Option-cases w.dbg_log) [
    | inl e ↦ rw (close, e) safe
    | inr (g, e) ↦
        rw (close, e)
          (OnOk-bind IsSafe IsSafe (close_stream sys g w) (λ w1. ok (record w1 { dbg_log = none }))
            (close_stream-IsSafe g w safe) (chosen-IsSafe none))
  ]
  close-IsSafe (some d) w safe =
      OnOk-bind IsSafe IsSafe (if d == default_dbg then ok w else close_stream sys d w) _
        (elim (Bool-cases (d == default_dbg)) [
          | inl e ↦ rw e safe
          | inr e ↦ rw e (close_stream-IsSafe d w safe)
        ])
        (λ w1. forgetting-IsSafe d w1.dbg_log w1)

  open-IsSafe :
      ((path : P) → IsOwn (sys.fopen path append))
      → (d : ℕ) (path : P) (start : T) (w : World T) → default_dbg ≢ d
      → IsSafe w
      → OnOk (λ r. IsSafe r.1) (open_dbg sys d path start w)
  unfolding open_dbg Log.open_log Log.init
  open-IsSafe fresh d path start w ne safe = elim (Option-cases (sys.fopen path append)) [
    | inl e ↦
        let s = set_dbg-IsSafe d (record { log = blank_log; level = dbg }) w safe tt (λ e. refl) in
        rw (open_dbg, Log.open_log, e) (record { idle = s.idle; own = s.own; closed = safe.closed })
    | inr (fp, e) ↦
        let log : Log = record { fp = some fp; flags = no_flags; mode = append } in
        let new : Dbg = record { log = log; level = dbg } in
        let s = set_dbg-IsSafe d new w safe (rw e at (fresh path)) (λ c. absurd (ne c)) in
        let w1 : World T = record (set_dbg d new w) { streams = w.streams } in
        rw (open_dbg, Log.open_log, e)
          (OnOk-bind (λ r. IsSafe r.1) (λ r. IsSafe r.1) (print sys d inf start w1)
            (λ r. ok (pos 0, r.1))
            (print-IsSafe d inf start w1
              (record { idle = s.idle; own = s.own; closed = safe.closed }))
            λ r s. s)
  ]

  Step-IsSafe :
      ((path : P) → IsOwn (sys.fopen path append))
      → {w w' : World T} → Step w w'
      → IsSafe w
      → IsSafe w'
  unfolding init Log.init set_level set_sync_mode set_default_log Log.set_flag
  Step-IsSafe fresh {w} (initializing d fp ne own) safe =
      set_dbg-IsSafe d _ w safe own (λ c. absurd (ne c))
  Step-IsSafe fresh {w} (opening d path start ne e) safe =
      subst (OnOk (λ r. IsSafe r.1)) e (open-IsSafe fresh d path start w ne safe)
  Step-IsSafe fresh {w} (closing d e) safe = subst (OnOk IsSafe) e (close-IsSafe d w safe)
  Step-IsSafe fresh {w} (printing d level text e) safe =
      subst (OnOk (λ r. IsSafe r.1)) e (print-IsSafe d level text w safe)
  Step-IsSafe fresh {w} (levelling d level) safe = set_same-IsSafe d _ w safe refl
  Step-IsSafe fresh {w} (syncing d) safe = set_same-IsSafe d _ w safe refl
  Step-IsSafe fresh {w} (choosing d) safe = chosen-IsSafe d w safe

  -- If fopen never returns a standard stream, then after any calls, in any order, where ck_dbg_init
  -- and ck_dbg_open get other logs than the default one, and ck_dbg_init no standard stream, from a
  -- state in which no log has a standard stream as its own, the default log has none, and no
  -- standard stream was closed, this still holds: no call closes stdout or stderr, though the
  -- default log writes to them.
  pub Steps-IsSafe :
      ((path : P) → IsOwn (sys.fopen path append))
      → {w w' : World T} → Steps w w'
      → IsSafe w
      → IsSafe w'
  Steps-IsSafe fresh here safe = safe
  Steps-IsSafe fresh (next steps step) safe = Step-IsSafe fresh step (Steps-IsSafe fresh steps safe)
