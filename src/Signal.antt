-- ===== src/Signal.antt =====
-- include/ckit/signal.h and src/signal.c: a signal between threads, over a pipe. The system calls
-- are those of a `Kernel`; `signal_t *` is an optional signal where NULL is tested for.
pub mod Pipe
pub mod Drain
pub mod Wait
pub mod Tests
use libckit.Common.{
  ℕ, zero, suc, ◌≡◌, Bool, true, false, ◌&&◌, not, Option, none, some, if◌then◌else◌,
}
use mathlib.Core.Option
use libckit.Common.Int.{ℤ, pos, negsuc, ltb_ℤ, eqb_ℤ}
use libckit.Common.Run.{Run, ok, out_of_fuel, ◌>>=◌}
use libckit.Atomic.{inc, dec, to_unsigned}
use Pipe.{Kernel}

pub record Signal : Type 0 where
  pub read_end : ℕ
  pub write_end : ℕ
  pub waiting : ℤ

module _ (k : Kernel) where
  open k use {State, pipe, set_nonblock, close, read, write, poll, would_block}

  pub init : Option Signal → State → (ℤ × Option Signal) × State
  init none s = ((negsuc 0, none), s)
  init (some sig) s =
      let (made, s1) = pipe s in
      elim made [
        | none ↦ ((negsuc 0, some sig), s1)
        | some (r, w) ↦
            let fresh : Signal = record { read_end = r; write_end = w; waiting = pos 0 } in
            let (ret, s2) = set_nonblock r s1 in
            if eqb_ℤ ret (negsuc 0)
            then ((negsuc 0, some fresh), close w (close r s2))
            else ((pos 0, some fresh), s2)
      ]

  pub destroy : Signal → State → State
  destroy sig s = close sig.write_end (close sig.read_end s)

  abbrev pub is_positive : ℤ → ℤ
  is_positive ret = if ltb_ℤ (pos 0) ret then pos 1 else pos 0

  -- one round of the loop of signal_clear_val, given what `read` did: `again` is the next one
  drain_step : (ℤ → State → Run ((ℤ × ℤ) × State)) → (ℤ × ℤ) × State → Run ((ℤ × ℤ) × State)
  drain_step again ((ret, val), s) = elim (ltb_ℤ (pos 0) ret) [
    | true ↦ again val s
    | false ↦ ok ((ret, val), s)
  ]

  -- `read` until it returns nothing more: what the last call returned, and `*val`
  drain : ℕ → ℕ → ℤ → State → Run ((ℤ × ℤ) × State)
  drain zero fd val s = out_of_fuel
  drain (suc n) fd val s = drain_step (drain n fd) (read fd val s)

  -- `n` is the fuel of the loop.
  pub clear_val : ℕ → Signal → ℤ → State → Run ((ℤ × ℤ) × State)
  clear_val n sig val s = do
    ((ret, val'), s') ← drain n sig.read_end val s
    ok ((is_positive ret, val'), s')

  pub clear : ℕ → Signal → State → Run (ℤ × State)
  clear n sig s = do ((ret, val), s') ← clear_val n sig (pos 0) s; ok (ret, s')

  abbrev pub get_fd : Signal → ℕ
  get_fd sig = sig.read_end

  -- the round of the loop of signal_wait_val that has polled
  wait_polled : (ℤ → ℤ → State → Run ((ℤ × ℤ) × State)) → ℤ → ℤ × State → Run ((ℤ × ℤ) × State)
  wait_polled again val (ready, s) = elim (ltb_ℤ (pos 0) ready) [
    | true ↦ again ready val s
    | false ↦ ok ((ready, val), s)
  ]

  -- one round of that loop, given what `read` did
  wait_step :
      (ℤ → ℤ → State → Run ((ℤ × ℤ) × State)) → ℕ → ℤ → ℤ → (ℤ × ℤ) × State → Run ((ℤ × ℤ) × State)
  wait_step again fd timeout ret ((n, val), s) = elim (eqb_ℤ n (negsuc 0)) [
    | true ↦ elim (would_block s) [
      | true ↦ wait_polled again val (poll fd timeout s)
      | false ↦ ok ((ret, val), s)
    ]
    | false ↦ elim (eqb_ℤ n (pos 0)) [
      | true ↦ again (is_positive n) val s
      | false ↦ ok ((is_positive n, val), s)
    ]
  ]

  -- the `do` loop of signal_wait_val: `ret` and `*val` at its end
  wait_loop : ℕ → ℕ → ℤ → ℤ → ℤ → State → Run ((ℤ × ℤ) × State)
  wait_loop zero fd timeout ret val s = out_of_fuel
  wait_loop (suc m) fd timeout ret val s =
      wait_step (wait_loop m fd timeout) fd timeout ret (read fd val s)

  -- A `val` of NULL is `none`; `m` and `n` are the fuel of the two loops.
  pub wait_val : ℕ → ℕ → Signal → ℤ → Option ℤ → State → Run ((ℤ × Option ℤ) × (Signal × State))
  wait_val m n sig timeout val s = do
    ((ret, got), s1) ← wait_loop m sig.read_end timeout (pos 0) (Option.get_or val (pos 0)) s
    (cleared, s2) ← clear n sig s1
    ok ((ret, Option.map (λ _. got) val), (record sig { waiting = dec (inc sig.waiting) }, s2))

  pub wait : ℕ → ℕ → Signal → ℤ → State → Run (ℤ × (Signal × State))
  wait m n sig timeout s = do ((ret, got), after) ← wait_val m n sig timeout none s; ok (ret, after)

  pub is_raised : Signal → State → Bool × State
  is_raised sig s = let (n, s') = poll sig.read_end (pos 0) s in (ltb_ℤ (pos 0) n, s')

  pub raise_val : Signal → ℤ → State → ℤ × State
  raise_val sig val s =
      let (raised, s') = is_raised sig s in
      if raised then (pos 0, s') else write sig.write_end val s'

  pub raise : Signal → State → ℤ × State
  raise sig s = raise_val sig (pos 0) s

pub num_waiting : Signal → ℕ
num_waiting sig = to_unsigned sig.waiting
