-- ===== src/Timer/State.antt =====
-- What the functions of src/timer.c work on, and how they are chained.
use libckit.Common.{ℕ, Bool, Option, List}
use libckit.Common.Int.{ℤ}
use libckit.Common.Run.{Run, ok, fault, out_of_fuel}
use libckit.Heap.{World, Malloc}
use libckit.Signal.{Signal}
use libckit.Signal.Pipe.{Kernel}
use libckit.Time.Timespec.{Timespec}

-- `struct timer`, but for the heap item that is embedded in it: a callback is a number.
pub record Timer : Type 0 where
  pub timeout : Timespec
  pub expires : ℤ
  pub callback : Option ℕ
  pub destruct : Option ℕ
  pub user_data : ℕ

-- `struct timer_queue`, the timers in memory, those that timer_free gave back, the last first, and
-- the state of the system. That a timer is used after it was given back is not found out here.
pub record TimerQueue (S : Type 0) : Type 0 where
  pub queue : World Timer
  pub locked : Bool
  pub signal : Signal
  pub thr : ℕ
  pub freed : List ℕ
  pub system : S

-- What the functions use of the system: the calls on the pipe, and rounds enough to empty it;
-- `malloc`; the number of the thread that runs; what `clock_gettime` leaves in its argument; what a
-- callback does; and what an uninitialised `struct timespec` holds.
pub record Env : Type 1 where
  pub kernel : Kernel
  pub rounds : ℕ
  pub malloc : Malloc
  pub self : ℕ
  pub clock_gettime : Timespec → kernel.State → (ℤ × Timespec) × kernel.State
  pub call : ℕ → ℕ → TimerQueue kernel.State → TimerQueue kernel.State
  pub junk : Timespec

module _ {S A : Type 0} where
  abbrev pub pure : A → TimerQueue S → Run (A × TimerQueue S)
  pure a q = ok (a, q)

module _ {S A B : Type 0} where
  abbrev pub and_then :
      Run (A × TimerQueue S) → (A → TimerQueue S → Run (B × TimerQueue S)) → Run (B × TimerQueue S)
  and_then (ok (a, q)) f = f a q
  and_then fault f = fault
  and_then out_of_fuel f = out_of_fuel

  infixl 5 ◌>>=◌
  abbrev pub ◌>>=◌ :
      (TimerQueue S → Run (A × TimerQueue S))
      → (A → TimerQueue S → Run (B × TimerQueue S))
      → TimerQueue S
      → Run (B × TimerQueue S)
  (m >>= f) q = and_then (m q) f

infixl 5 ◌>>◌
abbrev pub ◌>>◌ :
    {S B : Type 0}
    → (TimerQueue S → Run (Unit {0} × TimerQueue S))
    → (TimerQueue S → Run (B × TimerQueue S))
    → TimerQueue S
    → Run (B × TimerQueue S)
(m >> f) q = and_then (m q) λ _. f

-- a command that looks at the state first
abbrev pub reading :
    {S A : Type 0}
    → (TimerQueue S → TimerQueue S → Run (A × TimerQueue S))
    → TimerQueue S
    → Run (A × TimerQueue S)
reading f q = f q q
