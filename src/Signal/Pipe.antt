-- ===== src/Signal/Pipe.antt =====
-- The system calls that src/signal.c makes, on the pipe of a signal.
use libckit.Common.{ℕ, ◌≤◌, ◌<◌, List, [], ◌∷◌, ◌++◌, ◌≡◌, Bool, true, false, Option, length}
use libckit.Common.Int.{ℤ, pos, negsuc, ◌<ℤ◌, ltb_ℤ}

abbrev pub not_empty : List ℤ → Bool
not_empty [] = false
not_empty (x ∷ xs) = true

pub record Kernel : Type 1 where
  pub State : Type 0
  -- `pipe`: the two ends, or an error
  pub pipe : State → Option (ℕ × ℕ) × State
  -- `fcntl(fd, F_SETFL, O_NONBLOCK)`
  pub set_nonblock : ℕ → State → ℤ × State
  pub close : ℕ → State → State
  -- `read(fd, val, sizeof(int))`: what it returns, and `*val` afterwards
  pub read : ℕ → ℤ → State → (ℤ × ℤ) × State
  -- whether `errno` is EWOULDBLOCK
  pub would_block : State → Bool
  -- `write(fd, &val, sizeof(int))`
  pub write : ℕ → ℤ → State → ℤ × State
  -- `poll` of one descriptor, for input, with a timeout
  pub poll : ℕ → ℤ → State → ℤ × State

-- What the manual pages say of a pipe with the ends `r` and `w`, of which `r` does not block and
-- both stay open: `queue` is what was written and not yet read, in order.
pub record IsPipe (k : Kernel) (r w : ℕ) (queue : k.State → List ℤ) (capacity : ℕ) : Type 0 where
  pub bounded : (s : k.State) → length (queue s) ≤ capacity
  pub read_some :
      (s : k.State) (val v : ℤ) (rest : List ℤ)
      → queue s ≡ v ∷ rest
      → (s' : k.State) × (k.read r val s ≡ ((pos 4, v), s')) × (queue s' ≡ rest)
  pub read_none :
      (s : k.State) (val : ℤ)
      → queue s ≡ []
      → (s' : k.State) × (k.read r val s ≡ ((negsuc 0, val), s'))
        × (k.would_block s' ≡ true)
        × (queue s' ≡ [])
  -- A poll that may not wait only looks.
  pub poll_now :
      (s : k.State)
      → (ltb_ℤ (pos 0) (k.poll r (pos 0) s).0 ≡ not_empty (queue s))
        × (queue (k.poll r (pos 0) s).1 ≡ queue s)
  -- A poll may wait for a writer.
  pub poll_ready :
      (s : k.State) (timeout : ℤ)
      → pos 0 <ℤ (k.poll r timeout s).0
      → not_empty (queue (k.poll r timeout s).1) ≡ true
  pub write_room :
      (s : k.State) (v : ℤ)
      → length (queue s) < capacity
      → ((k.write w v s).0 ≡ pos 4) × (queue (k.write w v s).1 ≡ queue s ++ v ∷ [])
