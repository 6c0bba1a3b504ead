-- ===== src/Signal/Drain.antt =====
-- signal_clear_val, signal_raise_val
use libckit.Common.{
  ℕ, zero, suc, ◌<◌, ◌≡◌, refl, ◌∙◌, List, [], ◌∷◌, ◌++◌, true, false, arith, length, if◌then◌else◌,
  ap,
}
use libckit.Common.Int.{ℤ, pos, negsuc, ltb_ℤ}
use libckit.Common.Run.{Run, Returns, returns, Returns-bind}
use libckit.Signal.{Signal, drain_step, drain, clear_val, clear, is_raised, raise_val}
use libckit.Signal.Pipe.{Kernel, IsPipe, not_empty}

-- the last of the values, or `v` if there is none
unfoldable pub last_or : ℤ → List ℤ → ℤ
last_or v [] = v
last_or v (x ∷ xs) = last_or x xs

module _ (k : Kernel) (sig : Signal) where
  pub raise_all : List ℤ → k.State → k.State
  raise_all [] s = s
  raise_all (v ∷ vs) s = raise_all vs (raise_val k sig v s).1

module _ (k : Kernel) (sig : Signal) (queue : k.State → List ℤ) (capacity : ℕ)
    (law : IsPipe k sig.read_end sig.write_end queue capacity) where
  drain_step-some :
      (again : ℤ → k.State → Run ((ℤ × ℤ) × k.State)) (v : ℤ) (s : k.State)
      → drain_step k again ((pos 4, v), s) ≡ again v s
  unfolding drain_step
  drain_step-some again v s = refl

  drain_lem :
      (n : ℕ) (val : ℤ) (s : k.State) (xs : List ℤ)
      → queue s ≡ xs
      → length xs < n
      → Returns
          (λ r. (r.0 ≡ (negsuc 0, last_or val xs)) × (queue r.1 ≡ []))
          (drain k n sig.read_end val s)
  unfolding drain last_or
  drain_lem zero val s xs e fuel = absurd (omega arith)
  drain_lem (suc n) val s [] e fuel =
      let (s', got, blocked, left) = law.read_none s val e in
      rw got (unfold drain_step in returns (refl, left))
  drain_lem (suc n) val s (x ∷ xs) e fuel =
      let (s', got, left) = law.read_some s val x xs e in
      rw (got, drain_step-some (drain k n sig.read_end) x s')
        (drain_lem n x s' xs left (omega arith))

  -- If the kernel keeps the laws of a pipe, signal_clear_val, given more rounds than values fit
  -- into the pipe, empties the pipe and leaves the last value in `*val`, if there was one. It
  -- returns 0, whether or not there was one.
  pub clear_val_lem :
      (n : ℕ) (val : ℤ) (s : k.State)
      → capacity < n
      → Returns
          (λ r. (r.0 ≡ (pos 0, last_or val (queue s))) × (queue r.1 ≡ []))
          (clear_val k n sig val s)
  unfolding clear_val
  clear_val_lem n val s fuel =
      Returns-bind (drain_lem n val s (queue s) refl (omega (arith, law.bounded s)))
        λ ((ret, v), s') (got, left). rw got (returns (refl, left))

  pub clear_lem :
      (n : ℕ) (s : k.State)
      → capacity < n
      → Returns (λ r. (r.0 ≡ pos 0) × (queue r.1 ≡ [])) (clear k n sig s)
  unfolding clear
  clear_lem n s fuel =
      Returns-bind (clear_val_lem n (pos 0) s fuel)
        λ ((ret, v), s') (got, left). rw got (returns (refl, left))

  -- If the kernel keeps the laws of a pipe that has room for a value, signal_raise_val writes the
  -- value if none is pending, and returns 4; else it returns 0 and what is pending stays.
  pub raise_val_lem :
      (val : ℤ) (s : k.State)
      → 0 < capacity
      → ((raise_val k sig val s).0 ≡ (if not_empty (queue s) then pos 0 else pos 4))
        × (queue (raise_val k sig val s).1 ≡ (if not_empty (queue s) then queue s else val ∷ []))
  unfolding raise_val is_raised
  raise_val_lem val s room = go (queue s) refl
    where
      go :
          (xs : List ℤ)
          → queue s ≡ xs
          → ((raise_val k sig val s).0 ≡ (if not_empty xs then pos 0 else pos 4))
            × (queue (raise_val k sig val s).1 ≡ (if not_empty xs then xs else val ∷ []))
      go [] e =
          let (ready, same) = law.poll_now s in
          let none_yet = same ∙ e in
          let s' = (k.poll sig.read_end (pos 0) s).1 in
          let (sent, queued) = law.write_room s' val (omega (arith, ap length none_yet)) in
          let test : ltb_ℤ (pos 0) (k.poll sig.read_end (pos 0) s).0 ≡ false =
            ready ∙ ap not_empty e in
          rw test (sent, queued ∙ ap (λ ys. ys ++ val ∷ []) none_yet)
      go (x ∷ xs) e =
          let (ready, same) = law.poll_now s in
          let test : ltb_ℤ (pos 0) (k.poll sig.read_end (pos 0) s).0 ≡ true =
            ready ∙ ap not_empty e in
          rw test (refl, same ∙ e)

  raise_all-pending :
      (x : ℤ) (xs vs : List ℤ) (s : k.State)
      → 0 < capacity
      → queue s ≡ x ∷ xs
      → queue (raise_all k sig vs s) ≡ x ∷ xs
  unfolding raise_all
  raise_all-pending x xs [] s room e = e
  raise_all-pending x xs (v ∷ vs) s room e =
      raise_all-pending x xs vs (raise_val k sig v s).1 room (rw e at ((raise_val_lem v s room).1))

  -- If the kernel keeps the laws of a pipe that has room for a value, and none is pending, then
  -- however often the signal is raised, only the first value is pending afterwards.
  pub raise_all_lem :
      (v : ℤ) (vs : List ℤ) (s : k.State)
      → 0 < capacity
      → queue s ≡ []
      → queue (raise_all k sig (v ∷ vs) s) ≡ v ∷ []
  unfolding raise_all
  raise_all_lem v vs s room e =
      raise_all-pending v [] vs (raise_val k sig v s).1 room (rw e at ((raise_val_lem v s room).1))
