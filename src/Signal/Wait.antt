-- ===== src/Signal/Wait.antt =====
-- signal_wait_val
use libckit.Common.{
  ℕ, zero, suc, ◌<◌, ◌≡◌, refl, List, [], ◌∷◌, true, false, some, arith, ap, Bool-cases, inl, inr,
}
use libckit.Common.Int.{ltb_ℤ→lt, ℤ, pos, ltb_ℤ}
use libckit.Common.Run.{Returns, returns, Returns-bind, Returns-map}
use libckit.Atomic.{IsInt, dec-inc}
use libckit.Signal.{Signal, wait_polled, wait_step, wait_loop, wait_val}
use libckit.Signal.Pipe.{Kernel, IsPipe, not_empty}
use libckit.Signal.Drain.{clear_lem}

module _ (k : Kernel) (sig : Signal) (queue : k.State → List ℤ) where
  -- the call of `poll` in a wait on an empty pipe
  abbrev polled : ℤ → ℤ → k.State → ℤ × k.State
  polled timeout val s = k.poll sig.read_end timeout (k.read sig.read_end val s).1

  -- what a wait finds: a value that is pending, one that a thread sends while it polls, or none
  pub data Woken (timeout val : ℤ) (s : k.State) (r : ℤ × ℤ) : Type 0 where
    pending : (v : ℤ) (rest : List ℤ) → queue s ≡ v ∷ rest → r ≡ (pos 1, v) → Woken timeout val s r
    sent :
        (v : ℤ) (rest : List ℤ)
        → queue s ≡ []
        → queue (polled timeout val s).1 ≡ v ∷ rest
        → r ≡ (pos 1, v)
        → Woken timeout val s r
    timed_out :
        queue s ≡ []
        → ltb_ℤ (pos 0) (polled timeout val s).0 ≡ false
        → r ≡ ((polled timeout val s).0, val)
        → Woken timeout val s r

module _ (k : Kernel) (sig : Signal) (queue : k.State → List ℤ) (capacity : ℕ)
    (law : IsPipe k sig.read_end sig.write_end queue capacity) where
  wait_loop-pending :
      (m : ℕ) (timeout ret val v : ℤ) (rest : List ℤ) (s : k.State)
      → queue s ≡ v ∷ rest
      → Returns (λ r. r.0 ≡ (pos 1, v)) (wait_loop k (suc m) sig.read_end timeout ret val s)
  unfolding wait_loop
  wait_loop-pending m timeout ret val v rest s e =
      let (s', got, left) = law.read_some s val v rest e in
      rw got (unfold wait_step in returns refl)

  -- the same, once `poll` has returned `p`
  polled_again :
      (m : ℕ) (timeout val : ℤ) (s : k.State) (p : ℤ × k.State)
      → queue s ≡ []
      → polled k sig queue timeout val s ≡ p
      → Returns
          (λ r. Woken k sig queue timeout val s r.0)
          (wait_polled k (wait_loop k (suc m) sig.read_end timeout) val p)
  unfolding wait_polled
  polled_again m timeout val s p e at = elim (Bool-cases (ltb_ℤ (pos 0) p.0)) [
    | inr late ↦ rw (late, wait_polled) (returns (timed_out e (rw at late) (rw at)))
    | inl ready ↦ rw (ready, wait_polled) (some_in (queue p.1) refl (ready_queue ready))
  ]
    where
      ready_queue : ltb_ℤ (pos 0) p.0 ≡ true → not_empty (queue p.1) ≡ true
      ready_queue ready =
          let ready' : ltb_ℤ (pos 0) (polled k sig queue timeout val s).0 ≡ true = rw at ready in
          rw at at (
            law.poll_ready (k.read sig.read_end val s).1 timeout
              (ltb_ℤ→lt (pos 0) (polled k sig queue timeout val s).0 ready'))

      some_in :
          (xs : List ℤ)
          → queue p.1 ≡ xs
          → not_empty (queue p.1) ≡ true
          → Returns
              (λ r. Woken k sig queue timeout val s r.0)
              (wait_loop k (suc m) sig.read_end timeout p.0 val p.1)
      some_in [] q h = cc (ap not_empty q)
      some_in (v ∷ rest) q h =
          Returns-map (wait_loop-pending m timeout p.0 val v rest p.1 q)
            λ r got. sent v rest e (rw at q) got

  wait_loop-Woken :
      (m : ℕ) (timeout ret val : ℤ) (s : k.State)
      → 1 < m
      → Returns
          (λ r. Woken k sig queue timeout val s r.0)
          (wait_loop k m sig.read_end timeout ret val s)
  unfolding wait_loop
  wait_loop-Woken zero timeout ret val s h = absurd (omega arith)
  wait_loop-Woken (suc zero) timeout ret val s h = absurd (omega arith)
  wait_loop-Woken (suc (suc m)) timeout ret val s h = by_queue (queue s) refl
    where
      by_queue :
          (xs : List ℤ)
          → queue s ≡ xs
          → Returns
              (λ r. Woken k sig queue timeout val s r.0)
              (wait_loop k (suc (suc m)) sig.read_end timeout ret val s)
      by_queue [] e =
          let (s', got, blocked, left) = law.read_none s val e in
          rw got (
            unfold wait_step in
            rw blocked (
              polled_again m timeout val s (k.poll sig.read_end timeout s') e
                (ap (λ (r : (ℤ × ℤ) × k.State). k.poll sig.read_end timeout r.1) got)))
      by_queue (v ∷ rest) e =
          Returns-map (wait_loop-pending (suc m) timeout ret val v rest s e)
            λ r got. pending v rest e got

  -- If the kernel keeps the laws of a pipe, signal_wait_val of a `val` that is not NULL ends, with
  -- the pipe empty and the signal as before: two rounds of the loop are enough, and of its
  -- signal_clear one more than values fit into the pipe. It returns 1 and a value that is pending,
  -- or that a thread sends while it polls; or what `poll` returns, if that is not positive, with
  -- `*val` as it was.
  pub wait_val_lem :
      (m n : ℕ) (timeout val : ℤ) (s : k.State)
      → 1 < m
      → capacity < n
      → IsInt sig.waiting
      → Returns
          (λ ((ret, got), (sig', s')).
            ((v : ℤ) × (got ≡ some v) × Woken k sig queue timeout val s (ret, v))
            × (sig' ≡ sig)
            × (queue s' ≡ []))
          (wait_val k m n sig timeout (some val) s)
  unfolding wait_val
  wait_val_lem m n timeout val s hm hn int =
      Returns-bind (wait_loop-Woken m timeout (pos 0) val s hm) λ ((ret, got), s1) woken.
        Returns-bind (clear_lem k sig queue capacity law n s1 hn) λ (cleared, s2) (nothing, left).
          returns (
            (got, refl, woken),
            ap (λ (w : ℤ). record sig { waiting = w }) (dec-inc sig.waiting int),
            left,
          )
