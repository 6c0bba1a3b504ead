-- ===== src/Signal/Tests.antt =====
-- src/signal.c over a kernel whose state is what is in the pipe: room for two values, and a
-- thread that sends 7 whenever another one waits on an empty pipe.
use libckit.Common.{
  ℕ, ◌≤◌, ◌<◌, ◌≡◌, refl, List, [], ◌∷◌, ◌++◌, Bool, true, some, arith, length, if◌then◌else◌,
}
use libckit.Common.Int.{ℤ, pos, negsuc, ltb_ℤ, eqb_ℤ, ◌<ℤ◌}
use libckit.Common.Run.{ok, Returns}
use libckit.Signal.{
  Signal, clear_val, wait_val, drain, drain_step, clear, wait_loop, wait_step, wait_polled,
}
use libckit.Signal.Pipe.{Kernel, IsPipe, not_empty}
use libckit.Signal.Wait.{Woken, wait_val_lem}
use libckit.Atomic.{inc, dec}

-- at most two values
pub data Queue : Type 0 where
  none_in : Queue
  one : ℤ → Queue
  two : ℤ → ℤ → Queue

abbrev pub values : Queue → List ℤ
values none_in = []
values (one a) = a ∷ []
values (two a b) = a ∷ b ∷ []

abbrev sample_read : ℕ → ℤ → Queue → (ℤ × ℤ) × Queue
sample_read fd val none_in = ((negsuc 0, val), none_in)
sample_read fd val (one a) = ((pos 4, a), none_in)
sample_read fd val (two a b) = ((pos 4, a), one b)

abbrev sample_write : ℕ → ℤ → Queue → ℤ × Queue
sample_write fd v none_in = (pos 4, one v)
sample_write fd v (one a) = (pos 4, two a v)
sample_write fd v (two a b) = (negsuc 0, two a b)

abbrev sample_poll : ℕ → ℤ → Queue → ℤ × Queue
sample_poll fd t none_in = if eqb_ℤ t (pos 0) then (pos 0, none_in) else (pos 1, one (pos 7))
sample_poll fd t (one a) = (pos 1, one a)
sample_poll fd t (two a b) = (pos 1, two a b)

abbrev pub sample_kernel : Kernel
sample_kernel = record {
  State = Queue;
  pipe = λ s. (some (3, 4), none_in);
  set_nonblock = λ fd s. (pos 0, s);
  close = λ fd s. s;
  read = sample_read;
  would_block = λ s. true;
  write = sample_write;
  poll = sample_poll;
}

abbrev pub sig : Signal
sig = record { read_end = 3; write_end = 4; waiting = pos 0 }

bounded : (s : Queue) → length (values s) ≤ 2
bounded none_in = omega arith
bounded (one a) = omega arith
bounded (two a b) = omega arith

read_some :
    (s : Queue) (val v : ℤ) (rest : List ℤ)
    → values s ≡ v ∷ rest
    → (s' : Queue) × (sample_read 3 val s ≡ ((pos 4, v), s')) × (values s' ≡ rest)
read_some none_in val v rest e = cc
read_some (one a) val v rest e = (none_in, ground arith, ground arith)
read_some (two a b) val v rest e = (one b, ground arith, ground arith)

read_none :
    (s : Queue) (val : ℤ)
    → values s ≡ []
    → (s' : Queue) × (sample_read 3 val s ≡ ((negsuc 0, val), s'))
      × ◌≡◌ {A = Bool} true true
      × (values s' ≡ [])
read_none none_in val e = (none_in, refl, refl, refl)
read_none (one a) val e = cc
read_none (two a b) val e = cc

poll_now :
    (s : Queue)
    → (ltb_ℤ (pos 0) (sample_poll 3 (pos 0) s).0 ≡ not_empty (values s))
      × (values (sample_poll 3 (pos 0) s).1 ≡ values s)
poll_now none_in = (refl, refl)
poll_now (one a) = (refl, refl)
poll_now (two a b) = (refl, refl)

poll_ready :
    (s : Queue) (t : ℤ)
    → pos 0 <ℤ (sample_poll 3 t s).0
    → not_empty (values (sample_poll 3 t s).1) ≡ true
poll_ready none_in t h = ground arith
poll_ready (one a) t h = refl
poll_ready (two a b) t h = refl

write_room :
    (s : Queue) (v : ℤ)
    → length (values s) < 2
    → ((sample_write 4 v s).0 ≡ pos 4) × (values (sample_write 4 v s).1 ≡ values s ++ v ∷ [])
write_room none_in v h = (refl, refl)
write_room (one a) v h = (refl, refl)
write_room (two a b) v h = absurd (omega arith)

pub sample_law : IsPipe sample_kernel 3 4 values 2
sample_law = record {
  bounded = bounded;
  read_some = read_some;
  read_none = read_none;
  poll_now = poll_now;
  poll_ready = poll_ready;
  write_room = write_room;
}

wait_val_lem_example :
    Returns
      (λ ((ret, got), (sig', s')).
        ((v : ℤ) × (got ≡ some v)
          × Woken sample_kernel sig values (negsuc 0) (pos 0) none_in (ret, v))
        × (sig' ≡ sig)
        × (values s' ≡ []))
      (wait_val sample_kernel 2 3 sig (negsuc 0) (some (pos 0)) none_in)
wait_val_lem_example =
    wait_val_lem sample_kernel sig values 2 sample_law 2 3 (negsuc 0) (pos 0) none_in (omega arith)
      (omega arith) (omega arith)

-- The thread that waits is woken by the 7.
woken :
    wait_val sample_kernel 2 3 sig (negsuc 0) (some (pos 0)) none_in
    ≡ ok ((pos 1, some (pos 7)), (sig, none_in))
unfolding wait_val wait_loop wait_step wait_polled clear clear_val drain drain_step inc dec
woken = refl
