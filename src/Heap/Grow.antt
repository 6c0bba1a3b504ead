-- ===== src/Heap/Grow.antt =====
-- heap_increase_size
use libckit.Common.{
  ℕ, ◌+◌, ◌%◌, ◌^◌, ◌≤◌, ◌<◌, ◌≡◌, refl, true, List, none, some, arith, leb, length,
}
use libckit.Common.Run.{ok, Returns, returns}
use libckit.Common.Int.{pos, negsuc}
use libckit.Common.Arrays
use libckit.Common.Arrays.{at, copy_prefix}
use libckit.Heap.{Heap, Malloc, increase_size, memcpy, default_increase_size}
use libckit.Heap.Valid.{IsHonest}

module _ {P : Type 0} where
  -- `h'` is `h` in a longer array.
  pub record Grown (h h' : Heap P) : Type 0 where
    pub size : h'.size ≡ h.size
    pub cmp : h'.cmp ≡ h.cmp
    pub max_size : h'.max_size ≡ h.max_size + default_increase_size
    pub whole : length h'.map ≡ h'.max_size
    pub kept : (i : ℕ) → i < h.size → at h'.map i ≡ at h.map i

  copied-Grown :
      (h : Heap P) (block : List ℕ) (m : ℕ)
      → m ≡ h.max_size + default_increase_size
      → h.size ≤ length h.map
      → h.size ≤ h.max_size
      → length block ≡ h.max_size + default_increase_size
      → Grown h (record h { map = copy_prefix h.size h.map block; max_size = m })
  copied-Grown h block n wide s m e = record {
    size = refl;
    cmp = refl;
    max_size = wide;
    whole = omega (arith, Arrays.length-copy_prefix h.size h.map block);
    kept = λ i l. Arrays.at-copy_prefix h.size h.map block i s (omega arith) l;
  }

  module _ (malloc : Malloc) (h : Heap P)
      (small : h.max_size + default_increase_size < 2 ^ 31) where
    no_wrap : (h.max_size + default_increase_size) % 2 ^ 32 ≡ h.max_size + default_increase_size
    no_wrap = omega arith

    pub increase_size-Grown :
        (block : List ℕ)
        → IsHonest malloc
        → h.size ≤ length h.map
        → h.size ≤ h.max_size
        → malloc (h.max_size + default_increase_size) ≡ some block
        → Returns (λ r. (r.0 ≡ pos 0) × Grown h r.1) (increase_size malloc h default_increase_size)
    unfolding increase_size memcpy
    increase_size-Grown block honest s m got =
        let size = honest _ block got in
        let fits : leb h.size (length block) ≡ true = ground (arith, size) in
        let has : leb h.size (length h.map) ≡ true = ground arith in
        rw (no_wrap, got, has, fits, increase_size)
          (returns (refl, copied-Grown h block _ no_wrap s m size))

    pub increase_size-none :
        malloc (h.max_size + default_increase_size) ≡ none
        → increase_size malloc h default_increase_size ≡ ok (negsuc 0, h)
    unfolding increase_size
    increase_size-none e = rw (no_wrap, e, increase_size)
