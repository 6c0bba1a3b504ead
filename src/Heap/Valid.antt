-- ===== src/Heap/Valid.antt =====
-- The invariants of src/heap.c.
use libckit.Common.{ℕ, ◌^◌, ◌≤◌, ◌<◌, ◌≡◌, Bool, true, false, List, some, length, take}
use libckit.Common.Arrays.{at}
use libckit.Heap.{World, Malloc, parent}

-- `malloc` returns a block of the size that it is asked for.
abbrev pub IsHonest : Malloc → Type 0
IsHonest malloc = (n : ℕ) (block : List ℕ) → malloc n ≡ some block → length block ≡ n

-- The order that `cmp` decides: "less than", where what is not comparable is equal.
pub record IsStrictWeak {P : Type 0} (cmp : P → P → Bool) : Type 0 where
  pub asym : (a b : P) → cmp a b ≡ true → cmp b a ≡ false
  pub trans : (a b c : P) → cmp a b ≡ false → cmp b c ≡ false → cmp a c ≡ false

module _ {P : Type 0} where
  abbrev pub slot : World P → ℕ → ℕ
  slot w i = at w.heap.map i

  -- the object whose item is in a slot
  abbrev pub key : World P → ℕ → P
  key w i = (w.items (slot w i)).owner

  -- the pointers in the heap
  abbrev pub contents : World P → List ℕ
  contents w = take w.heap.size w.heap.map

  -- The array has the slots that it is said to have, below a size at which `2 * i + 2` wraps; no
  -- item is in two slots, and each is marked as active.
  pub record IsValid (w : World P) : Type 0 where
    pub room : w.heap.size ≤ w.heap.max_size
    pub whole : length w.heap.map ≡ w.heap.max_size
    pub small : w.heap.max_size < 2 ^ 31
    pub distinct : (i j : ℕ) → i < w.heap.size → j < w.heap.size → slot w i ≡ slot w j → i ≡ j
    pub active : (i : ℕ) → i < w.heap.size → (w.items (slot w i)).active ≡ 1

  -- Each item knows its slot.
  abbrev pub IsIndexed : World P → Type 0
  IsIndexed w = (i : ℕ) → i < w.heap.size → (w.items (slot w i)).index ≡ i

  -- No entry is less than one below it: the least is at a leaf.
  abbrev pub IsTopHeavy : World P → Type 0
  IsTopHeavy w = (c : ℕ) → 0 < c → c < w.heap.size → w.heap.cmp (key w (parent c)) (key w c) ≡ false

  -- No entry is less than the one above it, for the entries above which is `lo` or later.
  abbrev pub IsTopLightFrom : ℕ → World P → Type 0
  IsTopLightFrom lo w =
      (c : ℕ)
      → 0 < c
      → c < w.heap.size
      → lo ≤ parent c
      → w.heap.cmp (key w c) (key w (parent c)) ≡ false

  -- `w'` differs from `w` at most in the array and in the `index` of items.
  pub record SameObjects (w w' : World P) : Type 0 where
    pub size : w'.heap.size ≡ w.heap.size
    pub max_size : w'.heap.max_size ≡ w.heap.max_size
    pub cmp : w'.heap.cmp ≡ w.heap.cmp
    pub slots : length w'.heap.map ≡ length w.heap.map
    pub owner : (p : ℕ) → (w'.items p).owner ≡ (w.items p).owner
    pub active : (p : ℕ) → (w'.items p).active ≡ (w.items p).active
