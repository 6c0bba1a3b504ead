-- ===== src/Heap/Heapify.antt =====
-- One round of heap_heapify: the choice of a child, and the exchange with it.
use mathlib.Core.List.{Perm}
use libckit.Common.{
  ℕ, ◌+◌, ◌*◌, ◌%◌, ◌^◌, ◌≤◌, ◌<◌, ◌≡◌, ◌≢◌, ◌⊎◌, false, arith, ltb, ◌==◌, if◌then◌else◌, length,
}
use libckit.Common.Run.{ok, Returns, returns}
use libckit.Common.Arrays
use libckit.Common.Arrays.{at, set}
use libckit.Heap.{World, parent, less, smallest_of, set_index}
use libckit.Heap.Valid.{IsStrictWeak, IsIndexed, slot, key, contents, SameObjects}
use libckit.Heap.Slots.{
  placed, smaller-ok, slot-placed, placed-SameObjects, SameObjects-trans, set_index-index,
}

module _ {P : Type 0} where
  -- `m` is `i` or a child of it, and none of the children is less.
  pub record IsLeast (w : World P) (i m : ℕ) : Type 0 where
    pub spot : (m ≡ i) ⊎ (((m ≡ 2 * i + 1) ⊎ (m ≡ 2 * i + 2)) × (m < w.heap.size))
    pub least :
        IsStrictWeak w.heap.cmp
        → (c : ℕ) → 0 < c
        → c < w.heap.size
        → parent c ≡ i
        → w.heap.cmp (key w c) (key w m) ≡ false
    pub above : IsStrictWeak w.heap.cmp → m ≢ i → w.heap.cmp (key w i) (key w m) ≡ false

  module _ (w : World P) (i : ℕ) (inside : i < length w.heap.map)
      (fits : w.heap.size ≤ length w.heap.map) (small : length w.heap.map < 2 ^ 31) where
    first : ℕ
    first =
        if ltb (2 * i + 1) w.heap.size
        then (if less w (slot w (2 * i + 1)) (slot w i) then 2 * i + 1 else i)
        else i

    second : ℕ → ℕ
    second m =
        if ltb (2 * i + 2) w.heap.size
        then (if less w (slot w (2 * i + 2)) (slot w m) then 2 * i + 2 else m)
        else m

    smallest_of-ok : smallest_of w i ≡ ok (second first)
    unfolding smallest_of first second
    smallest_of-ok =
        let l : ((2 * i) % 2 ^ 32 + 1) % 2 ^ 32 ≡ 2 * i + 1 = omega arith in
        let r : (2 * i + 1 + 1) % 2 ^ 32 ≡ 2 * i + 2 = omega arith in
        rw (l, r, smaller-ok w (2 * i + 1) i (omega arith) inside)
          (smaller-ok w (2 * i + 2) first (omega arith) (ground arith))

    second-IsLeast : IsLeast w i (second first)
    unfolding first second
    second-IsLeast = record {
      spot = ground arith;
      least = λ order c p q e. ground (
        arith,
        order.asym (key w (2 * i + 1)) (key w i),
        order.asym (key w (2 * i + 2)) (key w (2 * i + 1)),
        order.asym (key w (2 * i + 2)) (key w i),
        order.trans (key w i) (key w (2 * i + 1)) (key w (2 * i + 2)),
        order.trans (key w (2 * i + 1)) (key w i) (key w (2 * i + 2)),
        order.asym (key w c) (key w c),
      );
      above = λ order n. ground (
        arith,
        order.asym (key w (2 * i + 1)) (key w i),
        order.asym (key w (2 * i + 2)) (key w (2 * i + 1)),
        order.asym (key w (2 * i + 2)) (key w i),
        order.trans (key w i) (key w (2 * i + 1)) (key w (2 * i + 2)),
      );
    }

    pub smallest_of-IsLeast : Returns (IsLeast w i) (smallest_of w i)
    smallest_of-IsLeast = rw smallest_of-ok (returns second-IsLeast)

    pub smallest_of-settled :
        ((c : ℕ) → 0 < c → c < w.heap.size → parent c ≡ i → w.heap.cmp (key w c) (key w i) ≡ false)
        → smallest_of w i ≡ ok i
    unfolding first second
    smallest_of-settled none_less =
        rw smallest_of-ok (ground (arith, none_less (2 * i + 1), none_less (2 * i + 2)))

  abbrev pub IsDistinct : World P → Type 0
  IsDistinct w = (i j : ℕ) → i < w.heap.size → j < w.heap.size → slot w i ≡ slot w j → i ≡ j

  abbrev pub IsActive : World P → Type 0
  IsActive w = (i : ℕ) → i < w.heap.size → (w.items (slot w i)).active ≡ 1

  -- Each item knows its slot, but the one in slot `i`.
  abbrev pub IsIndexedAround : World P → ℕ → Type 0
  IsIndexedAround w i = (j : ℕ) → j < w.heap.size → j ≢ i → (w.items (slot w j)).index ≡ j

  -- The order holds from `lo`, but below `i`, and past `i`.
  pub record IsSinking (lo : ℕ) (w : World P) (i : ℕ) : Type 0 where
    pub edges :
        (c : ℕ)
        → 0 < c
        → c < w.heap.size
        → lo ≤ parent c
        → parent c ≢ i
        → w.heap.cmp (key w c) (key w (parent c)) ≡ false
    pub bridged :
        (c : ℕ)
        → 0 < c
        → c < w.heap.size
        → parent c ≡ i
        → 0 < i
        → lo ≤ parent i
        → w.heap.cmp (key w c) (key w (parent i)) ≡ false

  module _ (w : World P) (i m : ℕ) (hi : i < w.heap.size) (hm : m < w.heap.size) (ne : m ≢ i)
      (fits : w.heap.size ≤ length w.heap.map) (small : length w.heap.map < 2 ^ 31) where
    abbrev pub exchanged : World P
    exchanged = placed (placed w m (slot w i)) i (slot w m)

    at_exchanged :
        (j : ℕ)
        → slot exchanged j ≡ (if i == j then slot w m else if m == j then slot w i else slot w j)
    at_exchanged j = rw (
      slot-placed (placed w m (slot w i)) i (slot w m) j (rw Arrays.length-set (omega arith)),
      slot-placed w m (slot w i) j (omega arith),
    )

    pub exchanged-SameObjects : SameObjects w exchanged
    exchanged-SameObjects =
        SameObjects-trans (placed-SameObjects w m (slot w i))
          (placed-SameObjects (placed w m (slot w i)) i (slot w m))

    pub exchanged-perm : Perm (contents exchanged) (contents w)
    exchanged-perm =
        let size = Arrays.length-take_le w.heap.size w.heap.map fits in
        let at_m = Arrays.at-take w.heap.size w.heap.map m hm in
        let at_i = Arrays.at-take w.heap.size w.heap.map i hi in
        rw (Arrays.take-set, Arrays.take-set, ← at_m, ← at_i)
          (Arrays.swap-perm (contents w) m i (omega arith) (omega arith) ne)

    pub exchanged-IsDistinct : IsDistinct w → IsDistinct exchanged
    exchanged-IsDistinct d j k hj hk e =
        ground (arith, at_exchanged j, at_exchanged k, d j k, d i j, d m j, d i k, d m k, d i m)

    pub exchanged-absent :
        (p : ℕ)
        → ((j : ℕ) → j < w.heap.size → slot w j ≢ p)
        → (j : ℕ) → j < w.heap.size
        → slot exchanged j ≢ p
    exchanged-absent p out j hj e = ground (arith, at_exchanged j, out j, out i, out m)

    pub exchanged-IsActive : IsActive w → IsActive exchanged
    exchanged-IsActive ac j hj =
        ground
          (arith, at_exchanged j, ac j, ac i, ac m, exchanged-SameObjects.active (slot exchanged j))

    index_exchanged :
        (p : ℕ)
        → (exchanged.items p).index
          ≡ (if slot w m == p then i else if slot w i == p then m else (w.items p).index)
    index_exchanged p = rw (
      set_index-index (set_index w.items (slot w i) m) (slot w m) i p,
      set_index-index w.items (slot w i) m p,
    )

    pub exchanged-IsIndexed : IsDistinct w → IsIndexedAround w i → IsIndexed exchanged
    exchanged-IsIndexed d ix j hj =
        ground
          (arith, at_exchanged j, index_exchanged (slot exchanged j), ix j, d j m, d j i, d i m)

    key-exchanged :
        (j : ℕ)
        → key exchanged j ≡ (if i == j then key w m else if m == j then key w i else key w j)
    key-exchanged j = ground (arith, at_exchanged j, exchanged-SameObjects.owner (slot exchanged j))

    pub exchanged-IsSinking :
        (lo : ℕ)
        → IsStrictWeak w.heap.cmp
        → IsLeast w i m
        → IsSinking lo w i
        → IsSinking lo exchanged m
    exchanged-IsSinking lo order l s = record {
      edges = λ c p q b n. ground (
        arith,
        key-exchanged c,
        key-exchanged (parent c),
        s.edges c,
        s.bridged m,
        l.spot,
        l.least order c,
        l.above order,
      );
      bridged = λ c p q e b k.
          ground (arith, key-exchanged c, key-exchanged (parent m), s.edges c, l.spot);
    }
