-- ===== src/Heap/ShiftUp.antt =====
-- The loop of heap_insert.
use mathlib.Core.List.{Perm}
use mathlib.Core.List.Perm
use libckit.Common.{
  ℕ, zero, suc, ◌^◌, ◌≤◌, ◌<◌, ◌≡◌, ◌≢◌, true, false, arith, ltb, ◌==◌, if◌then◌else◌, length, take,
}
use libckit.Common.Run.{Returns, returns, Returns-map, Returns-if}
use libckit.Common.Arrays
use libckit.Common.Arrays.{at, set}
use libckit.Heap.{World, parent, less, shift_up}
use libckit.Heap.Valid.{IsStrictWeak, slot, key, SameObjects}
use libckit.Heap.Slots.{
  placed, load-ok, place-ok, slot-placed, placed-SameObjects, SameObjects-refl, SameObjects-trans,
  set_index-index, set_index-owner, set_index-active,
}

module _ {P : Type 0} (item n : ℕ) where
  -- Slot `i`, among the first `n + 1`, is free to be overwritten, and `item` is in no other.
  pub record IsHole (w : World P) (i : ℕ) : Type 0 where
    pub inside : i ≤ n
    pub whole : n < length w.heap.map
    pub small : n < 2 ^ 31
    pub distinct : (j k : ℕ) → j ≤ n → k ≤ n → j ≢ i → k ≢ i → slot w j ≡ slot w k → j ≡ k
    pub absent : (j : ℕ) → j ≤ n → j ≢ i → slot w j ≢ item

  -- All entries but the hole know their slots.
  abbrev pub IsIndexedBut : World P → ℕ → Type 0
  IsIndexedBut w i = (j : ℕ) → j ≤ n → j ≢ i → (w.items (slot w j)).index ≡ j

  abbrev pub IsActiveBut : World P → ℕ → Type 0
  IsActiveBut w i = (j : ℕ) → j ≤ n → j ≢ i → (w.items (slot w j)).active ≡ 1

  -- The order holds but round the hole, and would hold below it with `item` there.
  pub record IsRising (w : World P) (i : ℕ) : Type 0 where
    pub edges :
        (c : ℕ)
        → 0 < c
        → c ≤ n
        → c ≢ i
        → parent c ≢ i
        → w.heap.cmp (key w (parent c)) (key w c) ≡ false
    pub below :
        (c : ℕ) → 0 < c → c ≤ n → parent c ≡ i → w.heap.cmp (w.items item).owner (key w c) ≡ false
    pub bridged :
        (c : ℕ)
        → 0 < c
        → c ≤ n
        → parent c ≡ i
        → 0 < i
        → w.heap.cmp (key w (parent i)) (key w c) ≡ false

  -- where the loop may stop
  abbrev pub IsSettled : World P → ℕ → Type 0
  IsSettled w i = 0 < i → w.heap.cmp (key w (parent i)) (w.items item).owner ≡ false

  module _ (w : World P) (i : ℕ) (hole : IsHole w i) (pos : 0 < i) where
    abbrev moved : World P
    moved = placed w i (slot w (parent i))

    at_moved : (j : ℕ) → slot moved j ≡ (if i == j then slot w (parent i) else slot w j)
    at_moved j = slot-placed w i (slot w (parent i)) j (omega (arith, hole.inside, hole.whole))

    moved-IsHole : IsHole moved (parent i)
    moved-IsHole = record {
      inside = omega arith;
      whole = rw Arrays.length-set hole.whole;
      small = hole.small;
      distinct = λ j k hj hk nj nk e. ground (
        arith,
        at_moved j,
        at_moved k,
        hole.distinct j k,
        hole.distinct (parent i) k,
        hole.distinct j (parent i),
      );
      absent = λ j hj nj e. ground (arith, at_moved j, hole.absent j, hole.absent (parent i));
    }

    moved-IsIndexedBut : IsIndexedBut w i → IsIndexedBut moved (parent i)
    moved-IsIndexedBut ix j hj nj = ground (
      arith,
      at_moved j,
      ix j,
      hole.distinct j (parent i),
      set_index-index w.items (slot w (parent i)) i (slot moved j),
    )

    moved-IsActiveBut : IsActiveBut w i → IsActiveBut moved (parent i)
    moved-IsActiveBut ac j hj nj = ground (
      arith,
      at_moved j,
      ac j,
      ac (parent i),
      hole.inside,
      set_index-active w.items (slot w (parent i)) i (slot moved j),
    )

    key-moved : (j : ℕ) → key moved j ≡ (if i == j then key w (parent i) else key w j)
    key-moved j =
        ground (arith, at_moved j, set_index-owner w.items (slot w (parent i)) i (slot moved j))

    moved-IsRising :
        IsStrictWeak w.heap.cmp
        → w.heap.cmp (key w (parent i)) (w.items item).owner ≡ true
        → IsRising w i
        → IsRising moved (parent i)
    moved-IsRising order less r = record {
      edges =
          λ c p q a b. ground (arith, key-moved c, key-moved (parent c), r.edges c, r.bridged c);
      below = λ c p q a. ground (
        arith,
        key-moved c,
        set_index-owner w.items (slot w (parent i)) i item,
        order.asym (key w (parent i)) (w.items item).owner,
        r.edges c,
        order.trans (w.items item).owner (key w (parent i)) (key w c),
      );
      bridged = λ c p q a b. ground (
        arith,
        key-moved c,
        key-moved (parent (parent i)),
        r.edges (parent i),
        r.edges c,
        order.trans (key w (parent (parent i))) (key w (parent i)) (key w c),
      );
    }

    moved-perm :
        Perm
          (take (suc n) (set moved.heap.map (parent i) item))
          (take (suc n) (set w.heap.map i item))
    moved-perm =
        let size = Arrays.length-take_le (suc n) w.heap.map hole.whole in
        let same = Arrays.at-take (suc n) w.heap.map (parent i) (omega (arith, hole.inside)) in
        rw (Arrays.take-set, Arrays.take-set, Arrays.take-set, ← same)
          (Arrays.move-perm (take (suc n) w.heap.map) i (parent i) item (omega (arith, hole.inside))
            (omega (arith, hole.inside)) (omega (arith, hole.inside)))

  -- what the loop leaves
  pub record Shifted (w : World P) (i : ℕ) (r : ℕ × World P) : Type 0 where
    pub same : SameObjects w r.1
    pub hole : IsHole r.1 r.0
    pub indexed : IsIndexedBut w i → IsIndexedBut r.1 r.0
    pub active : IsActiveBut w i → IsActiveBut r.1 r.0
    pub perm :
        Perm (take (suc n) (set r.1.heap.map r.0 item)) (take (suc n) (set w.heap.map i item))
    pub order : IsStrictWeak w.heap.cmp → IsRising w i → IsRising r.1 r.0 × IsSettled r.1 r.0

  stopped : (w : World P) (i : ℕ) → IsHole w i → IsSettled w i → Shifted w i (i, w)
  stopped w i hole settled = record {
    same = SameObjects-refl w;
    hole = hole;
    indexed = λ x. x;
    active = λ x. x;
    perm = Perm.rfl;
    order = λ o r. (r, settled);
  }

  pub shift_up_lem :
      (k : ℕ) (w : World P) (i : ℕ)
      → i < k
      → IsHole w i
      → Returns (Shifted w i) (shift_up k w item i)
  unfolding shift_up
  shift_up_lem zero w i fuel hole = absurd (omega arith)
  shift_up_lem (suc k) w i fuel hole =
      Returns-if (ltb 0 i)
        (λ p.
          let pos : 0 < i = ground arith in
          let hi : i < length w.heap.map = omega (arith, hole.inside, hole.whole) in
          rw (load-ok w.heap (parent i) (omega arith)) (
            Returns-if (less w (slot w (parent i)) item)
              (λ below. rw (place-ok w i (slot w (parent i)) hi) (
                Returns-map
                  (shift_up_lem k (moved w i hole pos) (parent i) (omega arith)
                    (moved-IsHole w i hole pos))
                  λ r s. record {
                    same = SameObjects-trans (placed-SameObjects w i _) s.same;
                    hole = s.hole;
                    indexed = λ x. s.indexed (moved-IsIndexedBut w i hole pos x);
                    active = λ x. s.active (moved-IsActiveBut w i hole pos x);
                    perm = Perm.trans s.perm (moved-perm w i hole pos);
                    order = λ o r. s.order o (moved-IsRising w i hole pos o below r);
                  }))
              (λ settled. returns (stopped w i hole (λ _. settled)))))
        (λ p. returns (stopped w i hole (λ pos. absurd (ground arith))))
