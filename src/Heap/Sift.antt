-- ===== src/Heap/Sift.antt =====
-- heap_heapify: an entry sinks until no child of it is less.
use mathlib.Core.List.{Perm}
use mathlib.Core.List.Perm
use libckit.Common.{ℕ, zero, suc, ◌-◌, ◌^◌, ◌≤◌, ◌<◌, ◌≡◌, ◌≢◌, false, arith, ◌==◌, length}
use libckit.Common.Run.{ok, Returns, returns, Returns-bind, Returns-map, Returns-if}
use libckit.Heap.{World, parent, heapify}
use libckit.Heap.Valid.{IsStrictWeak, IsTopLightFrom, IsIndexed, slot, key, contents, SameObjects}
use libckit.Heap.Slots.{exchange-ok, SameObjects-refl, SameObjects-trans}
use libckit.Heap.Heapify.{
  IsLeast, smallest_of-IsLeast, smallest_of-settled, IsDistinct, IsActive, IsIndexedAround,
  IsSinking, exchanged, exchanged-SameObjects, exchanged-perm, exchanged-IsDistinct,
  exchanged-absent, exchanged-IsActive, exchanged-IsIndexed, exchanged-IsSinking,
}

module _ {P : Type 0} where
  -- what heap_heapify leaves
  pub record Sunk (w : World P) (i : ℕ) (w' : World P) : Type 0 where
    pub same : SameObjects w w'
    pub perm : Perm (contents w') (contents w)
    pub distinct : IsDistinct w → IsDistinct w'
    pub active : IsActive w → IsActive w'
    pub absent :
        (p : ℕ)
        → ((j : ℕ) → j < w.heap.size → slot w j ≢ p)
        → (j : ℕ) → j < w.heap.size
        → slot w' j ≢ p
    pub keeps : IsDistinct w → IsIndexed w → IsIndexed w'
    pub around : IsDistinct w → IsIndexedAround w i → IsIndexedAround w' i
    pub order : (lo : ℕ) → IsStrictWeak w.heap.cmp → IsSinking lo w i → IsTopLightFrom lo w'

  settled-Sunk : (w : World P) (i : ℕ) → IsLeast w i i → Sunk w i w
  settled-Sunk w i l = record {
    same = SameObjects-refl w;
    perm = Perm.rfl;
    distinct = λ d. d;
    active = λ a. a;
    absent = λ p out. out;
    keeps = λ d x. x;
    around = λ d x. x;
    order = λ lo o s c p q b. ground (arith, s.edges c, l.least o c);
  }

  module _ (w : World P) (i m : ℕ) (hi : i < w.heap.size) (hm : m < w.heap.size) (ne : m ≢ i)
      (fits : w.heap.size ≤ length w.heap.map) (small : length w.heap.map < 2 ^ 31) where
    exchanged-Sunk :
        (w' : World P)
        → IsLeast w i m
        → Sunk (exchanged w i m hi hm ne fits small) m w'
        → Sunk w i w'
    exchanged-Sunk w' l s = record {
      same = SameObjects-trans (exchanged-SameObjects w i m hi hm ne fits small) s.same;
      perm = Perm.trans s.perm (exchanged-perm w i m hi hm ne fits small);
      distinct = λ d. s.distinct (exchanged-IsDistinct w i m hi hm ne fits small d);
      active = λ a. s.active (exchanged-IsActive w i m hi hm ne fits small a);
      absent = λ p out. s.absent p (exchanged-absent w i m hi hm ne fits small p out);
      keeps = λ d x. indexed d (λ j hj n. x j hj);
      around = λ d x j hj n. indexed d x j hj;
      order = λ lo o k. s.order lo o (exchanged-IsSinking w i m hi hm ne fits small lo o l k);
    }
      where
        indexed : IsDistinct w → IsIndexedAround w i → IsIndexed w'
        indexed d x =
            s.keeps (exchanged-IsDistinct w i m hi hm ne fits small d)
              (exchanged-IsIndexed w i m hi hm ne fits small d x)

  pub heapify-Sunk :
      (k : ℕ) (w : World P) (i : ℕ)
      → w.heap.size - i < k
      → i < length w.heap.map
      → w.heap.size ≤ length w.heap.map
      → length w.heap.map < 2 ^ 31
      → Returns (Sunk w i) (heapify k w i)
  unfolding heapify
  heapify-Sunk zero w i fuel inside fits small = absurd (omega arith)
  heapify-Sunk (suc k) w i fuel inside fits small =
      Returns-bind (smallest_of-IsLeast w i inside fits small) λ m l.
        Returns-if (m == i)
          (λ e. let at : m ≡ i = ground arith in returns (settled-Sunk w i (rw at at l)))
          (λ e.
            let ne : m ≢ i = ground arith in
            let hm : m < w.heap.size = ground (arith, l.spot) in
            let hi : i < w.heap.size = ground (arith, l.spot) in
            let after = exchanged-SameObjects w i m hi hm ne fits small in
            rw (exchange-ok w i m inside (omega arith)) (
              Returns-map
                (heapify-Sunk k (exchanged w i m hi hm ne fits small) m (ground (arith, l.spot))
                  (omega (arith, after.slots)) (omega (arith, after.slots))
                  (omega (arith, after.slots)))
                λ w' s. exchanged-Sunk w i m hi hm ne fits small w' l s))

  -- heap_heapify does nothing where no child is less.
  pub heapify-settled :
      (k : ℕ) (w : World P) (i : ℕ)
      → i < length w.heap.map
      → w.heap.size ≤ length w.heap.map
      → length w.heap.map < 2 ^ 31
      → ((c : ℕ) → 0 < c → c < w.heap.size → parent c ≡ i → w.heap.cmp (key w c) (key w i) ≡ false)
      → heapify (suc k) w i ≡ ok w
  unfolding heapify
  heapify-settled k w i inside fits small none_less =
      rw (smallest_of-settled w i inside fits small none_less) (ground arith)

  -- heap_heapify, given more rounds than there are slots behind `i`, ends in a world with the same
  -- entries, in an order of their own, and with the same objects. If the order (no entry is less
  -- than the one above it) held from slot `lo` on but below `i`, and past `i`, then it holds from
  -- `lo` on afterwards. `cmp` is a strict weak order, `i` and the heap's size are within the array,
  -- and the array has fewer than `2 ^ 31` slots.
  pub heapify_restores :
      (k lo : ℕ) (w : World P) (i : ℕ)
      → w.heap.size - i < k
      → i < length w.heap.map
      → w.heap.size ≤ length w.heap.map
      → length w.heap.map < 2 ^ 31
      → IsStrictWeak w.heap.cmp
      → IsSinking lo w i
      → Returns
          (λ w'. SameObjects w w' × Perm (contents w') (contents w) × IsTopLightFrom lo w')
          (heapify k w i)
  heapify_restores k lo w i fuel inside fits small order sinking =
      Returns-map (heapify-Sunk k w i fuel inside fits small)
        λ w' s. (s.same, s.perm, s.order lo order sinking)
