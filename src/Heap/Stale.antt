-- ===== src/Heap/Stale.antt =====
-- heap_remove, where the entry that is put into the free slot stays there.
use libckit.Common.{ℕ, ◌+◌, ◌-◌, ◌<◌, ◌≡◌, false, none, arith}
use libckit.Common.Run.{ok, Returns, returns}
use libckit.Heap.{World, remove, parent, set_index}
use libckit.Heap.Valid.{IsValid, IsIndexed, slot, key}
use libckit.Heap.Slots.{set_index-index, set_active-index}
use libckit.Heap.Remove.{remove-none, remove-settled, rest, rest_lem, filled, at_filled, taken}

module _ {P : Type 0} where
  module _ (w : World P) (index : ℕ) (v : IsValid w) (inside : index < w.heap.size)
      (before : index + 1 < w.heap.size) (ix : IsIndexed w) where
    abbrev after : World P
    after = taken w index v inside (filled w index v inside)

    slot-after : slot after index ≡ slot w (w.heap.size - 1)
    slot-after =
        let e : w.heap.size - 1 ≡ rest w index v inside =
          omega (arith, rest_lem w index v inside) in
        rw e (ground (arith, at_filled w index v inside index))

    index_after : (after.items (slot after index)).index ≡ w.heap.size - 1
    index_after = ground (
      arith,
      slot-after,
      set_active-index (set_index w.items (slot w index) 0) (slot w index) 0 (slot after index),
      set_index-index w.items (slot w index) 0 (slot after index),
      ix (w.heap.size - 1),
      ix index,
    )

    size_after : after.heap.size ≡ w.heap.size - 1
    size_after = omega (arith, rest_lem w index v inside)

  -- If all items of a valid heap know their slots, heap_remove takes one that is not the last, and
  -- no entry directly below its slot, but the last one, is less than the last one, then the last
  -- one, which now has the slot, still says that it is in its old one, and heap_remove of where it
  -- says it is finds nothing.
  pub remove-stale :
      (w : World P) (index : ℕ)
      → IsValid w
      → IsIndexed w
      → index + 1 < w.heap.size
      → ((c : ℕ)
          → 0 < c
          → c + 1 < w.heap.size
          → parent c ≡ index
          → w.heap.cmp (key w c) (key w (w.heap.size - 1)) ≡ false)
      → Returns
          (λ r.
            (slot r.1 index ≡ slot w (w.heap.size - 1))
            × ((r.1.items (slot r.1 index)).index ≡ w.heap.size - 1)
            × (¬ IsIndexed r.1)
            × (remove r.1 (r.1.items (slot r.1 index)).index ≡ ok (none, r.1)))
          (remove w index)
  remove-stale w index v ix before none_less =
      let inside : index < w.heap.size = omega arith in
      let size = rest_lem w index v inside in
      let old = index_after w index v inside before ix in
      let shorter = size_after w index v inside before ix in
      rw
        (remove-settled w index v inside λ c p q e. ground (
          arith,
          size,
          at_filled w index v inside c,
          at_filled w index v inside index,
          slot-after w index v inside before ix,
          none_less c,
        ))
        (returns (
          slot-after w index v inside before ix,
          old,
          (λ x. absurd (omega (arith, old, x index (omega arith)))),
          remove-none _ _ (omega arith),
        ))
