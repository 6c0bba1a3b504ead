-- ===== src/Heap/Front.antt =====
-- What heap_front and heap_remove_first return.
use libckit.Common.{ℕ, zero, suc, ◌^◌, ◌<◌, ◌≡◌, refl, false, some, arith}
use libckit.Common.Run.{Returns, returns, Returns-map}
use libckit.Heap.{World, front, remove_first, parent}
use libckit.Heap.Valid.{IsStrictWeak, IsValid, IsTopHeavy, IsTopLightFrom, slot, key}
use libckit.Heap.Slots.{load-ok}
use libckit.Heap.Remove.{remove-IsTopLight}

module _ {P : Type 0} where
  greatest_above :
      (k : ℕ) (w : World P) (i : ℕ)
      → IsStrictWeak w.heap.cmp
      → IsTopHeavy w
      → w.heap.size < 2 ^ 31
      → i < k
      → i < w.heap.size
      → w.heap.cmp (key w 0) (key w i) ≡ false
  greatest_above zero w i order heavy small f h = absurd (omega arith)
  greatest_above (suc k) w zero order heavy small f h =
      ground (arith, order.asym (key w 0) (key w 0))
  greatest_above (suc k) w (suc i) order heavy small f h =
      order.trans (key w 0) (key w (parent (suc i))) (key w (suc i))
        (greatest_above k w (parent (suc i)) order heavy small (omega arith) (omega arith))
        (heavy (suc i) (omega arith) h)

  least_above :
      (k : ℕ) (w : World P) (i : ℕ)
      → IsStrictWeak w.heap.cmp
      → IsTopLightFrom 0 w
      → w.heap.size < 2 ^ 31
      → i < k
      → i < w.heap.size
      → w.heap.cmp (key w i) (key w 0) ≡ false
  least_above zero w i order light small f h = absurd (omega arith)
  least_above (suc k) w zero order light small f h = ground (arith, order.asym (key w 0) (key w 0))
  least_above (suc k) w (suc i) order light small f h =
      order.trans (key w (suc i)) (key w (parent (suc i))) (key w 0)
        (light (suc i) (omega arith) h (omega arith))
        (least_above k w (parent (suc i)) order light small (omega arith) (omega arith))

  -- In a valid heap that is not empty, and in which no entry is less than one below it,
  -- heap_front returns an item that is less than no item of the heap: a greatest one.
  pub front_greatest :
      (w : World P)
      → IsValid w
      → IsStrictWeak w.heap.cmp
      → IsTopHeavy w
      → 0 < w.heap.size
      → Returns
          (λ p. (i : ℕ) → i < w.heap.size → w.heap.cmp (w.items p).owner (key w i) ≡ false)
          (front w.heap)
  front_greatest w v order heavy h = rw (load-ok w.heap 0 (omega (arith, v.room, v.whole))) (
      returns λ i hi.
        greatest_above (suc i) w i order heavy (omega (arith, v.room, v.small)) (omega arith) hi)

  -- From a valid heap that is not empty, and in which no entry is less than the one above it,
  -- heap_remove_first takes an item than which none in the heap is less, and the heap stays valid
  -- and in this order. `cmp` is a strict weak order.
  pub remove_first_least :
      (w : World P)
      → IsValid w
      → IsStrictWeak w.heap.cmp
      → IsTopLightFrom 0 w
      → 0 < w.heap.size
      → Returns
          (λ r.
            (r.0 ≡ some (slot w 0))
            × ((i : ℕ) → i < w.heap.size → w.heap.cmp (key w i) (key w 0) ≡ false)
            × IsValid r.1
            × IsTopLightFrom 0 r.1)
          (remove_first w)
  remove_first_least w v order light h =
      let least = λ (i : ℕ) (hi : i < w.heap.size).
        least_above (suc i) w i order light (omega (arith, v.room, v.small)) (omega arith) hi in
      Returns-map (remove-IsTopLight w 0 v h order refl light)
        λ r (m, kept). (m.item, least, m.valid, kept)
