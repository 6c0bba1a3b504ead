-- ===== src/Heap/Settle.antt =====
-- heap_insert once the array has room
use mathlib.Core.List.{Perm}
use mathlib.Core.List.Perm
use libckit.Common.{
  ℕ, suc, ◌+◌, ◌%◌, ◌^◌, ◌<◌, ◌≡◌, ◌≢◌, refl, ◌∙◌, sym, ◌∷◌, arith, ◌==◌, if◌then◌else◌, length,
}
use libckit.Common.Run.{Returns, returns, Returns-bind}
use libckit.Common.Int.{ℤ, pos}
use libckit.Common.Arrays
use libckit.Common.Arrays.{at, set}
use libckit.Heap.{World, settle, set_active, parent}
use libckit.Heap.Valid.{IsStrictWeak, IsValid, IsIndexed, IsTopHeavy, slot, key, contents}
use libckit.Heap.Slots.{
  placed, place-ok, slot-placed, set_index-index, set_index-active, set_index-owner,
  set_active-owner, set_active-index, set_active-active,
}
use libckit.Heap.ShiftUp.{IsHole, IsRising, Shifted, shift_up_lem}

module _ {P : Type 0} where
  -- `r` is `w` with `item` in the heap as well.
  pub record Inserted (w : World P) (item : ℕ) (r : ℤ × World P) : Type 0 where
    pub status : r.0 ≡ pos 0
    pub valid : IsValid r.1
    pub cmp : r.1.heap.cmp ≡ w.heap.cmp
    pub size : r.1.heap.size ≡ w.heap.size + 1
    pub perm : Perm (contents r.1) (item ∷ contents w)
    pub owner : (p : ℕ) → (r.1.items p).owner ≡ (w.items p).owner
    pub active : (p : ℕ) → (r.1.items p).active ≡ (if item == p then 1 else (w.items p).active)

  -- `r` keeps what `w` has of the two orders.
  pub record Orderly (w : World P) (r : ℤ × World P) : Type 0 where
    pub indexed : IsIndexed w → IsIndexed r.1
    pub order : IsStrictWeak w.heap.cmp → IsTopHeavy w → IsTopHeavy r.1

  abbrev pub Entered : World P → ℕ → ℤ × World P → Type 0
  Entered w item r = Inserted w item r × Orderly w r

  module _ (w : World P) (item : ℕ) (v : IsValid w) (room : w.heap.size < w.heap.max_size)
      (out : (j : ℕ) → j < w.heap.size → slot w j ≢ item) where
    start : IsHole item w.heap.size w w.heap.size
    start = record {
      inside = omega arith;
      whole = omega (arith, v.whole);
      small = omega (arith, v.small);
      distinct = λ j k hj hk nj nk e. v.distinct j k (omega arith) (omega arith) e;
      absent = λ j hj nj e. out j (omega arith) e;
    }

    module _ (r : ℕ × World P) (s : Shifted item w.heap.size w w.heap.size r) where
      abbrev last : World P
      last = placed r.1 r.0 item

      -- the world that heap_insert leaves
      abbrev result : World P
      result = record {
        heap = record last.heap { size = (r.1.heap.size + 1) % 2 ^ 32 };
        items = set_active last.items item 1;
      }

      size_result : result.heap.size ≡ suc w.heap.size
      size_result = omega (arith, s.same.size, v.small)

      at_result : (j : ℕ) → slot result j ≡ (if r.0 == j then item else slot r.1 j)
      at_result j = slot-placed r.1 r.0 item j (omega (arith, s.hole.inside, s.hole.whole))

      result-IsValid : IsValid result
      result-IsValid = record {
        room = omega (arith, size_result, s.same.max_size);
        whole =
            Arrays.length-set r.1.heap.map r.0 item ∙ s.same.slots ∙ v.whole ∙ sym s.same.max_size;
        small = omega (arith, s.same.max_size, v.small);
        distinct = λ j k hj hk e. ground (
          arith,
          size_result,
          at_result j,
          at_result k,
          s.hole.distinct j k,
          s.hole.absent j,
          s.hole.absent k,
        );
        active = λ j hj. ground (
          arith,
          size_result,
          at_result j,
          set_active-active last.items item 1 (slot result j),
          set_index-active r.1.items item r.0 (slot result j),
          s.active (λ k hk nk. v.active k (omega arith)) j,
        );
      }

      result-perm : Perm (contents result) (item ∷ contents w)
      result-perm =
          let whole : w.heap.size < length w.heap.map = omega (arith, v.whole) in
          let appended = rw (Arrays.take-suc-set w.heap.size w.heap.map item whole) at s.perm in
          rw size_result (Perm.trans appended (Arrays.concat-perm (contents w) item))

      result-IsIndexed : IsIndexed w → IsIndexed result
      result-IsIndexed ix j hj = ground (
        arith,
        size_result,
        at_result j,
        set_active-index last.items item 1 (slot result j),
        set_index-index r.1.items item r.0 (slot result j),
        s.hole.absent j,
        s.indexed (λ k hk nk. ix k (omega arith)) j,
      )

      -- the array, less the item, in the order of the slots
      key-result : (j : ℕ) → key result j ≡ (if r.0 == j then (w.items item).owner else key r.1 j)
      key-result j = ground (
        arith,
        at_result j,
        set_active-owner last.items item 1 (slot result j),
        set_index-owner r.1.items item r.0 (slot result j),
        s.same.owner item,
      )

      result-IsTopHeavy : IsStrictWeak w.heap.cmp → IsTopHeavy w → IsTopHeavy result
      result-IsTopHeavy order heavy c p q =
          let (rising, settled) = s.order order begin in
          ground (
            arith,
            size_result,
            key-result c,
            key-result (parent c),
            s.same.owner item,
            s.hole.inside,
            rising.edges c,
            rising.below c,
            settled,
          )
        where
          begin : IsRising item w.heap.size w w.heap.size
          begin = record {
            edges = λ c p q a b. heavy c p (omega arith);
            below = λ c p q e. absurd (omega (arith, v.small));
            bridged = λ c p q e. absurd (omega (arith, v.small));
          }

      result-Inserted : Inserted w item (pos 0, result)
      result-Inserted = record {
        status = refl;
        valid = result-IsValid;
        cmp = s.same.cmp;
        size = omega (arith, size_result);
        perm = result-perm;
        owner = λ p.
            set_active-owner last.items item 1 p
            ∙ set_index-owner r.1.items item r.0 p
            ∙ s.same.owner p;
        active = λ p. ground (
          arith,
          set_active-active last.items item 1 p,
          set_index-active r.1.items item r.0 p,
          s.same.active p,
        );
      }

      result-Orderly : Orderly w (pos 0, result)
      result-Orderly = record { indexed = result-IsIndexed; order = result-IsTopHeavy }

    pub settle-Entered : Returns (Entered w item) (settle w item)
    unfolding settle
    settle-Entered =
        Returns-bind
          (shift_up_lem item w.heap.size (w.heap.size + 1) w w.heap.size (omega arith) start)
          λ (i, w1) s.
            rw (place-ok w1 i item (omega (arith, s.hole.inside, s.hole.whole)))
              (returns (result-Inserted (i, w1) s, result-Orderly (i, w1) s))
