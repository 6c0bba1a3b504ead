-- ===== src/Heap/Remove.antt =====
-- heap_remove
use mathlib.Core.List.{Perm}
use mathlib.Core.List.Perm
use libckit.Common.{
  ℕ, suc, ◌+◌, ◌-◌, ◌%◌, ◌^◌, ◌≤◌, ◌<◌, ◌≡◌, ◌≢◌, refl, ◌∙◌, sym, false, Option, none, some, ◌∷◌,
  arith, leb, ◌==◌, if◌then◌else◌, length,
}
use libckit.Common.Run.{ok, ◌>>=◌, Returns, returns, Returns-bind, Returns-map}
use native.Mathlib.Numerals.{add-one}
use libckit.Common.Arrays
use libckit.Common.Arrays.{at, set}
use libckit.Heap.{HeapItem, World, remove, parent, set_index, set_active, heapify}
use libckit.Heap.Valid.{IsStrictWeak, IsValid, IsIndexed, IsTopLightFrom, slot, key, contents}
use libckit.Heap.Slots.{
  load-ok, store-ok, set_index-index, set_index-owner, set_index-active, set_active-owner,
  set_active-index, set_active-active,
}
use libckit.Heap.Heapify.{IsDistinct, IsActive, IsIndexedAround, IsSinking}
use libckit.Heap.Sift.{Sunk, heapify-Sunk, heapify-settled}

module _ {P : Type 0} where
  -- `r` is `w` without the item in slot `index`.
  pub record Removed (w : World P) (index : ℕ) (r : Option ℕ × World P) : Type 0 where
    pub item : r.0 ≡ some (slot w index)
    pub valid : IsValid r.1
    pub cmp : r.1.heap.cmp ≡ w.heap.cmp
    pub size : r.1.heap.size + 1 ≡ w.heap.size
    pub perm : Perm (slot w index ∷ contents r.1) (contents w)
    pub owner : (p : ℕ) → (r.1.items p).owner ≡ (w.items p).owner
    pub active :
        (p : ℕ) → (r.1.items p).active ≡ (if slot w index == p then 0 else (w.items p).active)

  -- `r` keeps what `w` has of the two orders.
  record Orderly (w : World P) (index : ℕ) (r : Option ℕ × World P) : Type 0 where
    around : IsIndexed w → IsIndexedAround r.1 index
    order : IsStrictWeak w.heap.cmp → index ≡ 0 → IsTopLightFrom 0 w → IsTopLightFrom 0 r.1

  module _ (w : World P) (index : ℕ) (v : IsValid w) (inside : index < w.heap.size) where
    abbrev pub rest : ℕ
    rest = (w.heap.size + 2 ^ 32 - 1) % 2 ^ 32

    pub rest_lem : w.heap.size ≡ suc rest
    rest_lem = omega (arith, v.room, v.small)

    -- the last entry in place of the one that is removed
    abbrev pub filled : World P
    filled = record {
      heap = record w.heap { size = rest; map = set w.heap.map index (slot w rest) };
      items = w.items;
    }

    pub at_filled : (j : ℕ) → slot filled j ≡ (if index == j then slot w rest else slot w j)
    at_filled j = Arrays.at-set w.heap.map index (slot w rest) j (omega (arith, v.room, v.whole))

    filled-perm : Perm (slot w index ∷ contents filled) (contents w)
    filled-perm = rw (← rest_lem) at (
        Arrays.take_out-perm rest w.heap.map index (omega (arith, rest_lem, v.room, v.whole))
          (omega (arith, rest_lem)))

    filled-IsDistinct : IsDistinct filled
    filled-IsDistinct j k hj hk e = ground (
      arith,
      rest_lem,
      at_filled j,
      at_filled k,
      v.distinct j k,
      v.distinct j rest,
      v.distinct rest k,
    )

    filled-IsActive : IsActive filled
    filled-IsActive j hj = ground (arith, rest_lem, at_filled j, v.active j, v.active rest)

    filled_absent : (j : ℕ) → j < rest → slot filled j ≢ slot w index
    filled_absent j hj e =
        ground (arith, rest_lem, at_filled j, v.distinct j index, v.distinct rest index)

    filled-IsIndexedAround : IsIndexed w → IsIndexedAround filled index
    filled-IsIndexedAround ix j hj ne = ground (arith, rest_lem, at_filled j, ix j)

    filled-IsSinking : index ≡ 0 → IsTopLightFrom 0 w → IsSinking 0 filled index
    filled-IsSinking e t = record {
      edges = λ c p q b n.
          ground (arith, rest_lem, v.room, v.small, at_filled c, at_filled (parent c), t c);
      bridged = λ c p q a b. absurd (omega arith);
    }

    -- the world that heap_remove leaves, from the one that heap_heapify leaves
    abbrev pub taken : World P → World P
    taken w' = record w' {
      items = set_active (set_index w'.items (slot w index) 0) (slot w index) 0;
    }

    module _ (w' : World P) (s : Sunk filled index w') where
      abbrev result : World P
      result = taken w'

      abbrev middle : ℕ → HeapItem P
      middle = set_index w'.items (slot w index) 0

      result_active :
          (p : ℕ) → (result.items p).active ≡ (if slot w index == p then 0 else (w.items p).active)
      result_active p = ground (
        arith,
        set_active-active middle (slot w index) 0 p,
        set_index-active w'.items (slot w index) 0 p,
        s.same.active p,
      )

      result-Removed : Removed w index (some (slot w index), result)
      result-Removed = record {
        item = refl;
        valid = record {
          room = omega (arith, s.same.size, s.same.max_size, v.room, rest_lem);
          whole =
              s.same.slots
              ∙ Arrays.length-set w.heap.map index (slot w rest)
              ∙ v.whole
              ∙ sym s.same.max_size;
          small = omega (arith, s.same.max_size, v.small);
          distinct = s.distinct filled-IsDistinct;
          active = λ i hi. ground (
            arith,
            s.same.size,
            result_active (slot w' i),
            s.same.active (slot w' i),
            s.active filled-IsActive i,
            s.absent (slot w index) filled_absent i,
          );
        };
        cmp = s.same.cmp;
        size = omega (arith, rest_lem, s.same.size);
        perm = Perm.trans (Perm.cons (slot w index) s.perm) filled-perm;
        owner = λ p.
            set_active-owner middle (slot w index) 0 p
            ∙ set_index-owner w'.items (slot w index) 0 p
            ∙ s.same.owner p;
        active = result_active;
      }

      result-Orderly : Orderly w index (some (slot w index), result)
      result-Orderly = record {
        around = λ ix j hj ne. ground (
          arith,
          s.same.size,
          set_active-index middle (slot w index) 0 (slot w' j),
          set_index-index w'.items (slot w index) 0 (slot w' j),
          s.around filled-IsDistinct (filled-IsIndexedAround ix) j,
          s.absent (slot w index) filled_absent j,
        );
        order = λ o e t c p q b. ground (
          arith,
          set_active-owner middle (slot w index) 0 (slot w' c),
          set_index-owner w'.items (slot w index) 0 (slot w' c),
          set_active-owner middle (slot w index) 0 (slot w' (parent c)),
          set_index-owner w'.items (slot w index) 0 (slot w' (parent c)),
          s.same.cmp,
          s.order 0 o (filled-IsSinking e t) c,
        );
      }

    remove-heapify :
        remove w index
        ≡ (heapify (rest + 1) filled index >>= λ w'. ok (some (slot w index), taken w'))
    unfolding remove
    remove-heapify =
        let used : leb w.heap.size index ≡ false = ground arith in
        let hi : index < length w.heap.map = omega (arith, v.room, v.whole) in
        let hr : rest < length w.heap.map = omega (arith, v.room, v.whole, rest_lem) in
        rw (
          used,
          load-ok w.heap index hi,
          load-ok w.heap rest hr,
          store-ok (record w.heap { size = rest }) index (slot w rest) hi,
        )

    slots_filled : length filled.heap.map ≡ w.heap.max_size
    slots_filled = Arrays.length-set w.heap.map index (slot w rest) ∙ v.whole

    removed : Returns (λ r. Removed w index r × Orderly w index r) (remove w index)
    removed = rw remove-heapify (
        Returns-bind
          (heapify-Sunk (rest + 1) filled index (omega arith) (omega (arith, slots_filled, v.room))
            (omega (arith, slots_filled, rest_lem, v.room)) (omega (arith, slots_filled, v.small)))
          λ w' s. returns (result-Removed w' s, result-Orderly w' s))

    -- heap_remove of a slot in use of a valid heap returns its item, marked as not active, and
    -- leaves a valid heap of exactly the others; all owners and the marks of the others stay.
    pub remove-Removed : Returns (Removed w index) (remove w index)
    remove-Removed = Returns-map removed λ r m. m.0

    -- If all items of a valid heap know their slots, then after heap_remove of a slot in use all
    -- do but the one that is now in that slot.
    pub remove-IsIndexedAround :
        IsIndexed w → Returns (λ r. IsIndexedAround r.1 index) (remove w index)
    remove-IsIndexedAround ix = Returns-map removed λ r m. m.1.around ix

    pub remove-IsTopLight :
        IsStrictWeak w.heap.cmp
        → index ≡ 0
        → IsTopLightFrom 0 w
        → Returns (λ r. Removed w index r × IsTopLightFrom 0 r.1) (remove w index)
    remove-IsTopLight o e t = Returns-map removed λ r m. (m.0, m.1.order o e t)

    -- Where no entry below the slot is less than the last one, that one is put there, and not
    -- moved.
    pub remove-settled :
        ((c : ℕ)
          → 0 < c
          → c < rest
          → parent c ≡ index
          → w.heap.cmp (key filled c) (key filled index) ≡ false)
        → remove w index ≡ ok (some (slot w index), taken filled)
    remove-settled none_less = rw (
      remove-heapify,
      add-one,
      heapify-settled rest filled index (omega (arith, slots_filled, v.room))
          (omega (arith, slots_filled, rest_lem, v.room)) (omega (arith, slots_filled, v.small))
          none_less,
    )

  -- heap_remove of an index that is not in use returns NULL and changes nothing.
  pub remove-none : (w : World P) (index : ℕ) → w.heap.size ≤ index → remove w index ≡ ok (none, w)
  unfolding remove
  remove-none w index h = ground arith
