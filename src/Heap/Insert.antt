-- ===== src/Heap/Insert.antt =====
-- heap_insert
use libckit.Common.{
  ℕ, ◌+◌, ◌^◌, ◌<◌, ◌≡◌, ◌≢◌, ◌∙◌, true, List, none, some, arith, take, Bool-cases, inl, inr,
  Option-cases,
}
use libckit.Common.Run.{ok, Returns, Returns-bind, Returns-map}
use libckit.Common.Int.{ℤ, negsuc}
use libckit.Common.Arrays
use libckit.Common.Arrays.{at, set}
use libckit.Heap.{Heap, World, Malloc, full, insert, parent, default_increase_size}
use libckit.Heap.Valid.{IsHonest, IsStrictWeak, IsValid, IsIndexed, IsTopHeavy, slot, contents}
use libckit.Heap.Grow.{Grown, increase_size-Grown, increase_size-none}
use libckit.Heap.Settle.{Inserted, Entered, settle-Entered}

module _ {P : Type 0} where
  Grown-IsValid :
      (w : World P) (h : Heap P)
      → IsValid w
      → w.heap.max_size + default_increase_size < 2 ^ 31
      → Grown w.heap h
      → IsValid (record w { heap = h })
  Grown-IsValid w h v small g = record {
    room = omega (arith, g.size, g.max_size, v.room);
    whole = g.whole;
    small = omega (arith, g.max_size);
    distinct = λ i j hi hj e. ground (arith, g.size, g.kept i, g.kept j, v.distinct i j);
    active = λ i hi. ground (arith, g.size, g.kept i, v.active i);
  }

  Grown-Entered :
      (w : World P) (h : Heap P) (item : ℕ) (r : ℤ × World P)
      → IsValid w
      → IsValid (record w { heap = h })
      → Grown w.heap h
      → Entered (record w { heap = h }) item r
      → Entered w item r
  Grown-Entered w h item r v v' g (ins, kept) = (
    record {
      status = ins.status;
      valid = ins.valid;
      cmp = ins.cmp ∙ g.cmp;
      size = omega (arith, ins.size, g.size);
      perm = rw same at ins.perm;
      owner = ins.owner;
      active = ins.active;
    },
    record {
      indexed = λ ix. kept.indexed (λ i hi. ground (arith, g.size, g.kept i, ix i));
      order = λ o heavy.
          kept.order (rw g.cmp o)
            (λ c p q. ground (arith, g.size, g.cmp, g.kept c, g.kept (parent c), heavy c));
    },
  )
    where
      same : take h.size h.map ≡ contents w
      same = rw g.size (
          Arrays.take_ext w.heap.size h.map w.heap.map (omega (arith, v'.room, v'.whole, g.size))
            (omega (arith, v.room, v.whole)) g.kept)

  module _ (malloc : Malloc) (w : World P) (item : ℕ) (v : IsValid w)
      (small : w.heap.max_size + default_increase_size < 2 ^ 31) where
    module _ (honest : IsHonest malloc)
        (got : full w.heap ≡ true → malloc (w.heap.max_size + default_increase_size) ≢ none)
        (idle : (w.items item).active ≢ 1) where
      absent : (j : ℕ) → j < w.heap.size → slot w j ≢ item
      absent j hj e = idle (ground (arith, v.active j))

      grown-Entered :
          (block : List ℕ)
          → full w.heap ≡ true
          → malloc (w.heap.max_size + default_increase_size) ≡ some block
          → Returns (Entered w item) (insert malloc w item)
      unfolding insert
      grown-Entered block e some_block = rw e (
          Returns-bind
            (increase_size-Grown malloc w.heap small block honest (omega (arith, v.room, v.whole))
              v.room some_block)
            λ (status, h) (good, g).
              let v' = Grown-IsValid w h v small g in
              rw (good, insert)
                (Returns-map
                  (settle-Entered (record w { heap = h }) item v'
                    (ground (arith, g.size, g.max_size, v.room))
                    (λ j hj e. absent j (omega (arith, g.size)) (ground (arith, g.kept j, g.size))))
                  λ r. Grown-Entered w h item r v v' g))

      pub insert-Entered : Returns (Entered w item) (insert malloc w item)
      unfolding insert
      insert-Entered = elim (Bool-cases (full w.heap)) [
        | inl e ↦ elim (Option-cases (malloc (w.heap.max_size + default_increase_size))) [
          | inl no_block ↦ absurd (got e no_block)
          | inr (block, some_block) ↦ grown-Entered block e some_block
        ]
        | inr e ↦ rw e (settle-Entered w item v (ground arith) absent)
      ]

      -- heap_insert of an item that is not active puts it into a valid heap and marks it as active:
      -- it returns 0, the heap stays valid and holds exactly one item more, all owners and the
      -- marks of the others stay. The array has fewer than `2 ^ 31 - 100` slots; a full one grows
      -- first, for which `malloc` must succeed and return a block of the size asked for.
      pub insert-Inserted : Returns (Inserted w item) (insert malloc w item)
      insert-Inserted = Returns-map insert-Entered λ r e. e.0

      -- heap_insert of an item that is not active into a valid heap in which all items know their
      -- slots ends in a heap in which they do. The array has fewer than `2 ^ 31 - 100` slots; a
      -- full one grows first, for which `malloc` must succeed and return a block of the size asked
      -- for.
      pub insert-IsIndexed : IsIndexed w → Returns (λ r. IsIndexed r.1) (insert malloc w item)
      insert-IsIndexed ix = Returns-map insert-Entered λ r e. e.1.indexed ix

      -- heap_insert of an item that is not active into a valid heap in which no entry is less than
      -- one below it ends in a heap in which that holds, if `cmp` is a strict weak order. The array
      -- has fewer than `2 ^ 31 - 100` slots; a full one grows first, for which `malloc` must
      -- succeed and return a block of the size asked for.
      pub insert-IsTopHeavy :
          IsStrictWeak w.heap.cmp
          → IsTopHeavy w
          → Returns (λ r. IsTopHeavy r.1) (insert malloc w item)
      insert-IsTopHeavy order heavy = Returns-map insert-Entered λ r e. e.1.order order heavy

    -- heap_insert into a full array of a valid heap reports failure and changes nothing, if
    -- `malloc` fails and the larger size is below `2 ^ 31`.
    pub insert-no_memory :
        full w.heap ≡ true
        → malloc (w.heap.max_size + default_increase_size) ≡ none
        → insert malloc w item ≡ ok (negsuc 0, w)
    unfolding insert
    insert-no_memory e m = rw (e, increase_size-none malloc w.heap small m)
