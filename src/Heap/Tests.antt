-- ===== src/Heap/Tests.antt =====
-- src/heap.c on small heaps of numbers, and the theorems about it at these.
use libckit.Common.{
  ℕ, zero, suc, ◌-◌, ◌<◌, ◌≡◌, refl, false, ◌&&◌, List, [], ◌∷◌, Option, some, arith, ltb, ◌==◌,
  if◌then◌else◌, length, ap,
}
use libckit.Common.Int.{ℤ, pos}
use libckit.Common.Run.{Run, ok, Returns}
use libckit.Common.Arrays.{at, set}
use libckit.Heap.{
  HeapItem, World, Malloc, insert, remove, remove_first, front, settle, shift_up, place, store,
  load, set_index, set_active, heapify, smallest_of, smaller, exchange,
}
use libckit.Heap.Valid.{IsHonest, IsStrictWeak, IsValid, IsIndexed, IsTopHeavy, IsTopLightFrom, key}
use libckit.Heap.Insert.{insert-Inserted}
use libckit.Heap.Settle.{Inserted}
use libckit.Heap.Remove.{Removed, remove-Removed}
use libckit.Heap.Front.{remove_first_least}
use libckit.Heap.History.{
  here, next, removing, Inserts, start, more, Steps-IsValid, Inserts-greatest,
}

abbrev zeros : ℕ → List ℕ
zeros = elim [ zero ↦ [] | suc (n → r) ↦ 0 ∷ r ]

abbrev pub calloc : Malloc
calloc n = some (zeros n)

length-zeros : (n : ℕ) → length (zeros n) ≡ n
length-zeros zero = refl
length-zeros (suc n) = ap suc (length-zeros n)

pub calloc-IsHonest : IsHonest calloc
calloc-IsHonest n block e = ground (arith, length-zeros n)

ltb-IsStrictWeak : IsStrictWeak ltb
ltb-IsStrictWeak = record { asym = λ a b h. ground arith; trans = λ a b c h k. ground arith }

-- the items 1 to 9 stand for themselves
abbrev blank : World ℕ
blank = record {
  heap = record { max_size = 4; size = 0; cmp = ltb; map = zeros 4 };
  items = λ p. record { index = 0; active = 0; owner = p };
}

-- the items 3, 1 and 2 in this order, in an array of 4, or in one of 3
abbrev some_items : ℕ → HeapItem ℕ
some_items p = record {
  index = if p == 3 then 0 else p;
  active = if ltb 0 p && ltb p 4 then 1 else 0;
  owner = p;
}

abbrev sample : World ℕ
sample = record {
  heap = record { max_size = 4; size = 3; cmp = ltb; map = 3 ∷ 1 ∷ 2 ∷ 0 ∷ [] };
  items = some_items;
}

abbrev filled_up : World ℕ
filled_up = record sample {
  heap = record { max_size = 3; size = 3; cmp = ltb; map = 3 ∷ 1 ∷ 2 ∷ [] };
}

-- the same items, the least on top
abbrev light : World ℕ
light = record sample {
  heap = record { max_size = 4; size = 3; cmp = ltb; map = 1 ∷ 3 ∷ 2 ∷ 0 ∷ [] };
}

-- the least on top, all in their slots
abbrev settled : World ℕ
settled = record {
  heap = record { max_size = 4; size = 3; cmp = ltb; map = 1 ∷ 2 ∷ 3 ∷ 0 ∷ [] };
  items = λ p. record { index = p - 1; active = 1; owner = p };
}

sample-IsValid : IsValid sample
unfolding at
sample-IsValid = grind arith

sample-IsIndexed : IsIndexed sample
unfolding at
sample-IsIndexed = grind arith

sample-IsTopHeavy : IsTopHeavy sample
unfolding at
sample-IsTopHeavy = grind arith

filled_up-IsValid : IsValid filled_up
unfolding at
filled_up-IsValid = grind arith

filled_up-IsIndexed : IsIndexed filled_up
unfolding at
filled_up-IsIndexed = grind arith

light-IsValid : IsValid light
unfolding at
light-IsValid = grind arith

light-IsTopLight : IsTopLightFrom 0 light
unfolding at
light-IsTopLight = grind arith

settled-IsValid : IsValid settled
unfolding at
settled-IsValid = grind arith

settled-IsIndexed : IsIndexed settled
unfolding at
settled-IsIndexed = grind arith

-- the worlds after the calls of heap_insert
abbrev world_of : World ℕ → Run (ℤ × World ℕ) → World ℕ
world_of w r = elim r [ ok (s, w') ↦ w' | _ ↦ w ]

abbrev one_in : World ℕ
one_in = world_of blank (insert calloc blank 5)

abbrev two_in : World ℕ
two_in = world_of one_in (insert calloc one_in 7)

two_Inserts : Inserts calloc blank two_in
unfolding insert settle shift_up place store load set_index set_active set
two_Inserts =
    more {s = pos 0} 7 (more {s = pos 0} 5 start (omega arith) (omega arith) refl) (omega arith)
      (omega arith) refl

blank-IsValid : IsValid blank
blank-IsValid = grind arith

-- After 5 and 7 are put in, with "less than" for the order, 7 is in front.
latest_in_front : front two_in.heap ≡ ok 7
unfolding insert settle shift_up place store load set_index set_active set
latest_in_front = refl

insert-Inserted_example : Returns (Inserted sample 9) (insert calloc sample 9)
insert-Inserted_example =
    insert-Inserted calloc sample 9 sample-IsValid (omega arith) calloc-IsHonest (λ e h. cc)
      (omega arith)

remove-Removed_example : Returns (Removed sample 1) (remove sample 1)
remove-Removed_example = remove-Removed sample 1 sample-IsValid (omega arith)

remove_first_least_example :
    Returns
      (λ r.
        (r.0 ≡ some 1)
        × ((i : ℕ) → i < 3 → ltb (key light i) 1 ≡ false)
        × IsValid r.1
        × IsTopLightFrom 0 r.1)
      (remove_first light)
unfolding at
remove_first_least_example =
    remove_first_least light light-IsValid ltb-IsStrictWeak light-IsTopLight (omega arith)

abbrev world_of2 : World ℕ → Run (Option ℕ × World ℕ) → World ℕ
world_of2 w r = elim r [ ok (s, w') ↦ w' | _ ↦ w ]

Steps-IsValid_example : IsValid (world_of2 sample (remove sample 1))
unfolding remove heapify smallest_of smaller exchange place store load set_index set_active set
Steps-IsValid_example =
    Steps-IsValid calloc calloc-IsHonest (next here (removing {r = some 1} 1 removed))
      sample-IsValid
  where
    removed : remove sample 1 ≡ ok (some 1, world_of2 sample (remove sample 1))
    removed = refl

Inserts-greatest_example :
    IsIndexed two_in
    × Returns
        (λ p. (i : ℕ) → i < two_in.heap.size → ltb (two_in.items p).owner (key two_in i) ≡ false)
        (front two_in.heap)
unfolding insert settle shift_up place store load set_index set_active set
Inserts-greatest_example =
    Inserts-greatest calloc calloc-IsHonest two_Inserts ltb-IsStrictWeak blank-IsValid refl
      (omega arith)
