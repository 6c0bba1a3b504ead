-- ===== src/Heap.antt =====
-- include/ckit/heap.h and src/heap.c: a binary heap of pointers to items, in an array that grows.
-- An item is embedded in an object of type `P`; `cmp` reads nothing of an item but that object.
-- A pointer to an item is a number, and `items` says what it points to.
pub mod Valid
pub mod Slots
pub mod ShiftUp
pub mod Settle
pub mod Insert
pub mod Grow
pub mod Heapify
pub mod Sift
pub mod Remove
pub mod Front
pub mod Stale
pub mod History
pub mod Tests
use libckit.Common.{
  ℕ, zero, suc, ◌+◌, ◌-◌, ◌*◌, ◌/◌, ◌%◌, ◌≡◌, Bool, true, false, ◌&&◌, Option, none, some, List, [],
  ltb, leb, ◌==◌, if◌then◌else◌, length,
}
use libckit.Common.Word.{u32_mod, add32, sub32, mul32}
use libckit.Common.Int.{ℤ, pos, negsuc}
use libckit.Common.Run.{Run, ok, fault, out_of_fuel, ◌>>=◌, or_fault}
use libckit.Common.Arrays.{get_elem?, set, copy_prefix}

abbrev pub default_size : ℕ
default_size = 200

abbrev pub default_increase_size : ℕ
default_increase_size = 100

-- `struct heapitem`, with the object that it is embedded in
pub record HeapItem (P : Type 0) : Type 0 where
  pub index : ℕ
  pub active : ℕ
  pub owner : P

-- `map` is the allocated array, all `max_size` slots of it.
pub record Heap (P : Type 0) : Type 0 where
  pub max_size : ℕ
  pub size : ℕ
  pub cmp : P → P → Bool
  pub map : List ℕ

abbrev pub Items : Type 0 → Type 0
Items P = ℕ → HeapItem P

-- a heap, and the items in memory
pub record World (P : Type 0) : Type 0 where
  pub heap : Heap P
  pub items : Items P

-- What `malloc` returns for an array of so many pointers.
abbrev pub Malloc : Type 0
Malloc = ℕ → Option (List ℕ)

-- `memcpy` of `n` pointers
pub memcpy : ℕ → List ℕ → List ℕ → Run (List ℕ)
memcpy n src dst =
    if leb n (length src) && leb n (length dst) then ok (copy_prefix n src dst) else fault

abbrev pub parent : ℕ → ℕ
parent i = sub32 i 1 / 2

module _ {P : Type 0} where
  -- A NULL array has no slots.
  pub init : Malloc → ℕ → (P → P → Bool) → ℤ × Heap P
  init malloc max_size cmp =
      let n = if max_size == 0 then default_size else max_size in
      elim (malloc n) [
        | none ↦ (negsuc 0, record { max_size = n; size = 0; cmp = cmp; map = [] })
        | some map ↦ (pos 0, record { max_size = n; size = 0; cmp = cmp; map = map })
      ]

  -- The array is freed: an access to it is a fault.
  abbrev pub fini : Heap P → Heap P
  fini h = record h { map = [] }

  abbrev pub empty : Heap P → Bool
  empty h = h.size == 0

  abbrev pub full : Heap P → Bool
  full h = leb h.max_size h.size

  -- `h->map[i]`
  pub load : Heap P → ℕ → Run ℕ
  load h i = or_fault (get_elem? h.map i)

  abbrev pub front : Heap P → Run ℕ
  front h = load h 0

  -- `h->map[i] = p`
  pub store : Heap P → ℕ → ℕ → Run (Heap P)
  store h i p = if ltb i (length h.map) then ok (record h { map = set h.map i p }) else fault

  pub set_index : Items P → ℕ → ℕ → Items P
  set_index items p i q = if p == q then record (items q) { index = i } else items q

  pub set_active : Items P → ℕ → ℕ → Items P
  set_active items p a q = if p == q then record (items q) { active = a } else items q

  -- `h->map[i] = p; h->map[i]->index = i`
  pub place : World P → ℕ → ℕ → Run (World P)
  place w i p = do h ← store w.heap i p; ok (record { heap = h; items = set_index w.items p i })

  -- `h->cmp(p, q)`
  abbrev pub less : World P → ℕ → ℕ → Bool
  less w p q = w.heap.cmp (w.items p).owner (w.items q).owner

  -- `smallest` after the test of one child
  pub smaller : World P → ℕ → ℕ → Run ℕ
  smaller w child i =
      let test : Run ℕ = do
        x ← load w.heap child
        y ← load w.heap i
        ok (if less w x y then child else i)
      in if ltb child w.heap.size then test else ok i

  pub smallest_of : World P → ℕ → Run ℕ
  smallest_of w i = do
    let l = add32 (mul32 2 i) 1
    let r = add32 l 1
    first ← smaller w l i
    smaller w r first

  pub exchange : World P → ℕ → ℕ → Run (World P)
  exchange w i smallest = do
    tmp ← load w.heap smallest
    x ← load w.heap i
    w' ← place w smallest x
    place w' i tmp

  pub heapify : ℕ → World P → ℕ → Run (World P)
  heapify zero w i = out_of_fuel
  heapify (suc k) w i =
      let sink = λ (smallest : ℕ). exchange w i smallest >>= λ w'. heapify k w' smallest in
      smallest_of w i >>= λ smallest. if smallest == i then ok w else sink smallest

  pub increase_size : Malloc → Heap P → ℕ → Run (ℤ × Heap P)
  increase_size malloc h increase = elim (malloc (add32 h.max_size increase)) [
    | none ↦ ok (negsuc 0, h)
    | some new_map ↦ memcpy h.size h.map new_map >>= λ m.
        ok (pos 0, record h { map = m; max_size = add32 h.max_size increase })
  ]

  -- The loop of heap_insert: entries above the item in `cmp`'s order move down.
  pub shift_up : ℕ → World P → ℕ → ℕ → Run (ℕ × World P)
  shift_up zero w item i = out_of_fuel
  shift_up (suc k) w item i =
      let move = λ (x : ℕ). place w i x >>= λ w'. shift_up k w' item (parent i) in
      let step = load w.heap (parent i) >>= λ x. if less w x item then move x else ok (i, w) in
      if ltb 0 i then step else ok (i, w)

  -- heap_insert, once there is room
  pub settle : World P → ℕ → Run (ℤ × World P)
  settle w item = do
    (i, w1) ← shift_up (w.heap.size + 1) w item w.heap.size
    w2 ← place w1 i item
    ok (
      pos 0,
      record {
        heap = record w2.heap { size = add32 w2.heap.size 1 };
        items = set_active w2.items item 1;
      },
    )

  pub insert : Malloc → World P → ℕ → Run (ℤ × World P)
  insert malloc w item =
      if full w.heap
      then (increase_size malloc w.heap default_increase_size >>= λ (status, h). elim status [
        | pos zero ↦ settle (record w { heap = h }) item
        | _ ↦ ok (negsuc 0, record w { heap = h })
      ])
      else settle w item

  pub remove : World P → ℕ → Run (Option ℕ × World P)
  remove w index = if leb w.heap.size index then ok (none, w) else do
    item ← load w.heap index
    let n = sub32 w.heap.size 1
    last ← load w.heap n
    h ← store (record w.heap { size = n }) index last
    w' ← heapify (n + 1) (record w { heap = h }) index
    ok (some item, record w' { items = set_active (set_index w'.items item 0) item 0 })

  abbrev pub remove_first : World P → Run (Option ℕ × World P)
  remove_first w = remove w 0
