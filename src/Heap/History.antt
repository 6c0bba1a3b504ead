-- ===== src/Heap/History.antt =====
-- A heap over its life: heap_init, and then calls of heap_insert and heap_remove in any order.
use libckit.Common.{
  ℕ, ◌+◌, ◌^◌, ◌<◌, ◌≡◌, ◌≢◌, ◌⊎◌, refl, ◌∙◌, Bool, false, Option, none, arith, ◌==◌, if◌then◌else◌,
  Bool-cases, Option-cases, inl, inr,
}
use native.Mathlib.Decide.{dec_lt}
use libckit.Common.Run.{ok, Returns, Returns-ok}
use libckit.Common.Int.{ℤ, pos}
use libckit.Heap.{
  Items, World, Malloc, init, insert, remove, full, load, front, default_size,
  default_increase_size,
}
use libckit.Heap.Valid.{IsHonest, IsStrictWeak, IsValid, IsIndexed, IsTopHeavy, key}
use libckit.Heap.Insert.{insert-Entered, insert-no_memory}
use libckit.Heap.Settle.{Entered}
use libckit.Heap.Remove.{remove-Removed, remove-none}
use libckit.Heap.Front.{front_greatest}

module _ {P : Type 0} (malloc : Malloc) where
  -- One call, with what its callers have to see to: an item that is put in is not active, and the
  -- array does not grow to `2 ^ 31` slots.
  pub data Step : World P → World P → Type 0 where
    inserting :
        {w w' : World P} {s : ℤ} (item : ℕ)
        → (w.items item).active ≢ 1
        → w.heap.max_size + default_increase_size < 2 ^ 31
        → insert malloc w item ≡ ok (s, w')
        → Step w w'
    removing : {w w' : World P} {r : Option ℕ} (index : ℕ) → remove w index ≡ ok (r, w') → Step w w'

  pub data Steps (w : World P) : World P → Type 0 where
    here : Steps w w
    next : {t u : World P} → Steps w t → Step t u → Steps w u

  -- the same without removals
  pub data Inserts (w : World P) : World P → Type 0 where
    start : Inserts w w
    more :
        {t u : World P} {s : ℤ} (item : ℕ)
        → Inserts w t
        → (t.items item).active ≢ 1
        → t.heap.max_size + default_increase_size < 2 ^ 31
        → insert malloc t item ≡ ok (s, u)
        → Inserts w u

  module _ (honest : IsHonest malloc) {w w' : World P} {s : ℤ} (item : ℕ) (v : IsValid w)
      (idle : (w.items item).active ≢ 1) (small : w.heap.max_size + default_increase_size < 2 ^ 31)
      (e : insert malloc w item ≡ ok (s, w')) where
    -- heap_insert has put the item in, or done nothing.
    insert-cases : (w' ≡ w) ⊎ Entered w item (s, w')
    insert-cases = elim (Bool-cases (full w.heap)) [
      | inl f ↦ elim (Option-cases (malloc (w.heap.max_size + default_increase_size))) [
        | inl no_block ↦ inl (cc (e, insert-no_memory malloc w item v small f no_block))
        | inr (block, b) ↦
            inr (Returns-ok e (insert-Entered malloc w item v small honest (λ _ n. cc) idle))
      ]
      | inr f ↦ inr (Returns-ok e (insert-Entered malloc w item v small honest (λ t. cc) idle))
    ]

  Step-IsValid : IsHonest malloc → {w w' : World P} → Step w w' → IsValid w → IsValid w'
  Step-IsValid honest (inserting {w} {w'} {s} item idle small e) v =
      elim (insert-cases honest item v idle small e) [
        | inl same ↦ rw same v
        | inr (ins, kept) ↦ ins.valid
      ]
  Step-IsValid honest (removing {w} {w'} {r} index e) v = elim (dec_lt index w.heap.size) [
    | yes inside ↦ (Returns-ok e (remove-Removed w index v inside)).valid
    | no past ↦ let same : w' ≡ w = cc (e, remove-none w index (omega arith)) in rw same v
  ]

  -- Any calls of heap_insert and heap_remove, in any order, leave a valid heap valid, if `malloc`
  -- returns blocks of the size asked for, no item is put in that is active, and the array has fewer
  -- than `2 ^ 31 - 100` slots before each insertion.
  pub Steps-IsValid : IsHonest malloc → {w w' : World P} → Steps w w' → IsValid w → IsValid w'
  Steps-IsValid honest here v = v
  Steps-IsValid honest (next r s) v = Step-IsValid honest s (Steps-IsValid honest r v)

  record IsGrowing (cmp : P → P → Bool) (w : World P) : Type 0 where
    valid : IsValid w
    indexed : IsIndexed w
    heavy : IsTopHeavy w
    same : w.heap.cmp ≡ cmp

  Inserts-IsGrowing :
      IsHonest malloc
      → {w w' : World P} → Inserts w w'
      → IsStrictWeak w.heap.cmp
      → IsValid w
      → w.heap.size ≡ 0
      → IsGrowing w.heap.cmp w'
  Inserts-IsGrowing honest start order v none_yet = record {
    valid = v;
    indexed = λ i hi. absurd (omega arith);
    heavy = λ c p q. absurd (omega arith);
    same = refl;
  }
  Inserts-IsGrowing honest {w} (more {t} {u} {s} item r idle small e) order v none_yet =
      let g = Inserts-IsGrowing honest r order v none_yet in
      elim (insert-cases honest item g.valid idle small e) [
        | inl same ↦ rw same g
        | inr (ins, kept) ↦ record {
          valid = ins.valid;
          indexed = kept.indexed g.indexed;
          heavy = kept.order (rw g.same order) g.heavy;
          same = ins.cmp ∙ g.same;
        }
      ]

  -- If items are only put into an empty valid heap, by calls as for Steps-IsValid, and `cmp` is a
  -- strict weak order, then every item in it knows its slot, and if there is one, heap_front
  -- returns an item that is less than no other: a greatest one.
  pub Inserts-greatest :
      IsHonest malloc
      → {w w' : World P} → Inserts w w'
      → IsStrictWeak w.heap.cmp
      → IsValid w
      → w.heap.size ≡ 0
      → 0 < w'.heap.size
      → IsIndexed w'
        × Returns
            (λ p. (i : ℕ) → i < w'.heap.size → w.heap.cmp (w'.items p).owner (key w' i) ≡ false)
            (front w'.heap)
  unfolding load
  Inserts-greatest honest {w} {w'} r order v none_yet some_in =
      let g = Inserts-IsGrowing honest r order v none_yet in
      (g.indexed, rw g.same at (front_greatest w' g.valid (rw g.same order) g.heavy some_in))

module _ {P : Type 0} where
  -- heap_init for fewer than `2 ^ 31` slots returns 0 and makes an empty valid heap with the size
  -- that is asked for, or the default size if that is 0, and with the order given, if `malloc`
  -- succeeds and returns a block of the size asked for.
  pub init_lem :
      (malloc : Malloc) (items : Items P) (max_size : ℕ) (cmp : P → P → Bool)
      → IsHonest malloc
      → max_size < 2 ^ 31
      → malloc (if max_size == 0 then default_size else max_size) ≢ none
      → let r = init malloc max_size cmp in
        (r.0 ≡ pos 0)
        × IsValid (record { heap = r.1; items = items })
        × (r.1.max_size ≡ (if max_size == 0 then default_size else max_size))
        × (r.1.size ≡ 0)
        × (r.1.cmp ≡ cmp)
  unfolding init
  init_lem malloc items max_size cmp honest small got =
      let n = if max_size == 0 then default_size else max_size in
      elim (Option-cases (malloc n)) [
        | inl e ↦ absurd (got e)
        | inr (block, e) ↦
            rw (e, init)
              (
                refl,
                record {
                  room = omega arith;
                  whole = honest n block e;
                  small = ground arith;
                  distinct = λ i j hi. absurd (omega arith);
                  active = λ i hi. absurd (omega arith);
                },
                refl,
                refl,
                refl,
              )
      ]
