-- ===== src/Heap/Slots.antt =====
-- Reads and writes of one slot, within the array.
use libckit.Common.{ℕ, ◌+◌, ◌<◌, ◌≡◌, refl, ◌∙◌, arith, ltb, ◌==◌, if◌then◌else◌, length}
use libckit.Common.Run.{ok}
use libckit.Common.Arrays
use libckit.Common.Arrays.{at, set}
use libckit.Heap.{
  Heap, HeapItem, World, load, store, place, set_index, set_active, smaller, exchange, less,
}
use libckit.Heap.Valid.{slot, SameObjects}

module _ {P : Type 0} where
  -- `w` with `p` in slot `i`
  abbrev pub placed : World P → ℕ → ℕ → World P
  placed w i p = record {
    heap = record w.heap { map = set w.heap.map i p };
    items = set_index w.items p i;
  }

  pub load-ok : (h : Heap P) (i : ℕ) → i < length h.map → load h i ≡ ok (at h.map i)
  unfolding load
  load-ok h i p = rw (Arrays.get_elem?-at h.map i p)

  pub store-ok :
      (h : Heap P) (i p : ℕ)
      → i < length h.map
      → store h i p ≡ ok (record h { map = set h.map i p })
  unfolding store
  store-ok h i p l = ground arith

  pub place-ok : (w : World P) (i p : ℕ) → i < length w.heap.map → place w i p ≡ ok (placed w i p)
  unfolding place
  place-ok w i p l = rw (store-ok w.heap i p l)

  pub slot-placed :
      (w : World P) (i p j : ℕ)
      → i < length w.heap.map
      → slot (placed w i p) j ≡ (if i == j then p else slot w j)
  slot-placed w i p j l = Arrays.at-set w.heap.map i p j l

  pub set_index-owner :
      (items : ℕ → HeapItem P) (p i q : ℕ) → (set_index items p i q).owner ≡ (items q).owner
  unfolding set_index
  set_index-owner items p i q = ground arith

  pub set_index-active :
      (items : ℕ → HeapItem P) (p i q : ℕ) → (set_index items p i q).active ≡ (items q).active
  unfolding set_index
  set_index-active items p i q = ground arith

  pub set_index-index :
      (items : ℕ → HeapItem P) (p i q : ℕ)
      → (set_index items p i q).index ≡ (if p == q then i else (items q).index)
  unfolding set_index
  set_index-index items p i q = ground arith

  pub set_active-owner :
      (items : ℕ → HeapItem P) (p a q : ℕ) → (set_active items p a q).owner ≡ (items q).owner
  unfolding set_active
  set_active-owner items p a q = ground arith

  pub set_active-index :
      (items : ℕ → HeapItem P) (p a q : ℕ) → (set_active items p a q).index ≡ (items q).index
  unfolding set_active
  set_active-index items p a q = ground arith

  pub set_active-active :
      (items : ℕ → HeapItem P) (p a q : ℕ)
      → (set_active items p a q).active ≡ (if p == q then a else (items q).active)
  unfolding set_active
  set_active-active items p a q = ground arith

  pub placed-SameObjects : (w : World P) (i p : ℕ) → SameObjects w (placed w i p)
  placed-SameObjects w i p = record {
    size = refl;
    max_size = refl;
    cmp = refl;
    slots = Arrays.length-set w.heap.map i p;
    owner = set_index-owner w.items p i;
    active = set_index-active w.items p i;
  }

  pub SameObjects-refl : (w : World P) → SameObjects w w
  SameObjects-refl w = record {
    size = refl;
    max_size = refl;
    cmp = refl;
    slots = refl;
    owner = λ p. refl;
    active = λ p. refl;
  }

  pub SameObjects-trans : {u v w : World P} → SameObjects u v → SameObjects v w → SameObjects u w
  SameObjects-trans a b = record {
    size = b.size ∙ a.size;
    max_size = b.max_size ∙ a.max_size;
    cmp = b.cmp ∙ a.cmp;
    slots = b.slots ∙ a.slots;
    owner = λ p. b.owner p ∙ a.owner p;
    active = λ p. b.active p ∙ a.active p;
  }

  pub smaller-ok :
      (w : World P) (child i : ℕ)
      → w.heap.size < length w.heap.map + 1
      → i < length w.heap.map
      → smaller w child i
        ≡ ok (
            if ltb child w.heap.size
            then (if less w (slot w child) (slot w i) then child else i)
            else i)
  unfolding smaller
  smaller-ok w child i h hi = ground (arith, load-ok w.heap child, load-ok w.heap i)

  pub exchange-ok :
      (w : World P) (i c : ℕ)
      → i < length w.heap.map
      → c < length w.heap.map
      → exchange w i c ≡ ok (placed (placed w c (slot w i)) i (slot w c))
  unfolding exchange
  exchange-ok w i c hi hc =
      rw (load-ok w.heap c hc, load-ok w.heap i hi, place-ok w c (slot w i) hc)
        (place-ok (placed w c (slot w i)) i (slot w c) (rw (Arrays.length-set) hi))
