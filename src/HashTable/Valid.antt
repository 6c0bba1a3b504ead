-- ===== src/HashTable/Valid.antt =====
-- The invariant of the hash table: each slot is a row of elements.
use libckit.Common.{
  ℕ, zero, suc, ◌+◌, ◌≤◌, ◌<◌, ◌≡◌, ◌≢◌, refl, List, [], ◌∷◌, true, arith, ◌==◌, if◌then◌else◌,
  length,
}
use libckit.Common.Int.{pos}
use libckit.Common.Run.{ok}
use libckit.NodeList.Ring.{IsRing}
use libckit.NodeList.Move.{AreApart}
use libckit.HashTable.{get_slot}
use libckit.HashTable.State.{
  free, writing, reading, Slot, Elem, World, head, wrlock, rdlock, unlock, write_slot, write_elem,
  set_lock,
}

-- the elements of each slot, from the front
abbrev pub Rows : Type 0
Rows = ℕ → List ℕ

abbrev pub set_row : Rows → ℕ → List ℕ → Rows
set_row rows i row j = if i == j then row else rows j

-- how many elements are in the first `n` slots
unfoldable pub total : Rows → ℕ → ℕ
total rows zero = 0
total rows (suc n) = total rows n + length (rows n)

pub total-set_row_past :
    (rows : Rows) (i : ℕ) (row : List ℕ) (n : ℕ)
    → n ≤ i
    → total (set_row rows i row) n ≡ total rows n
unfolding total
total-set_row_past rows i row zero past = refl
total-set_row_past rows i row (suc n) past = ground (arith, total-set_row_past rows i row n)

pub total-set_row :
    (rows : Rows) (i : ℕ) (row : List ℕ) (n : ℕ)
    → i < n
    → total (set_row rows i row) n + length (rows i) ≡ total rows n + length row
unfolding total
total-set_row rows i row zero inside = absurd (omega arith)
total-set_row rows i row (suc n) inside =
    ground (arith, total-set_row rows i row n, total-set_row_past rows i row n)

module _ {K O : Type 0} where
  -- An element that was put into slot `i`.
  pub record IsMember (w : World K O) (i : ℕ) (he : ℕ) : Type 0 where
    pub slot : get_slot w.ht (w.elems he).hash ≡ i
    pub hash : (w.elems he).hash ≡ w.ht.hashfn (w.elems he).key
    pub ht : (w.elems he).ht ≡ true

  abbrev pub AreMembers : World K O → ℕ → List ℕ → Type 0
  AreMembers w i [] = Unit {0}
  AreMembers w i (he ∷ row) = IsMember w i he × AreMembers w i row

  -- No lock is held; each slot's list is its row, and its count is the length of it; no element
  -- is in two slots, and each is in the slot of its hash. The table's count is one more than
  -- there are elements.
  pub record Holds (w : World K O) (rows : Rows) : Type 0 where
    pub ring : (i : ℕ) → i ≤ w.ht.mask → IsRing w.nodes (head w i) (rows i)
    pub apart :
        (i j : ℕ)
        → i ≤ w.ht.mask
        → j ≤ w.ht.mask
        → i ≢ j
        → AreApart (head w i ∷ rows i) (head w j ∷ rows j)
    pub counted : (i : ℕ) → i ≤ w.ht.mask → (w.slots i).count ≡ length (rows i)
    pub unlocked : (i : ℕ) → i ≤ w.ht.mask → (w.slots i).lock ≡ free
    pub members : (i : ℕ) → i ≤ w.ht.mask → AreMembers w i (rows i)
    pub all : w.ht.count ≡ pos (1 + total rows (w.ht.mask + 1))

  pub wrlock-ok :
      (i : ℕ) (w : World K O) → (w.slots i).lock ≡ free → wrlock i w ≡ ok (set_lock i writing w)
  unfolding wrlock
  wrlock-ok i w e = rw (e, wrlock) refl

  pub rdlock-ok :
      (i : ℕ) (w : World K O) → (w.slots i).lock ≡ free → rdlock i w ≡ ok (set_lock i (reading 0) w)
  unfolding rdlock
  rdlock-ok i w e = rw (e, rdlock) refl

  pub unlock-writing :
      (i : ℕ) (w : World K O) → (w.slots i).lock ≡ writing → unlock i w ≡ ok (set_lock i free w)
  unfolding unlock
  unlock-writing i w e = rw (e, unlock) refl

  pub unlock-reading :
      (i : ℕ) (w : World K O) → (w.slots i).lock ≡ reading 0 → unlock i w ≡ ok (set_lock i free w)
  unfolding unlock
  unlock-reading i w e = rw (e, unlock) refl

  pub write_slot-slots :
      (i : ℕ) (slot : Slot) (w : World K O) (j : ℕ)
      → (write_slot i slot w).slots j ≡ (if i == j then slot else w.slots j)
  unfolding write_slot
  write_slot-slots i slot w j = refl

  pub write_elem-elems :
      (he : ℕ) (elem : Elem K O) (w : World K O) (p : ℕ)
      → (write_elem he elem w).elems p ≡ (if he == p then elem else w.elems p)
  unfolding write_elem
  write_elem-elems he elem w p = refl
