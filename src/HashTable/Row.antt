-- ===== src/HashTable/Row.antt =====
-- The invariant after the row of one slot has changed.
use libckit.Common.{
  ℕ, ◌+◌, ◌≤◌, ◌≡◌, ◌≢◌, refl, sym, subst, ◌∙◌, List, [], ◌∷◌, false, arith, ◌==◌, length,
  Bool-cases, inl, inr,
}
use libckit.Common.Int.{ℤ, pos}
use libckit.NodeList.{Nodes}
use libckit.NodeList.Ring.{IsRing, IsFresh}
use libckit.NodeList.Move.{AreApart, AreApart-sym}
use libckit.HashTable.{get_slot}
use libckit.HashTable.State.{free, Slot, Elem, World, head, write_elem}
use libckit.HashTable.Valid.{Rows, set_row, total, Holds, AreMembers}

-- What holds of the new row, and of the old ones elsewhere, holds of each row.
pick :
    (P : ℕ → List ℕ → Type 0) (rows : Rows) (i : ℕ) (row : List ℕ)
    → P i row
    → ((j : ℕ) → i ≢ j → P j (rows j))
    → (j : ℕ) → P j (set_row rows i row j)
pick P rows i row changed_here same j = elim (Bool-cases (i == j)) [
  | inl e ↦
      let at : i ≡ j = ground arith in
      let r : set_row rows i row j ≡ row = rw e refl in
      subst (λ (xs : List ℕ). P j xs) (sym r) (subst (λ (k : ℕ). P k row) at changed_here)
  | inr e ↦
      let r : set_row rows i row j ≡ rows j = rw e refl in
      subst (λ (xs : List ℕ). P j xs) (sym r) (same j (ground arith))
]

module _ {K O : Type 0} where
  pub AreMembers-ext :
      (w w' : World K O) (i : ℕ) (row : List ℕ)
      → w'.ht.mask ≡ w.ht.mask
      → w'.ht.hashfn ≡ w.ht.hashfn
      → ((p : ℕ) → (w'.elems p).hash ≡ (w.elems p).hash)
      → ((p : ℕ) → (w'.elems p).key ≡ (w.elems p).key)
      → ((p : ℕ) → (w'.elems p).ht ≡ (w.elems p).ht)
      → AreMembers w i row
      → AreMembers w' i row
  unfolding get_slot
  AreMembers-ext w w' i [] mask hashfn hash key ht m = tt
  AreMembers-ext w w' i (he ∷ row) mask hashfn hash key ht (m, ms) = (
    record {
      slot = rw (mask, hash he) m.slot;
      hash = rw (hashfn, hash he, key he) m.hash;
      ht = rw (ht he) m.ht;
    },
    AreMembers-ext w w' i row mask hashfn hash key ht ms,
  )

  AreMembers-write :
      (w : World K O) (he : ℕ) (elem : Elem K O) (i : ℕ) (row : List ℕ)
      → IsFresh he row
      → AreMembers w i row
      → AreMembers (write_elem he elem w) i row
  unfolding write_elem
  AreMembers-write w he elem i [] fresh m = tt
  AreMembers-write w he elem i (p ∷ row) (apart, fresh) (m, ms) =
      let other : (he == p) ≡ false = ground arith in
      (
        record { slot = rw other m.slot; hash = rw other m.hash; ht = rw other m.ht },
        AreMembers-write w he elem i row fresh ms,
      )

  -- A table stays valid if an element is written that is in no slot.
  pub write_elem-Holds :
      (w : World K O) (rows : Rows) (he : ℕ) (elem : Elem K O)
      → Holds w rows
      → ((i : ℕ) → i ≤ w.ht.mask → IsFresh he (rows i))
      → Holds (write_elem he elem w) rows
  unfolding write_elem
  write_elem-Holds w rows he elem h fresh = record {
    ring = h.ring;
    apart = h.apart;
    counted = h.counted;
    unlocked = h.unlocked;
    members = λ i hi. AreMembers-write w he elem i (rows i) (fresh i hi) (h.members i hi);
    all = h.all;
  }

  module _ (w : World K O) (rows : Rows) (i : ℕ) (row : List ℕ) (h : Holds w rows) (c : ℤ)
      (slots' : ℕ → Slot) (nodes' : Nodes) (elems' : ℕ → Elem K O) (freed' : List ℕ) where
    abbrev pub changed : World K O
    changed = record {
      ht = record w.ht { count = c };
      slots = slots';
      nodes = nodes';
      elems = elems';
      freed = freed';
    }

    pub row-Holds :
        IsRing nodes' (head w i) row
        → ((j : ℕ) → j ≤ w.ht.mask → i ≢ j → IsRing nodes' (head w j) (rows j))
        → ((j : ℕ) → j ≤ w.ht.mask → i ≢ j → AreApart (head w i ∷ row) (head w j ∷ rows j))
        → (slots' i).count ≡ length row
        → ((j : ℕ) → i ≢ j → (slots' j).count ≡ (w.slots j).count)
        → ((j : ℕ) → j ≤ w.ht.mask → (slots' j).lock ≡ free)
        → AreMembers changed i row
        → ((j : ℕ) → j ≤ w.ht.mask → i ≢ j → AreMembers changed j (rows j))
        → c ≡ pos (1 + total (set_row rows i row) (w.ht.mask + 1))
        → Holds changed (set_row rows i row)
    row-Holds ring rings apart count counts locks members others all = record {
      ring =
          pick (λ j xs. j ≤ w.ht.mask → IsRing nodes' (head w j) xs) rows i row (λ hi. ring)
            (λ j ne hj. rings j hj ne);
      apart = λ j k hj hk ne.
          pick
            (λ j xs.
              j ≤ w.ht.mask → j ≢ k → AreApart (head w j ∷ xs) (head w k ∷ set_row rows i row k))
            rows i row
            (λ hi ne_k.
              pick (λ k xs. k ≤ w.ht.mask → i ≢ k → AreApart (head w i ∷ row) (head w k ∷ xs)) rows
                i row (λ hk same. absurd (same refl)) (λ k ne hk ne_k. apart k hk ne_k) k hk ne_k)
            (λ j ne_j hj ne_k.
              pick (λ k xs. k ≤ w.ht.mask → j ≢ k → AreApart (head w j ∷ rows j) (head w k ∷ xs))
                rows i row
                (λ hi ne. AreApart-sym (head w j ∷ rows j) (head w i ∷ row) (apart j hj ne_j))
                (λ k ne hk ne_k. h.apart j k hj hk ne_k) k hk ne_k)
            j hj ne;
      counted =
          pick (λ j xs. j ≤ w.ht.mask → (slots' j).count ≡ length xs) rows i row (λ hi. count)
            (λ j ne hj. counts j ne ∙ h.counted j hj);
      unlocked = locks;
      members =
          pick (λ j xs. j ≤ w.ht.mask → AreMembers changed j xs) rows i row (λ hi. members)
            (λ j ne hj. others j hj ne);
      all = all;
    }
