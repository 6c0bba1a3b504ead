-- ===== src/HashTable/Insert.antt =====
-- hashtable_hash
use libckit.Common.{
  ℕ, zero, suc, ◌+◌, ◌≤◌, ◌<◌, ◌^◌, ◌≡◌, ◌≢◌, refl, sym, ◌∙◌, ap, List, [], ◌∷◌, true, false, none,
  some, arith, ◌==◌, if◌then◌else◌, length, Bool-cases, Option-cases, inl, inr,
}
use libckit.Common.Int.{pos, negsuc}
use libckit.Common.Word.{add64}
use libckit.Common.Run.{Returns, returns, Returns-map}
use libckit.Atomic.{inc}
use libckit.NodeList
use libckit.NodeList.Ring.{Linked, IsRing, IsFresh, add_front-IsRing, add_front-other}
use libckit.NodeList.Move.{AreApart-sym, first-apart}
use libckit.HashTable.{get_slot, hash, hashed, hold, enter, equal}
use libckit.HashTable.State.{free, writing, Elem, World, head, write_slot, write_elem, set_lock}
use libckit.HashTable.Valid.{
  Rows, set_row, total, total-set_row, Holds, IsMember, wrlock-ok, unlock-writing,
}
use libckit.HashTable.Lookup.{first, find_lem, get_slot-le, unlocked-Holds}
use libckit.HashTable.Row.{AreMembers-ext, write_elem-Holds, row-Holds}

pub length-le-total : (rows : Rows) (i n : ℕ) → i < n → length (rows i) ≤ total rows n
unfolding total
length-le-total rows i zero inside = absurd (omega arith)
length-le-total rows i (suc n) inside = elim (Bool-cases (i == n)) [
  | inl e ↦ let at : i ≡ n = ground arith in rw at (omega arith)
  | inr e ↦ let before : i < n = ground arith in omega (arith, length-le-total rows i n before)
]

inc_pos : (n : ℕ) → n + 1 < 2 ^ 31 → inc (pos n) ≡ pos (n + 1)
unfolding inc
inc_pos n small = ground arith

module _ {K O : Type 0} where
  -- The element is in no slot.
  abbrev pub IsOutside : World K O → Rows → ℕ → Type 0
  IsOutside w rows he = (j : ℕ) → j ≤ w.ht.mask → IsFresh he (head w j ∷ rows j)

  module _ (w : World K O) (rows : Rows) (i he : ℕ) (h : Holds w rows) (hi : i ≤ w.ht.mask)
      (outside : IsOutside w rows he) (member : IsMember w i he)
      (small : total rows (w.ht.mask + 1) + 2 < 2 ^ 31) where
    abbrev row : List ℕ
    row = he ∷ rows i

    not_here : he ≢ head w i
    not_here = (outside i hi).0

    linked_in : World K O
    linked_in = record w { nodes = NodeList.add_front (head w i) he w.nodes }

    other_rings :
        (j : ℕ)
        → j ≤ w.ht.mask
        → i ≢ j
        → IsRing (NodeList.add_front (head w i) he w.nodes) (head w j) (rows j)
    other_rings j hj ne =
        let apart = h.apart j i hj hi (λ e. ne (sym e)) in
        let back = AreApart-sym (head w i ∷ rows i) (head w j ∷ rows j) apart in
        add_front-other w.nodes (head w i) he (head w j) (rows j) not_here (outside j hj) back.0
          (first-apart w.nodes (head w i) (rows i) (head w j ∷ rows j) apart (h.ring i hi))
          (h.ring j hj)

    count_lem :
        w.ht.count ≡ pos (1 + total rows (w.ht.mask + 1))
        → inc w.ht.count ≡ pos (1 + total (set_row rows i row) (w.ht.mask + 1))
    count_lem e =
        let sum = total-set_row rows i row (w.ht.mask + 1) (omega arith) in
        rw e (inc_pos (1 + total rows (w.ht.mask + 1)) (omega arith) ∙ ap pos (omega (arith, sum)))

    enter_lem :
        Returns
          (λ r.
            (r.0 ≡ pos 0)
            × Holds r.1 (set_row rows i row)
            × (r.1.freed ≡ w.freed)
            × (r.1.ht ≡ record w.ht { count = r.1.ht.count })
            × ((p : ℕ)
                → r.1.elems p ≡ (
                    if he == p
                    then record (w.elems p) { refcount = inc (w.elems p).refcount }
                    else w.elems p)))
          (enter i he (set_lock i writing w))
    unfolding enter hold write_slot write_elem
    enter_lem =
        let w0 = set_lock i writing w in
        let slot = w0.slots i in
        let w1 = write_slot i (record slot { count = add64 slot.count 1 }) w0 in
        let w2 : World K O = record w1 {
          ht = record w1.ht { count = inc w1.ht.count };
          nodes = NodeList.add_front (head w1 i) he w1.nodes;
        } in
        let w3 = hold he w2 in
        let w4 = set_lock i free w3 in
        let held : (w3.slots i).lock ≡ writing = ground arith in
        let few = length-le-total rows i (w.ht.mask + 1) (omega arith) in
        rw (unlock-writing i w3 held) (
          returns (
            refl,
            row-Holds w rows i row h w4.ht.count w4.slots w4.nodes w4.elems w4.freed
                (add_front-IsRing w.nodes (head w i) he not_here (rows i) (outside i hi).1
                  (h.ring i hi))
                other_rings
                (λ j hj ne. let apart = h.apart i j hi hj ne in (apart.0, (outside j hj, apart.1)))
                (ground (arith, h.counted i hi, few)) (λ j ne. ground arith)
                (λ j hj. ground (arith, h.unlocked j))
                (AreMembers-ext w w4 i row refl refl (λ p. ground arith) (λ p. ground arith)
                  (λ p. ground arith) (member, h.members i hi))
                (λ j hj ne.
                  AreMembers-ext w w4 j (rows j) refl refl (λ p. ground arith) (λ p. ground arith)
                    (λ p. ground arith) (h.members j hj))
                (count_lem h.all),
            refl,
            refl,
            λ p. ground arith,
          ))

  first-write :
      (w : World K O) (he : ℕ) (elem : Elem K O) (key : K) (row : List ℕ)
      → IsFresh he row
      → first (λ p. equal (write_elem he elem w) p key) row ≡ first (λ p. equal w p key) row
  unfolding write_elem
  first-write w he elem key [] fresh = refl
  first-write w he elem key (p ∷ row) (apart, fresh) =
      let other : (he == p) ≡ false = ground arith in
      let ih = first-write w he elem key row fresh in rw (other, ih) refl

  module _ (he : ℕ) (key : K) (w : World K O) (rows : Rows) (h : Holds w rows)
      (alone : IsRing w.nodes he []) (outside : IsOutside w rows he)
      (small : total rows (w.ht.mask + 1) + 2 < 2 ^ 31) where
    abbrev slot_of : ℕ
    slot_of = get_slot w.ht (w.ht.hashfn key)

    abbrev named : Elem K O
    named = record (w.elems he) { hash = w.ht.hashfn key; ht = true; key = key }

    not_hashed : hashed he w ≡ false
    unfolding hashed Linked
    not_hashed = ground (arith, alone.linked)

    named-Holds : Holds (write_elem he named w) rows
    named-Holds = write_elem-Holds w rows he named h (λ j hj. (outside j hj).1)

    named-IsMember : IsMember (write_elem he named w) slot_of he
    unfolding write_elem
    named-IsMember = record { slot = ground arith; hash = ground arith; ht = ground arith }

    -- hashtable_hash of an element that is in no list, into a valid table with fewer than `2 ^ 31 -
    -- 2` elements: if an element in the slot of the key has the key, it returns -1, and the slots
    -- stay as they are. Else it returns 0, the element is in front of that slot, and the table
    -- holds one more reference to it. The table stays valid, and no other element, and nothing of
    -- the table but its count, changes.
    pub hash_lem :
        let found = first (λ p. equal w p key) (rows (get_slot w.ht (w.ht.hashfn key))) in
        Returns
          (λ r.
            (r.0 ≡ (elim found [ none ↦ pos 0 | some p ↦ negsuc 0 ]))
            × Holds r.1 (elim found [
              | none ↦
                  set_row rows
                    (get_slot w.ht (w.ht.hashfn key))
                    (he ∷ rows (get_slot w.ht (w.ht.hashfn key)))
              | some p ↦ rows
            ])
            × (r.1.freed ≡ w.freed)
            × (r.1.ht ≡ record w.ht { count = r.1.ht.count })
            × ((p : ℕ)
                → r.1.elems p ≡ (
                    if he == p
                    then (record (w.elems p) {
                      hash = w.ht.hashfn key;
                      ht = true;
                      key = key;
                      refcount = elim found [
                        | none ↦ inc (w.elems p).refcount
                        | some q ↦ (w.elems p).refcount
                      ];
                    })
                    else w.elems p)))
          (hash he key w)
    unfolding hash write_slot write_elem
    hash_lem =
        let w1 = write_elem he named w in
        let hi = get_slot-le w (w.ht.hashfn key) in
        let w2 = set_lock slot_of writing w1 in
        let c : (w2.slots slot_of).count ≡ length (rows slot_of) =
          ground (arith, h.counted slot_of hi) in
        let search = find_lem w2 slot_of key (rows slot_of) (h.ring slot_of hi) c in
        let same = first-write w he named key (rows slot_of) (outside slot_of hi).1 in
        elim (Option-cases (first (λ p. equal w p key) (rows slot_of))) [
          | inl nothing ↦
              rw (not_hashed, wrlock-ok slot_of w1 (h.unlocked slot_of hi), search, same, nothing)
                (Returns-map
                  (enter_lem w1 rows slot_of he named-Holds hi outside named-IsMember small)
                  λ r (status, holds, freed, same_ht, elems).
                    (status, holds, freed, same_ht, λ p. ground (arith, elems p)))
          | inr (other, e) ↦
              let held : (w2.slots slot_of).lock ≡ writing = ground arith in
              rw
                (
                  not_hashed,
                  wrlock-ok slot_of w1 (h.unlocked slot_of hi),
                  search,
                  same,
                  e,
                  unlock-writing slot_of w2 held,
                )
                (returns (
                  refl,
                  unlocked-Holds w1 w2 rows slot_of writing named-Holds refl refl (λ j. refl)
                      (λ p. refl) (λ p. refl) (λ p. refl),
                  refl,
                  refl,
                  λ p. ground arith,
                ))
        ]
