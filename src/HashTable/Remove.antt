-- ===== src/HashTable/Remove.antt =====
-- hashelm_put and hashtable_unhash
use libckit.Common.{
  ℕ, ◌+◌, ◌≤◌, ◌<◌, ◌^◌, ◌≡◌, ◌≢◌, refl, subst, ◌∙◌, ap, List, [], ◌∷◌, ◌++◌, true, ◌&&◌, arith,
  if◌then◌else◌, length, length-append, Bool-cases, inl, inr,
}
use libckit.Common.Int.{pos}
use libckit.Common.Word.{sub64}
use libckit.Common.Run.{ok, Returns, returns}
use libckit.Atomic.{dec, dec_and_test}
use libckit.NodeList
use libckit.NodeList.Ring.{IsRing}
use libckit.NodeList.Del.{del-IsRing, del-other}
use libckit.NodeList.Move.{AreApart, AreApart-middle, before-apart_from, after-apart_from}
use libckit.HashTable.{put, release, remove, unhash}
use libckit.HashTable.State.{free, writing, World, head, write_slot, write_elem, set_lock}
use libckit.HashTable.Valid.{
  Rows, set_row, total, total-set_row, Holds, AreMembers, IsMember, wrlock-ok, unlock-writing,
}
use libckit.HashTable.Row.{AreMembers-ext, row-Holds}
use libckit.HashTable.Insert.{length-le-total}

dec_pos : (n : ℕ) → dec (pos (n + 1)) ≡ pos n
unfolding dec
dec_pos n = ground arith

module _ {K O : Type 0} where
  -- the world after hashelm_put of an element that has its pointer to the table
  abbrev pub after_put : ℕ → World K O → World K O
  after_put he w =
      let elem = w.elems he in
      let (last, count) = dec_and_test elem.refcount in
      let w' = write_elem he (record elem { refcount = count }) w in
      record w' { freed = if last && w.ht.freefn then he ∷ w.freed else w.freed }

  pub put-ok : (he : ℕ) (w : World K O) → (w.elems he).ht ≡ true → put he w ≡ ok (after_put he w)
  unfolding put release write_elem
  put-ok he w set =
      let elem = w.elems he in
      let here : ((write_elem he (record elem { refcount = (dec_and_test elem.refcount).1 })
              w).elems
            he).ht
          ≡ true =
        ground arith in
      elim (Bool-cases (dec_and_test elem.refcount).0) [
        | inl last ↦ elim (Bool-cases w.ht.freefn) [
          | inl calls ↦ rw (last, here, calls) refl
          | inr silent ↦ rw (last, here, silent) refl
        ]
        | inr held ↦ rw held refl
      ]

  IsMember-middle :
      (w : World K O) (i he : ℕ) (xs ys : List ℕ)
      → AreMembers w i (xs ++ he ∷ ys)
      → IsMember w i he × AreMembers w i (xs ++ ys)
  IsMember-middle w i he [] ys (m, ms) = (m, ms)
  IsMember-middle w i he (x ∷ xs) ys (m, ms) =
      let (here, rest) = IsMember-middle w i he xs ys ms in (here, (m, rest))

  module _ (w : World K O) (rows : Rows) (i he : ℕ) (xs ys : List ℕ) (h : Holds w rows)
      (hi : i ≤ w.ht.mask) (at : rows i ≡ xs ++ he ∷ ys)
      (small : total rows (w.ht.mask + 1) + 2 < 2 ^ 31) where
    IsRing-at : IsRing w.nodes (head w i) (xs ++ he ∷ ys)
    IsRing-at = rw at at (h.ring i hi)

    apart_at :
        (j : ℕ) → j ≤ w.ht.mask → i ≢ j → AreApart (head w i ∷ xs ++ he ∷ ys) (head w j ∷ rows j)
    apart_at j hj ne =
        subst (λ (row : List ℕ). AreApart (head w i ∷ row) (head w j ∷ rows j)) at
          (h.apart i j hi hj ne)

    members_at : IsMember w i he × AreMembers w i (xs ++ ys)
    members_at =
        IsMember-middle w i he xs ys
          (subst (λ (row : List ℕ). AreMembers w i row) at (h.members i hi))

    other_rings :
        (j : ℕ) → j ≤ w.ht.mask → i ≢ j → IsRing (NodeList.del he w.nodes) (head w j) (rows j)
    other_rings j hj ne =
        let apart = apart_at j hj ne in
        let us = head w j ∷ rows j in
        del-other w.nodes he (head w j) (rows j)
          (before-apart_from w.nodes he (head w i) (head w i) xs ys us apart IsRing-at.linked)
          (after-apart_from w.nodes he (head w i) (head w i) xs ys us apart.0 apart.1
            IsRing-at.linked)
          (AreApart-middle he (head w i ∷ xs) ys us apart).0 (h.ring j hj)

    shorter : length (rows i) ≡ length (xs ++ ys) + 1
    shorter =
        let long = ap (λ (row : List ℕ). length row) at in
        omega (arith, length-append xs (he ∷ ys), length-append xs ys)

    count_lem : dec w.ht.count ≡ pos (1 + total (set_row rows i (xs ++ ys)) (w.ht.mask + 1))
    count_lem =
        let less = total (set_row rows i (xs ++ ys)) (w.ht.mask + 1) in
        let sum = total-set_row rows i (xs ++ ys) (w.ht.mask + 1) (omega arith) in
        let one_less : 1 + total rows (w.ht.mask + 1) ≡ 1 + less + 1 = omega (arith, shorter) in
        ap dec h.all ∙ ap (λ (n : ℕ). dec (pos n)) one_less ∙ dec_pos (1 + less)

    -- hashtable_unhash of an element of a valid table with fewer than `2 ^ 31 - 2` elements takes
    -- it out of its slot, gives its reference back, and calls `freefn`, if there is one, if that
    -- was the last reference. The table stays valid, and the element is in no list.
    pub unhash_lem :
        Returns
          (λ w'.
            Holds w' (set_row rows i (xs ++ ys))
            × IsRing w'.nodes he []
            × ((w'.elems he).refcount ≡ dec (w.elems he).refcount)
            × (w'.freed ≡ (
                if (dec_and_test (w.elems he).refcount).0 && w.ht.freefn
                then he ∷ w.freed
                else w.freed)))
          (unhash he w)
    unfolding unhash remove write_slot write_elem dec_and_test
    unhash_lem =
        let (member, members) = members_at in
        let w0 = set_lock i writing w in
        let slot = w0.slots i in
        let w1 =
          write_slot i (record slot { count = sub64 slot.count 1 })
            (record w0 {
              nodes = NodeList.del he w.nodes;
              ht = record w.ht { count = dec w.ht.count };
            }) in
        let w2 = after_put he w1 in
        let w3 = set_lock i free w2 in
        let held : (w2.slots i).lock ≡ writing = ground arith in
        let (ring, alone) = del-IsRing w.nodes he (head w i) xs ys IsRing-at in
        let few = length-le-total rows i (w.ht.mask + 1) (omega arith) in
        rw
          (
            member.slot,
            wrlock-ok i w (h.unlocked i hi),
            put-ok he w1 member.ht,
            unlock-writing i w2 held,
          )
          (returns (
            row-Holds w rows i (xs ++ ys) h w3.ht.count w3.slots w3.nodes w3.elems w3.freed ring
                other_rings
                (λ j hj ne.
                  (AreApart-middle he (head w i ∷ xs) ys (head w j ∷ rows j) (apart_at j hj ne)).1)
                (ground (arith, h.counted i hi, few, shorter)) (λ j ne. ground arith)
                (λ j hj. ground (arith, h.unlocked j))
                (AreMembers-ext w w3 i (xs ++ ys) refl refl (λ p. ground arith) (λ p. ground arith)
                  (λ p. ground arith) members)
                (λ j hj ne.
                  AreMembers-ext w w3 j (rows j) refl refl (λ p. ground arith) (λ p. ground arith)
                    (λ p. ground arith) (h.members j hj))
                count_lem,
            alone,
            ground arith,
            refl,
          ))
