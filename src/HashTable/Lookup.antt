-- ===== src/HashTable/Lookup.antt =====
-- hashtable_lookup
use libckit.Common.{
  ℕ, zero, suc, ◌+◌, ◌≤◌, ◌<◌, ◌≡◌, ◌≢◌, refl, ap, sym, subst, ◌∙◌, Option-cases, List, [], ◌∷◌,
  Bool, true, false, Option, none, some, arith, ◌==◌, if◌then◌else◌, length, Bool-cases, inl, inr,
}
use libckit.Common.Run.{ok, Returns, returns}
use libckit.Common.Bits.{bit_and-le}
use libckit.Atomic.{inc}
use libckit.NodeList.Ring.{Linked, IsFresh, IsRing}
use libckit.NodeList.Move.{AreApart}
use libckit.HashTable.{get_slot, scan, find, lookup, hold, equal}
use libckit.HashTable.State.{
  Lock, free, reading, Table, World, head, write_slot, write_elem, set_lock,
}
use libckit.HashTable.Valid.{Rows, Holds, AreMembers, rdlock-ok, unlock-reading}

-- the first element of a row that passes a test
abbrev pub first : (ℕ → Bool) → List ℕ → Option ℕ
first test [] = none
first test (he ∷ row) = if test he then some he else first test row

AreApart-heads :
    {a b c d : ℕ} (xs ys : List ℕ)
    → c ≡ a
    → d ≡ b
    → AreApart (a ∷ xs) (b ∷ ys)
    → AreApart (c ∷ xs) (d ∷ ys)
AreApart-heads {a} {b} {c} {d} xs ys p q apart =
    subst (λ (x : ℕ). AreApart (x ∷ xs) (d ∷ ys)) (sym p)
      (subst (λ (y : ℕ). AreApart (a ∷ xs) (y ∷ ys)) (sym q) apart)

module _ {K O : Type 0} where
  scan-end :
      (k : ℕ) (w : World K O) (anchor : ℕ) (key : K) → scan (suc k) w anchor key anchor ≡ ok none
  unfolding scan
  scan-end k w anchor key =
      let there : (anchor == anchor) ≡ true = ground arith in rw (scan, there) refl

  scan-hit :
      (k : ℕ) (w : World K O) (anchor : ℕ) (key : K) (he : ℕ)
      → anchor ≢ he
      → equal w he key ≡ true
      → scan (suc k) w anchor key he ≡ ok (some he)
  unfolding scan
  scan-hit k w anchor key he apart same =
      let more : (he == anchor) ≡ false = ground arith in rw (scan, more, same) refl

  scan-miss :
      (k : ℕ) (w : World K O) (anchor : ℕ) (key : K) (he : ℕ)
      → anchor ≢ he
      → equal w he key ≡ false
      → scan (suc k) w anchor key he ≡ scan k w anchor key (w.nodes he).next
  unfolding scan
  scan-miss k w anchor key he apart other =
      let more : (he == anchor) ≡ false = ground arith in rw (scan, more, other) refl

  scan_lem :
      (k : ℕ) (w : World K O) (anchor : ℕ) (key : K) (a : ℕ) (row : List ℕ)
      → Linked w.nodes a row anchor
      → IsFresh anchor row
      → length row < k
      → scan k w anchor key (w.nodes a).next ≡ ok (first (λ he. equal w he key) row)
  unfolding Linked
  scan_lem zero w anchor key a row linked fresh fuel = absurd (omega arith)
  scan_lem (suc k) w anchor key a [] (n, b) fresh fuel = rw (n, scan-end k w anchor key) refl
  scan_lem (suc k) w anchor key a (he ∷ row) (n, b, rest) (apart, fresh) fuel =
      elim (Bool-cases (equal w he key)) [
        | inl same ↦ rw (n, scan-hit k w anchor key he apart same, same) refl
        | inr other ↦
            rw (n, scan-miss k w anchor key he apart other, other)
              (scan_lem k w anchor key he row rest fresh (omega arith))
      ]

  pub get_slot-le : (w : World K O) (hash : ℕ) → get_slot w.ht hash ≤ w.ht.mask
  unfolding get_slot
  get_slot-le w hash = bit_and-le hash w.ht.mask

  -- The loop over a slot finds the first element that has the key.
  pub find_lem :
      (w : World K O) (i : ℕ) (key : K) (row : List ℕ)
      → IsRing w.nodes (head w i) row
      → (w.slots i).count ≡ length row
      → find w i key ≡ ok (first (λ he. equal w he key) row)
  unfolding find
  find_lem w i key row ring counted =
      scan_lem ((w.slots i).count + 1) w (head w i) key (head w i) row ring.linked ring.distinct.0
        (omega arith)

  -- `w'` differs from `w` at most in the counted references and in locks that were taken and
  -- given back.
  pub record SameTable (w w' : World K O) : Type 0 where
    pub ht : w'.ht ≡ w.ht
    pub nodes : w'.nodes ≡ w.nodes
    pub count : (i : ℕ) → (w'.slots i).count ≡ (w.slots i).count
    pub lock : (i : ℕ) → i ≤ w.ht.mask → (w'.slots i).lock ≡ free
    pub hash : (p : ℕ) → (w'.elems p).hash ≡ (w.elems p).hash
    pub key : (p : ℕ) → (w'.elems p).key ≡ (w.elems p).key
    pub in_table : (p : ℕ) → (w'.elems p).ht ≡ (w.elems p).ht

  AreMembers-same :
      (w w' : World K O) (i : ℕ) (row : List ℕ)
      → SameTable w w'
      → AreMembers w i row
      → AreMembers w' i row
  AreMembers-same w w' i [] s m = tt
  AreMembers-same w w' i (he ∷ row) s (m, ms) = (
    record {
      slot = rw (s.ht, s.hash he) m.slot;
      hash = rw (s.ht, s.hash he, s.key he) m.hash;
      ht = rw (s.in_table he) m.ht;
    },
    AreMembers-same w w' i row s ms,
  )

  pub Holds-same : (w w' : World K O) (rows : Rows) → SameTable w w' → Holds w rows → Holds w' rows
  Holds-same w w' rows s h =
      let at = λ (i : ℕ). ap (λ (t : Table K O). t.table + i) s.ht in
      record {
        ring = λ i hi. rw (s.nodes, at i) (h.ring i (rw s.ht at hi));
        apart = λ i j hi hj ne.
            AreApart-heads (rows i) (rows j) (at i) (at j)
              (h.apart i j (rw s.ht at hi) (rw s.ht at hj) ne);
        counted = λ i hi. s.count i ∙ h.counted i (rw s.ht at hi);
        unlocked = λ i hi. s.lock i (rw s.ht at hi);
        members = λ i hi. AreMembers-same w w' i (rows i) s (h.members i (rw s.ht at hi));
        all = rw s.ht h.all;
      }

  -- A table whose slot `i` was locked is valid again once the lock is given back.
  pub unlocked-Holds :
      (w w1 : World K O) (rows : Rows) (i : ℕ) (lock : Lock)
      → Holds w rows
      → w1.ht ≡ w.ht
      → w1.nodes ≡ w.nodes
      → ((j : ℕ) → w1.slots j ≡ (set_lock i lock w).slots j)
      → ((p : ℕ) → (w1.elems p).hash ≡ (w.elems p).hash)
      → ((p : ℕ) → (w1.elems p).key ≡ (w.elems p).key)
      → ((p : ℕ) → (w1.elems p).ht ≡ (w.elems p).ht)
      → Holds (set_lock i free w1) rows
  unfolding write_slot
  unlocked-Holds w w1 rows i lock h ht nodes slots hash key in_table =
      Holds-same w (set_lock i free w1) rows
        (record {
          ht = ht;
          nodes = nodes;
          count = λ j. ground (arith, slots j, slots i);
          lock = λ j hj. ground (arith, slots j, slots i, h.unlocked j);
          hash = hash;
          key = key;
          in_table = in_table;
        })
        h

  pub lookup_lem :
      (key : K) (w : World K O) (rows : Rows)
      → Holds w rows
      → let found = first (λ he. equal w he key) (rows (get_slot w.ht (w.ht.hashfn key))) in
        Returns
          (λ r.
            (r.0 ≡ found)
            × Holds r.1 rows
            × (r.1.freed ≡ w.freed)
            × ((p : ℕ)
                → r.1.elems p ≡ (elim found [
                  | none ↦ w.elems p
                  | some he ↦
                      if he == p
                      then record (w.elems p) { refcount = inc (w.elems p).refcount }
                      else w.elems p
                ])))
          (lookup key w)
  unfolding lookup hold write_slot write_elem
  lookup_lem key w rows h =
      let i = get_slot w.ht (w.ht.hashfn key) in
      let hi = get_slot-le w (w.ht.hashfn key) in
      let w1 = set_lock i (reading 0) w in
      let c : (w1.slots i).count ≡ length (rows i) = ground (arith, h.counted i) in
      let search = find_lem w1 i key (rows i) (h.ring i hi) c in
      let held : (w1.slots i).lock ≡ reading 0 = ground arith in
      elim (Option-cases (first (λ he. equal w he key) (rows i))) [
        | inl nothing ↦
            rw (rdlock-ok i w (h.unlocked i hi), search, nothing, unlock-reading i w1 held)
              (returns (
                refl,
                unlocked-Holds w w1 rows i (reading 0) h refl refl (λ j. refl) (λ p. refl)
                    (λ p. refl) (λ p. refl),
                refl,
                λ p. refl,
              ))
        | inr (he, e) ↦
            let w2 =
              write_elem he (record (w.elems he) { refcount = inc (w.elems he).refcount }) w1 in
            rw (rdlock-ok i w (h.unlocked i hi), search, e, unlock-reading i w2 held)
              (returns (
                refl,
                unlocked-Holds w w2 rows i (reading 0) h refl refl (λ j. refl) (λ p. ground arith)
                    (λ p. ground arith) (λ p. ground arith),
                refl,
                λ p. ground arith,
              ))
      ]
