-- ===== src/HashTable/Fini.antt =====
-- hashtable_fini
use libckit.Common.{
  ℕ, zero, suc, ◌+◌, ◌≤◌, ◌<◌, ◌≡◌, ◌≢◌, refl, ap, sym, subst, ◌∙◌, fun_ext, List, [], ◌∷◌, arith,
  ◌==◌, if◌then◌else◌, length, Bool-cases, inl, inr,
}
use libckit.Common.Int.{pos}
use libckit.Common.Run.{Returns, returns, Returns-bind, Returns-map}
use libckit.NodeList
use libckit.NodeList.{Nodes, Node}
use libckit.NodeList.Ring.{Linked, IsRing, init-fields}
use libckit.NodeList.Move.{AreApart}
use libckit.HashTable.{drain_slots, fini}
use libckit.HashTable.State.{free, writing, Slot, Table, World, head, write_slot, set_lock}
use libckit.HashTable.Valid.{Rows, Holds, AreMembers, wrlock-ok, unlock-writing}
use libckit.HashTable.Foreach.{every}
use libckit.HashTable.Drain.{
  dels, dels-IsRing, dels-other, refs, drop_refs, drop_refs-append, drop_refs-ht, AreSet,
  AreSet-ext, drained, drain_lem,
}

Node-eq : (x y : Node) → x.next ≡ y.next → x.prev ≡ y.prev → x ≡ y
Node-eq x y n p = λ i. record { next = n i; prev = p i }

-- INIT_LIST of an empty list changes nothing.
init-empty : (a : ℕ) (s : Nodes) → IsRing s a [] → NodeList.init a s ≡ s
unfolding Linked
init-empty a s ring = fun_ext λ q.
    let f = init-fields s a q in
    Node-eq (NodeList.init a s q) (s q) (f.0 ∙ grind (arith, ring.linked.0))
      (f.1 ∙ grind (arith, ring.linked.1))

AreApart-anchor : (u : ℕ) (us zs : List ℕ) → AreApart zs (u ∷ us) → AreApart zs (u ∷ [])
AreApart-anchor u us [] apart = tt
AreApart-anchor u us (z ∷ zs) ((z_u, z_us), apart) = ((z_u, tt), AreApart-anchor u us zs apart)

module _ {K O : Type 0} where
  AreMembers-AreSet :
      (w : World K O) (i : ℕ) (row : List ℕ) → AreMembers w i row → AreSet w.elems row
  AreMembers-AreSet w i [] m = tt
  AreMembers-AreSet w i (he ∷ row) (m, ms) = (m.ht, AreMembers-AreSet w i row ms)

  -- A slot with no elements, that no thread has locked.
  pub record IsEmptied (w : World K O) (i : ℕ) : Type 0 where
    pub ring : IsRing w.nodes (head w i) []
    pub slot : w.slots i ≡ record { count = 0; lock = free }

  -- A slot that still has its row.
  record IsFull (w : World K O) (rows : Rows) (i : ℕ) : Type 0 where
    ring : IsRing w.nodes (head w i) (rows i)
    counted : (w.slots i).count ≡ length (rows i)
    unlocked : (w.slots i).lock ≡ free
    set : AreSet w.elems (rows i)

  -- the world after a round of hashtable_fini
  abbrev emptied : Rows → ℕ → World K O → World K O
  emptied rows i w =
      let w1 = drained (rows i) (set_lock i writing w) in
      set_lock i free (
        write_slot i (record (w1.slots i) { count = 0 })
          (record w1 { nodes = NodeList.init (head w1 i) w1.nodes }))

  module _ (rows : Rows) (w : World K O) (i : ℕ) (here : IsFull w rows i) where
    emptied-slots :
        (j : ℕ)
        → (emptied rows i w).slots j
          ≡ (if i == j then record { count = 0; lock = free } else w.slots j)
    unfolding write_slot
    emptied-slots j = ground arith

    emptied-nodes : (emptied rows i w).nodes ≡ dels (rows i) w.nodes
    unfolding write_slot
    emptied-nodes =
        init-empty (head w i) (dels (rows i) w.nodes)
          (dels-IsRing (head w i) (rows i) w.nodes here.ring)

    emptied-IsEmptied : IsEmptied (emptied rows i w) i
    unfolding write_slot
    emptied-IsEmptied = record {
      ring = rw emptied-nodes (dels-IsRing (head w i) (rows i) w.nodes here.ring);
      slot = ground arith;
    }

    emptied-done :
        (j : ℕ)
        → i ≢ j
        → AreApart (head w i ∷ rows i) (head w j ∷ rows j)
        → IsEmptied w j
        → IsEmptied (emptied rows i w) j
    unfolding write_slot
    emptied-done j ne apart done = record {
      ring = rw emptied-nodes (
          dels-other (head w i) (rows i) w.nodes (head w j) [] here.ring
            (AreApart-anchor (head w j) (rows j) (head w i ∷ rows i) apart) done.ring);
      slot = emptied-slots j ∙ ground (arith, done.slot);
    }

    emptied-IsFull :
        (j : ℕ)
        → i ≢ j
        → AreApart (head w i ∷ rows i) (head w j ∷ rows j)
        → IsFull w rows j
        → IsFull (emptied rows i w) rows j
    unfolding write_slot
    emptied-IsFull j ne apart full = record {
      ring =
          rw emptied-nodes
            (dels-other (head w i) (rows i) w.nodes (head w j) (rows j) here.ring apart full.ring);
      counted = ap (λ (s : Slot). s.count) (emptied-slots j) ∙ ground (arith, full.counted);
      unlocked = ap (λ (s : Slot). s.lock) (emptied-slots j) ∙ ground (arith, full.unlocked);
      set =
          AreSet-ext w.elems (emptied rows i w).elems (rows j)
            (drop_refs-ht w.ht.freefn (rows i) (refs w)) full.set;
    }

  module _ (rows : Rows) where
    drain_slots_lem :
        (r i : ℕ) (w : World K O)
        → ((j k : ℕ)
            → j < i + r
            → k < i + r
            → j ≢ k
            → AreApart (head w j ∷ rows j) (head w k ∷ rows k))
        → ((j : ℕ) → j < i → IsEmptied w j)
        → ((j : ℕ) → i ≤ j → j < i + r → IsFull w rows j)
        → Returns
            (λ w'.
              (w'.ht ≡ w.ht)
              × ((j : ℕ) → j < i + r → IsEmptied w' j)
              × (refs w' ≡ drop_refs w.ht.freefn (every rows i r) (refs w)))
            (drain_slots r i w)
    unfolding drain_slots write_slot
    drain_slots_lem zero i w apart done full = returns (refl, λ j hj. done j (omega arith), refl)
    drain_slots_lem (suc r) i w apart done full =
        let here = full i (omega arith) (omega arith) in
        let w1 = set_lock i writing w in
        let c : (w1.slots i).count ≡ length (rows i) = ground (arith, here.counted) in
        let w2 = drained (rows i) w1 in
        let w5 = emptied rows i w in
        let ring = dels-IsRing (head w i) (rows i) w.nodes here.ring in
        let same = init-empty (head w i) (dels (rows i) w.nodes) ring in
        let emptied =
          drain_lem ((w1.slots i).count + 1) i w1 (rows i) here.ring here.set (omega arith) in
        let w4 : World K O =
          write_slot i (record (w2.slots i) { count = 0 })
            (record w2 { nodes = NodeList.init (head w2 i) w2.nodes }) in
        let held : (w4.slots i).lock ≡ writing = ground arith in
        rw (drain_slots, wrlock-ok i w here.unlocked, emptied, unlock-writing i w4 held)
          (Returns-map
            (drain_slots_lem r (suc i) w5 (λ j k hj hk ne. apart j k (omega arith) (omega arith) ne)
              (λ j hj. elim (Bool-cases (i == j)) [
                | inl e ↦
                    let at : i ≡ j = ground arith in
                    subst (λ k. IsEmptied w5 k) at (emptied-IsEmptied rows w i here)
                | inr e ↦
                    let ne : i ≢ j = ground arith in
                    emptied-done rows w i here j ne (apart i j (omega arith) (omega arith) ne)
                      (done j (omega arith))
              ])
              (λ j low high.
                let ne : i ≢ j = omega arith in
                emptied-IsFull rows w i here j ne (apart i j (omega arith) (omega arith) ne)
                  (full j (omega arith) (omega arith))))
            λ w' (ht, done', refs'). (
              ht,
              λ j hj. done' j (omega arith),
              refs' ∙ sym (drop_refs-append w.ht.freefn (rows i) (every rows (suc i) r) (refs w)),
            ))

  -- hashtable_fini of a valid table returns. Each slot is then empty, with a count of 0 and no lock
  -- held, and the table's count is 0; each element, slot by slot and from the front, has lost one
  -- reference, and `freefn`, if there is one, was called with those that lost their last.
  pub fini_lem :
      (w : World K O) (rows : Rows)
      → Holds w rows
      → Returns
          (λ w'.
            (w'.ht ≡ record w.ht { count = pos 0 })
            × ((i : ℕ) → i ≤ w.ht.mask → IsEmptied w' i)
            × (refs w' ≡ drop_refs w.ht.freefn (every rows 0 (w.ht.mask + 1)) (refs w)))
          (fini w)
  unfolding fini
  fini_lem w rows h =
      Returns-bind
        (drain_slots_lem rows (w.ht.mask + 1) 0 w
          (λ j k hj hk ne. h.apart j k (omega arith) (omega arith) ne)
          (λ j hj. absurd (omega arith))
          (λ j low high.
            let hj : j ≤ w.ht.mask = omega arith in
            record {
              ring = h.ring j hj;
              counted = h.counted j hj;
              unlocked = h.unlocked j hj;
              set = AreMembers-AreSet w j (rows j) (h.members j hj);
            }))
        λ w' (ht, done, refs'). returns (
          ap (λ (t : Table K O). record t { count = pos 0 }) ht,
          λ i hi. let d = done i (omega arith) in record { ring = d.ring; slot = d.slot },
          refs',
        )
