-- ===== src/HashTable/Drain.antt =====
-- The inner loop of hashtable_fini, over one slot.
use libckit.Common.{
  ℕ, zero, suc, ◌<◌, ◌≡◌, ◌≢◌, refl, ◌∙◌, List, [], ◌∷◌, ◌++◌, Bool, true, false, ◌&&◌, arith, ◌==◌,
  if◌then◌else◌, length,
}
use libckit.Common.Run.{ok}
use libckit.Atomic.{dec_and_test}
use libckit.NodeList
use libckit.NodeList.{Nodes}
use libckit.NodeList.Ring.{Linked, IsRing}
use libckit.NodeList.Del.{del-IsRing, del-other}
use libckit.NodeList.Move.{AreApart, before-apart_from, after-apart_from}
use libckit.HashTable.{drain}
use libckit.HashTable.State.{Elem, World, head, write_elem}
use libckit.HashTable.Remove.{put-ok}

-- the nodes once those of a list are taken out, one after the other
abbrev pub dels : List ℕ → Nodes → Nodes
dels [] s = s
dels (he ∷ row) s = dels row (NodeList.del he s)

pub dels-IsRing : (a : ℕ) (row : List ℕ) (s : Nodes) → IsRing s a row → IsRing (dels row s) a []
dels-IsRing a [] s ring = ring
dels-IsRing a (he ∷ row) s ring =
    dels-IsRing a row (NodeList.del he s) (del-IsRing s he a [] row ring).0

pub dels-other :
    (a : ℕ) (row : List ℕ) (s : Nodes) (b : ℕ) (ys : List ℕ)
    → IsRing s a row
    → AreApart (a ∷ row) (b ∷ ys)
    → IsRing s b ys
    → IsRing (dels row s) b ys
dels-other a [] s b ys ring apart other = other
dels-other a (he ∷ row) s b ys ring apart other =
    let us = b ∷ ys in
    dels-other a row (NodeList.del he s) b ys (del-IsRing s he a [] row ring).0 (apart.0, apart.1.1)
      (del-other s he b ys (before-apart_from s he a a [] row us apart ring.linked)
        (after-apart_from s he a a [] row us apart.0 apart.1 ring.linked) apart.1.0 other)

module _ {K O : Type 0} where
  -- the elements, and those that `freefn` was called with
  abbrev pub refs : World K O → (ℕ → Elem K O) × List ℕ
  refs w = (w.elems, w.freed)

  -- One reference to an element is given back, and if it was the last, `freefn` is called.
  abbrev pub drop_ref : Bool → ℕ → (ℕ → Elem K O) × List ℕ → (ℕ → Elem K O) × List ℕ
  drop_ref freefn he r =
      let elem = r.0 he in
      let (last, count) = dec_and_test elem.refcount in
      (
        λ p. if he == p then record elem { refcount = count } else r.0 p,
        if last && freefn then he ∷ r.1 else r.1,
      )

  abbrev pub drop_refs : Bool → List ℕ → (ℕ → Elem K O) × List ℕ → (ℕ → Elem K O) × List ℕ
  drop_refs freefn [] r = r
  drop_refs freefn (he ∷ row) r = drop_refs freefn row (drop_ref freefn he r)

  pub drop_refs-append :
      (freefn : Bool) (xs ys : List ℕ) (r : (ℕ → Elem K O) × List ℕ)
      → drop_refs freefn (xs ++ ys) r ≡ drop_refs freefn ys (drop_refs freefn xs r)
  drop_refs-append freefn [] ys r = refl
  drop_refs-append freefn (x ∷ xs) ys r = drop_refs-append freefn xs ys (drop_ref freefn x r)

  -- The elements of a row have their pointers to the table.
  abbrev pub AreSet : (ℕ → Elem K O) → List ℕ → Type 0
  AreSet elems [] = Unit {0}
  AreSet elems (he ∷ row) = ((elems he).ht ≡ true) × AreSet elems row

  pub AreSet-ext :
      (elems elems' : ℕ → Elem K O) (row : List ℕ)
      → ((p : ℕ) → (elems' p).ht ≡ (elems p).ht)
      → AreSet elems row
      → AreSet elems' row
  AreSet-ext elems elems' [] same set = tt
  AreSet-ext elems elems' (he ∷ row) same (set, sets) =
      (same he ∙ set, AreSet-ext elems elems' row same sets)

  pub drop_refs-ht :
      (freefn : Bool) (row : List ℕ) (r : (ℕ → Elem K O) × List ℕ) (p : ℕ)
      → ((drop_refs freefn row r).0 p).ht ≡ (r.0 p).ht
  drop_refs-ht freefn [] r p = refl
  drop_refs-ht freefn (he ∷ row) r p =
      drop_refs-ht freefn row (drop_ref freefn he r) p ∙ ground arith

  -- the world after the loop over a slot
  abbrev pub drained : List ℕ → World K O → World K O
  drained row w =
      let r = drop_refs w.ht.freefn row (refs w) in
      record w { nodes = dels row w.nodes; elems = r.0; freed = r.1 }

  drain-end :
      (k i : ℕ) (w : World K O) → (w.nodes (head w i)).next ≡ head w i → drain (suc k) i w ≡ ok w
  unfolding drain
  drain-end k i w e =
      let none_left : ((w.nodes (head w i)).next == head w i) ≡ true = ground arith in
      rw (drain, none_left) refl

  drain-next :
      (k i he : ℕ) (w : World K O)
      → (w.nodes (head w i)).next ≡ he
      → head w i ≢ he
      → (w.elems he).ht ≡ true
      → drain (suc k) i w ≡ drain k i (drained (he ∷ []) w)
  unfolding drain write_elem
  drain-next k i he w e apart set =
      let more : ((w.nodes (head w i)).next == head w i) ≡ false = ground arith in
      let w1 : World K O = record w { nodes = NodeList.del he w.nodes } in
      rw (drain, more, e, put-ok he w1 set) refl

  pub drain_lem :
      (k i : ℕ) (w : World K O) (row : List ℕ)
      → IsRing w.nodes (head w i) row
      → AreSet w.elems row
      → length row < k
      → drain k i w ≡ ok (drained row w)
  unfolding Linked
  drain_lem zero i w row ring sets fuel = absurd (omega arith)
  drain_lem (suc k) i w [] ring sets fuel = drain-end k i w ring.linked.0
  drain_lem (suc k) i w (he ∷ row) ring (set, sets) fuel =
      let w' = drained (he ∷ []) w in
      drain-next k i he w ring.linked.0 ring.distinct.0.0 set
      ∙ drain_lem k i w' row (del-IsRing w.nodes he (head w i) [] row ring).0
          (AreSet-ext w.elems w'.elems row (λ p. ground arith) sets) (omega arith)
