-- ===== src/RbTree/Insert.antt =====
-- bst_insert
use libckit.Common.{
  ℕ, zero, suc, ◌+◌, ◌<◌, ◌≡◌, ◌≢◌, refl, sym, true, false, Option, none, some, arith, Bool-cases,
  inl, inr,
}
use libckit.Common.Int.{pos}
use libckit.Common.Run.{ok, Returns, returns, Returns-bind, Returns-map}
use libckit.RbTree.{node_alloc, descend, bst_insert}
use libckit.RbTree.State.{red, RbKey, RbValue, World, set_node, set_left, set_right}
use libckit.RbTree.Shape.{Shape, leaf, fork, node_count, IsOutside, AreSeparate, HasTree, grow}
use libckit.RbTree.Grown.{
  payload, goes_left, Grown, added, end_left, end_right, deep_left, deep_right,
}

module _ (w : World) (new : ℕ) (key : RbKey) (val : RbValue) where
  descend-left-end :
      (k n : ℕ)
      → (w.nodes n).left ≡ none
      → goes_left w key n ≡ true
      → descend (suc k) (some new) key val n w
        ≡ ok (some new, set_left n (some new) (added w new key val n))
  unfolding descend node_alloc
  descend-left-end k n e test = rw (descend, test, e) refl

  descend-left-next :
      (k n m : ℕ)
      → (w.nodes n).left ≡ some m
      → goes_left w key n ≡ true
      → descend (suc k) (some new) key val n w ≡ descend k (some new) key val m w
  unfolding descend
  descend-left-next k n m e test = rw (descend, test, e) refl

  descend-right-end :
      (k n : ℕ)
      → (w.nodes n).right ≡ none
      → goes_left w key n ≡ false
      → descend (suc k) (some new) key val n w
        ≡ ok (some new, set_right n (some new) (added w new key val n))
  unfolding descend node_alloc
  descend-right-end k n e test = rw (descend, test, e) refl

  descend-right-next :
      (k n m : ℕ)
      → (w.nodes n).right ≡ some m
      → goes_left w key n ≡ false
      → descend (suc k) (some new) key val n w ≡ descend k (some new) key val m w
  unfolding descend
  descend-right-next k n m e test = rw (descend, test, e) refl

  abbrev Descends : ℕ → Option ℕ → ℕ → Shape → Type 0
  Descends k parent n t =
      Returns (λ s. (s.0 ≡ some new) × Grown w s.1 new key val parent (some n) t)
        (descend k (some new) key val n w)

  -- what descend_lem shows of all trees that `k` rounds are enough for
  abbrev Shown : ℕ → Type 0
  Shown k =
      (l : Shape) (n : ℕ) (r : Shape) (parent : Option ℕ)
      → HasTree w.nodes parent (some n) (fork l n r)
      → AreSeparate (fork l n r)
      → IsOutside new (fork l n r)
      → node_count l + node_count r < k
      → Descends k parent n (fork l n r)

  left_lem :
      (k : ℕ)
      → Shown k
      → (l : Shape) (n : ℕ) (r : Shape) (parent : Option ℕ)
      → HasTree w.nodes parent (some n) (fork l n r)
      → AreSeparate (fork l n r)
      → IsOutside new (fork l n r)
      → node_count l + node_count r < suc k
      → goes_left w key n ≡ true
      → Descends (suc k) parent n (fork l n r)
  unfolding node_count
  left_lem k again leaf n r parent tree apart out fuel test =
      rw (descend-left-end k n tree.2 test)
        (returns (refl, end_left w new key val leaf n r parent tree apart out refl test))
  left_lem k again (fork a m b) n r parent tree apart out fuel test =
      let (e, up, left, right) = tree.2 in
      rw (descend-left-next k n m e test) (
        Returns-map (again a m b (some n) (refl, up, left, right) apart.4 out.0 (omega arith))
          λ s (new_ptr, g). (
            new_ptr,
            deep_left w new key val (fork a m b) n r parent tree apart out s.1 (some m) (sym e) test
                g,
          ))

  right_lem :
      (k : ℕ)
      → Shown k
      → (l : Shape) (n : ℕ) (r : Shape) (parent : Option ℕ)
      → HasTree w.nodes parent (some n) (fork l n r)
      → AreSeparate (fork l n r)
      → IsOutside new (fork l n r)
      → node_count l + node_count r < suc k
      → goes_left w key n ≡ false
      → Descends (suc k) parent n (fork l n r)
  unfolding node_count
  right_lem k again l n leaf parent tree apart out fuel test =
      rw (descend-right-end k n tree.3 test)
        (returns (refl, end_right w new key val l n leaf parent tree apart out refl test))
  right_lem k again l n (fork a m b) parent tree apart out fuel test =
      let (e, up, left, right) = tree.3 in
      rw (descend-right-next k n m e test) (
        Returns-map (again a m b (some n) (refl, up, left, right) apart.5 out.2 (omega arith))
          λ s (new_ptr, g). (
            new_ptr,
            deep_right w new key val l n (fork a m b) parent tree apart out s.1 (some m) (sym e)
                test g,
          ))

  descend_lem : (k : ℕ) → Shown k
  descend_lem zero l n r parent tree apart out fuel = absurd (omega arith)
  descend_lem (suc k) l n r parent tree apart out fuel = elim (Bool-cases (goes_left w key n)) [
    | inl test ↦ left_lem k (descend_lem k) l n r parent tree apart out fuel test
    | inr test ↦ right_lem k (descend_lem k) l n r parent tree apart out fuel test
  ]

-- bst_insert into a tree whose nodes are separate, of a block of memory that is not one of them,
-- with more rounds than the tree has nodes, returns 1 with the new node: it is a red leaf with the
-- key and the value, in the place that the comparisons of the key on the way from the root say.
-- This is so also if a node has an equal key, for which the source's comment says that 0 is
-- returned: the way goes on to the right of that node. The pointers to parents stay right, and no
-- other node but its parent has changed, nor the colour, the key or the value of any.
pub bst_insert_lem :
    (k new : ℕ) (key : RbKey) (val : RbValue) (w : World) (t : Shape)
    → HasTree w.nodes none w.root t
    → AreSeparate t
    → IsOutside new t
    → node_count t < k
    → Returns
        (λ s.
          (s.0 ≡ pos 1)
          × (s.1 ≡ some new)
          × HasTree s.2.nodes none s.2.root (grow (goes_left w key) new t)
          × ((p : ℕ) → IsOutside p t → p ≢ new → s.2.nodes p ≡ w.nodes p)
          × ((p : ℕ) → p ≢ new → payload (s.2.nodes p) ≡ payload (w.nodes p))
          × (payload (s.2.nodes new) ≡ (red, key, val)))
        (bst_insert k (some new) key val w)
unfolding bst_insert node_alloc set_node node_count
bst_insert_lem k new key val w leaf tree apart out fuel =
    rw (bst_insert, tree)
      (returns (
        refl,
        refl,
        (refl, ground arith, ground arith, ground arith),
        λ p out ne. ground arith,
        λ p ne. ground arith,
        ground arith,
      ))
bst_insert_lem k new key val w (fork l n r) (e, up, left, right) apart out fuel =
    rw (bst_insert, e)
      (Returns-bind
        (descend_lem w new key val k l n r none (refl, up, left, right) apart out (omega arith))
        λ s (ptr, g).
          rw ptr (returns (refl, refl, rw (g.root, e) g.tree, g.frame, g.kept, g.fresh)))
