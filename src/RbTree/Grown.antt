-- ===== src/RbTree/Grown.antt =====
-- A tree with one node more, from the subtree that the node is put into.
use libckit.Common.{ℕ, ◌≡◌, ◌≢◌, refl, ap, sym, Bool, true, false, Option, none, some, arith}
use libckit.Common.Int.{pos, ltb_ℤ}
use libckit.RbTree.State.{Color, red, RbKey, RbValue, RbNode, World, set_node, set_left, set_right}
use libckit.RbTree.Shape.{
  Shape, leaf, fork, All-map, IsOutside, AreSeparate, HasTree, HasTree-same, grow,
}

-- what a node holds beside its pointers
abbrev pub payload : RbNode → Color × RbKey × RbValue
payload node = (node.color, node.key, node.val)

-- whether the key belongs to the left of a node
abbrev pub goes_left : World → RbKey → ℕ → Bool
goes_left w key n = ltb_ℤ (w.ops.key_compare key (w.nodes n).key) (pos 0)

-- The tree at a pointer has the new node; nothing else has changed but the pointer to it.
pub record Grown (w w' : World) (new : ℕ) (key : RbKey) (val : RbValue) (parent : Option ℕ)
    (ptr : Option ℕ) (t : Shape) : Type 0 where
  pub ops : w'.ops ≡ w.ops
  pub root : w'.root ≡ w.root
  pub freed : w'.freed ≡ w.freed
  pub tree : HasTree w'.nodes parent ptr (grow (goes_left w key) new t)
  pub frame : (p : ℕ) → IsOutside p t → p ≢ new → w'.nodes p ≡ w.nodes p
  pub kept : (p : ℕ) → p ≢ new → payload (w'.nodes p) ≡ payload (w.nodes p)
  pub fresh : payload (w'.nodes new) ≡ (red, key, val)

module _ (w : World) (new : ℕ) (key : RbKey) (val : RbValue) where
  -- the new node below `n`
  abbrev pub newborn : ℕ → RbNode
  newborn n = record {
    color = red;
    left = none;
    right = none;
    parent = some n;
    key = key;
    val = val;
  }

  abbrev pub added : ℕ → World
  added n = set_node new (newborn n) w

  module _ (l : Shape) (n : ℕ) (r : Shape) (parent : Option ℕ)
      (tree : HasTree w.nodes parent (some n) (fork l n r)) (apart : AreSeparate (fork l n r))
      (outside : IsOutside new (fork l n r)) where
    not_new : n ≢ new
    not_new c = outside.1 (sym c)

    pub end_left :
        l ≡ leaf
        → goes_left w key n ≡ true
        → Grown w (set_left n (some new) (added n)) new key val parent (some n) (fork l n r)
    unfolding set_node
    end_left e test =
        let w' = set_left n (some new) (added n) in
        let at : w'.nodes n ≡ record (w.nodes n) { left = some new } = ground (arith, not_new) in
        let at_new : w'.nodes new ≡ newborn n = ground (arith, not_new) in
        let other : (p : ℕ) → p ≢ n → p ≢ new → w'.nodes p ≡ w.nodes p =
          λ p p_n p_new. ground arith in
        record {
          ops = refl;
          root = refl;
          freed = refl;
          tree =
              rw (test, e)
                (
                  refl,
                  rw at tree.1,
                  (
                    ap (λ (node : RbNode). node.left) at,
                    ap (λ (node : RbNode). node.parent) at_new,
                    ap (λ (node : RbNode). node.left) at_new,
                    ap (λ (node : RbNode). node.right) at_new,
                  ),
                  rw at (
                      HasTree-same w.nodes w'.nodes (some n) (w.nodes n).right r
                        (All-map r (λ x n_x new_x. other x (λ c. n_x (sym c)) (λ c. new_x (sym c)))
                          apart.1 outside.2)
                        tree.3),
                );
          frame = λ p out ne. other p out.1 ne;
          kept = λ p ne. ground (arith, ne);
          fresh = ground (arith, not_new);
        }

    pub end_right :
        r ≡ leaf
        → goes_left w key n ≡ false
        → Grown w (set_right n (some new) (added n)) new key val parent (some n) (fork l n r)
    unfolding set_node
    end_right e test =
        let w' = set_right n (some new) (added n) in
        let at : w'.nodes n ≡ record (w.nodes n) { right = some new } = ground (arith, not_new) in
        let at_new : w'.nodes new ≡ newborn n = ground (arith, not_new) in
        let other : (p : ℕ) → p ≢ n → p ≢ new → w'.nodes p ≡ w.nodes p =
          λ p p_n p_new. ground arith in
        record {
          ops = refl;
          root = refl;
          freed = refl;
          tree =
              rw (test, e)
                (
                  refl,
                  rw at tree.1,
                  rw at (
                      HasTree-same w.nodes w'.nodes (some n) (w.nodes n).left l
                        (All-map l (λ x n_x new_x. other x (λ c. n_x (sym c)) (λ c. new_x (sym c)))
                          apart.0 outside.0)
                        tree.2),
                  (
                    ap (λ (node : RbNode). node.right) at,
                    ap (λ (node : RbNode). node.parent) at_new,
                    ap (λ (node : RbNode). node.left) at_new,
                    ap (λ (node : RbNode). node.right) at_new,
                  ),
                );
          frame = λ p out ne. other p out.1 ne;
          kept = λ p ne. ground (arith, ne);
          fresh = ground (arith, not_new);
        }

    pub deep_left :
        (w' : World) (ptr : Option ℕ)
        → ptr ≡ (w.nodes n).left
        → goes_left w key n ≡ true
        → Grown w w' new key val (some n) ptr l
        → Grown w w' new key val parent (some n) (fork l n r)
    deep_left w' ptr e test g = record {
      ops = g.ops;
      root = g.root;
      freed = g.freed;
      tree =
          let at : w'.nodes n ≡ w.nodes n = g.frame n apart.0 not_new in
          rw test (
            refl,
            rw at tree.1,
            rw (at, sym e) g.tree,
            rw at (
                HasTree-same w.nodes w'.nodes (some n) (w.nodes n).right r
                  (All-map r (λ x x_l new_x. g.frame x x_l (λ c. new_x (sym c))) apart.3 outside.2)
                  tree.3),
          );
      frame = λ p out ne. g.frame p out.0 ne;
      kept = g.kept;
      fresh = g.fresh;
    }

    pub deep_right :
        (w' : World) (ptr : Option ℕ)
        → ptr ≡ (w.nodes n).right
        → goes_left w key n ≡ false
        → Grown w w' new key val (some n) ptr r
        → Grown w w' new key val parent (some n) (fork l n r)
    deep_right w' ptr e test g = record {
      ops = g.ops;
      root = g.root;
      freed = g.freed;
      tree =
          let at : w'.nodes n ≡ w.nodes n = g.frame n apart.1 not_new in
          rw test (
            refl,
            rw at tree.1,
            rw at (
                HasTree-same w.nodes w'.nodes (some n) (w.nodes n).left l
                  (All-map l (λ x x_r new_x. g.frame x x_r (λ c. new_x (sym c))) apart.2 outside.0)
                  tree.2),
            rw (at, sym e) g.tree,
          );
      frame = λ p out ne. g.frame p out.2 ne;
      kept = g.kept;
      fresh = g.fresh;
    }
