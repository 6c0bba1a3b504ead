-- ===== src/RbTree/Roots.antt =====
-- The last step of rebalancing where the grandparent of the node is the root
use libckit.Common.{
  ℕ, ◌≡◌, ◌≢◌, refl, ap, ◌∙◌, ◌⊎◌, inl, inr, true, false, Option, none, some, arith, ◌==◌,
}
use libckit.Common.Run.{fault}
use libckit.RbTree.{insert_case5, turn_outer, grandparent}
use libckit.RbTree.Turn.{rotate_left_side_right, rotate_right_side_left}
use libckit.RbTree.State.{Color, red, black, World, is, set_node, set_color}

rotate_left_side_right-fault :
    (w : World) (node child : ℕ)
    → (w.nodes node).left ≡ some child
    → (w.nodes node).parent ≡ none
    → rotate_left_side_right node w ≡ fault
unfolding rotate_left_side_right
rotate_left_side_right-fault w node child e p = rw (rotate_left_side_right, e, p) refl

rotate_right_side_left-fault :
    (w : World) (node child : ℕ)
    → (w.nodes node).right ≡ some child
    → (w.nodes node).parent ≡ none
    → rotate_right_side_left node w ≡ fault
unfolding rotate_right_side_left
rotate_right_side_left-fault w node child e p = rw (rotate_right_side_left, e, p) refl

set_color-pointers :
    (w : World) (n p : ℕ) (color : Color)
    → (((set_color n color w).nodes p).left ≡ (w.nodes p).left)
      × (((set_color n color w).nodes p).right ≡ (w.nodes p).right)
      × (((set_color n color w).nodes p).parent ≡ (w.nodes p).parent)
unfolding set_node
set_color-pointers w n p color = (ground arith, ground arith, ground arith)

is-other : (ptr : Option ℕ) (n : ℕ) → ptr ≢ some n → is ptr n ≡ false
is-other none n other = refl
is-other (some m) n other = let apart : m ≢ n = λ e. other (ap some e) in ground arith

-- rb_tree_insert_case5 of a node whose grandparent is the root accesses memory through NULL,
-- whichever outer side of its grandparent the node is on: if it is the left child of the left
-- child, and also if it is not the left child of the right one, whatever the left child of that is.
pub insert_case5_lem :
    (w : World) (node parent g : ℕ)
    → (w.nodes node).parent ≡ some parent
    → (w.nodes parent).parent ≡ some g
    → (w.nodes g).parent ≡ none
    → (((w.nodes parent).left ≡ some node) × ((w.nodes g).left ≡ some parent))
      ⊎ (((w.nodes parent).left ≢ some node) × ((w.nodes g).right ≡ some parent))
    → insert_case5 node w ≡ fault
unfolding insert_case5 turn_outer grandparent
insert_case5_lem w node parent g p gp top sides =
    let w' = set_color parent black w in
    let w1 = set_color g red w' in
    let first = set_color-pointers w' g g red in
    let second = set_color-pointers w parent g black in
    let first_p = set_color-pointers w' g parent red in
    let second_p = set_color-pointers w parent parent black in
    let top1 : (w1.nodes g).parent ≡ none = first.2 ∙ second.2 ∙ top in
    rw (insert_case5, grandparent, p, gp)
      (elim sides [
        | inl (l, gl) ↦
            let left1 : (w1.nodes parent).left ≡ some node = first_p.0 ∙ second_p.0 ∙ l in
            let this : (node == node) ≡ true = ground arith in
            rw (turn_outer, left1, this)
              (rotate_left_side_right-fault w1 g parent (first.0 ∙ second.0 ∙ gl) top1)
        | inr (l, gr) ↦
            let left1 : (w1.nodes parent).left ≡ (w.nodes parent).left = first_p.0 ∙ second_p.0 in
            rw (turn_outer, left1, is-other (w.nodes parent).left node l)
              (rotate_right_side_left-fault w1 g parent (first.1 ∙ second.1 ∙ gr) top1)
      ])
