-- ===== src/RbTree/Turn.antt =====
-- The four rotations of src/rbtree.c.
use libckit.Common.{ℕ, none, some}
use libckit.Common.Run.{Run, ok, or_fault, ◌>>=◌}
use libckit.RbTree.State.{World, set_left, set_right, set_parent}

-- what the rotations to the right do below the parent, and those to the left
unfoldable pub turn_right : ℕ → ℕ → ℕ → World → World
turn_right node child parent w =
    let w1 = set_parent child (some parent) w in
    let w2 = set_parent node (some child) w1 in
    let w3 = set_left node (w2.nodes child).right w2 in set_right child (some node) w3

unfoldable pub turn_left : ℕ → ℕ → ℕ → World → World
turn_left node child parent w =
    let w1 = set_parent child (some parent) w in
    let w2 = set_parent node (some child) w1 in
    let w3 = set_right node (w2.nodes child).left w2 in set_left child (some node) w3

unfoldable pub rotate_right_side_right : ℕ → World → Run World
rotate_right_side_right node w = elim (w.nodes node).left [
  | none ↦ ok w
  | some child ↦ do
    parent ← or_fault (w.nodes node).parent
    ok (turn_right node child parent (set_right parent (some child) w))
]

unfoldable pub rotate_left_side_right : ℕ → World → Run World
rotate_left_side_right node w = elim (w.nodes node).left [
  | none ↦ ok w
  | some child ↦ do
    parent ← or_fault (w.nodes node).parent
    ok (turn_right node child parent (set_left parent (some child) w))
]

unfoldable pub rotate_right_side_left : ℕ → World → Run World
rotate_right_side_left node w = elim (w.nodes node).right [
  | none ↦ ok w
  | some child ↦ do
    parent ← or_fault (w.nodes node).parent
    ok (turn_left node child parent (set_right parent (some child) w))
]

unfoldable pub rotate_left_side_left : ℕ → World → Run World
rotate_left_side_left node w = elim (w.nodes node).right [
  | none ↦ ok w
  | some child ↦ do
    parent ← or_fault (w.nodes node).parent
    ok (turn_left node child parent (set_left parent (some child) w))
]
