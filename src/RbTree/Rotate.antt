-- ===== src/RbTree/Rotate.antt =====
-- The four rotations
use libckit.Common.{ℕ, ◌≡◌, ◌≢◌, refl, ap, sym, ◌∙◌, Option, none, some, arith}
use mathlib.Core.List.{append_assoc}
use libckit.Common.Run.{Returns, returns}
use libckit.RbTree.Turn.{
  turn_right, turn_left, rotate_left_side_right, rotate_right_side_right, rotate_left_side_left,
  rotate_right_side_left,
}
use libckit.RbTree.State.{RbNode, World, set_node, set_left, set_right}
use libckit.RbTree.Shape.{Shape, fork, All-map, IsOutside, AreSeparate, in_order}
use libckit.RbTree.Spine.{HasSpine, HasSpine-same}

-- The order of the nodes is the same on both sides of a rotation.
pub in_order-rotated :
    (a : Shape) (c : ℕ) (b : Shape) (g : ℕ) (d : Shape)
    → in_order (fork a c (fork b g d)) ≡ in_order (fork (fork a c b) g d)
in_order-rotated a c b g d = simp append_assoc

-- what is left alone
abbrev pub Same : World → World → ℕ → ℕ → Type 0
Same w w' c g = (x : ℕ) → c ≢ x → g ≢ x → w'.nodes x ≡ w.nodes x

-- `g` with its left child `c`
module _ (w : World) (a : Shape) (c : ℕ) (b : Shape) (g : ℕ) (d : Shape) (p : ℕ)
    (tree : HasSpine w.nodes (some g) none (fork (fork a c b) g d))
    (apart : AreSeparate (fork (fork a c b) g d)) where
  turn_right-Same : Same w (turn_right g c p w) c g
  unfolding turn_right set_node
  turn_right-Same x ne_c ne_g = ground arith

  turn_right_lem : HasSpine (turn_right g c p w).nodes (some c) none (fork a c (fork b g d))
  unfolding turn_right set_node
  turn_right_lem =
      let w' = turn_right g c p w in
      let ne : g ≢ c = apart.0.1 in
      let c_left : (w'.nodes c).left ≡ (w.nodes c).left = ground arith in
      let c_right : (w'.nodes c).right ≡ some g = ground arith in
      let g_left : (w'.nodes g).left ≡ (w.nodes c).right = ground arith in
      let g_right : (w'.nodes g).right ≡ (w.nodes g).right = ground arith in
      let same = λ (t : Shape) (out_c : IsOutside c t) (out_g : IsOutside g t).
        All-map t (turn_right-Same) out_c out_g in
      (
        refl,
        rw c_left (
            HasSpine-same w.nodes w'.nodes (w.nodes c).left none a (same a apart.4.0 apart.0.0)
              tree.1.1),
        (
          c_right,
          rw g_left (
              HasSpine-same w.nodes w'.nodes (w.nodes c).right none b (same b apart.4.1 apart.0.2)
                tree.1.2),
          rw g_right (
              HasSpine-same w.nodes w'.nodes (w.nodes g).right none d (same d apart.2.1 apart.1)
                tree.2),
        ),
      )

-- `g` with its right child `c`
module _ (w : World) (a : Shape) (g : ℕ) (b : Shape) (c : ℕ) (d : Shape) (p : ℕ)
    (tree : HasSpine w.nodes (some g) none (fork a g (fork b c d)))
    (apart : AreSeparate (fork a g (fork b c d))) where
  turn_left-Same : Same w (turn_left g c p w) c g
  unfolding turn_left set_node
  turn_left-Same x ne_c ne_g = ground arith

  turn_left_lem : HasSpine (turn_left g c p w).nodes (some c) none (fork (fork a g b) c d)
  unfolding turn_left set_node
  turn_left_lem =
      let w' = turn_left g c p w in
      let ne : g ≢ c = apart.1.1 in
      let c_right : (w'.nodes c).right ≡ (w.nodes c).right = ground arith in
      let c_left : (w'.nodes c).left ≡ some g = ground arith in
      let g_right : (w'.nodes g).right ≡ (w.nodes c).left = ground arith in
      let g_left : (w'.nodes g).left ≡ (w.nodes g).left = ground arith in
      let same = λ (t : Shape) (out_c : IsOutside c t) (out_g : IsOutside g t).
        All-map t (turn_left-Same) out_c out_g in
      (
        refl,
        (
          c_left,
          rw g_left (
              HasSpine-same w.nodes w'.nodes (w.nodes g).left none a (same a apart.3.1 apart.0)
                tree.1),
          rw g_right (
              HasSpine-same w.nodes w'.nodes (w.nodes c).left none b (same b apart.5.0 apart.1.0)
                tree.2.1),
        ),
        rw c_right (
            HasSpine-same w.nodes w'.nodes (w.nodes c).right none d (same d apart.5.1 apart.1.2)
              tree.2.2),
      )

-- After a rotation the tree has the shape `t`, with the nodes in the order that they had; the
-- parent's pointer on the side of the rotation leads to it, and its other pointers and all nodes
-- outside are as they were.
pub record IsRotated (w w' : World) (old t : Shape) (c p : ℕ) (left right : Option ℕ) : Type 0 where
  pub tree : HasSpine w'.nodes (some c) none t
  pub order : in_order t ≡ in_order old
  pub left_of : (w'.nodes p).left ≡ left
  pub right_of : (w'.nodes p).right ≡ right
  pub rest : (x : ℕ) → p ≢ x → IsOutside x old → w'.nodes x ≡ w.nodes x

set_left-same :
    (p : ℕ) (next : Option ℕ) (w : World) (x : ℕ) → p ≢ x → (set_left p next w).nodes x ≡ w.nodes x
unfolding set_node
set_left-same p next w x ne = ground arith

set_right-same :
    (p : ℕ) (next : Option ℕ) (w : World) (x : ℕ) → p ≢ x → (set_right p next w).nodes x ≡ w.nodes x
unfolding set_node
set_right-same p next w x ne = ground arith

set_left-fields :
    (p : ℕ) (next : Option ℕ) (w : World)
    → (((set_left p next w).nodes p).left ≡ next)
      × (((set_left p next w).nodes p).right ≡ (w.nodes p).right)
unfolding set_node
set_left-fields p next w = (ground arith, ground arith)

set_right-fields :
    (p : ℕ) (next : Option ℕ) (w : World)
    → (((set_right p next w).nodes p).left ≡ (w.nodes p).left)
      × (((set_right p next w).nodes p).right ≡ next)
unfolding set_node
set_right-fields p next w = (ground arith, ground arith)

module _ (w w0 : World) (a : Shape) (c : ℕ) (b : Shape) (g : ℕ) (d : Shape) (p : ℕ)
    (kept : (x : ℕ) → p ≢ x → w0.nodes x ≡ w.nodes x) where
  right-IsRotated :
      HasSpine w.nodes (some g) none (fork (fork a c b) g d)
      → AreSeparate (fork (fork a c b) g d)
      → IsOutside p (fork (fork a c b) g d)
      → IsRotated w
          (turn_right g c p w0)
          (fork (fork a c b) g d)
          (fork a c (fork b g d))
          c
          p
          (w0.nodes p).left
          (w0.nodes p).right
  right-IsRotated tree apart out =
      let old = fork (fork a c b) g d in
      let tree0 =
        HasSpine-same w.nodes w0.nodes (some g) none old (All-map old (λ x ne _. kept x ne) out out)
          tree in
      let same = turn_right-Same w0 a c b g d p tree0 apart in
      let at_p = same p (λ e. out.0.1 (sym e)) (λ e. out.1 (sym e)) in
      record {
        tree = turn_right_lem w0 a c b g d p tree0 apart;
        order = in_order-rotated a c b g d;
        left_of = ap (λ (node : RbNode). node.left) at_p;
        right_of = ap (λ (node : RbNode). node.right) at_p;
        rest = λ x ne out_x. same x (λ e. out_x.0.1 (sym e)) (λ e. out_x.1 (sym e)) ∙ kept x ne;
      }

  left-IsRotated :
      HasSpine w.nodes (some c) none (fork a c (fork b g d))
      → AreSeparate (fork a c (fork b g d))
      → IsOutside p (fork a c (fork b g d))
      → IsRotated w
          (turn_left c g p w0)
          (fork a c (fork b g d))
          (fork (fork a c b) g d)
          g
          p
          (w0.nodes p).left
          (w0.nodes p).right
  left-IsRotated tree apart out =
      let old = fork a c (fork b g d) in
      let tree0 =
        HasSpine-same w.nodes w0.nodes (some c) none old (All-map old (λ x ne _. kept x ne) out out)
          tree in
      let same = turn_left-Same w0 a c b g d p tree0 apart in
      let at_p = same p (λ e. out.2.1 (sym e)) (λ e. out.1 (sym e)) in
      record {
        tree = turn_left_lem w0 a c b g d p tree0 apart;
        order = sym (in_order-rotated a c b g d);
        left_of = ap (λ (node : RbNode). node.left) at_p;
        right_of = ap (λ (node : RbNode). node.right) at_p;
        rest = λ x ne out_x. same x (λ e. out_x.2.1 (sym e)) (λ e. out_x.1 (sym e)) ∙ kept x ne;
      }

-- The two rotations to the right of a node that has a left child, and a parent outside of its tree,
-- the nodes of which are separate, return. The child comes up, and the nodes keep their order; one
-- rotation hangs the result on the left of the parent, and the other on the right, whichever side
-- the node was on.
pub rotate_right_lem :
    (w : World) (a : Shape) (c : ℕ) (b : Shape) (g : ℕ) (d : Shape) (p : ℕ)
    → HasSpine w.nodes (some g) none (fork (fork a c b) g d)
    → AreSeparate (fork (fork a c b) g d)
    → IsOutside p (fork (fork a c b) g d)
    → (w.nodes g).parent ≡ some p
    → let result = λ (left right : Option ℕ) (w' : World).
      IsRotated w w' (fork (fork a c b) g d) (fork a c (fork b g d)) c p left right in
      Returns (result (some c) (w.nodes p).right) (rotate_left_side_right g w)
      × Returns (result (w.nodes p).left (some c)) (rotate_right_side_right g w)
unfolding rotate_left_side_right rotate_right_side_right
rotate_right_lem w a c b g d p tree apart out up =
    let wl = set_left p (some c) w in
    let wr = set_right p (some c) w in
    let fl = set_left-fields p (some c) w in
    let fr = set_right-fields p (some c) w in
    let l = right-IsRotated w wl a c b g d p (set_left-same p (some c) w) tree apart out in
    let r = right-IsRotated w wr a c b g d p (set_right-same p (some c) w) tree apart out in
    (
      rw (rotate_left_side_right, tree.1.0, up) (returns (rw (fl.0, fl.1) at l)),
      rw (rotate_right_side_right, tree.1.0, up) (returns (rw (fr.0, fr.1) at r)),
    )

-- The two rotations to the left of a node that has a right child and a parent outside of its tree:
-- the same, the other way round.
pub rotate_left_lem :
    (w : World) (a : Shape) (g : ℕ) (b : Shape) (c : ℕ) (d : Shape) (p : ℕ)
    → HasSpine w.nodes (some g) none (fork a g (fork b c d))
    → AreSeparate (fork a g (fork b c d))
    → IsOutside p (fork a g (fork b c d))
    → (w.nodes g).parent ≡ some p
    → let result = λ (left right : Option ℕ) (w' : World).
      IsRotated w w' (fork a g (fork b c d)) (fork (fork a g b) c d) c p left right in
      Returns (result (some c) (w.nodes p).right) (rotate_left_side_left g w)
      × Returns (result (w.nodes p).left (some c)) (rotate_right_side_left g w)
unfolding rotate_left_side_left rotate_right_side_left
rotate_left_lem w a g b c d p tree apart out up =
    let wl = set_left p (some c) w in
    let wr = set_right p (some c) w in
    let fl = set_left-fields p (some c) w in
    let fr = set_right-fields p (some c) w in
    let l = left-IsRotated w wl a g b c d p (set_left-same p (some c) w) tree apart out in
    let r = left-IsRotated w wr a g b c d p (set_right-same p (some c) w) tree apart out in
    (
      rw (rotate_left_side_left, tree.2.0, up) (returns (rw (fl.0, fl.1) at l)),
      rw (rotate_right_side_left, tree.2.0, up) (returns (rw (fr.0, fr.1) at r)),
    )
