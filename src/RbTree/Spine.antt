-- ===== src/RbTree/Spine.antt =====
-- A tree whose rightmost pointer leads somewhere else, as rb_tree_print_in_order leaves it while it
-- walks.
use libckit.Common.{
  ℕ, zero, suc, ◌<◌, ◌≡◌, ◌≢◌, refl, ap, sym, ◌∙◌, true, false, Option, none, some, arith, ◌==◌,
}
use libckit.Common.Run.{ok}
use libckit.RbTree.Walk.{predecessor}
use libckit.RbTree.State.{RbNode, World, set_node, set_right}
use libckit.RbTree.Shape.{Shape, leaf, fork, node_count, All, All-map, IsOutside, AreSeparate}

-- The pointer leads to a tree of that shape, whose rightmost pointer is `exit`.
abbrev pub HasSpine : (ℕ → RbNode) → Option ℕ → Option ℕ → Shape → Type 0
HasSpine nodes ptr exit leaf = ptr ≡ exit
HasSpine nodes ptr exit (fork l n r) =
    (ptr ≡ some n) × HasSpine nodes (nodes n).left none l × HasSpine nodes (nodes n).right exit r

pub HasSpine-same :
    (nodes nodes' : ℕ → RbNode) (ptr exit : Option ℕ) (t : Shape)
    → All (λ x. nodes' x ≡ nodes x) t
    → HasSpine nodes ptr exit t
    → HasSpine nodes' ptr exit t
HasSpine-same nodes nodes' ptr exit leaf same tree = tree
HasSpine-same nodes nodes' ptr exit (fork l n r) (sl, sn, sr) (e, left, right) = (
  e,
  HasSpine-same nodes nodes' (nodes' n).left none l sl (rw sn left),
  HasSpine-same nodes nodes' (nodes' n).right exit r sr (rw sn right),
)

-- the rightmost node of a tree with that root and that right part
abbrev pub last : ℕ → Shape → ℕ
last n leaf = n
last n (fork l m r) = last m r

pub last-All : (P : ℕ → Type 0) (n : ℕ) (r : Shape) → P n → All P r → P (last n r)
last-All P n leaf here all = here
last-All P n (fork l m r) here (all_l, at, all_r) = last-All P m r at all_r

pub last-right :
    (nodes : ℕ → RbNode) (exit : Option ℕ) (n : ℕ) (r : Shape)
    → HasSpine nodes (nodes n).right exit r
    → (nodes (last n r)).right ≡ exit
last-right nodes exit n leaf tree = tree
last-right nodes exit n (fork l m r) (e, left, right) = last-right nodes exit m r right

predecessor-end :
    (d n curr : ℕ) (w : World) → (w.nodes n).right ≡ none → predecessor (suc d) n curr w ≡ ok n
unfolding predecessor
predecessor-end d n curr w e = rw (predecessor, e) refl

predecessor-back :
    (d n curr : ℕ) (w : World) → (w.nodes n).right ≡ some curr → predecessor (suc d) n curr w ≡ ok n
unfolding predecessor
predecessor-back d n curr w e =
    let this : (curr == curr) ≡ true = ground arith in rw (predecessor, e, this) refl

predecessor-next :
    (d n m curr : ℕ) (w : World)
    → (w.nodes n).right ≡ some m
    → curr ≢ m
    → predecessor (suc d) n curr w ≡ predecessor d m curr w
unfolding predecessor
predecessor-next d n m curr w e ne =
    let other : (m == curr) ≡ false = ground arith in rw (predecessor, e, other) refl

-- the two ends that the inner loop stops at
pub data IsEnd (curr : ℕ) : Option ℕ → Type 0 where
  is_none : IsEnd curr none
  is_back : IsEnd curr (some curr)

pub predecessor_lem :
    (d n curr : ℕ) (w : World) (r : Shape) {exit : Option ℕ}
    → IsEnd curr exit
    → HasSpine w.nodes (w.nodes n).right exit r
    → IsOutside curr r
    → node_count r < d
    → predecessor d n curr w ≡ ok (last n r)
unfolding node_count
predecessor_lem zero n curr w r end tree out fuel = absurd (omega arith)
predecessor_lem (suc d) n curr w leaf is_none tree out fuel = predecessor-end d n curr w tree
predecessor_lem (suc d) n curr w leaf is_back tree out fuel = predecessor-back d n curr w tree
predecessor_lem (suc d) n curr w (fork l m r) end (e, left, right) (out_l, ne, out_r) fuel =
    predecessor-next d n m curr w e ne ∙ predecessor_lem d m curr w r end right out_r (omega arith)

pub set_right-left :
    (n : ℕ) (next : Option ℕ) (w : World) (p : ℕ)
    → ((set_right n next w).nodes p).left ≡ (w.nodes p).left
unfolding set_node
set_right-left n next w p = ground arith

pub set_right-here :
    (n : ℕ) (next : Option ℕ) (w : World) → ((set_right n next w).nodes n).right ≡ next
unfolding set_node
set_right-here n next w = ground arith

pub set_right-other :
    (n : ℕ) (next : Option ℕ) (w : World) (p : ℕ) → n ≢ p → (set_right n next w).nodes p ≡ w.nodes p
unfolding set_node
set_right-other n next w p ne = ground arith

left_kept :
    (w : World) (next : Option ℕ) (l : Shape) (n : ℕ) (r : Shape)
    → AreSeparate (fork l n r)
    → HasSpine w.nodes (w.nodes n).left none l
    → let w' = set_right (last n r) next w in HasSpine w'.nodes (w'.nodes n).left none l
left_kept w next l n r apart left =
    let z = last n r in
    let out = last-All (λ x. IsOutside x l) n r apart.0 apart.3 in
    rw (set_right-left z next w n) (
      HasSpine-same w.nodes (set_right z next w).nodes (w.nodes n).left none l
        (All-map l (λ x ne _. set_right-other z next w x ne) out out) left)

-- A write of the rightmost pointer gives the tree another exit.
pub HasSpine-set :
    (w : World) (exit next : Option ℕ) (l : Shape) (n : ℕ) (r : Shape)
    → AreSeparate (fork l n r)
    → HasSpine w.nodes (some n) exit (fork l n r)
    → HasSpine (set_right (last n r) next w).nodes (some n) next (fork l n r)
HasSpine-set w exit next l n leaf apart (e, left, right) =
    (refl, left_kept w next l n leaf apart left, set_right-here n next w)
HasSpine-set w exit next l n (fork a m b) apart (e, left, right) =
    let z = last m b in
    let away : n ≢ z = last-All (λ x. n ≢ x) m b apart.1.1 apart.1.2 in
    let same = set_right-other z next w n (λ c. away (sym c)) in
    let below = HasSpine-set w exit next a m b apart.5 (refl, right.1, right.2) in
    (
      refl,
      left_kept w next l n (fork a m b) apart left,
      (ap (λ (node : RbNode). node.right) same ∙ right.0, below.1, below.2),
    )
