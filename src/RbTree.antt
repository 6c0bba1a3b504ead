-- ===== src/RbTree.antt =====
-- include/ckit/rbtree.h and src/rbtree.c: a binary search tree whose nodes have a colour and a
-- pointer to their parent. A pointer to a node is a number, or none for NULL.
pub mod State
pub mod Turn
pub mod Endless
pub mod Destroy
pub mod Shape
pub mod Grown
pub mod Insert
pub mod Roots
pub mod Search
pub mod Walk
pub mod Spine
pub mod Print
pub mod Rotate
mod Tests
use libckit.Common.{
  ℕ, zero, suc, Bool, true, false, Option, none, some, List, [], ◌∷◌, not, ltb, ◌==◌, if◌then◌else◌,
  ◌&&◌,
}
use libckit.Common.Int.{ℤ, pos, negsuc, ltb_ℤ}
use libckit.Common.Run.{Run, ok, fault, out_of_fuel, or_fault, ◌>>=◌}
use Turn.{
  rotate_right_side_right, rotate_left_side_right, rotate_right_side_left, rotate_left_side_left,
}
use State.{
  Color, red, black, RbKey, RbValue, Part, key_data, value_data, whole, Ops, RbNode, World,
  set_node, is, is_red, set_left, set_right, set_parent, set_color,
}

-- The default comparison; `memcmp` is given the data of the keys, and how much of it to compare.
unfoldable pub default_comp : (ℕ → ℕ → ℕ → ℤ) → RbKey → RbKey → ℤ
default_comp memcmp k1 k2 =
    if k1.len == k2.len
    then memcmp k1.contents k2.contents k1.len
    else if ltb k1.len k2.len
    then pos 1
    else pos 0

-- The first argument is what `malloc` returns. A node's number for debugging is left out.
unfoldable pub node_alloc : Option ℕ → RbKey → RbValue → Option ℕ → World → Option ℕ × World
node_alloc none key val parent w = (none, w)
node_alloc (some n) key val parent w = (
  some n,
  set_node n
      (record { color = red; left = none; right = none; parent = parent; key = key; val = val }) w,
)

-- the loop of bst_insert, from the node `curr` on
unfoldable pub descend : ℕ → Option ℕ → RbKey → RbValue → ℕ → World → Run (Option ℕ × World)
descend zero memory key val curr w = out_of_fuel
descend (suc k) memory key val curr w =
    elim (ltb_ℤ (w.ops.key_compare key (w.nodes curr).key) (pos 0)) [
      | true ↦ elim (w.nodes curr).left [
        | none ↦
            let (new, w') = node_alloc memory key val (some curr) w in
            ok (new, set_left curr new w')
        | some next ↦ descend k memory key val next w
      ]
      | false ↦ elim (w.nodes curr).right [
        | none ↦
            let (new, w') = node_alloc memory key val (some curr) w in
            ok (new, set_right curr new w')
        | some next ↦ descend k memory key val next w
      ]
    ]

-- What it returns, and the new node.
unfoldable pub bst_insert : ℕ → Option ℕ → RbKey → RbValue → World → Run (ℤ × Option ℕ × World)
bst_insert k memory key val w = elim w.root [
  | none ↦
      let (new, w') = node_alloc memory key val none w in
      elim new [
        | none ↦ ok (negsuc 0, none, record w' { root = none })
        | some n ↦ ok (pos 1, some n, record w' { root = some n })
      ]
  | some root ↦ do
    (new, w') ← descend k memory key val root w
    ok (elim new as (λ x. ℤ) [ none ↦ negsuc 0 | some n ↦ pos 1 ], new, w')
]

unfoldable pub grandparent : ℕ → World → Option ℕ
grandparent node w = elim (w.nodes node).parent [
  | none ↦ none
  | some parent ↦ (w.nodes parent).parent
]

unfoldable pub uncle : ℕ → World → Option ℕ
uncle node w = elim (grandparent node w) [
  | none ↦ none
  | some gp ↦ elim (w.nodes node).parent [
    | none ↦ none
    | some parent ↦ if is (w.nodes gp).left parent then (w.nodes gp).right else (w.nodes gp).left
  ]
]

unfoldable pub sibling : ℕ → World → Option ℕ
sibling node w = elim (w.nodes node).parent [
  | none ↦ none
  | some parent ↦
      if is (w.nodes parent).right node then (w.nodes parent).left else (w.nodes parent).right
]

-- rb_tree_insert_case5 of a node with that parent and grandparent
unfoldable pub turn_outer : ℕ → ℕ → ℕ → World → Run World
turn_outer node parent g w =
    let w1 = set_color g red (set_color parent black w) in
    elim (is (w1.nodes parent).left node) [
      | true ↦ rotate_left_side_right g w1
      | false ↦ rotate_right_side_left g w1
    ]

unfoldable pub insert_case5 : ℕ → World → Run World
insert_case5 node w = do
  parent ← or_fault (w.nodes node).parent
  g ← or_fault (grandparent node w)
  turn_outer node parent g w

-- The result of a rotation in insert_case4, with the node that it goes on with.
unfoldable pub insert_case4 : ℕ → World → Run World
insert_case4 node w = do
  parent ← or_fault (w.nodes node).parent
  let inner_left = is (w.nodes parent).right node
  let inner_right = is (w.nodes parent).left node
  left_side ←
      if inner_left
      then or_fault (grandparent node w) >>= (λ g. ok (is (w.nodes g).left parent))
      else ok false
  right_side ←
      if inner_right
      then or_fault (grandparent node w) >>= (λ g. ok (is (w.nodes g).right parent))
      else ok false
  (next, w') ←
      if left_side
      then rotate_left_side_left parent w >>= (λ w'. ok ((w'.nodes node).left, w'))
      else if right_side
      then rotate_right_side_right parent w >>= (λ w'. ok ((w'.nodes node).right, w'))
      else ok (some node, w)
  elim next [ none ↦ ok w' | some n ↦ insert_case5 n w' ]

-- `again` is rb_tree_insert_case1.
unfoldable pub insert_case3 : (ℕ → World → Run World) → ℕ → World → Run World
insert_case3 again node w = elim (uncle node w) [
  | none ↦ insert_case4 node w
  | some u ↦ elim (is_red (w.nodes u).color) [
    | false ↦ insert_case4 node w
    | true ↦ do
      parent ← or_fault (w.nodes node).parent
      g ← or_fault (grandparent node w)
      again g (set_color g red (set_color u black (set_color parent black w)))
  ]
]

unfoldable pub insert_case2 : (ℕ → World → Run World) → ℕ → World → Run World
insert_case2 again node w = do
  parent ← or_fault (w.nodes node).parent
  elim (w.nodes parent).color [ black ↦ ok w | red ↦ insert_case3 again node w ]

unfoldable pub insert_case1 : ℕ → ℕ → World → Run World
insert_case1 zero node w = out_of_fuel
insert_case1 (suc k) node w = elim (w.nodes node).parent [
  | none ↦ ok (set_color node black w)
  | some parent ↦ insert_case2 (insert_case1 k) node w
]

-- `_rb_tree_insert`
unfoldable pub insert : ℕ → Option ℕ → RbKey → RbValue → World → Run (ℤ × World)
insert k memory key val w = do
  (ret, new, w') ← bst_insert k memory key val w
  elim new [ none ↦ ok (ret, w') | some n ↦ insert_case1 k n w' >>= λ w''. ok (ret, w'') ]

-- rb_tree_insert, where a call of `malloc` is given how often it was called before, and returns
-- the block. It calls itself with the copies, for at most `k` rounds here.
unfoldable pub insert_copies : ℕ → (ℕ → Option ℕ) → ℕ → RbKey → RbValue → World → Run (ℤ × World)
insert_copies zero malloc calls key val w = out_of_fuel
insert_copies (suc k) malloc calls key val w = elim (malloc calls) [
  | none ↦ ok (negsuc 0, w)
  | some key_copy ↦ elim (malloc (suc calls)) [
    | none ↦ ok (negsuc 0, w)
    | some val_copy ↦
        insert_copies k malloc (suc (suc calls)) (record { len = key.len; contents = key_copy })
          (record { len = val.len; contents = val_copy }) w
  ]
]

unfoldable pub delete : RbKey → World → ℤ × World
delete key w = (pos 0, w)

-- rb_tree_node_destroy, once the nodes below are given back
abbrev pub give_back : ℕ → World → World
give_back node w =
    let freed1 = if w.ops.key_free then key_data node ∷ w.freed else w.freed in
    let freed2 = if w.ops.value_free then value_data node ∷ freed1 else freed1 in
    record w { freed = whole node ∷ freed2 }

unfoldable pub node_destroy : ℕ → Option ℕ → World → Run World
node_destroy zero ptr w = out_of_fuel
node_destroy (suc k) none w = ok w
node_destroy (suc k) (some n) w = do
  w1 ← node_destroy k (w.nodes n).left w
  w2 ← node_destroy k (w1.nodes n).right w1
  ok (give_back n w2)

unfoldable pub destroy : ℕ → World → Run World
destroy k w = node_destroy k w.root w
