-- ===== src/RbTree/State.antt =====
-- What the functions of src/rbtree.c work on.
use libckit.Common.{ℕ, Bool, true, false, Option, none, some, List, ◌==◌, if◌then◌else◌}
use libckit.Common.Int.{ℤ}

-- `rb_color_t`
pub data Color : Type 0 where
  black red : Color

abbrev pub is_red : Color → Bool
is_red black = false
is_red red = true

-- `rb_key_t` and `rb_value_t`; `contents` is the pointer to the data.
pub record RbKey : Type 0 where
  pub len : ℕ
  pub contents : ℕ

pub record RbValue : Type 0 where
  pub len : ℕ
  pub contents : ℕ

-- what is given back of a node
pub data Part : Type 0 where
  key_data value_data whole : ℕ → Part

-- `struct rb_node_ops`, less the printing. Of the functions that free, it says whether there are
-- any.
pub record Ops : Type 0 where
  pub key_compare : RbKey → RbKey → ℤ
  pub key_free : Bool
  pub value_free : Bool

-- `struct rb_node`
pub record RbNode : Type 0 where
  pub color : Color
  pub left : Option ℕ
  pub right : Option ℕ
  pub parent : Option ℕ
  pub key : RbKey
  pub val : RbValue

-- `struct rb_tree`, with the nodes in memory, and what was given back, the last first
pub record World : Type 0 where
  pub root : Option ℕ
  pub ops : Ops
  pub nodes : ℕ → RbNode
  pub freed : List Part

unfoldable pub set_node : ℕ → RbNode → World → World
set_node n node w = record w { nodes = λ p. if n == p then node else w.nodes p }

-- `ptr == n`
abbrev pub is : Option ℕ → ℕ → Bool
is none n = false
is (some m) n = m == n

abbrev pub set_left : ℕ → Option ℕ → World → World
set_left n ptr w = set_node n (record (w.nodes n) { left = ptr }) w

abbrev pub set_right : ℕ → Option ℕ → World → World
set_right n ptr w = set_node n (record (w.nodes n) { right = ptr }) w

abbrev pub set_parent : ℕ → Option ℕ → World → World
set_parent n ptr w = set_node n (record (w.nodes n) { parent = ptr }) w

abbrev pub set_color : ℕ → Color → World → World
set_color n color w = set_node n (record (w.nodes n) { color = color }) w
