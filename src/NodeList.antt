-- ===== src/NodeList.antt =====
-- include/ckit/list.h: circular lists of nodes with links both ways, around an anchor. A pointer to
-- a node is a number, and `Nodes` says what the pointers point to.
pub mod Ring
pub mod Back
pub mod Del
pub mod Move
pub mod Among
mod Tests
use libckit.Common.{ℕ, Bool, ◌==◌, if◌then◌else◌}

-- `struct list`
pub record Node : Type 0 where
  pub prev : ℕ
  pub next : ℕ

abbrev pub Nodes : Type 0
Nodes = ℕ → Node

-- `p->next = v` and `p->prev = v`
unfoldable pub set_next : Nodes → ℕ → ℕ → Nodes
set_next s p v q = if p == q then record (s q) { next = v } else s q

unfoldable pub set_prev : Nodes → ℕ → ℕ → Nodes
set_prev s p v q = if p == q then record (s q) { prev = v } else s q

-- INIT_LIST
pub init : ℕ → Nodes → Nodes
init list s = set_next (set_prev s list list) list list

unfoldable pub add_front : ℕ → ℕ → Nodes → Nodes
add_front anchor to_add s =
    let s1 = set_next s to_add (s anchor).next in
    let s2 = set_prev s1 to_add anchor in
    let s3 = set_prev s2 (s2 anchor).next to_add in set_next s3 anchor to_add

pub add_back : ℕ → ℕ → Nodes → Nodes
add_back anchor to_add s =
    let s1 = set_next s to_add anchor in
    let s2 = set_prev s1 to_add (s1 anchor).prev in
    let s3 = set_next s2 (s2 anchor).prev to_add in set_prev s3 anchor to_add

unfoldable pub del : ℕ → Nodes → Nodes
del to_del s =
    let s1 = set_next s (s to_del).prev (s to_del).next in
    let s2 = set_prev s1 (s1 to_del).next (s1 to_del).prev in
    set_next (set_prev s2 to_del to_del) to_del to_del

unfoldable pub move : ℕ → ℕ → Nodes → Nodes
move to_move anchor s = add_front anchor to_move (del to_move s)

abbrev pub empty : ℕ → Nodes → Bool
empty list s = (s list).next == list

-- list_front, less the step from a node to its object
abbrev pub front : ℕ → Nodes → ℕ
front list s = (s list).next
