-- ===== src/RbTree/Destroy.antt =====
-- rb_tree_destroy
use libckit.Common.{
  ℕ, zero, suc, ◌<◌, ◌≡◌, refl, ap, List, [], ◌∷◌, ◌++◌, Bool, true, false, Option, none, some,
  arith, if◌then◌else◌,
}
use libckit.Common.Run.{ok}
use libckit.RbTree.{node_destroy, destroy}
use libckit.RbTree.Shape.{Shape, leaf, fork, node_count}
use libckit.RbTree.State.{Part, key_data, value_data, whole, Ops, RbNode, World}

-- The pointer leads to a tree of that shape.
abbrev pub HasShape : (ℕ → RbNode) → Option ℕ → Shape → Type 0
HasShape nodes ptr leaf = ptr ≡ none
HasShape nodes ptr (fork l n r) =
    (ptr ≡ some n) × HasShape nodes (nodes n).left l × HasShape nodes (nodes n).right r

-- what is given back of a node: the data first, and the node at the end
abbrev pub parts : Ops → ℕ → List Part
parts ops n =
    whole n
    ∷ ((if ops.value_free then value_data n ∷ [] else [])
        ++ (if ops.key_free then key_data n ∷ [] else []))

-- what is given back of a tree, the last first
abbrev pub released : Ops → Shape → List Part → List Part
released ops leaf freed = freed
released ops (fork l n r) freed = parts ops n ++ released ops r (released ops l freed)

parts_lem :
    (kf vf : Bool) (n : ℕ) (freed : List Part)
    → let freed1 = if kf then key_data n ∷ freed else freed in
      let freed2 = if vf then value_data n ∷ freed1 else freed1 in
      whole n ∷ freed2
      ≡ (whole n ∷ ((if vf then value_data n ∷ [] else []) ++ (if kf then key_data n ∷ [] else [])))
        ++ freed
parts_lem false false n freed = refl
parts_lem false true n freed = refl
parts_lem true false n freed = refl
parts_lem true true n freed = refl

node_destroy_lem :
    (k : ℕ) (t : Shape) (ptr : Option ℕ) (w : World)
    → HasShape w.nodes ptr t
    → node_count t < k
    → node_destroy k ptr w ≡ ok (record w { freed = released w.ops t w.freed })
unfolding node_destroy node_count
node_destroy_lem zero t ptr w shape fuel = absurd (omega arith)
node_destroy_lem (suc k) leaf ptr w shape fuel = rw shape refl
node_destroy_lem (suc k) (fork l n r) ptr w (e, left, right) fuel =
    let w1 : World = record w { freed = released w.ops l w.freed } in
    let first = node_destroy_lem k l (w.nodes n).left w left (omega arith) in
    let second = node_destroy_lem k r (w.nodes n).right w1 right (omega arith) in
    let freed = released w.ops r w1.freed in
    rw (e, node_destroy, first, second)
      (ap (λ (parts : List Part). ok (record w { freed = parts }))
        (parts_lem w.ops.key_free w.ops.value_free n freed))

-- rb_tree_destroy of a tree returns, with more rounds than it has nodes: it has given back each
-- node once, after the nodes below it, the left ones first; and the data of the node before the
-- node, where the operations have functions for it.
pub destroy_lem :
    (k : ℕ) (t : Shape) (w : World)
    → HasShape w.nodes w.root t
    → node_count t < k
    → destroy k w ≡ ok (record w { freed = released w.ops t w.freed })
unfolding destroy
destroy_lem k t w shape fuel = node_destroy_lem k t w.root w shape fuel
