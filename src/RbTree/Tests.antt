-- ===== src/RbTree/Tests.antt =====
-- src/rbtree.c with keys that are compared by their lengths. Node 1 is the root, node 2 is on its
-- left, and node 3 on the left of that.
use libckit.Common.{
  ℕ, ◌+◌, ◌<◌, ◌≡◌, ◌≢◌, inr, refl, [], ◌∷◌, true, Option, none, some, arith, ◌==◌, if◌then◌else◌,
}
use libckit.Common.Int.{pos, ◌-ℤ◌}
use libckit.Common.Run.{ok, fault, out_of_fuel, Returns}
use libckit.RbTree.{bst_insert, destroy, insert_copies, insert_case5}
use libckit.RbTree.Turn.{rotate_left_side_right, rotate_right_side_right}
use libckit.RbTree.State.{
  Color, red, black, RbKey, RbValue, key_data, value_data, whole, Ops, RbNode, World,
}
use libckit.RbTree.Shape.{Shape, leaf, fork, node_count, IsOutside, AreSeparate, HasTree, grow}
use libckit.RbTree.Grown.{payload, goes_left}
use libckit.RbTree.Insert.{bst_insert_lem}
use libckit.RbTree.Search.{IsSearch, bst_insert-IsSearch}
use libckit.RbTree.Walk.{print_in_order}
use libckit.RbTree.Print.{print_in_order_lem}
use libckit.RbTree.Rotate.{IsRotated, rotate_right_lem}
use libckit.RbTree.Destroy.{destroy_lem}
use libckit.RbTree.Endless.{insert_copies_lem}
use libckit.RbTree.Roots.{insert_case5_lem}

abbrev key_of : ℕ → RbKey
key_of n = record { len = n; contents = 0 }

abbrev val_of : ℕ → RbValue
val_of n = record { len = n; contents = 0 }

abbrev ops : Ops
ops = record { key_compare = λ a b. pos a.len -ℤ pos b.len; key_free = true; value_free = true }

abbrev node_of : Color → Option ℕ → Option ℕ → ℕ → RbNode
node_of color left parent len = record {
  color = color;
  left = left;
  right = none;
  parent = parent;
  key = key_of len;
  val = val_of len;
}

abbrev sample_nodes : ℕ → RbNode
sample_nodes p =
    if p == 1
    then node_of black (some 2) none 30
    else if p == 2
    then node_of red (some 3) (some 1) 20
    else node_of red none (some 2) 10

abbrev sample : World
sample = record { root = some 1; ops = ops; nodes = sample_nodes; freed = [] }

abbrev shape : Shape
shape = fork (fork (fork leaf 3 leaf) 2 leaf) 1 leaf

shallow : node_count shape < 4
unfolding node_count
shallow = omega arith

tree : HasTree sample_nodes none (some 1) shape
tree = (refl, refl, (refl, refl, (refl, refl, refl, refl), refl), refl)

apart : AreSeparate shape
apart = (
  ((tt, omega arith, tt), omega arith, tt),
  tt,
  ((tt, tt, tt), tt, tt),
  tt,
  ((tt, omega arith, tt), tt, (tt, tt, tt), tt, (tt, tt, tt, tt, tt, tt), tt),
  tt,
)

outside : IsOutside 7 shape
outside = (((tt, omega arith, tt), omega arith, tt), omega arith, tt)

bst_insert_lem_example :
    Returns
      (λ s.
        (s.0 ≡ pos 1)
        × (s.1 ≡ some 7)
        × HasTree s.2.nodes none s.2.root (grow (goes_left sample (key_of 25)) 7 shape)
        × ((p : ℕ) → IsOutside p shape → p ≢ 7 → s.2.nodes p ≡ sample_nodes p)
        × ((p : ℕ) → p ≢ 7 → payload (s.2.nodes p) ≡ payload (sample_nodes p))
        × (payload (s.2.nodes 7) ≡ (red, key_of 25, val_of 1)))
      (bst_insert 4 (some 7) (key_of 25) (val_of 1) sample)
bst_insert_lem_example =
    bst_insert_lem 4 7 (key_of 25) (val_of 1) sample shape tree apart outside shallow

-- 25 goes to the left of 30, and to the right of 20.
place :
    grow (goes_left sample (key_of 25)) 7 shape
    ≡ fork (fork (fork leaf 3 leaf) 2 (fork leaf 7 leaf)) 1 leaf
unfolding ◌-ℤ◌
place = refl

destroy_lem_example :
    destroy 4 sample
    ≡ ok (record sample {
      freed =
          whole 1
          ∷ value_data 1
          ∷ key_data 1
          ∷ whole 2
          ∷ value_data 2
          ∷ key_data 2
          ∷ whole 3
          ∷ value_data 3
          ∷ key_data 3
          ∷ [];
    })
destroy_lem_example =
    destroy_lem 4 shape sample (refl, (refl, (refl, refl, refl), refl), refl) shallow

insert_copies_lem_example :
    insert_copies 9 (λ n. some (100 + n)) 0 (key_of 1) (val_of 1) sample ≡ out_of_fuel
insert_copies_lem_example =
    insert_copies_lem (λ n. some (100 + n)) (λ n. (100 + n, refl)) 9 0 (key_of 1) (val_of 1) sample

-- The root 1 has node 2 on its right, which has 4 on its left and 3 on its right.
abbrev right_heavy : World
right_heavy = record sample {
  root = some 1;
  nodes = λ p.
      if p == 1
      then record (node_of black none none 10) { right = some 2 }
      else if p == 2
      then record (node_of red (some 4) (some 1) 30) { right = some 3 }
      else if p == 3
      then node_of red none (some 2) 40
      else node_of black none (some 2) 20;
}

insert_case5_lem_example : insert_case5 3 right_heavy ≡ fault
insert_case5_lem_example = insert_case5_lem right_heavy 3 2 1 refl refl refl (inr ((λ e. cc), refl))

sample-IsSearch : IsSearch ops sample_nodes shape
unfolding ◌-ℤ◌
sample-IsSearch = (((tt, refl, tt), refl, tt), tt, ((tt, refl, tt), tt, (tt, tt, tt, tt), tt), tt)

bst_insert-IsSearch_example :
    Returns
      (λ s.
        let grown = grow (goes_left sample (key_of 25)) 7 shape in
        HasTree s.2.nodes none s.2.root grown × IsSearch ops s.2.nodes grown)
      (bst_insert 4 (some 7) (key_of 25) (val_of 1) sample)
bst_insert-IsSearch_example =
    bst_insert-IsSearch 4 7 (key_of 25) (val_of 1) sample shape tree apart outside shallow
      sample-IsSearch

print_in_order_lem_example :
    print_in_order 3 7 sample
    ≡ ok (sample, (val_of 30, black) ∷ (val_of 20, red) ∷ (val_of 10, red) ∷ [])
print_in_order_lem_example =
    print_in_order_lem 3 7 sample shape (refl, (refl, (refl, refl, refl), refl), refl) apart
      (ground (arith, shallow)) (ground (arith, shallow))

rotate_right_lem_example :
    let result = λ (left right : Option ℕ) (w' : World).
      IsRotated sample w'
        (fork (fork leaf 3 leaf) 2 leaf)
        (fork leaf 3 (fork leaf 2 leaf))
        3
        1
        left
        right in
    Returns (result (some 3) none) (rotate_left_side_right 2 sample)
    × Returns (result (some 2) (some 3)) (rotate_right_side_right 2 sample)
rotate_right_lem_example =
    rotate_right_lem sample leaf 3 leaf 2 leaf 1 (refl, (refl, refl, refl), refl) apart.4 apart.0
      refl

-- node 4 below the root on the right, and node 5 on the right of that
abbrev bent_nodes : ℕ → RbNode
bent_nodes p =
    if p == 1
    then record (node_of black none none 30) { right = some 4 }
    else if p == 4
    then record (node_of red none (some 1) 40) { right = some 5 }
    else node_of red none (some 4) 50

abbrev bent : World
bent = record { root = some 1; ops = ops; nodes = bent_nodes; freed = [] }
