-- ===== src/RbTree/Walk.antt =====
-- rb_tree_print_in_order, which prints by debug messages. What is printed of a node is its value
-- and its colour.
use libckit.Common.{ℕ, zero, suc, true, false, Option, none, some, List, [], ◌∷◌, ◌==◌}
use libckit.Common.Run.{Run, ok, out_of_fuel, ◌>>=◌}
use libckit.RbTree.State.{Color, RbValue, World, set_right}

-- the inner loop of rb_tree_print_in_order
unfoldable pub predecessor : ℕ → ℕ → ℕ → World → Run ℕ
predecessor zero prev curr w = out_of_fuel
predecessor (suc d) prev curr w = elim (w.nodes prev).right [
  | none ↦ ok prev
  | some next ↦ elim (next == curr) [ true ↦ ok prev | false ↦ predecessor d next curr w ]
]

-- what is printed of a node
abbrev pub line : World → ℕ → RbValue × Color
line w n = ((w.nodes n).val, (w.nodes n).color)

-- the outer loop, where each run of the inner one has `d` rounds; the last line is in front
unfoldable pub print_from :
    ℕ → ℕ → Option ℕ → World → List (RbValue × Color) → Run (World × List (RbValue × Color))
print_from d zero ptr w printed = out_of_fuel
print_from d (suc k) none w printed = ok (w, printed)
print_from d (suc k) (some curr) w printed = elim (w.nodes curr).left [
  | none ↦ print_from d k (w.nodes curr).right w (line w curr ∷ printed)
  | some left ↦ predecessor d left curr w >>= λ prev. elim (w.nodes prev).right [
    | none ↦ print_from d k (some left) (set_right prev (some curr) w) printed
    | some back ↦
        let w' = set_right prev none w in
        print_from d k (w'.nodes curr).right w' (line w' curr ∷ printed)
  ]
]

unfoldable pub print_in_order : ℕ → ℕ → World → Run (World × List (RbValue × Color))
print_in_order d k w = print_from d k w.root w []
