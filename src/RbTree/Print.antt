-- ===== src/RbTree/Print.antt =====
-- rb_tree_print_in_order, which threads the tree while it walks, and takes the threads out again
use libckit.Common.{
  ℕ, suc, ◌+◌, ◌≤◌, ◌<◌, ◌≡◌, refl, ap, sym, ◌∙◌, fun_ext, true, Option, none, some, List, [], ◌∷◌,
  ◌++◌, map, arith, ◌*◌, ◌-◌, ◌==◌, Bool-cases, inl, inr,
}
use mathlib.Core.List.{reverse, reverse-append, reverse-cons, append_assoc, append-nil, map-append}
use libckit.Common.Run.{ok}
use libckit.RbTree.Walk.{predecessor, print_from, print_in_order, line}
use libckit.RbTree.State.{Color, RbValue, RbNode, World, set_node, set_right}
use libckit.RbTree.Shape.{Shape, leaf, fork, node_count, AreSeparate, in_order}
use libckit.RbTree.Spine.{
  HasSpine, last, last-right, is_none, is_back, predecessor_lem, set_right-left, set_right-here,
  HasSpine-set,
}

-- how many rounds of the outer loop a tree takes
abbrev pub turns : Shape → ℕ
turns leaf = 0
turns (fork leaf n r) = suc (turns r)
turns (fork (fork a m b) n r) = suc (turns (fork a m b) + suc (turns r))

-- the lines of a tree in front of those that are there
abbrev spill : World → Shape → List (RbValue × Color) → List (RbValue × Color)
spill w leaf printed = printed
spill w (fork l n r) printed = spill w r (line w n ∷ spill w l printed)

spill-same :
    (w w' : World) (t : Shape) (printed : List (RbValue × Color))
    → ((x : ℕ) → line w' x ≡ line w x)
    → spill w' t printed ≡ spill w t printed
spill-same w w' leaf printed same = refl
spill-same w w' (fork l n r) printed same =
    spill-same w w' r (line w' n ∷ spill w' l printed) same
    ∙ rw (same n, spill-same w w' l printed same) refl

restore :
    (z n : ℕ) (w : World) → (w.nodes z).right ≡ none → set_right z none (set_right z (some n) w) ≡ w
unfolding set_node
restore z n w e =
    ap (λ (nodes : ℕ → RbNode). record w { nodes = nodes })
      (fun_ext λ p. elim (Bool-cases (z == p)) [
        | inl here ↦
            let at : z ≡ p = ground arith in
            let this : (z == z) ≡ true = ground arith in
            rw (here, this)
              (ap (λ (next : Option ℕ). record (w.nodes z) { right = next }) (sym e)
                ∙ ap w.nodes at)
        | inr away ↦ ground arith
      ])

line-set_right :
    (z : ℕ) (next : Option ℕ) (w : World) (x : ℕ) → line (set_right z next w) x ≡ line w x
unfolding set_node
line-set_right z next w x = ground arith

module _ (d k : ℕ) (w : World) (printed : List (RbValue × Color)) where
  print-end :
      (curr : ℕ)
      → (w.nodes curr).left ≡ none
      → print_from d (suc k) (some curr) w printed
        ≡ print_from d k (w.nodes curr).right w (line w curr ∷ printed)
  unfolding print_from
  print-end curr e = rw (print_from, e) refl

  print-descend :
      (curr left prev : ℕ)
      → (w.nodes curr).left ≡ some left
      → predecessor d left curr w ≡ ok prev
      → (w.nodes prev).right ≡ none
      → print_from d (suc k) (some curr) w printed
        ≡ print_from d k (some left) (set_right prev (some curr) w) printed
  unfolding print_from
  print-descend curr left prev e p r = rw (print_from, e, p, r) refl

  print-return :
      (curr left prev back : ℕ)
      → (w.nodes curr).left ≡ some left
      → predecessor d left curr w ≡ ok prev
      → (w.nodes prev).right ≡ some back
      → let w' = set_right prev none w in
        print_from d (suc k) (some curr) w printed
        ≡ print_from d k (w'.nodes curr).right w' (line w' curr ∷ printed)
  unfolding print_from
  print-return curr left prev back e p r = rw (print_from, e, p, r) refl

print_from_lem :
    (d k : ℕ) (w : World) (ptr exit : Option ℕ) (t : Shape) (printed : List (RbValue × Color))
    → HasSpine w.nodes ptr exit t
    → AreSeparate t
    → node_count t ≤ d
    → print_from d (turns t + k) ptr w printed ≡ print_from d k exit w (spill w t printed)
unfolding node_count
print_from_lem d k w ptr exit leaf printed tree apart fits =
    let none_more : 0 + k ≡ k = omega arith in rw (none_more, tree) refl
print_from_lem d k w ptr exit (fork leaf n r) printed (e, left, right) apart fits =
    let more : suc (turns r) + k ≡ suc (turns r + k) = omega arith in
    rw (more, e)
      (print-end d (turns r + k) w printed n left
        ∙ print_from_lem d k w (w.nodes n).right exit r (line w n ∷ printed) right apart.5
            (omega arith))
print_from_lem d k w ptr exit (fork (fork a m b) n r) printed (e, left, right) apart fits =
    let l = fork a m b in
    let z = last m b in
    let rest = turns r + k in
    let w1 = set_right z (some n) w in
    let more : turns (fork l n r) + k ≡ suc (turns l + suc rest) = omega arith in
    let root = left.0 in
    let spine : HasSpine w.nodes (some m) none l = (refl, left.1, left.2) in
    let stop = last-right w.nodes none m b left.2 in
    let threaded = HasSpine-set w none (some n) a m b apart.4 spine in
    let out = apart.0.2 in
    let down = predecessor_lem d m n w b is_none left.2 out (omega arith) in
    let again = predecessor_lem d m n w1 b is_back threaded.2 out (omega arith) in
    let same = line-set_right z (some n) w in
    rw (more, e)
      (print-descend d (turns l + suc rest) w printed n m z root down stop
        ∙ print_from_lem d (suc rest) w1 (some m) (some n) (fork a m b) printed threaded apart.4
            (omega arith)
        ∙ print-return d rest w1 (spill w1 l printed) n m z n (set_right-left z (some n) w n ∙ root)
            again (set_right-here z (some n) w)
        ∙ ap (λ (v : World). print_from d rest (v.nodes n).right v (line v n ∷ spill w1 l printed))
            (restore z n w stop)
        ∙ ap
            (λ (lines : List (RbValue × Color)).
              print_from d rest (w.nodes n).right w (line w n ∷ lines))
            (spill-same w w1 l printed same)
        ∙ print_from_lem d k w (w.nodes n).right exit r (line w n ∷ spill w l printed) right apart.5
            (omega arith))

spill_lem :
    (w : World) (t : Shape) (printed : List (RbValue × Color))
    → spill w t printed ≡ reverse (map (line w) (in_order t)) ++ printed
spill_lem w leaf printed = refl
spill_lem w (fork l n r) printed =
    spill_lem w r (line w n ∷ spill w l printed)
    ∙ rw (spill_lem w l printed)
        (sym (simp (map-append, reverse-append, reverse-cons, append_assoc)))

turns-le : (t : Shape) → turns t ≤ 2 * node_count t
unfolding node_count
turns-le leaf = omega arith
turns-le (fork leaf n r) = omega (arith, turns-le r)
turns-le (fork (fork a m b) n r) = omega (arith, turns-le (fork a m b), turns-le r)

-- rb_tree_print_in_order of a tree whose nodes are separate returns, if its inner loop has as many
-- rounds as the tree has nodes, and its outer loop has more than twice as many: it has printed each
-- node once, from the left to the right, and the tree is as it was, all threads taken out.
pub print_in_order_lem :
    (d k : ℕ) (w : World) (t : Shape)
    → HasSpine w.nodes w.root none t
    → AreSeparate t
    → node_count t ≤ d
    → 2 * node_count t < k
    → print_in_order d k w ≡ ok (w, reverse (map (line w) (in_order t)))
unfolding print_in_order print_from
print_in_order_lem d k w t tree apart deep fuel =
    let rest = k - turns t - 1 in
    let split : k ≡ turns t + suc rest = omega (arith, turns-le t) in
    rw (print_in_order, split)
      (print_from_lem d (suc rest) w w.root none t [] tree apart deep
        ∙ ap (λ (lines : List (RbValue × Color)). ok (w, lines))
            (spill_lem w t [] ∙ append-nil (reverse (map (line w) (in_order t)))))
