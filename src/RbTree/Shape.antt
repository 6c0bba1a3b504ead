-- ===== src/RbTree/Shape.antt =====
-- The shape of a tree of nodes, with their numbers.
use libckit.Common.{
  ℕ, suc, ◌+◌, ◌≡◌, ◌≢◌, Bool, Option, none, some, List, [], ◌∷◌, ◌++◌, if◌then◌else◌,
}
use libckit.RbTree.State.{RbNode}

pub data Shape : Type 0 where
  leaf : Shape
  fork : Shape → ℕ → Shape → Shape

unfoldable pub node_count : Shape → ℕ
node_count leaf = 0
node_count (fork l n r) = suc (node_count l + node_count r)

abbrev pub All : (ℕ → Type 0) → Shape → Type 0
All P leaf = Unit {0}
All P (fork l n r) = All P l × P n × All P r

pub All-map :
    {P Q R : ℕ → Type 0} (t : Shape) → ((x : ℕ) → P x → Q x → R x) → All P t → All Q t → All R t
All-map leaf f p q = tt
All-map (fork l n r) f (pl, pn, pr) (ql, qn, qr) = (All-map l f pl ql, f n pn qn, All-map r f pr qr)

-- The node is not in the tree.
abbrev pub IsOutside : ℕ → Shape → Type 0
IsOutside p t = All (λ x. p ≢ x) t

-- No node is in the tree twice.
abbrev pub AreSeparate : Shape → Type 0
AreSeparate leaf = Unit {0}
AreSeparate (fork l n r) =
    IsOutside n l
    × IsOutside n r
    × All (λ x. IsOutside x r) l
    × All (λ x. IsOutside x l) r
    × AreSeparate l
    × AreSeparate r

-- The pointer leads to a tree of that shape, below that parent.
abbrev pub HasTree : (ℕ → RbNode) → Option ℕ → Option ℕ → Shape → Type 0
HasTree nodes parent ptr leaf = ptr ≡ none
HasTree nodes parent ptr (fork l n r) =
    (ptr ≡ some n)
    × ((nodes n).parent ≡ parent)
    × HasTree nodes (some n) (nodes n).left l
    × HasTree nodes (some n) (nodes n).right r

pub HasTree-same :
    (nodes nodes' : ℕ → RbNode) (parent ptr : Option ℕ) (t : Shape)
    → All (λ x. nodes' x ≡ nodes x) t
    → HasTree nodes parent ptr t
    → HasTree nodes' parent ptr t
HasTree-same nodes nodes' parent ptr leaf same tree = tree
HasTree-same nodes nodes' parent ptr (fork l n r) (sl, sn, sr) (e, p, left, right) = (
  e,
  rw sn p,
  HasTree-same nodes nodes' (some n) (nodes' n).left l sl (rw sn left),
  HasTree-same nodes nodes' (some n) (nodes' n).right r sr (rw sn right),
)

-- the nodes from the left to the right
abbrev pub in_order : Shape → List ℕ
in_order leaf = []
in_order (fork l n r) = in_order l ++ n ∷ in_order r

-- A new leaf, to the left of the nodes that the test says, and to the right of the others.
abbrev pub grow : (ℕ → Bool) → ℕ → Shape → Shape
grow test new leaf = fork leaf new leaf
grow test new (fork l n r) =
    if test n then fork (grow test new l) n r else fork l n (grow test new r)
