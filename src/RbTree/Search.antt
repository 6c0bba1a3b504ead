-- ===== src/RbTree/Search.antt =====
-- The order of the keys in a tree, through bst_insert
use libckit.Common.{
  ℕ, ◌<◌, ◌≡◌, ◌≢◌, refl, ap, sym, ◌∙◌, Bool, true, false, none, some, Bool-cases, inl, inr,
}
use libckit.Common.Int.{pos, ltb_ℤ}
use libckit.Common.Run.{Returns, Returns-map}
use libckit.RbTree.{bst_insert}
use libckit.RbTree.State.{Color, RbKey, RbValue, Ops, RbNode, World}
use libckit.RbTree.Shape.{
  Shape, leaf, fork, node_count, All, All-map, IsOutside, AreSeparate, HasTree, grow,
}
use libckit.RbTree.Grown.{goes_left}
use libckit.RbTree.Insert.{bst_insert_lem}

-- The first key goes to the left of the second.
abbrev pub less : Ops → RbKey → RbKey → Bool
less ops a b = ltb_ℤ (ops.key_compare a b) (pos 0)

-- The keys to the left of each node are less than its key, and those to the right are not.
abbrev pub IsSearch : Ops → (ℕ → RbNode) → Shape → Type 0
IsSearch ops nodes leaf = Unit {0}
IsSearch ops nodes (fork l n r) =
    All (λ x. less ops (nodes x).key (nodes n).key ≡ true) l
    × All (λ x. less ops (nodes x).key (nodes n).key ≡ false) r
    × IsSearch ops nodes l
    × IsSearch ops nodes r

All-weaken : {P Q : ℕ → Type 0} (t : Shape) → ((x : ℕ) → P x → Q x) → All P t → All Q t
All-weaken t f p = All-map t (λ x px qx. f x px) p p

grow-All :
    (P : ℕ → Type 0) (test : ℕ → Bool) (new : ℕ) (t : Shape)
    → P new
    → All P t
    → All P (grow test new t)
grow-All P test new leaf here all = (tt, here, tt)
grow-All P test new (fork l n r) here (all_l, at, all_r) = elim (Bool-cases (test n)) [
  | inl goes ↦ rw goes (grow-All P test new l here all_l, at, all_r)
  | inr stays ↦ rw stays (all_l, at, grow-All P test new r here all_r)
]

-- A new leaf keeps the order, if the test compares its key with those of the nodes.
grow-IsSearch :
    (ops : Ops) (nodes : ℕ → RbNode) (test : ℕ → Bool) (new : ℕ) (t : Shape)
    → All (λ x. test x ≡ less ops (nodes new).key (nodes x).key) t
    → IsSearch ops nodes t
    → IsSearch ops nodes (grow test new t)
grow-IsSearch ops nodes test new leaf fair ordered = (tt, tt, tt, tt)
grow-IsSearch ops nodes test new (fork l n r) (fair_l, fair, fair_r) (low, high, sl, sr) =
    elim (Bool-cases (test n)) [
      | inl goes ↦ rw goes (
        grow-All (λ x. less ops (nodes x).key (nodes n).key ≡ true) test new l (sym fair ∙ goes)
            low,
        high,
        grow-IsSearch ops nodes test new l fair_l sl,
        sr,
      )
      | inr stays ↦ rw stays (
        low,
        grow-All (λ x. less ops (nodes x).key (nodes n).key ≡ false) test new r (sym fair ∙ stays)
            high,
        sl,
        grow-IsSearch ops nodes test new r fair_r sr,
      )
    ]

less-same :
    (ops : Ops) {a a' b b' : RbKey} {answer : Bool}
    → a' ≡ a
    → b' ≡ b
    → less ops a b ≡ answer
    → less ops a' b' ≡ answer
less-same ops p q e = rw (p, q) e

IsSearch-same :
    (ops : Ops) (nodes nodes' : ℕ → RbNode) (t : Shape)
    → All (λ x. (nodes' x).key ≡ (nodes x).key) t
    → IsSearch ops nodes t
    → IsSearch ops nodes' t
IsSearch-same ops nodes nodes' leaf same ordered = tt
IsSearch-same ops nodes nodes' (fork l n r) (same_l, same, same_r) (low, high, sl, sr) = (
  All-map l (λ x e lt. less-same ops e same lt) same_l low,
  All-map r (λ x e ge. less-same ops e same ge) same_r high,
  IsSearch-same ops nodes nodes' l same_l sl,
  IsSearch-same ops nodes nodes' r same_r sr,
)

-- bst_insert keeps a search tree: if the keys to the left of each node compare as less than its key
-- and those to the right do not, then this holds of the tree with the new node too, whatever
-- `key_compare` is. The conditions are those of bst_insert_lem.
pub bst_insert-IsSearch :
    (k new : ℕ) (key : RbKey) (val : RbValue) (w : World) (t : Shape)
    → HasTree w.nodes none w.root t
    → AreSeparate t
    → IsOutside new t
    → node_count t < k
    → IsSearch w.ops w.nodes t
    → Returns
        (λ s.
          let grown = grow (goes_left w key) new t in
          HasTree s.2.nodes none s.2.root grown × IsSearch w.ops s.2.nodes grown)
        (bst_insert k (some new) key val w)
bst_insert-IsSearch k new key val w t tree apart outside fuel ordered =
    Returns-map (bst_insert_lem k new key val w t tree apart outside fuel)
      λ s (status, ptr, tree', frame, kept, fresh).
        let key_of = λ (q : Color × RbKey × RbValue). q.1 in
        let same = λ (x : ℕ) (ne : new ≢ x). ap key_of (kept x (λ c. ne (sym c))) in
        let key_new : (s.2.nodes new).key ≡ key = ap key_of fresh in
        (
          tree',
          grow-IsSearch w.ops s.2.nodes (goes_left w key) new t
              (All-weaken t (λ x ne. rw (same x ne, key_new) refl) outside)
              (IsSearch-same w.ops w.nodes s.2.nodes t (All-weaken t same outside) ordered),
        )
