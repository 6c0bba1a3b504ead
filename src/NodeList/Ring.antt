-- ===== src/NodeList/Ring.antt =====
-- What the operations of include/ckit/list.h do to the sequence of nodes around an anchor.
use libckit.Common.{ℕ, ◌≡◌, ◌≢◌, sym, ◌∙◌, List, [], ◌∷◌, true, false, arith, ◌==◌, if◌then◌else◌}
use libckit.NodeList.{Nodes, set_next, set_prev, init, add_front, empty}

-- From `a` the links go on to the nodes of a list, and then to `z`, and back again.
unfoldable pub Linked : Nodes → ℕ → List ℕ → ℕ → Type 0
Linked s a [] z = ((s a).next ≡ z) × ((s z).prev ≡ a)
Linked s a (x ∷ xs) z = ((s a).next ≡ x) × ((s x).prev ≡ a) × Linked s x xs z

abbrev pub IsFresh : ℕ → List ℕ → Type 0
IsFresh p [] = Unit {0}
IsFresh p (x ∷ xs) = (p ≢ x) × IsFresh p xs

abbrev pub AreDistinct : List ℕ → Type 0
AreDistinct [] = Unit {0}
AreDistinct (x ∷ xs) = IsFresh x xs × AreDistinct xs

-- The nodes of `xs`, in order, are those of the list around `anchor`.
pub record IsRing (s : Nodes) (anchor : ℕ) (xs : List ℕ) : Type 0 where
  pub linked : Linked s anchor xs anchor
  pub distinct : AreDistinct (anchor ∷ xs)

pub set_next-fields :
    (s : Nodes) (p v q : ℕ)
    → ((set_next s p v q).next ≡ (if p == q then v else (s q).next))
      × ((set_next s p v q).prev ≡ (s q).prev)
unfolding set_next
set_next-fields s p v q = ground arith

pub set_prev-fields :
    (s : Nodes) (p v q : ℕ)
    → ((set_prev s p v q).prev ≡ (if p == q then v else (s q).prev))
      × ((set_prev s p v q).next ≡ (s q).next)
unfolding set_prev
set_prev-fields s p v q = ground arith

pub set_next-Linked :
    (s : Nodes) (p v a : ℕ) (xs : List ℕ) (z : ℕ)
    → p ≢ a
    → IsFresh p xs
    → Linked s a xs z
    → Linked (set_next s p v) a xs z
unfolding Linked
set_next-Linked s p v a [] z apart fresh (n, b) =
    (ground (arith, set_next-fields s p v a), ground (arith, set_next-fields s p v z))
set_next-Linked s p v a (x ∷ xs) z apart (other, fresh) (n, b, rest) = (
  ground (arith, set_next-fields s p v a),
  ground (arith, set_next-fields s p v x),
  set_next-Linked s p v x xs z other fresh rest,
)

pub set_prev-Linked :
    (s : Nodes) (p v a : ℕ) (xs : List ℕ) (z : ℕ)
    → p ≢ z
    → IsFresh p xs
    → Linked s a xs z
    → Linked (set_prev s p v) a xs z
unfolding Linked
set_prev-Linked s p v a [] z apart fresh (n, b) =
    (ground (arith, set_prev-fields s p v a), ground (arith, set_prev-fields s p v z))
set_prev-Linked s p v a (x ∷ xs) z apart (other, fresh) (n, b, rest) = (
  ground (arith, set_prev-fields s p v a),
  ground (arith, set_prev-fields s p v x),
  set_prev-Linked s p v x xs z apart fresh rest,
)

module _ (s : Nodes) (anchor x : ℕ) (apart : x ≢ anchor) where
  abbrev s1 : Nodes
  s1 = set_next s x (s anchor).next

  abbrev s2 : Nodes
  s2 = set_prev s1 x anchor

  abbrev s3 : Nodes
  s3 = set_prev s2 (s2 anchor).next x

  first_kept : (s2 anchor).next ≡ (s anchor).next
  first_kept =
      ground (arith, set_prev-fields s1 x anchor anchor, set_next-fields s x (s anchor).next anchor)

  add_front-next :
      (q : ℕ)
      → (add_front anchor x s q).next
        ≡ (if anchor == q then x else if x == q then (s anchor).next else (s q).next)
  unfolding add_front
  add_front-next q = ground (
    arith,
    set_next-fields s3 anchor x q,
    set_prev-fields s2 (s2 anchor).next x q,
    set_prev-fields s1 x anchor q,
    set_next-fields s x (s anchor).next q,
  )

  add_front-prev :
      (q : ℕ)
      → (add_front anchor x s q).prev
        ≡ (if (s anchor).next == q then x else if x == q then anchor else (s q).prev)
  unfolding add_front
  add_front-prev q = ground (
    arith,
    first_kept,
    set_next-fields s3 anchor x q,
    set_prev-fields s2 (s2 anchor).next x q,
    set_prev-fields s1 x anchor q,
    set_next-fields s x (s anchor).next q,
  )

  add_front-rest :
      (y : ℕ) (ys : List ℕ)
      → (s anchor).next ≡ y
      → x ≢ y
      → IsFresh x ys
      → AreDistinct (anchor ∷ y ∷ ys)
      → Linked s y ys anchor
      → Linked (add_front anchor x s) y ys anchor
  unfolding add_front
  add_front-rest y ys n other fresh ((a_y, a_ys), (y_ys, d)) rest =
      let e : (s2 anchor).next ≡ y = first_kept ∙ n in
      let rest2 =
        set_prev-Linked s1 x anchor y ys anchor apart fresh
          (set_next-Linked s x (s anchor).next y ys anchor other fresh rest) in
      let rest3 : Linked s3 y ys anchor =
        rw e (set_prev-Linked s2 y x y ys anchor (λ c. a_y (sym c)) y_ys rest2) in
      set_next-Linked s3 anchor x y ys anchor a_y a_ys rest3

  -- list_add_front of a node that is not the anchor of a ring, nor in it, puts it before the
  -- others.
  pub add_front-IsRing :
      (xs : List ℕ)
      → IsFresh x xs
      → IsRing s anchor xs
      → IsRing (add_front anchor x s) anchor (x ∷ xs)
  unfolding Linked
  add_front-IsRing [] fresh r =
      let (n, b) = r.linked in
      record {
        linked = (
          ground (arith, add_front-next anchor),
          ground (arith, add_front-prev x),
          (ground (arith, add_front-next x), ground (arith, add_front-prev anchor)),
        );
        distinct = ((λ c. apart (sym c), tt), (tt, tt));
      }
  add_front-IsRing (y ∷ ys) (other, fresh) r =
      let (n, b, rest) = r.linked in
      record {
        linked = (
          ground (arith, add_front-next anchor),
          ground (arith, add_front-prev x),
          (
            ground (arith, add_front-next x),
            ground (arith, add_front-prev y),
            add_front-rest y ys n other fresh r.distinct rest,
          ),
        );
        distinct = ((λ c. apart (sym c), r.distinct.0), ((other, fresh), r.distinct.1));
      }

-- list_add_front leaves a ring alone that has none of the node, the anchor and the node behind it.
pub add_front-other :
    (s : Nodes) (anchor x : ℕ) (list : ℕ) (zs : List ℕ)
    → x ≢ anchor
    → IsFresh x (list ∷ zs)
    → IsFresh anchor (list ∷ zs)
    → IsFresh (s anchor).next (list ∷ zs)
    → IsRing s list zs
    → IsRing (add_front anchor x s) list zs
unfolding add_front
add_front-other s anchor x list zs apart (x_a, x_zs) (u_a, u_zs) (n_a, n_zs) r =
    let e = first_kept s anchor x apart in
    let linked1 = set_next-Linked s x (s anchor).next list zs list x_a x_zs r.linked in
    let linked2 = set_prev-Linked (s1 s anchor x apart) x anchor list zs list x_a x_zs linked1 in
    let linked3 : Linked (s3 s anchor x apart) list zs list =
      rw e
        (set_prev-Linked (s2 s anchor x apart) (s anchor).next x list zs list n_a n_zs linked2) in
    record {
      linked = set_next-Linked (s3 s anchor x apart) anchor x list zs list u_a u_zs linked3;
      distinct = r.distinct;
    }

pub init-fields :
    (s : Nodes) (list q : ℕ)
    → ((init list s q).next ≡ (if list == q then list else (s q).next))
      × ((init list s q).prev ≡ (if list == q then list else (s q).prev))
unfolding init
init-fields s list q =
    ground
      (arith, set_next-fields (set_prev s list list) list list q, set_prev-fields s list list q)

-- INIT_LIST makes an empty ring, and list_empty finds out whether a ring is empty.
pub empty_lem :
    (s : Nodes) (anchor : ℕ) (xs : List ℕ)
    → IsRing s anchor xs
    → IsRing (init anchor s) anchor []
      × (empty anchor s ≡ (elim xs [ [] ↦ true | ◌∷◌ x rest ↦ false ]))
unfolding init Linked
empty_lem s anchor xs r = (
  record {
    linked = (
      ground (arith, set_next-fields (set_prev s anchor anchor) anchor anchor anchor),
      ground (
        arith,
        set_next-fields (set_prev s anchor anchor) anchor anchor anchor,
        set_prev-fields s anchor anchor anchor,
      ),
    );
    distinct = (tt, tt);
  },
  go xs r,
)
  where
    go :
        (ys : List ℕ)
        → IsRing s anchor ys
        → empty anchor s ≡ (elim ys [ [] ↦ true | ◌∷◌ y rest ↦ false ])
    go [] r = ground (arith, r.linked)
    go (y ∷ ys) r = ground (arith, r.linked, r.distinct)
