-- ===== src/NodeList/Back.antt =====
-- list_add_back
use libckit.Common.{ℕ, ◌≡◌, ◌≢◌, sym, List, [], ◌∷◌, ◌++◌, arith, ◌==◌, if◌then◌else◌}
use libckit.NodeList.{Nodes, set_next, set_prev, add_back}
use libckit.NodeList.Ring.{
  Linked, IsFresh, AreDistinct, IsRing, set_next-fields, set_prev-fields, set_next-Linked,
  set_prev-Linked,
}

last-apart :
    (s : Nodes) (a y : ℕ) (ys : List ℕ) (z : ℕ)
    → IsFresh a (y ∷ ys)
    → Linked s y ys z
    → (s z).prev ≢ a
unfolding Linked
last-apart s a y [] z (other, fresh) (n, b) = λ c. other (ground arith)
last-apart s a y (x ∷ xs) z (other, fresh) (n, b, rest) = last-apart s a x xs z fresh rest

pub IsFresh-end : (p x : ℕ) (xs : List ℕ) → IsFresh p xs → p ≢ x → IsFresh p (xs ++ x ∷ [])
IsFresh-end p x [] fresh apart = (apart, tt)
IsFresh-end p x (y ∷ ys) (other, fresh) apart = (other, IsFresh-end p x ys fresh apart)

AreDistinct-end : (x : ℕ) (xs : List ℕ) → IsFresh x xs → AreDistinct xs → AreDistinct (xs ++ x ∷ [])
AreDistinct-end x [] fresh d = (tt, tt)
AreDistinct-end x (y ∷ ys) (other, fresh) (first, d) =
    (IsFresh-end y x ys first (λ c. other (sym c)), AreDistinct-end x ys fresh d)

module _ (s : Nodes) (anchor x : ℕ) (apart : x ≢ anchor) where
  abbrev s1 : Nodes
  s1 = set_next s x anchor

  abbrev s2 : Nodes
  s2 = set_prev s1 x (s1 anchor).prev

  abbrev s3 : Nodes
  s3 = set_next s2 (s2 anchor).prev x

  add_back-next :
      (q : ℕ)
      → (add_back anchor x s q).next
        ≡ (if (s anchor).prev == q then x else if x == q then anchor else (s q).next)
  unfolding add_back
  add_back-next q = ground (
    arith,
    set_prev-fields s3 anchor x q,
    set_next-fields s2 (s2 anchor).prev x q,
    set_prev-fields s1 x (s1 anchor).prev anchor,
    set_prev-fields s1 x (s1 anchor).prev q,
    set_next-fields s x anchor q,
    set_next-fields s x anchor anchor,
  )

  add_back-prev :
      (q : ℕ)
      → (add_back anchor x s q).prev
        ≡ (if anchor == q then x else if x == q then (s anchor).prev else (s q).prev)
  unfolding add_back
  add_back-prev q = ground (
    arith,
    set_prev-fields s3 anchor x q,
    set_next-fields s2 (s2 anchor).prev x q,
    set_prev-fields s1 x (s1 anchor).prev q,
    set_next-fields s x anchor q,
    set_next-fields s x anchor anchor,
  )

  add_back-Linked :
      (a : ℕ) (xs : List ℕ)
      → x ≢ a
      → IsFresh x xs
      → IsFresh anchor xs
      → AreDistinct (a ∷ xs)
      → Linked s a xs anchor
      → Linked (add_back anchor x s) a (xs ++ x ∷ []) anchor
  unfolding Linked
  add_back-Linked a [] x_a fresh out d (n, b) = (
    ground (arith, add_back-next a),
    ground (arith, add_back-prev x),
    (ground (arith, add_back-next x), ground (arith, add_back-prev anchor)),
  )
  add_back-Linked a (y ∷ ys) x_a (x_y, fresh) (anchor_y, out) (a_ys, d) (n, b, rest) =
      let apart_last = last-apart s a y ys anchor a_ys rest in
      (
        ground (arith, add_back-next a),
        ground (arith, add_back-prev y),
        add_back-Linked y ys x_y fresh out d rest,
      )

  -- list_add_back of a node that is not the anchor of a ring, nor in it, puts it behind the others.
  pub add_back-IsRing :
      (xs : List ℕ)
      → IsFresh x xs
      → IsRing s anchor xs
      → IsRing (add_back anchor x s) anchor (xs ++ x ∷ [])
  add_back-IsRing xs fresh r = record {
    linked = add_back-Linked anchor xs apart fresh r.distinct.0 r.distinct r.linked;
    distinct = AreDistinct-end x (anchor ∷ xs) (apart, fresh) r.distinct;
  }

  last_kept : (s2 anchor).prev ≡ (s anchor).prev
  last_kept =
      ground
        (arith, set_prev-fields s1 x (s1 anchor).prev anchor, set_next-fields s x anchor anchor)

  -- list_add_back leaves a ring alone that has none of the node, the anchor and the node before it.
  pub add_back-other :
      (list : ℕ) (zs : List ℕ)
      → IsFresh x (list ∷ zs)
      → IsFresh anchor (list ∷ zs)
      → IsFresh (s anchor).prev (list ∷ zs)
      → IsRing s list zs
      → IsRing (add_back anchor x s) list zs
  unfolding add_back
  add_back-other list zs (x_a, x_zs) (u_a, u_zs) (n_a, n_zs) r =
      let linked1 = set_next-Linked s x anchor list zs list x_a x_zs r.linked in
      let linked2 = set_prev-Linked s1 x (s1 anchor).prev list zs list x_a x_zs linked1 in
      let linked3 : Linked s3 list zs list =
        rw last_kept (set_next-Linked s2 (s anchor).prev x list zs list n_a n_zs linked2) in
      record {
        linked = set_prev-Linked s3 anchor x list zs list u_a u_zs linked3;
        distinct = r.distinct;
      }
