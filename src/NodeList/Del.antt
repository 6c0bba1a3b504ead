-- ===== src/NodeList/Del.antt =====
-- list_del
use libckit.Common.{ℕ, ◌≡◌, ◌≢◌, sym, List, [], ◌∷◌, ◌++◌, arith, ◌==◌, if◌then◌else◌}
use libckit.NodeList.{Nodes, set_next, set_prev, del}
use libckit.NodeList.Ring.{
  Linked, IsFresh, AreDistinct, IsRing, set_next-fields, set_prev-fields, set_next-Linked,
  set_prev-Linked,
}

pub IsFresh-drop :
    (p x : ℕ) (xs ys : List ℕ) → IsFresh p (xs ++ x ∷ ys) → (p ≢ x) × IsFresh p (xs ++ ys)
IsFresh-drop p x [] ys (other, fresh) = (other, fresh)
IsFresh-drop p x (y ∷ xs) ys (other, fresh) =
    let (apart, rest) = IsFresh-drop p x xs ys fresh in (apart, (other, rest))

AreDistinct-drop : (x : ℕ) (xs ys : List ℕ) → AreDistinct (xs ++ x ∷ ys) → AreDistinct (xs ++ ys)
AreDistinct-drop x [] ys (first, d) = d
AreDistinct-drop x (y ∷ xs) ys (first, d) =
    ((IsFresh-drop y x xs ys first).1, AreDistinct-drop x xs ys d)

module _ (s : Nodes) (x : ℕ) where
  abbrev before : ℕ
  before = (s x).prev

  abbrev after : ℕ
  after = (s x).next

  abbrev s1 : Nodes
  s1 = set_next s before after

  abbrev s2 : Nodes
  s2 = set_prev s1 (s1 x).next (s1 x).prev

  del-next :
      (q : ℕ) → (del x s q).next ≡ (if x == q then x else if before == q then after else (s q).next)
  unfolding del
  del-next q = ground (
    arith,
    set_next-fields (set_prev s2 x x) x x q,
    set_prev-fields s2 x x q,
    set_prev-fields s1 (s1 x).next (s1 x).prev q,
    set_next-fields s before after q,
  )

  del-prev :
      (q : ℕ) → (del x s q).prev ≡ (if x == q then x else if after == q then before else (s q).prev)
  unfolding del
  del-prev q = ground (
    arith,
    set_next-fields (set_prev s2 x x) x x q,
    set_prev-fields s2 x x q,
    set_prev-fields s1 (s1 x).next (s1 x).prev q,
    set_next-fields s before after q,
    set_next-fields s before after x,
  )

  before-apart :
      (a b z : ℕ) (bs ys : List ℕ)
      → IsFresh a (b ∷ bs ++ x ∷ ys)
      → Linked s b (bs ++ x ∷ ys) z
      → before ≢ a
  unfolding Linked
  before-apart a b z [] ys (other, fresh) (n, p, rest) = λ c. other (ground arith)
  before-apart a b z (y ∷ bs) ys (other, fresh) (n, p, rest) = before-apart a y z bs ys fresh rest

  after-apart :
      (c b z : ℕ) (bs ys : List ℕ)
      → c ≢ z
      → IsFresh c (bs ++ x ∷ ys)
      → Linked s b (bs ++ x ∷ ys) z
      → after ≢ c
  unfolding Linked
  after-apart c b z [] [] end fresh (n, p, rest) = λ e. end (ground arith)
  after-apart c b z [] (y ∷ ys) end (other, fresh) (n, p, rest) = λ e. fresh.0 (ground arith)
  after-apart c b z (y ∷ bs) ys end (other, fresh) (n, p, rest) =
      after-apart c y z bs ys end fresh rest

  del-rest :
      (a y : ℕ) (ys : List ℕ) (z : ℕ)
      → before ≡ a
      → after ≡ y
      → x ≢ z
      → z ≢ y
      → AreDistinct (a ∷ x ∷ y ∷ ys)
      → Linked s y ys z
      → Linked (del x s) y ys z
  unfolding del
  del-rest a y ys z p n x_z z_y ((a_x, (a_y, a_ys)), ((x_y, x_ys), (y_ys, d))) rest =
      let e : (s1 x).next ≡ y = ground (arith, set_next-fields s before after x) in
      let not_y : before ≢ y = rw p a_y in
      let not_ys : IsFresh before ys = rw p a_ys in
      let rest1 = set_next-Linked s before after y ys z not_y not_ys rest in
      let rest2 : Linked s2 y ys z =
        set_prev-Linked s1 (s1 x).next (s1 x).prev y ys z (rw e (λ c. z_y (sym c))) (rw e y_ys)
          rest1 in
      set_next-Linked (set_prev s2 x x) x x y ys z x_y x_ys
        (set_prev-Linked s2 x x y ys z x_z x_ys rest2)

  del-Linked :
      (a : ℕ) (xs ys : List ℕ) (z : ℕ)
      → AreDistinct (a ∷ xs ++ x ∷ ys)
      → IsFresh z (xs ++ x ∷ ys)
      → Linked s a (xs ++ x ∷ ys) z
      → Linked (del x s) a (xs ++ ys) z
  unfolding Linked
  del-Linked a [] [] z d out (n, p, (n', p')) =
      (ground (arith, del-next a), ground (arith, del-prev z))
  del-Linked a [] (y ∷ ys) z d out (n, p, (n', p', rest)) = (
    ground (arith, del-next a),
    ground (arith, del-prev y),
    del-rest a y ys z p n' (λ c. out.0 (sym c)) out.1.0 d rest,
  )
  del-Linked a (b ∷ bs) ys z (a_bs, d) (z_b, out) (n, p, rest) =
      let not_before = before-apart a b z bs ys a_bs rest in
      let not_after = after-apart b b z bs ys (λ c. z_b (sym c)) d.0 rest in
      let a_x = (IsFresh-drop a x (b ∷ bs) ys a_bs).0 in
      let b_x = (IsFresh-drop b x bs ys d.0).0 in
      (ground (arith, del-next a), ground (arith, del-prev b), del-Linked b bs ys z d out rest)

  -- list_del takes a node out of a ring: the others stay in order, and the node is in a ring of its
  -- own.
  pub del-IsRing :
      (anchor : ℕ) (xs ys : List ℕ)
      → IsRing s anchor (xs ++ x ∷ ys)
      → IsRing (del x s) anchor (xs ++ ys) × IsRing (del x s) x []
  unfolding Linked
  del-IsRing anchor xs ys r = (
    record {
      linked = del-Linked anchor xs ys anchor r.distinct r.distinct.0 r.linked;
      distinct = AreDistinct-drop x (anchor ∷ xs) ys r.distinct;
    },
    record {
      linked = (ground (arith, del-next x), ground (arith, del-prev x));
      distinct = (tt, tt);
    },
  )

  -- list_del leaves a ring alone that has neither the node nor those beside it.
  pub del-other :
      (anchor : ℕ) (xs : List ℕ)
      → IsFresh before (anchor ∷ xs)
      → IsFresh after (anchor ∷ xs)
      → IsFresh x (anchor ∷ xs)
      → IsRing s anchor xs
      → IsRing (del x s) anchor xs
  unfolding del
  del-other anchor xs (b_a, b_xs) (n_a, n_xs) (x_a, x_xs) r =
      let e : (s1 x).next ≡ after = ground (arith, set_next-fields s before after x) in
      let linked1 = set_next-Linked s before after anchor xs anchor b_a b_xs r.linked in
      let linked2 : Linked s2 anchor xs anchor =
        set_prev-Linked s1 (s1 x).next (s1 x).prev anchor xs anchor (rw e n_a) (rw e n_xs)
          linked1 in
      record {
        linked =
            set_next-Linked (set_prev s2 x x) x x anchor xs anchor x_a x_xs
              (set_prev-Linked s2 x x anchor xs anchor x_a x_xs linked2);
        distinct = r.distinct;
      }
