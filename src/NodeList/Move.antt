-- ===== src/NodeList/Move.antt =====
-- list_move
use libckit.Common.{ℕ, sym, List, [], ◌∷◌, ◌++◌}
use libckit.NodeList.{Nodes, del, move}
use libckit.NodeList.Ring.{Linked, IsFresh, AreDistinct, IsRing, add_front-IsRing, add_front-other}
use libckit.NodeList.Del.{IsFresh-drop, del-IsRing, del-other}

-- None of `zs` is in `us`.
abbrev pub AreApart : List ℕ → List ℕ → Type 0
AreApart [] us = Unit {0}
AreApart (z ∷ zs) us = IsFresh z us × AreApart zs us

pub AreApart-first : (u : ℕ) (us zs : List ℕ) → AreApart zs (u ∷ us) → IsFresh u zs
AreApart-first u us [] apart = tt
AreApart-first u us (z ∷ zs) ((z_u, z_us), apart) =
    ((λ c. z_u (sym c)), AreApart-first u us zs apart)

AreApart-tail : (u : ℕ) (us zs : List ℕ) → AreApart zs (u ∷ us) → AreApart zs us
AreApart-tail u us [] apart = tt
AreApart-tail u us (z ∷ zs) ((z_u, z_us), apart) = (z_us, AreApart-tail u us zs apart)

pub AreApart-middle :
    (x : ℕ) (xs ys us : List ℕ) → AreApart (xs ++ x ∷ ys) us → IsFresh x us × AreApart (xs ++ ys) us
AreApart-middle x [] ys us (fresh, apart) = (fresh, apart)
AreApart-middle x (z ∷ xs) ys us (first, apart) =
    let (fresh, rest) = AreApart-middle x xs ys us apart in (fresh, (first, rest))

pub IsFresh-middle : (x : ℕ) (xs ys : List ℕ) → AreDistinct (xs ++ x ∷ ys) → IsFresh x (xs ++ ys)
IsFresh-middle x [] ys (fresh, d) = fresh
IsFresh-middle x (z ∷ xs) ys (fresh, d) =
    ((λ c. (IsFresh-drop z x xs ys fresh).0 (sym c)), IsFresh-middle x xs ys d)

pub before-apart_from :
    (s : Nodes) (x b z : ℕ) (bs ys us : List ℕ)
    → AreApart (b ∷ bs ++ x ∷ ys) us
    → Linked s b (bs ++ x ∷ ys) z
    → IsFresh (s x).prev us
unfolding Linked
before-apart_from s x b z [] ys us (fresh, apart) (n, p, rest) = rw p fresh
before-apart_from s x b z (y ∷ bs) ys us (fresh, apart) (n, p, rest) =
    before-apart_from s x y z bs ys us apart rest

pub after-apart_from :
    (s : Nodes) (x b z : ℕ) (bs ys us : List ℕ)
    → IsFresh z us
    → AreApart (bs ++ x ∷ ys) us
    → Linked s b (bs ++ x ∷ ys) z
    → IsFresh (s x).next us
unfolding Linked
after-apart_from s x b z [] [] us end (fresh, apart) (n, p, (n', p')) = rw n' end
after-apart_from s x b z [] (y ∷ ys) us end (fresh, apart) (n, p, (n', p', rest)) = rw n' apart.0
after-apart_from s x b z (y ∷ bs) ys us end (fresh, apart) (n, p, rest) =
    after-apart_from s x y z bs ys us end apart rest

pub first-apart :
    (s : Nodes) (anchor : ℕ) (us zs : List ℕ)
    → AreApart zs (anchor ∷ us)
    → IsRing s anchor us
    → IsFresh (s anchor).next zs
unfolding Linked
first-apart s anchor [] zs apart r = rw (r.linked.0) (AreApart-first anchor [] zs apart)
first-apart s anchor (u ∷ us) zs apart r =
    rw (r.linked.0) (AreApart-first u us zs (AreApart-tail anchor (u ∷ us) zs apart))

-- list_move takes a node out of one ring and puts it in front of another, if the two rings, their
-- anchors included, have no node in common. The others stay in order.
pub move-IsRing :
    (s : Nodes) (x from to : ℕ) (xs ys us : List ℕ)
    → IsRing s from (xs ++ x ∷ ys)
    → IsRing s to us
    → AreApart (from ∷ xs ++ x ∷ ys) (to ∷ us)
    → IsRing (move x to s) from (xs ++ ys) × IsRing (move x to s) to (x ∷ us)
unfolding move
move-IsRing s x from to xs ys us r t apart =
    let (x_fresh, rest_apart) = AreApart-middle x (from ∷ xs) ys (to ∷ us) apart in
    let (left, alone) = del-IsRing s x from xs ys r in
    let before_fresh = before-apart_from s x from from xs ys (to ∷ us) apart r.linked in
    let after_fresh = after-apart_from s x from from xs ys (to ∷ us) apart.0 apart.1 r.linked in
    let target = del-other s x to us before_fresh after_fresh x_fresh t in
    (
      add_front-other (del x s) to x from (xs ++ ys) x_fresh.0
          (IsFresh-middle x (from ∷ xs) ys r.distinct)
          (AreApart-first to us (from ∷ xs ++ ys) rest_apart)
          (first-apart (del x s) to us (from ∷ xs ++ ys) rest_apart target) left,
      add_front-IsRing (del x s) to x x_fresh.0 us x_fresh.1 target,
    )

AreApart-insert :
    (x u : ℕ) (us zs : List ℕ) → IsFresh x zs → AreApart zs (u ∷ us) → AreApart zs (u ∷ x ∷ us)
AreApart-insert x u us [] fresh apart = tt
AreApart-insert x u us (z ∷ zs) (x_z, fresh) ((z_u, z_us), apart) =
    ((z_u, ((λ c. x_z (sym c)), z_us)), AreApart-insert x u us zs fresh apart)

pub AreApart-sym : (us zs : List ℕ) → AreApart zs us → AreApart us zs
AreApart-sym [] zs apart = tt
AreApart-sym (u ∷ us) zs apart =
    (AreApart-first u us zs apart, AreApart-sym us zs (AreApart-tail u us zs apart))

pub move-apart :
    (x from to : ℕ) (xs ys us : List ℕ)
    → AreDistinct (from ∷ xs ++ x ∷ ys)
    → AreApart (from ∷ xs ++ x ∷ ys) (to ∷ us)
    → AreApart (from ∷ xs ++ ys) (to ∷ x ∷ us)
move-apart x from to xs ys us distinct apart =
    AreApart-insert x to us (from ∷ xs ++ ys) (IsFresh-middle x (from ∷ xs) ys distinct)
      (AreApart-middle x (from ∷ xs) ys (to ∷ us) apart).1

-- The node before an anchor is fresh in every list apart from the ring.
pub last-apart_from :
    (s : Nodes) (a : ℕ) (us : List ℕ) (z : ℕ) (zs : List ℕ)
    → AreApart zs (a ∷ us)
    → Linked s a us z
    → IsFresh (s z).prev zs
unfolding Linked
last-apart_from s a [] z zs apart (n, b) = rw b (AreApart-first a [] zs apart)
last-apart_from s a (u ∷ us) z zs apart (n, b, rest) =
    last-apart_from s u us z zs (AreApart-tail a (u ∷ us) zs apart) rest

pub AreApart-end :
    (x : ℕ) (us zs : List ℕ) → IsFresh x us → AreApart zs us → AreApart (zs ++ x ∷ []) us
AreApart-end x us [] fresh apart = (fresh, tt)
AreApart-end x us (z ∷ zs) fresh (first, apart) = (first, AreApart-end x us zs fresh apart)
