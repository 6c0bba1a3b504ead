-- ===== src/Common/Arrays.antt =====
-- Lists as arrays of pointers or numbers. Meant to be used qualified: `Arrays.swap`.
use mathlib.Core.List.{Perm, perm_middle, append-nil}
use mathlib.Core.List.Perm
use native.Mathlib.Decide.{ℕ_discrete}
use libckit.Common.{
  ℕ, zero, suc, ◌≤◌, ◌<◌, ◌≡◌, refl, ap, ◌≢◌, List, [], ◌∷◌, ◌++◌, Option, none, some, arith, ◌==◌,
  if◌then◌else◌, length, take,
}

module _ {ℓ} {A : Type ℓ} where
  abbrev pub get_elem? : List A → ℕ → Option A
  get_elem? [] slot = none
  get_elem? (first ∷ rest) zero = some first
  get_elem? (first ∷ rest) (suc slot) = get_elem? rest slot

  -- A write past the end changes nothing: the callers test the bound.
  unfoldable pub set : List A → ℕ → A → List A
  set [] slot new = []
  set (old ∷ rest) zero new = new ∷ rest
  set (first ∷ rest) (suc slot) new = first ∷ set rest slot new

  -- `memcpy` of the first `n` entries of one array over those of another
  unfoldable pub copy_prefix : ℕ → List A → List A → List A
  copy_prefix zero src dst = dst
  copy_prefix (suc n) [] dst = dst
  copy_prefix (suc n) (x ∷ src) [] = []
  copy_prefix (suc n) (x ∷ src) (y ∷ dst) = x ∷ copy_prefix n src dst

-- The entry at an index, 0 past the end.
unfoldable pub at : List ℕ → ℕ → ℕ
at [] i = 0
at (x ∷ xs) zero = x
at (x ∷ xs) (suc i) = at xs i

pub get_elem?-at :
    (array : List ℕ) (k : ℕ) → k < length array → get_elem? array k ≡ some (at array k)
unfolding at
get_elem?-at [] k inside = absurd (omega arith)
get_elem?-at (y ∷ ys) zero inside = refl
get_elem?-at (y ∷ ys) (suc k) inside = get_elem?-at ys k (omega arith)

pub length-set : (array : List ℕ) (k new : ℕ) → length (set array k new) ≡ length array
unfolding set
length-set [] k new = refl
length-set (y ∷ ys) zero new = refl
length-set (y ∷ ys) (suc k) new = ap suc (length-set ys k new)

pub at-set :
    (array : List ℕ) (k new j : ℕ)
    → k < length array
    → at (set array k new) j ≡ (if k == j then new else at array j)
unfolding at set
at-set [] k new j inside = absurd (omega arith)
at-set (y ∷ ys) zero new zero inside = refl
at-set (y ∷ ys) zero new (suc j) inside = ground arith
at-set (y ∷ ys) (suc k) new zero inside = ground arith
at-set (y ∷ ys) (suc k) new (suc j) inside = ground (arith, at-set ys k new j)

pub at-take : (n : ℕ) (array : List ℕ) (k : ℕ) → k < n → at (take n array) k ≡ at array k
unfolding at
at-take zero array k inside = absurd (omega arith)
at-take (suc n) [] k inside = refl
at-take (suc n) (y ∷ ys) zero inside = refl
at-take (suc n) (y ∷ ys) (suc k) inside = at-take n ys k (omega arith)

pub length-take_le : (n : ℕ) (a : List ℕ) → n ≤ length a → length (take n a) ≡ n
length-take_le zero a h = refl
length-take_le (suc n) [] h = absurd (omega arith)
length-take_le (suc n) (x ∷ a) h = ap suc (length-take_le n a (omega arith))

pub take-set : (n : ℕ) (a : List ℕ) (i v : ℕ) → take n (set a i v) ≡ set (take n a) i v
unfolding set
take-set zero a i v = refl
take-set (suc n) [] i v = refl
take-set (suc n) (x ∷ a) zero v = refl
take-set (suc n) (x ∷ a) (suc i) v = ap (◌∷◌ x) (take-set n a i v)

pub length-copy_prefix : (n : ℕ) (src dst : List ℕ) → length (copy_prefix n src dst) ≡ length dst
unfolding copy_prefix
length-copy_prefix zero src dst = refl
length-copy_prefix (suc n) [] dst = refl
length-copy_prefix (suc n) (x ∷ src) [] = refl
length-copy_prefix (suc n) (x ∷ src) (y ∷ dst) = ap suc (length-copy_prefix n src dst)

pub at-copy_prefix :
    (n : ℕ) (src dst : List ℕ) (i : ℕ)
    → n ≤ length src
    → n ≤ length dst
    → i < n
    → at (copy_prefix n src dst) i ≡ at src i
unfolding at copy_prefix
at-copy_prefix zero src dst i h k l = absurd (omega arith)
at-copy_prefix (suc n) [] dst i h k l = absurd (omega arith)
at-copy_prefix (suc n) (x ∷ src) [] i h k l = absurd (omega arith)
at-copy_prefix (suc n) (x ∷ src) (y ∷ dst) zero h k l = refl
at-copy_prefix (suc n) (x ∷ src) (y ∷ dst) (suc i) h k l =
    at-copy_prefix n src dst i (omega arith) (omega arith) (omega arith)

-- Arrays of one length that agree at every index are equal.
pub take_ext :
    (n : ℕ) (a b : List ℕ)
    → n ≤ length a
    → n ≤ length b
    → ((i : ℕ) → i < n → at a i ≡ at b i)
    → take n a ≡ take n b
unfolding at
take_ext zero a b ha hb e = refl
take_ext (suc n) [] b ha hb e = absurd (omega arith)
take_ext (suc n) (x ∷ a) [] ha hb e = absurd (omega arith)
take_ext (suc n) (x ∷ a) (y ∷ b) ha hb e =
    let first : x ≡ y = e 0 (omega arith) in
    let rest = take_ext n a b (omega arith) (omega arith) (λ i h. e (suc i) (omega arith)) in cc

-- A write trades the old entry for the new one.
pub set-perm :
    (array : List ℕ) (k new : ℕ)
    → k < length array
    → Perm (at array k ∷ set array k new) (new ∷ array)
unfolding at set
set-perm [] k new inside = absurd (omega arith)
set-perm (y ∷ ys) zero new inside = Perm.swap new y ys
set-perm (y ∷ ys) (suc k) new inside =
    let deeper = Perm.cons y (set-perm ys k new (omega arith)) in
    Perm.trans (Perm.swap y _ _) (Perm.trans deeper (Perm.swap new y ys))

module _ (a : List ℕ) (i j v : ℕ) (hi : i < length a) (hj : j < length a) (ne : i ≢ j) where
  -- Moving an entry into a hole, and filling the place it left, permutes.
  pub move-perm : Perm (set (set a i (at a j)) j v) (set a i v)
  move-perm =
      let x = at a j in
      let b = set a i x in
      let kept : at b j ≡ x = ground (arith, at-set a i x j hi) in
      let second = rw kept at (set-perm b j v (rw length-set hj)) in
      let left = Perm.trans (Perm.cons (at a i) second) (Perm.swap v (at a i) b) in
      let middle = Perm.trans left (Perm.cons v (set-perm a i x hi)) in
      let right =
        Perm.trans middle
          (Perm.trans (Perm.swap x v a) (Perm.cons x (Perm.symm (set-perm a i v hi)))) in
      Perm.cons_inv (Perm.cons_inv (Perm.trans (Perm.swap (at a i) x _) right))

pub take-suc-set :
    (n : ℕ) (a : List ℕ) (v : ℕ) → n < length a → take (suc n) (set a n v) ≡ take n a ++ v ∷ []
unfolding set
take-suc-set zero [] v h = absurd (omega arith)
take-suc-set zero (x ∷ a) v h = refl
take-suc-set (suc n) [] v h = absurd (omega arith)
take-suc-set (suc n) (x ∷ a) v h = ap (◌∷◌ x) (take-suc-set n a v (omega arith))

pub concat-perm : (array : List ℕ) (last : ℕ) → Perm (array ++ last ∷ []) (last ∷ array)
concat-perm array last = rw (append-nil array) at (perm_middle {a = last} array [])

pub set-at : (a : List ℕ) (i : ℕ) → i < length a → set a i (at a i) ≡ a
unfolding at set
set-at [] i h = absurd (omega arith)
set-at (x ∷ a) zero h = refl
set-at (x ∷ a) (suc i) h = ap (◌∷◌ x) (set-at a i (omega arith))

-- Two entries change places.
pub swap-perm :
    (a : List ℕ) (i j : ℕ)
    → i < length a
    → j < length a
    → i ≢ j
    → Perm (set (set a i (at a j)) j (at a i)) a
swap-perm a i j hi hj ne = rw (set-at a i hi) at (move-perm a i j (at a i) hi hj ne)

pub set_past : (a : List ℕ) (i v : ℕ) → length a ≤ i → set a i v ≡ a
unfolding set
set_past [] i v h = refl
set_past (x ∷ a) zero v h = absurd (omega arith)
set_past (x ∷ a) (suc i) v h = ap (◌∷◌ x) (set_past a i v (omega arith))

-- The last entry moves to where one is taken out.
pub take_out-perm :
    (n : ℕ) (a : List ℕ) (i : ℕ)
    → n < length a
    → i ≤ n
    → Perm (at a i ∷ take n (set a i (at a n))) (take (suc n) a)
take_out-perm n a i h k =
    let size = length-take_le n a (omega arith) in
    let split : take (suc n) a ≡ take n a ++ at a n ∷ [] =
      rw (set-at a n h) at (take-suc-set n a (at a n) h) in
    let whole = Perm.symm (concat-perm (take n a) (at a n)) in
    rw (split, take-set)
      (elim (ℕ_discrete i n) [
        | yes e ↦ rw (e, set_past (take n a) n (at a n) (omega arith)) whole
        | no e ↦
            let here = at-take n a i (omega arith) in
            rw (← here) (Perm.trans (set-perm (take n a) i (at a n) (omega arith)) whole)
      ])
