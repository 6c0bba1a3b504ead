-- ===== src/NodeList/Among.antt =====
-- Which nodes are found by the links of a ring.
use libckit.Common.{
  ℕ, zero, suc, ◌≡◌, ◌≢◌, refl, ap, sym, ◌∙◌, subst, List, [], ◌∷◌, ◌++◌, ◌⊎◌, inl, inr,
}
use libckit.NodeList.{Nodes}
use libckit.NodeList.Ring.{IsRing, Linked, IsFresh, AreDistinct}

-- the node `n` links behind another
abbrev pub nth_next : Nodes → ℕ → ℕ → ℕ
nth_next s zero a = a
nth_next s (suc n) a = (s (nth_next s n a)).next

-- The node is an end, or in the list.
abbrev pub IsAmong : ℕ → List ℕ → ℕ → Type 0
IsAmong z xs x = (x ≡ z) ⊎ ((us : List ℕ) × (vs : List ℕ) × (xs ≡ us ++ x ∷ vs))

IsAmong-cons : (z y x : ℕ) (xs : List ℕ) → IsAmong z xs x → IsAmong z (y ∷ xs) x
IsAmong-cons z y x xs (inl e) = inl e
IsAmong-cons z y x xs (inr (us, vs, e)) = inr (y ∷ us, vs, ap (λ (l : List ℕ). y ∷ l) e)

first-IsAmong :
    (s : Nodes) (a : ℕ) (xs : List ℕ) (z : ℕ) → Linked s a xs z → IsAmong z xs (s a).next
unfolding Linked
first-IsAmong s a [] z (n, b) = inl n
first-IsAmong s a (y ∷ ys) z (n, b, rest) = inr ([], ys, rw n refl)

next-IsAmong :
    (s : Nodes) (a x : ℕ) (us vs : List ℕ) (z : ℕ)
    → Linked s a (us ++ x ∷ vs) z
    → IsAmong z (us ++ x ∷ vs) (s x).next
unfolding Linked
next-IsAmong s a x [] vs z (n, b, rest) =
    IsAmong-cons z x (s x).next vs (first-IsAmong s x vs z rest)
next-IsAmong s a x (u ∷ us) vs z (n, b, rest) =
    IsAmong-cons z u (s x).next (us ++ x ∷ vs) (next-IsAmong s u x us vs z rest)

pub nth_next-IsAmong :
    (s : Nodes) (n z : ℕ) (xs : List ℕ) → Linked s z xs z → IsAmong z xs (nth_next s n z)
nth_next-IsAmong s zero z xs linked = inl refl
nth_next-IsAmong s (suc n) z xs linked = step (nth_next-IsAmong s n z xs linked)
  where
    step : IsAmong z xs (nth_next s n z) → IsAmong z xs (s (nth_next s n z)).next
    step (inl e) =
        subst (λ (x : ℕ). IsAmong z xs (s x).next) (sym e) (first-IsAmong s z xs z linked)
    step (inr (us, vs, e)) =
        let x = nth_next s n z in
        subst (λ (l : List ℕ). IsAmong z l (s x).next) (sym e)
          (next-IsAmong s z x us vs z (subst (λ (l : List ℕ). Linked s z l z) e linked))

next-differs :
    (s : Nodes) (y : ℕ) (ys : List ℕ) (z : ℕ)
    → IsFresh y ys
    → z ≢ y
    → Linked s y ys z
    → (s y).next ≢ y
unfolding Linked
next-differs s y [] z fresh end (n, b) = λ c. end (sym n ∙ c)
next-differs s y (u ∷ ys) z (other, fresh) end (n, b, rest) = λ c. other (sym c ∙ n)

alone-IsFresh_from :
    (s : Nodes) (x a : ℕ) (xs : List ℕ) (z : ℕ)
    → (s x).next ≡ x
    → IsFresh z xs
    → AreDistinct xs
    → Linked s a xs z
    → IsFresh x xs
unfolding Linked
alone-IsFresh_from s x a [] z alone end distinct linked = tt
alone-IsFresh_from s x a (y ∷ ys) z alone (z_y, end) (fresh, distinct) (n, b, rest) = (
  λ c. next-differs s y ys z fresh z_y rest (subst (λ (q : ℕ). (s q).next ≡ q) c alone),
  alone-IsFresh_from s x y ys z alone end distinct rest,
)

-- A node that links to itself is in no ring but its own.
pub alone-IsFresh :
    (s : Nodes) (x anchor : ℕ) (xs : List ℕ)
    → (s x).next ≡ x
    → x ≢ anchor
    → IsRing s anchor xs
    → IsFresh x (anchor ∷ xs)
alone-IsFresh s x anchor xs alone other r =
    (other, alone-IsFresh_from s x anchor xs anchor alone r.distinct.0 r.distinct.1 r.linked)
