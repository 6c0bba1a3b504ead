-- ===== src/HashTable/RoundTrip.antt =====
-- hashtable_lookup after hashtable_hash
use libckit.Common.{
  ℕ, ◌+◌, ◌<◌, ◌^◌, ◌≡◌, refl, ap, ◌∙◌, List, [], ◌∷◌, Bool, true, none, some, arith, ◌==◌,
}
use libckit.Common.Run.{◌>>=◌, Returns, Returns-bind, Returns-map}
use libckit.NodeList.Ring.{IsRing}
use libckit.HashTable.{get_slot, lookup, hash, equal}
use libckit.HashTable.State.{Table, World}
use libckit.HashTable.Valid.{Rows, set_row, total, Holds}
use libckit.HashTable.Lookup.{first, lookup_lem}
use libckit.HashTable.Insert.{IsOutside, hash_lem}

first-hit :
    (test : ℕ → Bool) (he : ℕ) (row row' : List ℕ)
    → row ≡ he ∷ row'
    → test he ≡ true
    → first test row ≡ some he
first-hit test he row row' e hit = rw (e, hit) refl

module _ {K O : Type 0} where
  -- In a valid table with fewer than `2 ^ 31 - 2` elements, none of which in the slot of a key has
  -- the key, hashtable_lookup of the key after hashtable_hash of an element with it returns that
  -- element, if the element is in no list, is no anchor of the table, and `equalfn` says of it that
  -- it has the key.
  pub lookup-hash :
      (he : ℕ) (key : K) (w : World K O) (rows : Rows)
      → Holds w rows
      → IsRing w.nodes he []
      → IsOutside w rows he
      → total rows (w.ht.mask + 1) + 2 < 2 ^ 31
      → first (λ p. equal w p key) (rows (get_slot w.ht (w.ht.hashfn key))) ≡ none
      → w.ht.equalfn key (w.elems he).owner key ≡ true
      → Returns (λ r. r.0 ≡ some he) (hash he key w >>= λ r. lookup key r.1)
  unfolding get_slot
  lookup-hash he key w rows h alone outside small nothing same =
      let i = get_slot w.ht (w.ht.hashfn key) in
      let rows' = set_row rows i (he ∷ rows i) in
      Returns-bind (rw nothing at (hash_lem he key w rows h alone outside small))
        λ r (status, holds, freed, ht, elems).
          let k : get_slot r.1.ht (r.1.ht.hashfn key) ≡ i =
            ap (λ (t : Table K O). get_slot t (t.hashfn key)) ht in
          let here : (i == i) ≡ true = ground arith in
          let this : (he == he) ≡ true = ground arith in
          let row : rows' (get_slot r.1.ht (r.1.ht.hashfn key)) ≡ he ∷ rows i =
            ap rows' k ∙ rw here refl in
          let hit : equal r.1 he key ≡ true =
            rw (ap (λ (t : Table K O). t.equalfn) ht, elems he, this) same in
          Returns-map (lookup_lem key r.1 rows' holds) λ s (found, holds', freed', elems').
            found
            ∙ first-hit (λ p. equal r.1 p key) he (rows' (get_slot r.1.ht (r.1.ht.hashfn key)))
                (rows i) row hit
