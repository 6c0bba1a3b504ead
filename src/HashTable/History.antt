-- ===== src/HashTable/History.antt =====
-- The hash table after any calls, in any order.
use libckit.Common.{
  ℕ, ◌+◌, ◌≤◌, ◌<◌, ◌^◌, ◌≡◌, ◌≢◌, sym, ◌∙◌, subst, [], Option, some, arith, inl, inr,
}
use libckit.Common.Int.{ℤ, pos}
use libckit.Common.Run.{ok, Returns-ok}
use libckit.NodeList.Ring.{IsRing, Linked}
use libckit.NodeList.Among.{nth_next, IsAmong, nth_next-IsAmong, alone-IsFresh}
use libckit.HashTable.{get_slot, hash, unhash, lookup, foreach}
use libckit.HashTable.State.{World, head}
use libckit.HashTable.Valid.{Rows, total, Holds}
use libckit.HashTable.Lookup.{get_slot-le, lookup_lem}
use libckit.HashTable.Insert.{IsOutside, hash_lem}
use libckit.HashTable.Remove.{unhash_lem}
use libckit.HashTable.Foreach.{Effect, Keeps, acting, foreach_lem}

module _ {K O : Type 0} where
  -- The count of the table is not near the end of an `int`.
  pub record IsSmall (w : World K O) : Type 0 where
    pub number : ℕ
    pub counts : w.ht.count ≡ pos number
    pub small : number + 1 < 2 ^ 31

  -- The element is found by the links of the slot of its hash.
  pub record IsHashed (w : World K O) (he : ℕ) : Type 0 where
    pub links : ℕ
    pub anchor : he ≢ head w (get_slot w.ht (w.elems he).hash)
    pub found : nth_next w.nodes links (head w (get_slot w.ht (w.elems he).hash)) ≡ he

  -- One call. An element that goes in is in no list and is no anchor, one that goes out is in the
  -- table, and an action changes nothing but elements and keeps their hash, key and table.
  pub data Step (w : World K O) : World K O → Type 0 where
    hashing :
        (he : ℕ) (key : K) {r : ℤ × World K O}
        → IsSmall w
        → IsRing w.nodes he []
        → ((j : ℕ) → j ≤ w.ht.mask → he ≢ head w j)
        → hash he key w ≡ ok r
        → Step w r.1
    unhashing :
        (he : ℕ) {w' : World K O} → IsSmall w → IsHashed w he → unhash he w ≡ ok w' → Step w w'
    looking_up : (key : K) {r : Option ℕ × World K O} → lookup key w ≡ ok r → Step w r.1
    visiting :
        (f : Effect K O) {r : ℤ × World K O}
        → Keeps f
        → foreach (some (acting f)) w ≡ ok r
        → Step w r.1

  pub data Steps (w : World K O) : World K O → Type 0 where
    here : Steps w w
    next : {t u : World K O} → Steps w t → Step t u → Steps w u

  -- Some rows of elements are those of the table.
  pub record IsTable (w : World K O) : Type 0 where
    pub rows : Rows
    pub holds : Holds w rows

  few :
      (w : World K O) (rows : Rows)
      → Holds w rows
      → IsSmall w
      → total rows (w.ht.mask + 1) + 2 < 2 ^ 31
  few w rows h s =
      let same : pos s.number ≡ pos (1 + total rows (w.ht.mask + 1)) = sym s.counts ∙ h.all in
      let n : s.number ≡ 1 + total rows (w.ht.mask + 1) = cc in omega (arith, s.small)

  hash-IsTable :
      (he : ℕ) (key : K) (w : World K O) (rows : Rows) {r : ℤ × World K O}
      → Holds w rows
      → IsSmall w
      → IsRing w.nodes he []
      → ((j : ℕ) → j ≤ w.ht.mask → he ≢ head w j)
      → hash he key w ≡ ok r
      → IsTable r.1
  unfolding Linked
  hash-IsTable he key w rows h small alone apart ended =
      let outside : IsOutside w rows he = λ j hj.
        alone-IsFresh w.nodes he (head w j) (rows j) alone.linked.0 (apart j hj) (h.ring j hj) in
      record {
        rows = _;
        holds = (Returns-ok ended (hash_lem he key w rows h alone outside (few w rows h small))).1;
      }

  unhash-IsTable :
      (he : ℕ) (w : World K O) (rows : Rows) {w' : World K O}
      → Holds w rows
      → IsSmall w
      → IsHashed w he
      → unhash he w ≡ ok w'
      → IsTable w'
  unhash-IsTable he w rows h small hashed ended =
      let i = get_slot w.ht (w.elems he).hash in
      let hi = get_slot-le w (w.elems he).hash in
      elim (subst (λ (x : ℕ). IsAmong (head w i) (rows i) x) hashed.found
        (nth_next-IsAmong w.nodes hashed.links (head w i) (rows i) (h.ring i hi).linked)) [
          | inl c ↦ absurd (hashed.anchor c)
          | inr (xs, ys, at) ↦ record {
            rows = _;
            holds =
                (Returns-ok ended (unhash_lem w rows i he xs ys h hi at (few w rows h small))).0;
          }
        ]

  Step-IsTable : {w w' : World K O} → Step w w' → IsTable w → IsTable w'
  Step-IsTable {w} (hashing he key small alone apart ended) t =
      hash-IsTable he key w t.rows t.holds small alone apart ended
  Step-IsTable {w} (unhashing he small hashed ended) t =
      unhash-IsTable he w t.rows t.holds small hashed ended
  Step-IsTable {w} (looking_up key ended) t = record {
    rows = t.rows;
    holds = (Returns-ok ended (lookup_lem key w t.rows t.holds)).1;
  }
  Step-IsTable {w} (visiting f keeps ended) t = record {
    rows = t.rows;
    holds = (Returns-ok ended (foreach_lem f w t.rows t.holds keeps).0).1;
  }

  -- After any calls of hashtable_hash, hashtable_unhash, hashtable_lookup and hashtable_foreach, in
  -- any order, on a valid table, it is valid: its locks are free, each slot has a ring of as many
  -- elements as it counts, all with a hash of that slot, and the table counts one more than there
  -- are. An element that goes in is in no list, one that goes out is in the table, an action
  -- changes nothing but elements and keeps their hash, key and table, and before elements go in or
  -- out the count is below `2 ^ 31 - 1`.
  pub Steps-IsTable : {w w' : World K O} → Steps w w' → IsTable w → IsTable w'
  Steps-IsTable here t = t
  Steps-IsTable (next steps step) t = Step-IsTable step (Steps-IsTable steps t)
