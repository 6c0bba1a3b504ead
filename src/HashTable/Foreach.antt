-- ===== src/HashTable/Foreach.antt =====
-- hashtable_foreach and hashtable_foreach_read, of an action that changes elements only
use libckit.Common.{
  ℕ, zero, suc, ◌+◌, ◌≤◌, ◌<◌, ◌≡◌, ◌≢◌, refl, ap, sym, ◌∙◌, List, [], ◌∷◌, ◌++◌, true, false, some,
  arith, ◌==◌, length, length-append,
}
use libckit.Common.Int.{ℤ, pos}
use libckit.Common.Run.{Run, ok, Returns, returns, Returns-bind, Returns-map}
use libckit.NodeList.Ring.{Linked, IsFresh, IsRing}
use libckit.HashTable.{walk, walk_slots, walk_table, foreach, foreach_read}
use libckit.HashTable.State.{
  Lock, free, writing, reading, Elem, World, head, unlock, rdlock, wrlock, write_slot, set_lock,
}
use libckit.HashTable.Valid.{Rows, Holds, wrlock-ok, rdlock-ok, unlock-reading, unlock-writing}
use libckit.HashTable.Lookup.{Holds-same}

-- the elements of `n` slots, from slot `i` on, in the order of a walk
abbrev pub every : Rows → ℕ → ℕ → List ℕ
every rows i zero = []
every rows i (suc n) = rows i ++ every rows (suc i) n

-- what an action does to the elements
abbrev pub Effect : Type 0 → Type 0 → Type 0
Effect K O = ℕ → (ℕ → Elem K O) → ℕ → Elem K O

module _ {K O : Type 0} where
  abbrev pub acting : Effect K O → ℕ → World K O → World K O
  acting f he w = record w { elems = f he w.elems }

  -- the effects on the elements of a list, one after the other
  abbrev pub visit : Effect K O → List ℕ → (ℕ → Elem K O) → ℕ → Elem K O
  visit f [] elems = elems
  visit f (he ∷ row) elems = visit f row (f he elems)

  visit-append :
      (f : Effect K O) (xs ys : List ℕ) (elems : ℕ → Elem K O)
      → visit f (xs ++ ys) elems ≡ visit f ys (visit f xs elems)
  visit-append f [] ys elems = refl
  visit-append f (x ∷ xs) ys elems = visit-append f xs ys (f x elems)

  -- The effect keeps what the table reads of an element.
  abbrev pub Keeps : Effect K O → Type 0
  Keeps f =
      (he : ℕ) (elems : ℕ → Elem K O) (p : ℕ)
      → ((f he elems p).hash ≡ (elems p).hash)
        × ((f he elems p).key ≡ (elems p).key)
        × ((f he elems p).ht ≡ (elems p).ht)

  visit-Keeps :
      (f : Effect K O)
      → Keeps f
      → (row : List ℕ) (elems : ℕ → Elem K O) (p : ℕ)
      → ((visit f row elems p).hash ≡ (elems p).hash)
        × ((visit f row elems p).key ≡ (elems p).key)
        × ((visit f row elems p).ht ≡ (elems p).ht)
  visit-Keeps f keeps [] elems p = (refl, refl, refl)
  visit-Keeps f keeps (he ∷ row) elems p =
      let (h, k, t) = visit-Keeps f keeps row (f he elems) p in
      let (h', k', t') = keeps he elems p in (h ∙ h', k ∙ k', t ∙ t')

  walk-end :
      (k : ℕ) (f : Effect K O) (anchor n : ℕ) (w : World K O)
      → walk (suc k) (acting f) anchor anchor n w ≡ ok (n, w)
  unfolding walk
  walk-end k f anchor n w =
      let there : (anchor == anchor) ≡ true = ground arith in rw (walk, there) refl

  walk-next :
      (k : ℕ) (f : Effect K O) (anchor he n : ℕ) (w : World K O)
      → anchor ≢ he
      → walk (suc k) (acting f) anchor he n w
        ≡ walk k (acting f) anchor (w.nodes he).next (n + 1) (acting f he w)
  unfolding walk
  walk-next k f anchor he n w apart =
      let more : (he == anchor) ≡ false = ground arith in rw (walk, more) refl

  walk_lem :
      (k : ℕ) (f : Effect K O) (anchor n : ℕ) (w : World K O) (a : ℕ) (row : List ℕ)
      → Linked w.nodes a row anchor
      → IsFresh anchor row
      → length row < k
      → walk k (acting f) anchor (w.nodes a).next n w
        ≡ ok (n + length row, record w { elems = visit f row w.elems })
  unfolding Linked
  walk_lem zero f anchor n w a row linked fresh fuel = absurd (omega arith)
  walk_lem (suc k) f anchor n w a [] (next, b) fresh fuel =
      let none_more : n + 0 ≡ n = omega arith in rw (next, walk-end k f anchor n w, none_more) refl
  walk_lem (suc k) f anchor n w a (he ∷ row) (next, b, rest) (apart, fresh) fuel =
      let sum : n + 1 + length row ≡ n + suc (length row) = omega arith in
      rw (next, walk-next k f anchor he n w apart)
        (walk_lem k f anchor (n + 1) (acting f he w) he row rest fresh (omega arith)
          ∙ ap (λ m. ok (m, record w { elems = visit f row (f he w.elems) })) sum)

  -- what a walk reads of a table
  record IsWalkable (w : World K O) (rows : Rows) : Type 0 where
    ring : (i : ℕ) → i ≤ w.ht.mask → IsRing w.nodes (head w i) (rows i)
    counted : (i : ℕ) → i ≤ w.ht.mask → (w.slots i).count ≡ length (rows i)
    unlocked : (i : ℕ) → i ≤ w.ht.mask → (w.slots i).lock ≡ free

  module _ (acquire : ℕ → World K O → Run (World K O)) (held : Lock) (f : Effect K O) (rows : Rows)
      (takes : (i : ℕ) (w : World K O)
        → (w.slots i).lock ≡ free
        → acquire i w ≡ ok (set_lock i held w))
      (gives : (i : ℕ) (w : World K O)
        → (w.slots i).lock ≡ held
        → unlock i w ≡ ok (set_lock i free w)) where
    -- The table is as it was, but for the elements.
    record Walked (w w' : World K O) (visited : List ℕ) : Type 0 where
      ht : w'.ht ≡ w.ht
      nodes : w'.nodes ≡ w.nodes
      freed : w'.freed ≡ w.freed
      count : (j : ℕ) → (w'.slots j).count ≡ (w.slots j).count
      lock : (j : ℕ) → j ≤ w.ht.mask → (w'.slots j).lock ≡ free
      elems : w'.elems ≡ visit f visited w.elems

    walk_slots_lem :
        (r i n : ℕ) (w : World K O)
        → IsWalkable w rows
        → i + r ≤ w.ht.mask + 1
        → Returns
            (λ s. (s.0 ≡ n + length (every rows i r)) × Walked w s.1 (every rows i r))
            (walk_slots acquire (acting f) r i n w)
    unfolding walk_slots write_slot
    walk_slots_lem zero i n w ok_w fits = returns (
      omega arith,
      record {
        ht = refl;
        nodes = refl;
        freed = refl;
        count = λ j. refl;
        lock = ok_w.unlocked;
        elems = refl;
      },
    )
    walk_slots_lem (suc r) i n w ok_w fits =
        let hi : i ≤ w.ht.mask = omega arith in
        let w1 = set_lock i held w in
        let row = rows i in
        let w2 : World K O = record w1 { elems = visit f row w.elems } in
        let w3 = set_lock i free w2 in
        let c : (w1.slots i).count ≡ length row = ground (arith, ok_w.counted i hi) in
        let ring = ok_w.ring i hi in
        let walked =
          walk_lem ((w1.slots i).count + 1) f (head w1 i) n w1 (head w1 i) row ring.linked
            ring.distinct.0 (omega arith) in
        let here : (w1.slots i).lock ≡ held = ground arith in
        let next : IsWalkable w3 rows = record {
          ring = ok_w.ring;
          counted = λ j hj. ground (arith, ok_w.counted j hj);
          unlocked = λ j hj. ground (arith, ok_w.unlocked j hj);
        } in
        rw (walk_slots, takes i w (ok_w.unlocked i hi), walked, gives i w2 here)
          (Returns-map (walk_slots_lem r (suc i) (n + length row) w3 next (omega arith))
            λ s (sum, rest). (
              omega (arith, sum, length-append row (every rows (suc i) r)),
              record {
                ht = rest.ht;
                nodes = rest.nodes;
                freed = rest.freed;
                count = λ j. rest.count j ∙ ground arith;
                lock = rest.lock;
                elems = rest.elems ∙ sym (visit-append f row (every rows (suc i) r) w.elems);
              },
            ))

    walk_table_lem :
        (w : World K O)
        → Holds w rows
        → Keeps f
        → Returns
            (λ r.
              (r.0 ≡ pos (length (every rows 0 (w.ht.mask + 1))))
              × Holds r.1 rows
              × (r.1.freed ≡ w.freed)
              × (r.1.elems ≡ visit f (every rows 0 (w.ht.mask + 1)) w.elems))
            (walk_table acquire (some (acting f)) w)
    unfolding walk_table
    walk_table_lem w h keeps =
        let visited = every rows 0 (w.ht.mask + 1) in
        let start : IsWalkable w rows = record {
          ring = h.ring;
          counted = h.counted;
          unlocked = h.unlocked;
        } in
        Returns-bind (walk_slots_lem (w.ht.mask + 1) 0 0 w start (omega arith)) λ s (n, walked).
          let kept = visit-Keeps f keeps visited w.elems in
          let same = λ (p : ℕ). ap (λ (elems : ℕ → Elem K O). elems p) walked.elems in
          returns (
            ap pos (n ∙ omega arith),
            Holds-same w s.1 rows
                (record {
                  ht = walked.ht;
                  nodes = walked.nodes;
                  count = walked.count;
                  lock = walked.lock;
                  hash = λ p. ap (λ (e : Elem K O). e.hash) (same p) ∙ (kept p).0;
                  key = λ p. ap (λ (e : Elem K O). e.key) (same p) ∙ (kept p).1;
                  in_table = λ p. ap (λ (e : Elem K O). e.ht) (same p) ∙ (kept p).2;
                })
                h,
            walked.freed,
            walked.elems,
          )

  -- hashtable_foreach and hashtable_foreach_read in a valid table apply the action once to each
  -- element, slot by slot and from the front of each slot, if it changes nothing but elements and
  -- keeps their hash, key and table. They return the number of elements; the table stays valid,
  -- with no lock held.
  pub foreach_lem :
      (f : Effect K O) (w : World K O) (rows : Rows)
      → Holds w rows
      → Keeps f
      → let visited = every rows 0 (w.ht.mask + 1) in
        let good = λ (r : ℤ × World K O).
          (r.0 ≡ pos (length visited))
          × Holds r.1 rows
          × (r.1.freed ≡ w.freed)
          × (r.1.elems ≡ visit f visited w.elems) in
        Returns good (foreach (some (acting f)) w) × Returns good (foreach_read (some (acting f)) w)
  unfolding foreach foreach_read
  foreach_lem f w rows h keeps = (
    walk_table_lem wrlock writing f rows wrlock-ok unlock-writing w h keeps,
    walk_table_lem rdlock (reading 0) f rows rdlock-ok unlock-reading w h keeps,
  )
