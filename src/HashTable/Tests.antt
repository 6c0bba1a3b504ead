-- ===== src/HashTable/Tests.antt =====
-- src/hashtable.c with two slots, whose anchors are the nodes 100 and 101. Element 5 has key 3, and
-- is in the second slot; element 6 is in none.
use libckit.Common.{
  ℕ, zero, suc, ◌+◌, ◌≤◌, ◌<◌, ◌^◌, ◌≡◌, ◌≢◌, length, refl, [], ◌∷◌, Bool, true, Option, none, some,
  arith, ◌==◌, if◌then◌else◌,
}
use libckit.Common.Int.{ℤ, pos}
use libckit.Common.Run.{Run, ok, fault, out_of_fuel, ◌>>=◌, Returns}
use libckit.NodeList
use libckit.NodeList.{Node, Nodes}
use libckit.NodeList.Ring.{Linked, IsRing, IsFresh}
use libckit.NodeList.Move.{AreApart}
use libckit.Atomic.{inc, dec, dec_and_test}
use libckit.HashTable.{
  enter, find, scan, hashed, hold, remove, put, release, get_slot, hash, lookup, unhash, equal,
  fini, foreach, foreach_read,
}
use libckit.HashTable.State.{free, Elem, World, wrlock, unlock, write_slot, write_elem}
use libckit.HashTable.Valid.{Rows, set_row, total, Holds, AreMembers}
use libckit.HashTable.Lookup.{first}
use libckit.HashTable.Insert.{hash_lem, IsOutside}
use libckit.HashTable.Remove.{unhash_lem}
use libckit.HashTable.Foreach.{acting, Keeps, foreach_lem}
use libckit.HashTable.Drain.{refs, drop_ref}
use libckit.HashTable.Fini.{IsEmptied, fini_lem}
use libckit.HashTable.History.{IsTable, Steps-IsTable, here, next, hashing, unhashing}
use libckit.HashTable.RoundTrip.{lookup-hash}

abbrev loop : ℕ → Node
loop a = record { next = a; prev = a }

abbrev sample_nodes : Nodes
sample_nodes p = if p == 101 then loop 5 else if p == 5 then loop 101 else loop p

abbrev sample_elems : ℕ → Elem ℕ ℕ
sample_elems p = record {
  refcount = pos (if p == 5 then 2 else 1);
  hash = if p == 5 then 3 else 0;
  key = if p == 5 then 3 else 0;
  ht = p == 5;
  owner = p;
}

abbrev pub sample_malloc : ℕ → Option ℕ
sample_malloc size = some 100

abbrev pub same_key : ℕ → ℕ → ℕ → Bool
same_key k o key = k == key

abbrev pub identity : ℕ → ℕ
identity k = k

abbrev pub sample : World ℕ ℕ
sample = record {
  ht = record {
    table = 100;
    mask = 1;
    count = pos 2;
    hashfn = identity;
    equalfn = same_key;
    freefn = true;
  };
  slots = λ i. record { count = if i == 1 then 1 else 0; lock = free };
  nodes = sample_nodes;
  elems = sample_elems;
  freed = [];
}

abbrev pub sample_rows : Rows
sample_rows i = if i == 1 then 5 ∷ [] else []

both : (P : ℕ → Type 0) → P 0 → P 1 → (i : ℕ) → i ≤ 1 → P i
both P a b zero hi = a
both P a b (suc zero) hi = b
both P a b (suc (suc i)) hi = absurd (omega arith)

sample-IsRing_0 : IsRing sample_nodes 100 []
unfolding Linked
sample-IsRing_0 = record { linked = (refl, refl); distinct = (tt, tt) }

sample-IsRing_1 : IsRing sample_nodes 101 (5 ∷ [])
unfolding Linked
sample-IsRing_1 = record {
  linked = (refl, refl, (refl, refl));
  distinct = ((omega arith, tt), (tt, tt));
}

sample-apart :
    (i : ℕ)
    → i ≤ 1
    → (j : ℕ) → j ≤ 1
    → i ≢ j
    → AreApart ((100 + i) ∷ sample_rows i) ((100 + j) ∷ sample_rows j)
sample-apart =
    both
      (λ i.
        (j : ℕ) → j ≤ 1 → i ≢ j → AreApart ((100 + i) ∷ sample_rows i) ((100 + j) ∷ sample_rows j))
      (both (λ j. 0 ≢ j → AreApart (100 ∷ []) ((100 + j) ∷ sample_rows j)) (λ ne. absurd (ne refl))
        λ ne. ((omega arith, (omega arith, tt)), tt))
      (both (λ j. 1 ≢ j → AreApart (101 ∷ 5 ∷ []) ((100 + j) ∷ sample_rows j))
        (λ ne. ((omega arith, tt), ((omega arith, tt), tt))) λ ne. absurd (ne refl))

sample-Holds : Holds sample sample_rows
unfolding total get_slot
sample-Holds = record {
  ring = both (λ i. IsRing sample_nodes (100 + i) (sample_rows i)) sample-IsRing_0 sample-IsRing_1;
  apart = λ i j hi hj ne. sample-apart i hi j hj ne;
  counted = both (λ i. (sample.slots i).count ≡ length (sample_rows i)) refl refl;
  unlocked = both (λ i. (sample.slots i).lock ≡ free) refl refl;
  members =
      both (λ i. AreMembers sample i (sample_rows i)) tt
        (record { slot = refl; hash = refl; ht = refl }, tt);
  all = refl;
}

alone : IsRing sample_nodes 6 []
unfolding Linked
alone = record { linked = (refl, refl); distinct = (tt, tt) }

outside : IsOutside sample sample_rows 6
outside =
    both (λ j. IsFresh 6 ((100 + j) ∷ sample_rows j)) (omega arith, tt)
      (omega arith, (omega arith, tt))

small : total sample_rows 2 + 2 < 2 ^ 31
unfolding total
small = omega arith

nothing : first (λ p. equal sample p 1) (sample_rows (get_slot sample.ht 1)) ≡ none
unfolding get_slot
nothing = refl

hash_lem_example :
    Returns
      (λ r.
        (r.0 ≡ pos 0)
        × Holds r.1 (set_row sample_rows 1 (6 ∷ 5 ∷ []))
        × (r.1.freed ≡ [])
        × (r.1.ht ≡ record sample.ht { count = r.1.ht.count })
        × ((p : ℕ)
            → r.1.elems p ≡ (
                if 6 == p
                then (record (sample.elems p) {
                  hash = 1;
                  ht = true;
                  key = 1;
                  refcount = inc (sample.elems p).refcount;
                })
                else sample.elems p)))
      (hash 6 1 sample)
unfolding get_slot
hash_lem_example = hash_lem 6 1 sample sample_rows sample-Holds alone outside small

lookup-hash_example : Returns (λ r. r.0 ≡ some 6) (hash 6 1 sample >>= λ r. lookup 1 r.1)
lookup-hash_example =
    lookup-hash 6 1 sample sample_rows sample-Holds alone outside small nothing refl

unhash_lem_example :
    Returns
      (λ w'.
        Holds w' (set_row sample_rows 1 [])
        × IsRing w'.nodes 5 []
        × ((w'.elems 5).refcount ≡ pos 1)
        × (w'.freed ≡ []))
      (unhash 5 sample)
unfolding dec dec_and_test
unhash_lem_example = unhash_lem sample sample_rows 1 5 [] [] sample-Holds (omega arith) refl small

-- an action that adds 10 to the object
abbrev pub grow : ℕ → (ℕ → Elem ℕ ℕ) → ℕ → Elem ℕ ℕ
grow he elems p = if he == p then record (elems p) { owner = (elems p).owner + 10 } else elems p

grow-Keeps : Keeps grow
grow-Keeps he elems p = (ground arith, ground arith, ground arith)

foreach_lem_example :
    let good = λ (r : ℤ × World ℕ ℕ).
      (r.0 ≡ pos 1)
      × Holds r.1 sample_rows
      × (r.1.freed ≡ [])
      × (r.1.elems ≡ grow 5 sample.elems) in
    Returns good (foreach (some (acting grow)) sample)
    × Returns good (foreach_read (some (acting grow)) sample)
foreach_lem_example = foreach_lem grow sample sample_rows sample-Holds grow-Keeps

fini_lem_example :
    Returns
      (λ w'.
        (w'.ht ≡ record sample.ht { count = pos 0 })
        × ((i : ℕ) → i ≤ 1 → IsEmptied w' i)
        × (refs w' ≡ drop_ref true 5 (refs sample)))
      (fini sample)
fini_lem_example = fini_lem sample sample_rows sample-Holds

-- what a run ends with, if it does
abbrev result : {A : Type 0} → Run A → A → A
result (ok a) start = a
result fault start = start
result out_of_fuel start = start

-- element 6 is put before element 5, which is then taken out
abbrev with_both : World ℕ ℕ
with_both = (result (hash 6 1 sample) (pos 0, sample)).1

abbrev with_new : World ℕ ℕ
with_new = result (unhash 5 with_both) with_both

Steps-IsTable_example : IsTable with_new
unfolding hash unhash enter find scan get_slot hashed hold remove put release wrlock unlock
    write_slot write_elem NodeList.add_front NodeList.del NodeList.set_next NodeList.set_prev inc
    dec dec_and_test
Steps-IsTable_example =
    Steps-IsTable
      (next
        (next here (
          hashing 6 1 {r = (pos 0, with_both)}
            (record { number = 2; counts = refl; small = omega arith }) alone (λ j hj. omega arith)
            refl))
        (unhashing 5 {w' = with_new} (record { number = 3; counts = refl; small = omega arith })
          (record { links = 2; anchor = omega arith; found = refl }) refl))
      (record { rows = sample_rows; holds = sample-Holds })
