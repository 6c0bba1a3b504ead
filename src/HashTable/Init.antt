-- ===== src/HashTable/Init.antt =====
-- hashtable_init, and an insertion with a lookup behind it
use libckit.Common.{
  ℕ, zero, suc, ◌+◌, ◌-◌, ◌≤◌, ◌<◌, ◌^◌, ◌≡◌, refl, ap, sym, ◌∙◌, [], Bool, true, Option, some,
  arith, ltb, ◌==◌, Bool-cases, inl, inr,
}
use libckit.Common.Int.{pos}
use libckit.Common.Word.{sub32}
use libckit.Common.Run.{Returns, returns, Returns-bind, Returns-map}
use libckit.NodeList
use libckit.NodeList.Ring.{Linked, init-fields}
use libckit.HashTable.{init, init_slots}
use libckit.HashTable.State.{free, Table, World, head, write_slot}
use libckit.HashTable.Valid.{total, Holds}

total_empty : (n : ℕ) → total (λ i. []) n ≡ 0
unfolding total
total_empty zero = refl
total_empty (suc n) = omega (arith, total_empty n)

ring_of : (a : ℕ) (s : NodeList.Nodes) → (s a).next ≡ a → (s a).prev ≡ a → Linked s a [] a
unfolding Linked
ring_of a s n p = (n, p)

module _ {K O : Type 0} where
  record IsReady (w : World K O) (j : ℕ) : Type 0 where
    lock : (w.slots j).lock ≡ free
    count : (w.slots j).count ≡ 0
    next : (w.nodes (head w j)).next ≡ head w j
    prev : (w.nodes (head w j)).prev ≡ head w j

  abbrev one_more : ℕ → World K O → World K O
  one_more i w =
      write_slot i (record { count = 0; lock = free })
        (record w { nodes = NodeList.init (head w i) w.nodes })

  one_more-IsReady :
      (i : ℕ) (w : World K O)
      → ((j : ℕ) → j < i → IsReady w j)
      → (j : ℕ) → j < suc i
      → IsReady (one_more i w) j
  unfolding write_slot
  one_more-IsReady i w ready j hj =
      let fields = init-fields w.nodes (head w i) (head w j) in
      elim (Bool-cases (i == j)) [
        | inl e ↦
            let at : i ≡ j = ground arith in
            record {
              lock = rw e refl;
              count = rw e refl;
              next = ground (arith, fields);
              prev = ground (arith, fields);
            }
        | inr e ↦
            let old = ready j (ground arith) in
            record {
              lock = rw e old.lock;
              count = rw e old.count;
              next = ground (arith, fields, old.next);
              prev = ground (arith, fields, old.prev);
            }
      ]

  init_slots-IsReady :
      (size n i : ℕ) (w : World K O)
      → i + n ≤ size
      → ((j : ℕ) → j < i → IsReady w j)
      → Returns
          (λ w'. (w'.ht ≡ w.ht) × ((j : ℕ) → j < i + n → IsReady w' j))
          (init_slots size n i w)
  unfolding init_slots write_slot
  init_slots-IsReady size zero i w fits ready = returns (refl, λ j hj. ready j (omega arith))
  init_slots-IsReady size (suc n) i w fits ready =
      let inside : ltb i size ≡ true = ground arith in
      rw (init_slots, inside)
        (Returns-map
          (init_slots-IsReady size n (suc i) (one_more i w) (omega arith)
            (one_more-IsReady i w ready))
          λ w' (same, done). (same, λ j hj. done j (omega arith)))

  -- hashtable_init of fewer than `2 ^ 31` slots, and of one at least, where `malloc` succeeds,
  -- returns 0 and makes a valid table of as many empty slots, with the functions that it is given.
  pub table_init_lem :
      (malloc : ℕ → Option ℕ) (size table : ℕ) (hashfn : K → ℕ) (equalfn : K → O → K → Bool)
      (freefn : Bool) (w : World K O)
      → 0 < size
      → size < 2 ^ 31
      → malloc size ≡ some table
      → Returns
          (λ r.
            (r.0 ≡ pos 0)
            × Holds r.1 (λ i. [])
            × (r.1.ht ≡ record {
              table = table;
              mask = size - 1;
              count = pos 1;
              hashfn = hashfn;
              equalfn = equalfn;
              freefn = freefn;
            }))
          (init malloc size hashfn equalfn freefn w)
  unfolding init
  table_init_lem malloc size table hashfn equalfn freefn w some_slots few got =
      let mask : sub32 size 1 ≡ size - 1 = omega arith in
      let w0 : World K O = record w {
        ht = record {
          table = table;
          mask = size - 1;
          count = pos 1;
          hashfn = hashfn;
          equalfn = equalfn;
          freefn = freefn;
        };
      } in
      rw (init, got, mask)
        (Returns-bind
          (init_slots-IsReady size (size - 1 + 1) 0 w0 (omega arith) λ j hj. absurd (omega arith))
          λ w' (same, ready).
            let last : w'.ht.mask ≡ size - 1 = ap (λ (t : Table K O). t.mask) same in
            returns (
              refl,
              record {
                ring = λ i hi.
                    let r = ready i (omega arith) in
                    record {
                      linked = ring_of (head w' i) w'.nodes r.next r.prev;
                      distinct = (tt, tt);
                    };
                apart = λ i j hi hj ne. ((omega arith, tt), tt);
                counted = λ i hi. (ready i (omega arith)).count;
                unlocked = λ i hi. (ready i (omega arith)).lock;
                members = λ i hi. tt;
                all =
                    ap (λ (t : Table K O). t.count) same
                    ∙ ap (λ (n : ℕ). pos (1 + n)) (sym (total_empty (w'.ht.mask + 1)));
              },
              same,
            ))
