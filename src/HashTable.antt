-- ===== src/HashTable.antt =====
-- include/ckit/hashtable.h and src/hashtable.c: a table of slots, each a list of elements with a
-- lock, and counted references to the elements. An element and its list node have one number.
pub mod State
pub mod Valid
pub mod Lookup
pub mod Row
pub mod Insert
pub mod Remove
pub mod Init
pub mod Foreach
pub mod Drain
pub mod Fini
pub mod RoundTrip
pub mod History
mod Tests
use Prim.Native.Nat.{bit_and}
use libckit.Common.{
  ℕ, zero, suc, ◌+◌, ◌%◌, ◌^◌, Bool, true, false, Option, none, some, List, [], ◌∷◌, not, ltb, ◌==◌,
  if◌then◌else◌,
}
use libckit.Common.Int.{ℤ, pos, negsuc}
use libckit.Common.Run.{Run, ok, fault, out_of_fuel, ◌>>=◌}
use libckit.Common.Word.{sub32, add64, sub64}
use libckit.Atomic.{inc, dec, dec_and_test, to_unsigned}
use libckit.NodeList
use State.{
  Lock, free, Slot, Elem, Table, World, write_slot, write_elem, head, wrlock, rdlock, unlock,
}

module _ {K O : Type 0} where
  -- the loop of hashtable_init, for `n` slots from slot `i` on, in an array of `size`
  init_slots : ℕ → ℕ → ℕ → World K O → Run (World K O)
  init_slots size zero i w = ok w
  init_slots size (suc n) i w = elim (ltb i size) [
    | true ↦ init_slots size n (suc i) (
        write_slot i (record { count = 0; lock = free })
          (record w { nodes = NodeList.init (head w i) w.nodes }))
    | false ↦ fault
  ]

  -- `malloc` returns the anchor of the first of so many slots. Where it fails, the table is left
  -- zeroed (its function pointers are not zeroed here, and nothing may call them).
  pub init :
      (ℕ → Option ℕ) → ℕ → (K → ℕ) → (K → O → K → Bool) → Bool → World K O → Run (ℤ × World K O)
  init malloc size hashfn equalfn freefn w = elim (malloc size) [
    | none ↦ ok (
      negsuc 0,
      record w { ht = record w.ht { table = 0; mask = 0; count = pos 0; freefn = false } },
    )
    | some table ↦ do
      let mask = sub32 size 1
      w' ← init_slots size (mask + 1) 0 (record w {
        ht = record {
          table = table;
          mask = mask;
          count = pos 1;
          hashfn = hashfn;
          equalfn = equalfn;
          freefn = freefn;
        };
      })
      ok (pos 0, w')
  ]

  pub get_slot : Table K O → ℕ → ℕ
  get_slot tbl hash = bit_and hash tbl.mask

  pub table_count : World K O → ℕ
  table_count w = to_unsigned w.ht.count

  pub hashed : ℕ → World K O → Bool
  hashed he w = not (NodeList.empty he w.nodes)

  pub hold : ℕ → World K O → World K O
  hold he w =
      let elem = w.elems he in write_elem he (record elem { refcount = inc elem.refcount }) w

  -- hashelm_put: the call of `freefn`, through the element's pointer to the table
  release : ℕ → World K O → Run (World K O)
  release he w =
      if (w.elems he).ht
      then ok (if w.ht.freefn then record w { freed = he ∷ w.freed } else w)
      else fault

  pub put : ℕ → World K O → Run (World K O)
  put he w =
      let elem = w.elems he in
      let (last, count) = dec_and_test elem.refcount in
      let w' = write_elem he (record elem { refcount = count }) w in
      if last then release he w' else ok w'

  pub elem_init : ℕ → World K O → ℤ × World K O
  elem_init he w = (
    pos 0,
    write_elem he (record (w.elems he) { refcount = pos 1 })
        (record w { nodes = NodeList.init he w.nodes }),
  )

  -- `ht->equalfn(he, key)`
  abbrev pub equal : World K O → ℕ → K → Bool
  equal w he key = w.ht.equalfn (w.elems he).key (w.elems he).owner key

  -- the loop over a slot, from `he` on, for an element that has the key
  scan : ℕ → World K O → ℕ → K → ℕ → Run (Option ℕ)
  scan zero w anchor key he = out_of_fuel
  scan (suc k) w anchor key he = elim (he == anchor) [
    | true ↦ ok none
    | false ↦ elim (equal w he key) [
      | true ↦ ok (some he)
      | false ↦ scan k w anchor key (w.nodes he).next
    ]
  ]

  -- The slot's count is the fuel of the loop.
  pub find : World K O → ℕ → K → Run (Option ℕ)
  find w i key = scan ((w.slots i).count + 1) w (head w i) key (NodeList.front (head w i) w.nodes)

  pub lookup : K → World K O → Run (Option ℕ × World K O)
  lookup key w = do
    let i = get_slot w.ht (w.ht.hashfn key)
    w1 ← rdlock i w
    found ← find w1 i key
    let w2 = elim found as (λ _. World K O) [ none ↦ w1 | some he ↦ hold he w1 ]
    w3 ← unlock i w2
    ok (found, w3)

  -- hashtable_hash, once no element of the slot has the key
  enter : ℕ → ℕ → World K O → Run (ℤ × World K O)
  enter i he w = do
    let slot = w.slots i
    let w1 = write_slot i (record slot { count = add64 slot.count 1 }) w
    let w2 : World K O = record w1 {
      ht = record w1.ht { count = inc w1.ht.count };
      nodes = NodeList.add_front (head w1 i) he w1.nodes;
    }
    w3 ← unlock i (hold he w2)
    ok (pos 0, w3)

  pub hash : ℕ → K → World K O → Run (ℤ × World K O)
  hash he key w = if hashed he w then ok (negsuc 0, w) else do
    let elem = w.elems he
    let w1 = write_elem he (record elem { hash = w.ht.hashfn key; ht = true; key = key }) w
    let i = get_slot w.ht (w.ht.hashfn key)
    w2 ← wrlock i w1
    found ← find w2 i key
    elim found [ some he2 ↦ unlock i w2 >>= λ w3. ok (negsuc 0, w3) | none ↦ enter i he w2 ]

  -- `__unhash`
  remove : ℕ → ℕ → World K O → Run (World K O)
  remove i he w =
      let slot = w.slots i in
      let w1 =
        write_slot i (record slot { count = sub64 slot.count 1 })
          (record w {
            nodes = NodeList.del he w.nodes;
            ht = record w.ht { count = dec w.ht.count };
          }) in
      put he w1

  pub unhash : ℕ → World K O → Run (World K O)
  unhash he w = do
    let i = get_slot w.ht (w.elems he).hash
    w1 ← wrlock i w
    w2 ← remove i he w1
    unlock i w2

  -- __hashtable_unhash
  pub unhash_unlocked : ℕ → World K O → Run (World K O)
  unhash_unlocked he w = remove (get_slot w.ht (w.elems he).hash) he w

  -- the loop over a slot, from `he` on; `n` counts the calls
  walk : ℕ → (ℕ → World K O → World K O) → ℕ → ℕ → ℕ → World K O → Run (ℕ × World K O)
  walk zero action anchor he n w = out_of_fuel
  walk (suc k) action anchor he n w = elim (he == anchor) [
    | true ↦ ok (n, w)
    | false ↦ let w' = action he w in walk k action anchor (w'.nodes he).next (n + 1) w'
  ]

  -- the loop over `r` slots, from slot `i` on; `acquire` takes a lock
  walk_slots :
      (ℕ → World K O → Run (World K O))
      → (ℕ → World K O → World K O)
      → ℕ
      → ℕ
      → ℕ
      → World K O
      → Run (ℕ × World K O)
  walk_slots acquire action zero i n w = ok (n, w)
  walk_slots acquire action (suc r) i n w = do
    w1 ← acquire i w
    (n', w2) ←
        walk ((w1.slots i).count + 1) action (head w1 i) (NodeList.front (head w1 i) w1.nodes) n w1
    w3 ← unlock i w2
    walk_slots acquire action r (suc i) n' w3

  -- hashtable_foreach with `wrlock`, and hashtable_foreach_read with `rdlock`
  walk_table :
      (ℕ → World K O → Run (World K O))
      → Option (ℕ → World K O → World K O)
      → World K O
      → Run (ℤ × World K O)
  walk_table acquire none w = ok (negsuc 0, w)
  walk_table acquire (some action) w = do
    (n, w') ← walk_slots acquire action (w.ht.mask + 1) 0 0 w
    ok (pos n, w')

  pub foreach : Option (ℕ → World K O → World K O) → World K O → Run (ℤ × World K O)
  foreach action w = walk_table wrlock action w

  pub foreach_read : Option (ℕ → World K O → World K O) → World K O → Run (ℤ × World K O)
  foreach_read action w = walk_table rdlock action w

  -- the loop of hashtable_fini over a slot
  pub drain : ℕ → ℕ → World K O → Run (World K O)
  drain zero i w = out_of_fuel
  drain (suc k) i w = elim (NodeList.empty (head w i) w.nodes) [
    | true ↦ ok w
    | false ↦
        let he = NodeList.front (head w i) w.nodes in
        put he (record w { nodes = NodeList.del he w.nodes }) >>= drain k i
  ]

  drain_slots : ℕ → ℕ → World K O → Run (World K O)
  drain_slots zero i w = ok w
  drain_slots (suc r) i w = do
    w1 ← wrlock i w
    w2 ← drain ((w1.slots i).count + 1) i w1
    let w3 : World K O = record w2 { nodes = NodeList.init (head w2 i) w2.nodes }
    w4 ← unlock i (write_slot i (record (w3.slots i) { count = 0 }) w3)
    drain_slots r (suc i) w4

  pub fini : World K O → Run (World K O)
  fini w = do
    w' ← drain_slots (w.ht.mask + 1) 0 w
    ok (record w' { ht = record w'.ht { count = pos 0 } })
