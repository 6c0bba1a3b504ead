-- ===== src/HashTable/State.antt =====
-- What the functions of src/hashtable.c work on.
use libckit.Common.{ℕ, zero, suc, ◌+◌, Bool, List, ◌==◌, if◌then◌else◌}
use libckit.Common.Int.{ℤ}
use libckit.Common.Run.{Run, ok, fault}
use libckit.NodeList.{Nodes}

-- `pthread_rwlock_t`: `reading n` has n + 1 readers.
pub data Lock : Type 0 where
  free writing : Lock
  reading : ℕ → Lock

-- `struct hashslot`, but for its list anchor
pub record Slot : Type 0 where
  pub count : ℕ
  pub lock : Lock

-- `struct hashelm`, but for its list node, with the object that it is embedded in. `ht` says
-- whether its pointer to the table is set.
pub record Elem (K O : Type 0) : Type 0 where
  pub refcount : ℤ
  pub hash : ℕ
  pub key : K
  pub ht : Bool
  pub owner : O

-- `struct hashtable`: `table` is the anchor of slot 0, and those of the others follow it. `equalfn`
-- reads the key of an element and the object around it; `freefn` says whether there is one.
pub record Table (K O : Type 0) : Type 0 where
  pub table : ℕ
  pub mask : ℕ
  pub count : ℤ
  pub hashfn : K → ℕ
  pub equalfn : K → O → K → Bool
  pub freefn : Bool

-- a table, its slots, the list nodes and elements in memory, and the elements that `freefn` was
-- called with, the last one first
pub record World (K O : Type 0) : Type 0 where
  pub ht : Table K O
  pub slots : ℕ → Slot
  pub nodes : Nodes
  pub elems : ℕ → Elem K O
  pub freed : List ℕ

module _ {K O : Type 0} where
  -- `ht->table[i] = slot` and `*he = elem`
  unfoldable pub write_slot : ℕ → Slot → World K O → World K O
  write_slot i slot w = record w { slots = λ j. if i == j then slot else w.slots j }

  unfoldable pub write_elem : ℕ → Elem K O → World K O → World K O
  write_elem he elem w = record w { elems = λ p. if he == p then elem else w.elems p }

  -- the list anchor of a slot
  abbrev pub head : World K O → ℕ → ℕ
  head w i = w.ht.table + i

  abbrev pub set_lock : ℕ → Lock → World K O → World K O
  set_lock i lock w = write_slot i (record (w.slots i) { lock = lock }) w

  -- A thread that would wait for itself is a fault.
  unfoldable pub wrlock : ℕ → World K O → Run (World K O)
  wrlock i w = elim ((w.slots i).lock) [
    | free ↦ ok (set_lock i writing w)
    | writing ↦ fault
    | reading n ↦ fault
  ]

  unfoldable pub rdlock : ℕ → World K O → Run (World K O)
  rdlock i w = elim ((w.slots i).lock) [
    | free ↦ ok (set_lock i (reading 0) w)
    | writing ↦ fault
    | reading n ↦ ok (set_lock i (reading (suc n)) w)
  ]

  unfoldable pub unlock : ℕ → World K O → Run (World K O)
  unlock i w = elim ((w.slots i).lock) [
    | free ↦ fault
    | writing ↦ ok (set_lock i free w)
    | reading n ↦ ok (set_lock i (elim n [ zero ↦ free | suc m ↦ reading m ]) w)
  ]
