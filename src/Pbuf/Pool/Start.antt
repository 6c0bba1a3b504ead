-- ===== src/Pbuf/Pool/Start.antt =====
-- What pbuf_pool_init does to the lists of the pool, and to what is behind its entries.
use libckit.Common.{
  ℕ, zero, suc, ◌+◌, ◌≤◌, ◌<◌, ◌≡◌, refl, List, [], ◌∷◌, ◌++◌, Option, none, some, arith, leb, ltb,
  ◌&&◌, if◌then◌else◌, subst,
}
use Prim.Native.Nat.{max}
use libckit.Common.Int.{ℤ, pos, negsuc}
use libckit.NodeList
use libckit.NodeList.{Nodes}
use libckit.NodeList.Ring.{IsFresh}
use libckit.NodeList.Back.{add_back-IsRing, add_back-other, IsFresh-end}
use libckit.NodeList.Move.{AreApart-end, AreApart-sym, last-apart_from}
use libckit.Pbuf.Pool.{
  Pool, free_list, use_list, min_pool_size, zero_pbuf, add_entries, add_objects, pool_init,
}
use libckit.Pbuf.Pool.Lists.{HasEntries}

-- `n` numbers, from `e` on
abbrev pub range : ℕ → ℕ → List ℕ
range zero e = []
range (suc n) e = e ∷ range n (suc e)

-- None of the numbers is an anchor or an entry.
abbrev pub AreNew : ℕ → ℕ → List ℕ → List ℕ → Type 0
AreNew zero e frees uses = Unit {0}
AreNew (suc n) e frees uses =
    IsFresh e (free_list ∷ frees) × IsFresh e (use_list ∷ uses) × AreNew n (suc e) frees uses

still-AreNew :
    (n e x : ℕ) (frees uses : List ℕ)
    → x < e
    → AreNew n e frees uses
    → AreNew n e (frees ++ x ∷ []) uses
still-AreNew zero e x frees uses before new = tt
still-AreNew (suc n) e x frees uses before (f, u, rest) = (
  IsFresh-end e x (free_list ∷ frees) f (omega arith),
  u,
  still-AreNew n (suc e) x frees uses (omega arith) rest,
)

range-append :
    (frees : List ℕ) (e : ℕ) (rest : List ℕ) → (frees ++ e ∷ []) ++ rest ≡ frees ++ e ∷ rest
range-append [] e rest = refl
range-append (f ∷ frees) e rest = rw (range-append frees e rest) refl

append-nil : (frees : List ℕ) → frees ++ [] ≡ frees
append-nil [] = refl
append-nil (f ∷ frees) = rw (append-nil frees) refl

add_one :
    (e : ℕ) (p : Pool) (frees uses : List ℕ)
    → IsFresh e (free_list ∷ frees)
    → IsFresh e (use_list ∷ uses)
    → HasEntries p frees uses
    → HasEntries (record p { nodes = NodeList.add_back free_list e p.nodes }) (frees ++ e ∷ []) uses
add_one e p frees uses (e_a, f) u h =
    let apart = AreApart-sym (use_list ∷ uses) (free_list ∷ frees) h.apart in
    record {
      unlocked = h.unlocked;
      free_ring = add_back-IsRing p.nodes free_list e e_a frees f h.free_ring;
      use_ring =
          add_back-other p.nodes free_list e e_a use_list uses u h.apart.0
            (last-apart_from p.nodes free_list frees free_list (use_list ∷ uses) apart
              h.free_ring.linked)
            h.use_ring;
      apart = AreApart-end e (use_list ∷ uses) (free_list ∷ frees) u h.apart;
    }

add_entries_lem :
    (n e : ℕ) (p : Pool) (frees uses : List ℕ)
    → AreNew n e frees uses
    → HasEntries p frees uses
    → HasEntries (record p { nodes = add_entries n e p.nodes }) (frees ++ range n e) uses
unfolding add_entries
add_entries_lem zero e p frees uses new h = rw (append-nil frees) h
add_entries_lem (suc n) e p frees uses (f, u, rest) h =
    subst (λ (x : List ℕ). HasEntries (record p { nodes = add_entries (suc n) e p.nodes }) x uses)
      (range-append frees e (range n (suc e)))
      (add_entries_lem n (suc e) (record p { nodes = NodeList.add_back free_list e p.nodes })
        (frees ++ e ∷ []) uses (still-AreNew n (suc e) e frees uses (omega arith) rest)
        (add_one e p frees uses f u h))

cleared :
    (p : Pool) (objects n e : ℕ)
    → objects ≤ e
    → e < objects + n
    → (if leb objects e && ltb e (objects + n) then zero_pbuf else p.bufs e) ≡ zero_pbuf
cleared p objects n e from to = ground arith

-- how pbuf_pool_init ends, from what calloc returns for the number of entries
pub data Started (p : Pool) (frees uses : List ℕ) (n : ℕ) : Option ℕ → ℤ × Pool → Type 0 where
  no_memory : Started p frees uses n none (negsuc 0, record p { objects = none })
  started :
      {e : ℕ} {p' : Pool}
      → HasEntries p' (frees ++ range n e) uses
      → p'.objects ≡ some e
      → ((b : ℕ) → e ≤ b → b < e + n → p'.bufs b ≡ zero_pbuf)
      → Started p frees uses n (some e) (pos 0, p')

add_objects_lem :
    (n : ℕ) (found : Option ℕ) (p : Pool) (frees uses : List ℕ)
    → ((e : ℕ) → found ≡ some e → AreNew n e frees uses)
    → HasEntries p frees uses
    → Started p frees uses n found (add_objects n found p)
unfolding add_objects
add_objects_lem n none p frees uses new h = no_memory
add_objects_lem n (some objects) p frees uses new h =
    let m = add_entries_lem n objects p frees uses (new objects refl) h in
    started
      (record {
        unlocked = m.unlocked;
        free_ring = m.free_ring;
        use_ring = m.use_ring;
        apart = m.apart;
      })
      refl (cleared p objects n)

-- pbuf_pool_init of a pool that is not locked, with calloc returning memory that is not in use: it
-- asks for the entries that are wanted, and for at least MIN_POOL_SIZE. Without memory it returns
-- -1, and the lists stay as they are; else it returns 0, and all the entries, with nothing but
-- zeros, are behind the free ones, in the order of their addresses, the used ones stay, and no
-- entry is in both lists.
pub pool_init_lem :
    (calloc : ℕ → Option ℕ) (pool_size : ℕ) (p : Pool) (frees uses : List ℕ)
    → ((n e : ℕ) → calloc n ≡ some e → AreNew n e frees uses)
    → HasEntries p frees uses
    → Started p frees uses
        (max pool_size min_pool_size)
        (calloc (max pool_size min_pool_size))
        (pool_init calloc pool_size p)
unfolding pool_init
pool_init_lem calloc pool_size p frees uses new h =
    let n = max pool_size min_pool_size in
    rw (pool_init, wanted) (add_objects_lem n (calloc n) p frees uses (new n) h)
  where
    wanted :
        (if ltb pool_size min_pool_size then min_pool_size else pool_size)
        ≡ max pool_size min_pool_size
    wanted = ground arith
