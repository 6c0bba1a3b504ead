-- ===== src/Pbuf/Pool/Lists.antt =====
-- What pbuf_alloc and pbuf_free do to the two lists of the pool.
use libckit.Common.{
  ℕ, ◌%◌, ◌^◌, ◌≤◌, ◌≡◌, ◌≢◌, ◌∙◌, ap, refl, List, [], ◌∷◌, ◌++◌, true, false, Option, none, some,
  arith, leb, ◌==◌, if◌then◌else◌, Bool-cases, inl, inr,
}
use libckit.Common.Int.{pos}
use libckit.Common.Run.{Returns, returns, Returns-bind, Returns-map}
use libckit.Atomic.{dec_and_test}
use libckit.NodeList
use libckit.NodeList.Ring.{IsRing, Linked}
use libckit.NodeList.Move.{AreApart, AreApart-sym, move-IsRing, move-apart}
use libckit.Pbuf.{Pbuf, max_size}
use libckit.Pbuf.Bounds.{IsValid}
use libckit.Pbuf.Pool.{
  Pool, free_list, use_list, move_entry, alloc, free, write_buf, pbuf_init, clear_inside,
}

-- The pool is not locked, its lists have these entries, and no entry is in both.
pub record HasEntries (p : Pool) (frees uses : List ℕ) : Type 0 where
  pub unlocked : p.locked ≡ false
  pub free_ring : IsRing p.nodes free_list frees
  pub use_ring : IsRing p.nodes use_list uses
  pub apart : AreApart (free_list ∷ frees) (use_list ∷ uses)

move_entry-use :
    (p : Pool) (e : ℕ) (frees uses : List ℕ)
    → HasEntries p (e ∷ frees) uses
    → Returns (λ p'. HasEntries p' frees (e ∷ uses) × (p'.bufs ≡ p.bufs)) (move_entry e use_list p)
unfolding move_entry
move_entry-use p e frees uses h =
    let (free_ring, use_ring) =
      move-IsRing p.nodes e free_list use_list [] frees uses h.free_ring h.use_ring h.apart in
    rw h.unlocked (
      returns (
        record {
          unlocked = refl;
          free_ring = free_ring;
          use_ring = use_ring;
          apart = move-apart e free_list use_list [] frees uses h.free_ring.distinct h.apart;
        },
        refl,
      ))

move_entry-free :
    (p : Pool) (e : ℕ) (frees us vs : List ℕ)
    → HasEntries p frees (us ++ e ∷ vs)
    → Returns
        (λ p'. HasEntries p' (e ∷ frees) (us ++ vs) × (p'.bufs ≡ p.bufs))
        (move_entry e free_list p)
unfolding move_entry
move_entry-free p e frees us vs h =
    let apart = AreApart-sym (use_list ∷ us ++ e ∷ vs) (free_list ∷ frees) h.apart in
    let (use_ring, free_ring) =
      move-IsRing p.nodes e use_list free_list us vs frees h.use_ring h.free_ring apart in
    rw h.unlocked (
      returns (
        record {
          unlocked = refl;
          free_ring = free_ring;
          use_ring = use_ring;
          apart =
              AreApart-sym (free_list ∷ e ∷ frees) (use_list ∷ us ++ vs)
                (move-apart e use_list free_list us vs frees h.use_ring.distinct apart);
        },
        refl,
      ))

pub write_buf-HasEntries :
    (p : Pool) (e : ℕ) (new : Pbuf) (frees uses : List ℕ)
    → HasEntries p frees uses
    → HasEntries (write_buf e new p) frees uses
write_buf-HasEntries p e new frees uses h = record {
  unlocked = h.unlocked;
  free_ring = h.free_ring;
  use_ring = h.use_ring;
  apart = h.apart;
}

-- How pbuf_alloc ends, by what entries are free.
pub data Allocated (size : ℕ) (p : Pool) (uses : List ℕ) : List ℕ → Option ℕ × Pool → Type 0 where
  none_left : Allocated size p uses [] (none, p)
  taken :
      {e : ℕ} {frees : List ℕ} {p' : Pool}
      → HasEntries p' frees (e ∷ uses)
      → IsValid (p'.bufs e)
      → (p'.bufs e).end ≡ size
      → (p'.bufs e).len ≡ 0
      → (p'.bufs e).refcount ≡ pos 1
      → (p'.bufs e).head ≡ clear_inside (p.bufs e).head
      → ((q : ℕ) → e ≢ q → p'.bufs q ≡ p.bufs q)
      → Allocated size p uses (e ∷ frees) (some e, p')

pub written : (p : Pool) (e : ℕ) (new : Pbuf) → (write_buf e new p).bufs e ≡ new
written p e new = ground arith

pub unwritten :
    (p : Pool) (e : ℕ) (new : Pbuf) (q : ℕ) → e ≢ q → (write_buf e new p).bufs q ≡ p.bufs q
unwritten p e new q other = ground arith

-- pbuf_alloc of at most PBUF_MAX_SIZE bytes, from a pool that is not locked and has no entry in
-- both lists: if no entry is free it returns NULL and changes nothing; else it takes the first free
-- one to the front of the used ones, and makes it an empty buffer of that size with one reference.
-- Of its bytes the first four, which lie in the struct, are 0, and the others those that were
-- there. No other buffer changes.
pub alloc_lem :
    (size : ℕ) (p : Pool) (frees uses : List ℕ)
    → size ≤ max_size
    → HasEntries p frees uses
    → Returns (Allocated size p uses frees) (alloc size p)
unfolding alloc Linked
alloc_lem size p [] uses fits h =
    let small : leb size max_size ≡ true = ground arith in
    let none_free : NodeList.empty free_list p.nodes ≡ true = ground (arith, h.free_ring.linked) in
    rw (small, none_free, h.unlocked) (returns none_left)
alloc_lem size p (e ∷ frees) uses fits h =
    let small : leb size max_size ≡ true = ground arith in
    let first : (p.nodes free_list).next ≡ e = h.free_ring.linked.0 in
    let some_free : (e == free_list) ≡ false = ground (arith, h.free_ring.distinct) in
    rw (small, first, some_free)
      (Returns-bind (move_entry-use p e frees uses h) λ p' (entries, same).
        let new : Pbuf = record (pbuf_init (p'.bufs e) size) { alloc_len = size } in
        let w = written p' e new in
        let fits_32 : size % 2 ^ 32 ≡ size = omega arith in
        returns (
          taken (write_buf-HasEntries p' e new frees (e ∷ uses) entries)
            (rw w (record { filled = refl; within = omega arith; bounded = omega arith }))
            (rw (w, fits_32) refl) (rw w refl) (rw w refl) (rw (w, same) refl)
            λ q other. unwritten p' e new q other ∙ ap (λ (f : ℕ → Pbuf). f q) same))

-- pbuf_free of a used entry, in a pool that is not locked and has no entry in both lists, takes one
-- reference off its buffer. If that was the last one, the entry moves to the front of the free
-- ones; else the lists stay as they are.
pub free_lem :
    (e : ℕ) (p : Pool) (frees us vs : List ℕ)
    → HasEntries p frees (us ++ e ∷ vs)
    → let (last, count) = dec_and_test (p.bufs e).refcount in
      Returns
        (λ p'.
          ((p'.bufs e).refcount ≡ count)
          × HasEntries p'
              (if last then e ∷ frees else frees)
              (if last then us ++ vs else us ++ e ∷ vs))
        (free e p)
unfolding free
free_lem e p frees us vs h =
    let (last, count) = dec_and_test (p.bufs e).refcount in
    let new : Pbuf = record (p.bufs e) { refcount = count } in
    let p' = write_buf e new p in
    let h' = write_buf-HasEntries p e new frees (us ++ e ∷ vs) h in
    let w = written p e new in
    elim (Bool-cases last) [
      | inl gone ↦ rw gone (
          Returns-map (move_entry-free p' e frees us vs h')
            λ p'' (entries, same). (rw (same, w) refl, entries))
      | inr held ↦ rw held (returns (rw w refl, h'))
    ]
