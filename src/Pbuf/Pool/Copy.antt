-- ===== src/Pbuf/Pool/Copy.antt =====
-- What pbuf_copy does.
use libckit.Common.{
  ℕ, ◌+◌, ◌≤◌, ◌≡◌, ◌≢◌, refl, sym, ◌∙◌, List, [], ◌∷◌, true, Option, none, some, arith, leb,
}
use libckit.Common.Int.{pos}
use libckit.Common.Arrays.{copy_prefix}
use libckit.Common.Run.{Returns, returns, Returns-bind}
use libckit.NodeList.Ring.{IsFresh}
use libckit.Pbuf.{Pbuf, max_size, head_inside}
use libckit.Pbuf.Pool.{Pool, clear_inside, fill_copy, copy}
use libckit.Pbuf.Pool.Lists.{
  HasEntries, Allocated, none_left, taken, alloc_lem, written, unwritten, write_buf-HasEntries,
}

-- How pbuf_copy of the buffer of entry `e` ends, by what entries are free: the copy is in the
-- first.
pub data Copied (e : ℕ) (p : Pool) (uses : List ℕ) : List ℕ → Option ℕ × Pool → Type 0 where
  no_copy : Copied e p uses [] (none, p)
  copied :
      {c : ℕ} {frees : List ℕ} {p' : Pool}
      → HasEntries p' frees (c ∷ uses)
      → p'.bufs c ≡ record (p.bufs e) {
        refcount = pos 1;
        head =
            copy_prefix
              (head_inside + (p.bufs e).tail)
              (p.bufs e).head
              (clear_inside (p.bufs c).head);
      }
      → ((q : ℕ) → c ≢ q → p'.bufs q ≡ p.bufs q)
      → Copied e p uses (c ∷ frees) (some c, p')

fill_copy_lem :
    (e size : ℕ) (p : Pool) (frees uses : List ℕ) (r : Option ℕ × Pool)
    → Allocated size p uses frees r
    → IsFresh e frees
    → (p.bufs e).tail ≤ max_size
    → Returns (Copied e p uses frees) (fill_copy e r)
unfolding fill_copy
fill_copy_lem e size p frees uses r none_left fresh fits = returns no_copy
fill_copy_lem e size p frees uses r (taken {e = c} {p' = p'} h valid end len count head same)
      (e_c, fresh) fits =
    let kept = same e (λ d. e_c (sym d)) in
    let small : leb (head_inside + (p'.bufs e).tail) (head_inside + max_size) ≡ true =
      rw kept (ground arith) in
    let new : Pbuf = record (p'.bufs e) {
      head = copy_prefix (head_inside + (p'.bufs e).tail) (p'.bufs e).head (p'.bufs c).head;
      refcount = pos 1;
    } in
    rw small (
      returns (
        copied (write_buf-HasEntries p' c new _ (c ∷ uses) h)
          (written p' c new ∙ rw (kept, head) refl)
          (λ q other. unwritten p' c new q other ∙ same q other)))

-- pbuf_copy of an entry that is not free, with at most PBUF_MAX_SIZE bytes of data, and a tail that
-- is at most that too, from a pool that is not locked and has no entry in both lists: if no entry
-- is free it returns NULL and changes nothing; else the first free one goes to the front of the
-- used ones, and its buffer is like the first in all but the count, which is 1, and the bytes from
-- `tail + 4` on, which are as pbuf_alloc leaves them: the first four bytes lie in the struct, so
-- that four more are copied than up to the tail. No other buffer changes.
pub copy_lem :
    (e : ℕ) (p : Pool) (frees uses : List ℕ)
    → IsFresh e frees
    → (p.bufs e).len ≤ max_size
    → (p.bufs e).tail ≤ max_size
    → HasEntries p frees uses
    → Returns (Copied e p uses frees) (copy e p)
unfolding copy
copy_lem e p frees uses fresh size fits h =
    Returns-bind (alloc_lem (p.bufs e).len p frees uses size h)
      λ r a. fill_copy_lem e (p.bufs e).len p frees uses r a fresh fits
