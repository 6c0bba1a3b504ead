-- ===== src/Pbuf/Pool/History.antt =====
-- The lists of the pool after any calls, in any order.
use libckit.Common.{
  ℕ, Bool, ◌+◌, ◌≤◌, ◌≡◌, ◌≢◌, refl, sym, subst, List, [], ◌∷◌, ◌++◌, true, false, Option, arith,
  length, length-append, inl, inr, if◌then◌else◌,
}
use libckit.Common.Run.{ok, Returns-ok}
use libckit.Atomic.{dec_and_test}
use libckit.NodeList.Ring.{IsFresh}
use libckit.NodeList.Among.{nth_next, IsAmong, nth_next-IsAmong}
use libckit.NodeList.Move.{AreApart-sym, AreApart-middle}
use libckit.Pbuf.{Pbuf, max_size}
use libckit.Pbuf.Pool.{Pool, free_list, use_list, alloc, free, copy, write_buf}
use libckit.Pbuf.Pool.Lists.{
  HasEntries, Allocated, none_left, taken, alloc_lem, free_lem, write_buf-HasEntries,
}
use libckit.Pbuf.Pool.Copy.{Copied, no_copy, copied, copy_lem}

-- The entry is found by the links of the used ones.
pub record IsUsed (p : Pool) (e : ℕ) : Type 0 where
  pub other : e ≢ use_list
  pub links : ℕ
  pub found : nth_next p.nodes links use_list ≡ e

-- One call. The entry of pbuf_free and pbuf_copy is a used one; `changing` is any write to a
-- buffer, as those of pbuf_hold and pbuf_push.
pub data Step (p : Pool) : Pool → Type 0 where
  allocating : (size : ℕ) {r : Option ℕ × Pool} → size ≤ max_size → alloc size p ≡ ok r → Step p r.1
  freeing : (e : ℕ) {p' : Pool} → IsUsed p e → free e p ≡ ok p' → Step p p'
  copying :
      (e : ℕ) {r : Option ℕ × Pool}
      → IsUsed p e
      → (p.bufs e).len ≤ max_size
      → (p.bufs e).tail ≤ max_size
      → copy e p ≡ ok r
      → Step p r.1
  changing : (e : ℕ) (new : Pbuf) → Step p (write_buf e new p)

pub data Steps (p : Pool) : Pool → Type 0 where
  here : Steps p p
  next : {q r : Pool} → Steps p q → Step q r → Steps p r

used-IsAmong :
    (p : Pool) (frees uses : List ℕ) (e : ℕ)
    → HasEntries p frees uses
    → IsUsed p e
    → (us : List ℕ) × (vs : List ℕ) × (uses ≡ us ++ e ∷ vs)
used-IsAmong p frees uses e h used =
    elim (subst (IsAmong use_list uses) used.found
      (nth_next-IsAmong p.nodes used.links use_list uses h.use_ring.linked)) [
        | inl c ↦ absurd (used.other c)
        | inr split ↦ split
      ]

used-IsFresh :
    (p : Pool) (frees us vs : List ℕ) (e : ℕ) → HasEntries p frees (us ++ e ∷ vs) → IsFresh e frees
used-IsFresh p frees us vs e h =
    (AreApart-middle e (use_list ∷ us) vs (free_list ∷ frees)
      (AreApart-sym (use_list ∷ us ++ e ∷ vs) (free_list ∷ frees) h.apart)).0.1

-- The pool has lists of so many entries in all.
pub record IsPool (p : Pool) (total : ℕ) : Type 0 where
  pub frees : List ℕ
  pub uses : List ℕ
  pub entries : HasEntries p frees uses
  pub number : length frees + length uses ≡ total

Allocated-IsPool :
    (size : ℕ) (p : Pool) (frees uses : List ℕ) (r : Option ℕ × Pool)
    → Allocated size p uses frees r
    → HasEntries p frees uses
    → IsPool r.1 (length frees + length uses)
Allocated-IsPool size p [] uses r none_left h = record {
  frees = [];
  uses = uses;
  entries = h;
  number = refl;
}
Allocated-IsPool size p (e ∷ frees) uses r (taken h' valid end len count head same) h = record {
  frees = frees;
  uses = e ∷ uses;
  entries = h';
  number = omega arith;
}

Copied-IsPool :
    (e : ℕ) (p : Pool) (frees uses : List ℕ) (r : Option ℕ × Pool)
    → Copied e p uses frees r
    → HasEntries p frees uses
    → IsPool r.1 (length frees + length uses)
Copied-IsPool e p [] uses r no_copy h = record {
  frees = [];
  uses = uses;
  entries = h;
  number = refl;
}
Copied-IsPool e p (c ∷ frees) uses r (copied h' same others) h = record {
  frees = frees;
  uses = c ∷ uses;
  entries = h';
  number = omega arith;
}

freed-IsPool :
    (last : Bool) (p : Pool) (e : ℕ) (frees us vs : List ℕ)
    → HasEntries p (if last then e ∷ frees else frees) (if last then us ++ vs else us ++ e ∷ vs)
    → IsPool p (length frees + length (us ++ e ∷ vs))
freed-IsPool true p e frees us vs h = record {
  frees = e ∷ frees;
  uses = us ++ vs;
  entries = h;
  number = omega (arith, length-append us vs, length-append us (e ∷ vs));
}
freed-IsPool false p e frees us vs h = record {
  frees = frees;
  uses = us ++ e ∷ vs;
  entries = h;
  number = refl;
}

free-IsPool :
    (e : ℕ) (p : Pool) (frees uses : List ℕ) {p' : Pool}
    → HasEntries p frees uses
    → IsUsed p e
    → free e p ≡ ok p'
    → IsPool p' (length frees + length uses)
free-IsPool e p frees uses {p'} h used ended =
    let (us, vs, split) = used-IsAmong p frees uses e h used in
    let last = (dec_and_test (p.bufs e).refcount).0 in
    subst (λ (l : List ℕ). IsPool p' (length frees + length l)) (sym split)
      (freed-IsPool last p' e frees us vs
        (Returns-ok ended (free_lem e p frees us vs (subst (HasEntries p frees) split h))).1)

copy-IsPool :
    (e : ℕ) (p : Pool) (frees uses : List ℕ) {r : Option ℕ × Pool}
    → HasEntries p frees uses
    → IsUsed p e
    → (p.bufs e).len ≤ max_size
    → (p.bufs e).tail ≤ max_size
    → copy e p ≡ ok r
    → IsPool r.1 (length frees + length uses)
copy-IsPool e p frees uses h used small fits ended =
    let (us, vs, split) = used-IsAmong p frees uses e h used in
    let fresh = used-IsFresh p frees us vs e (subst (HasEntries p frees) split h) in
    Copied-IsPool e p frees uses _ (Returns-ok ended (copy_lem e p frees uses fresh small fits h)) h

Step-IsPool : {p p' : Pool} (total : ℕ) → Step p p' → IsPool p total → IsPool p' total
Step-IsPool {p} total (allocating size fits e) pool = subst (IsPool _) pool.number (
    Allocated-IsPool size p pool.frees pool.uses _
      (Returns-ok e (alloc_lem size p pool.frees pool.uses fits pool.entries)) pool.entries)
Step-IsPool {p} total (freeing e used ended) pool =
    subst (IsPool _) pool.number (free-IsPool e p pool.frees pool.uses pool.entries used ended)
Step-IsPool {p} total (copying e used small fits ended) pool =
    subst (IsPool _) pool.number
      (copy-IsPool e p pool.frees pool.uses pool.entries used small fits ended)
Step-IsPool {p} total (changing e new) pool = record {
  frees = pool.frees;
  uses = pool.uses;
  entries = write_buf-HasEntries p e new pool.frees pool.uses pool.entries;
  number = pool.number;
}

-- After any calls of pbuf_alloc, pbuf_copy and pbuf_free, in any order, and any writes to buffers,
-- on a pool that is not locked and has no entry in both lists, this holds of it, and there are as
-- many entries in the two lists together as there were: none is lost. pbuf_alloc is asked for at
-- most PBUF_MAX_SIZE bytes; an entry that is freed or copied is a used one; and one that is copied
-- has at most that many bytes of data, which end within the bytes behind the buffer.
pub Steps-IsPool : {p p' : Pool} (total : ℕ) → Steps p p' → IsPool p total → IsPool p' total
Steps-IsPool total here pool = pool
Steps-IsPool total (next steps step) pool = Step-IsPool total step (Steps-IsPool total steps pool)
