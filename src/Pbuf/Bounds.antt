-- ===== src/Pbuf/Bounds.antt =====
-- The bounds of a packet buffer, under the operations that move them.
use libckit.Common.{
  ℕ, ◌+◌, ◌-◌, ◌^◌, ◌≤◌, ◌<◌, ◌≡◌, refl, ap, Bool, true, false, arith, leb, if◌then◌else◌,
  Bool-cases, inl, inr,
}
use libckit.Common.Word.{add32, sub32, add64, sub64}
use libckit.Common.Run.{ok, fault, ◌>>=◌, Returns, returns}
use libckit.Pbuf.{Pbuf, max_size, reserve, push, pull, put, trim, headroom}

-- The data stand from `data` to `tail`, within the bytes that the buffer has.
pub record IsValid (pb : Pbuf) : Type 0 where
  pub filled : pb.data_at + pb.len ≡ pb.tail
  pub within : pb.tail ≤ pb.end
  pub bounded : pb.end ≤ max_size

push-cases :
    (pb : Pbuf) (n : ℕ)
    → IsValid pb
    → push pb n ≡ (
        if leb n (headroom pb)
        then ok (pb.data_at - n, record pb { data_at = pb.data_at - n; len = pb.len + n })
        else fault)
unfolding push
push-cases pb n v = elim (Bool-cases (leb n (headroom pb))) [
  | inl h ↦
      let start : sub32 pb.data_at n ≡ pb.data_at - n =
        ground (arith, v.filled, v.within, v.bounded) in
      let longer : add64 pb.len n ≡ pb.len + n = ground (arith, v.filled, v.within, v.bounded) in
      rw (h, start, longer) refl
  | inr h ↦ rw h refl
]

put-cases :
    (pb : Pbuf) (n : ℕ)
    → IsValid pb
    → put pb n ≡ (
        if leb n (pb.end - pb.tail)
        then ok (pb.tail, record pb { tail = pb.tail + n; len = pb.len + n })
        else fault)
unfolding put
put-cases pb n v =
    let room : sub32 pb.end pb.tail ≡ pb.end - pb.tail =
      omega (arith, v.filled, v.within, v.bounded) in
    rw room (elim (Bool-cases (leb n (pb.end - pb.tail))) [
      | inl h ↦
          let stop : add32 pb.tail n ≡ pb.tail + n =
            ground (arith, v.filled, v.within, v.bounded) in
          let longer : add64 pb.len n ≡ pb.len + n =
            ground (arith, v.filled, v.within, v.bounded) in
          rw (h, stop, longer) refl
      | inr h ↦ rw h refl
    ])

pull-cases :
    (pb : Pbuf) (n : ℕ)
    → IsValid pb
    → pull pb n ≡ (
        if leb n (pb.end - pb.data_at)
        then ok (pb.data_at + n, record pb { data_at = pb.data_at + n; len = sub64 pb.len n })
        else fault)
unfolding pull
pull-cases pb n v =
    let room : sub32 pb.end pb.data_at ≡ pb.end - pb.data_at =
      omega (arith, v.filled, v.within, v.bounded) in
    rw room (elim (Bool-cases (leb n (pb.end - pb.data_at))) [
      | inl h ↦
          let start : add32 pb.data_at n ≡ pb.data_at + n =
            ground (arith, v.filled, v.within, v.bounded) in
          rw (h, start) refl
      | inr h ↦ rw h refl
    ])

reserve-cases :
    (pb : Pbuf) (n : ℕ)
    → IsValid pb
    → reserve pb n ≡ (
        if leb n (pb.end - pb.data_at)
        then ok (pb.data_at + n, record pb { data_at = pb.data_at + n; tail = pb.tail + n })
        else fault)
unfolding reserve
reserve-cases pb n v =
    let room : sub32 pb.end pb.data_at ≡ pb.end - pb.data_at =
      omega (arith, v.filled, v.within, v.bounded) in
    rw room (elim (Bool-cases (leb n (pb.end - pb.data_at))) [
      | inl h ↦
          let start : add32 pb.data_at n ≡ pb.data_at + n =
            ground (arith, v.filled, v.within, v.bounded) in
          let stop : add32 pb.tail n ≡ pb.tail + n =
            ground (arith, v.filled, v.within, v.bounded) in
          rw (h, start, stop) refl
      | inr h ↦ rw h refl
    ])

-- On a valid buffer pbuf_push, pbuf_put, pbuf_pull and pbuf_reserve do not wrap round as they move
-- the bounds, and stop at their `assert` exactly if there is no room for the length: before the
-- data for push, behind the data for put, and from the start of the data to the end of the buffer
-- for pull and reserve. The length that pull leaves is stated with its wrap-around.
pub moves_lem :
    (pb : Pbuf) (n : ℕ)
    → IsValid pb
    → (push pb n ≡ (
        if leb n pb.data_at
        then ok (pb.data_at - n, record pb { data_at = pb.data_at - n; len = pb.len + n })
        else fault))
      × (put pb n ≡ (
          if leb n (pb.end - pb.tail)
          then ok (pb.tail, record pb { tail = pb.tail + n; len = pb.len + n })
          else fault))
      × (pull pb n ≡ (
          if leb n (pb.end - pb.data_at)
          then ok (pb.data_at + n, record pb { data_at = pb.data_at + n; len = sub64 pb.len n })
          else fault))
      × (reserve pb n ≡ (
          if leb n (pb.end - pb.data_at)
          then ok (pb.data_at + n, record pb { data_at = pb.data_at + n; tail = pb.tail + n })
          else fault))
moves_lem pb n v = (push-cases pb n v, put-cases pb n v, pull-cases pb n v, reserve-cases pb n v)

-- pbuf_push of as many bytes as pbuf_pull has just taken, if there were that many in a valid
-- buffer, gives the buffer back.
pub pull-push :
    (pb : Pbuf) (n : ℕ)
    → IsValid pb
    → n ≤ pb.len
    → (pull pb n >>= λ (start, pb'). push pb' n) ≡ ok (pb.data_at, pb)
pull-push pb n v some_in =
    let room : leb n (pb.end - pb.data_at) ≡ true = ground (arith, v.filled, v.within) in
    let shorter : sub64 pb.len n ≡ pb.len - n = omega (arith, v.filled, v.within, v.bounded) in
    let pb1 : Pbuf = record pb { data_at = pb.data_at + n; len = pb.len - n } in
    let v1 : IsValid pb1 = record {
      filled = omega (arith, v.filled);
      within = v.within;
      bounded = v.bounded;
    } in
    let back : leb n (pb.data_at + n) ≡ true = ground arith in
    let start : pb.data_at + n - n ≡ pb.data_at = omega arith in
    let whole : pb.len - n + n ≡ pb.len = omega arith in
    rw (pull-cases pb n v, room, shorter, push-cases pb1 n v1, back, start, whole) refl

-- What the callers of the operations see to: room for what is put before or behind the data, no
-- more taken from the front than there is, a trimmed length that fits, and a reserve of an empty
-- buffer.
pub data Step (pb : Pbuf) : Pbuf → Type 0 where
  pushing : {pb' : Pbuf} {at : ℕ} (n : ℕ) → push pb n ≡ ok (at, pb') → Step pb pb'
  putting : {pb' : Pbuf} {at : ℕ} (n : ℕ) → put pb n ≡ ok (at, pb') → Step pb pb'
  pulling : {pb' : Pbuf} {at : ℕ} (n : ℕ) → n ≤ pb.len → pull pb n ≡ ok (at, pb') → Step pb pb'
  reserving : {pb' : Pbuf} {at : ℕ} (n : ℕ) → pb.len ≡ 0 → reserve pb n ≡ ok (at, pb') → Step pb pb'
  trimming : (n : ℕ) → n ≤ pb.end - pb.data_at → Step pb (trim pb n)

pub data Steps (pb : Pbuf) : Pbuf → Type 0 where
  here : Steps pb pb
  next : {mid last : Pbuf} → Steps pb mid → Step mid last → Steps pb last

ok-if :
    {A : Type 0} {x y : A} (b : Bool) → (if b then ok x else fault) ≡ ok y → (b ≡ true) × (x ≡ y)
ok-if true e = (refl, cc)
ok-if false e = cc

Step-IsValid : {pb pb' : Pbuf} → Step pb pb' → IsValid pb → IsValid pb'
unfolding trim
Step-IsValid {pb} {pb'} (pushing n e) v =
    let (room, same) = ok-if _ (rw (push-cases pb n v) at e) in
    let moved : IsValid (record pb { data_at = pb.data_at - n; len = pb.len + n }) = record {
      filled = ground (arith, v.filled, v.within, v.bounded);
      within = ground (arith, v.filled, v.within, v.bounded);
      bounded = v.bounded;
    } in
    rw (ap (λ (r : ℕ × Pbuf). r.1) same) at moved
Step-IsValid {pb} {pb'} (putting n e) v =
    let (room, same) = ok-if _ (rw (put-cases pb n v) at e) in
    let moved : IsValid (record pb { tail = pb.tail + n; len = pb.len + n }) = record {
      filled = ground (arith, v.filled, v.within, v.bounded);
      within = ground (arith, v.filled, v.within, v.bounded);
      bounded = v.bounded;
    } in
    rw (ap (λ (r : ℕ × Pbuf). r.1) same) at moved
Step-IsValid {pb} {pb'} (pulling n some_in e) v =
    let (room, same) = ok-if _ (rw (pull-cases pb n v) at e) in
    let moved : IsValid (record pb { data_at = pb.data_at + n; len = sub64 pb.len n }) = record {
      filled = ground (arith, v.filled, v.within, v.bounded);
      within = ground (arith, v.filled, v.within, v.bounded);
      bounded = v.bounded;
    } in
    rw (ap (λ (r : ℕ × Pbuf). r.1) same) at moved
Step-IsValid {pb} {pb'} (reserving n none_in e) v =
    let (room, same) = ok-if _ (rw (reserve-cases pb n v) at e) in
    let moved : IsValid (record pb { data_at = pb.data_at + n; tail = pb.tail + n }) = record {
      filled = ground (arith, v.filled, v.within, v.bounded);
      within = ground (arith, v.filled, v.within, v.bounded);
      bounded = v.bounded;
    } in
    rw (ap (λ (r : ℕ × Pbuf). r.1) same) at moved
Step-IsValid {pb} {pb'} (trimming n room) v = record {
  filled = omega (arith, v.filled, v.within, v.bounded);
  within = omega (arith, v.filled, v.within, v.bounded);
  bounded = v.bounded;
}

-- The bounds of a valid buffer stay in order and within the buffer, and its length that of its
-- data, under any calls of pbuf_push, pbuf_put, pbuf_pull, pbuf_reserve and pbuf_trim, if a pull
-- takes no more than there is, a reserve finds the buffer empty, and a trimmed length fits behind
-- the start of the data.
pub bounds_lem : {pb pb' : Pbuf} → Steps pb pb' → IsValid pb → IsValid pb'
bounds_lem here v = v
bounds_lem (next before last) v = Step-IsValid last (bounds_lem before v)

-- pbuf_pull of more bytes than a valid buffer has, but no more than up to its end, goes through: it
-- moves the start of the data behind their end, and the length wraps round.
pub pull-overrun :
    (pb : Pbuf) (n : ℕ)
    → IsValid pb
    → pb.len < n
    → pb.data_at + n ≤ pb.end
    → Returns (λ (at, pb'). (pb'.tail < pb'.data_at) × (pb'.len + n ≡ 2 ^ 64 + pb.len)) (pull pb n)
pull-overrun pb n v more fits =
    let room : leb n (pb.end - pb.data_at) ≡ true = ground arith in
    rw (pull-cases pb n v, room)
      (returns (omega (arith, v.filled), omega (arith, v.filled, v.within, v.bounded)))
