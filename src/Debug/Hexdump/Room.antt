-- ===== src/Debug/Hexdump/Room.antt =====
-- When hexdump runs over its buffer, and the theorems on what it does.
use libckit.Common.{
  ℕ, zero, suc, ◌+◌, ◌-◌, ◌^◌, ◌≤◌, ◌<◌, ◌≡◌, refl, sym, List, [], ◌∷◌, ◌++◌, false, arith, ltb,
  ◌==◌, take, length, Bool-cases, inl, inr,
}
use libckit.Common.Word.{sub64}
use libckit.Common.Run.{Run, ok, fault, ◌>>=◌, ◌>>◌, assert}
use libckit.Debug.Hexdump.{pair_text, overwrite, write_at, snprintf, dump_pair, dump_from, hexdump}
use libckit.Debug.Hexdump.Text.{text_of, dumped, dump_from_lem}

-- how a write ends: in a fault, or with a buffer of the same length
data Keeps (n : ℕ) : Run (List ℕ) → Type 0 where
  kept : {buf : List ℕ} → length buf ≡ n → Keeps n (ok buf)
  lost : Keeps n fault

Keeps-cons : (n x : ℕ) {r : Run (List ℕ)} → Keeps n r → Keeps (suc n) (r >>= λ rest. ok (x ∷ rest))
Keeps-cons n x (kept e) = kept (rw e refl)
Keeps-cons n x lost = lost

overwrite-Keeps : (src dst : List ℕ) → Keeps (length dst) (overwrite src dst)
unfolding overwrite
overwrite-Keeps [] dst = kept refl
overwrite-Keeps (x ∷ xs) [] = lost
overwrite-Keeps (x ∷ xs) (y ∷ ys) = Keeps-cons (length ys) x (overwrite-Keeps xs ys)

write_at-Keeps : (offset : ℕ) (src dst : List ℕ) → Keeps (length dst) (write_at offset src dst)
unfolding write_at
write_at-Keeps zero src dst = overwrite-Keeps src dst
write_at-Keeps (suc offset) src [] = lost
write_at-Keeps (suc offset) src (y ∷ ys) = Keeps-cons (length ys) y (write_at-Keeps offset src ys)

write_at-past :
    (offset : ℕ) (src dst : List ℕ) → length dst < offset → write_at offset src dst ≡ fault
unfolding write_at
write_at-past zero src dst past = absurd (omega arith)
write_at-past (suc offset) src [] past = refl
write_at-past (suc offset) src (y ∷ ys) past = rw (write_at-past offset src ys (omega arith)) refl

snprintf-Keeps :
    (offset room : ℕ) (text buf : List ℕ) → Keeps (length buf) (snprintf offset room text buf)
unfolding snprintf
snprintf-Keeps offset room text buf = elim (Bool-cases (room == 0)) [
  | inl e ↦ rw e (kept refl)
  | inr e ↦ rw e (write_at-Keeps offset (take (room - 1) text ++ 0 ∷ []) buf)
]

-- how the body of the loop ends: if not in a fault, then `len` is still an `int`
data Goes (n len : ℕ) : Run (List ℕ) → Type 0 where
  goes : {buf : List ℕ} → length buf ≡ n → len + 5 < 2 ^ 31 → Goes n len (ok buf)
  stops : Goes n len fault

checked-Goes :
    (n len : ℕ) {r : Run (List ℕ)}
    → Keeps n r
    → Goes n len (r >>= λ buf. assert (ltb (len + 5) (2 ^ 31)) >> ok buf)
checked-Goes n len lost = stops
checked-Goes n len (kept e) = elim (Bool-cases (ltb (len + 5) (2 ^ 31))) [
  | inl small ↦ rw small (goes e (ground arith))
  | inr large ↦ rw large stops
]

dump_pair-Goes :
    (h c len buflen : ℕ) (buf : List ℕ) → Goes (length buf) len (dump_pair h c len buflen buf)
unfolding dump_pair
dump_pair-Goes h c len buflen buf =
    checked-Goes (length buf) len (snprintf-Keeps len (sub64 buflen len) (pair_text h c) buf)

dump_pair-past :
    (h c len : ℕ) (buf : List ℕ)
    → length buf < len
    → len < 2 ^ 31
    → dump_pair h c len (length buf) buf ≡ fault
unfolding dump_pair snprintf
dump_pair-past h c len buf past small =
    let room = sub64 (length buf) len in
    let wrapped : (room == 0) ≡ false = ground arith in
    rw (snprintf, wrapped, write_at-past len (take (room - 1) (pair_text h c) ++ 0 ∷ []) buf past)
      refl

text_of-long : (x : ℕ) (rest : List ℕ) → 5 ≤ length (text_of (x ∷ rest))
text_of-long x [] = omega arith
text_of-long x (y ∷ rest) = omega arith

Goes-fault :
    (n len : ℕ) {r : Run (List ℕ)} (next : List ℕ → Run (List ℕ))
    → Goes n len r
    → ((buf : List ℕ) → length buf ≡ n → len + 5 < 2 ^ 31 → next buf ≡ fault)
    → (r >>= next) ≡ fault
Goes-fault n len next stops then_fault = refl
Goes-fault n len next (goes e small) then_fault = then_fault _ e small

-- If the last text starts past the end, the loop ends in a fault.
dump_from-past :
    (bytes : List ℕ) (len buflen : ℕ) (buf : List ℕ)
    → length buf ≡ buflen
    → len < 2 ^ 31
    → 5 ≤ length (text_of bytes)
    → buflen + 5 < len + length (text_of bytes)
    → dump_from bytes len buflen buf ≡ fault
unfolding dump_from
dump_from-past [] len buflen buf size small some_left past = absurd (omega (arith, some_left))
dump_from-past (h ∷ []) len buflen buf size small some_left past =
    rw (sym size) (dump_pair-past h 0 len buf (omega arith) small)
dump_from-past (h ∷ c ∷ []) len buflen buf size small some_left past =
    rw (sym size, dump_pair-past h c len buf (omega arith) small) refl
dump_from-past (h ∷ c ∷ x ∷ rest) len buflen buf size small some_left past =
    Goes-fault (length buf) len (dump_from (x ∷ rest) (len + 5) buflen)
      (dump_pair-Goes h c len buflen buf)
      λ buf' e small'.
        dump_from-past (x ∷ rest) (len + 5) buflen buf' (omega arith) small' (text_of-long x rest)
          (omega arith)

-- hexdump of bytes into a buffer of the length that it is told, which an `int` can hold and which
-- is more than the length of the text, of five characters for every two bytes: there is no write
-- outside of the buffer, and if there are bytes then the buffer begins with the text and its NUL,
-- and the rest of it is as it was; else all of it is.
pub hexdump_lem :
    (bytes buf : List ℕ)
    → length buf < 2 ^ 31
    → length (text_of bytes) < length buf
    → hexdump bytes (length buf) buf ≡ ok (dumped bytes buf)
unfolding hexdump
hexdump_lem bytes buf small fits = dump_from_lem bytes (length buf) [] buf small (omega arith) fits

-- hexdump of bytes into a buffer of the length that it is told, which an `int` can hold, writes
-- outside of the buffer if the text for the last one or two bytes starts past the end.
pub hexdump-past :
    (bytes buf : List ℕ)
    → length buf < 2 ^ 31
    → length buf + 5 < length (text_of bytes)
    → hexdump bytes (length buf) buf ≡ fault
unfolding hexdump
hexdump-past bytes buf small past =
    dump_from-past bytes 0 (length buf) buf refl (omega arith) (omega arith) (omega arith)
