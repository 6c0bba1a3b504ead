-- ===== src/Debug/Hexdump.antt =====
-- hexdump of include/ckit/debug.h, in a buffer of characters: its text if the buffer is large
-- enough, and how it leaves the buffer if it is not.
pub mod Text
pub mod Room
use libckit.Common.{
  ℕ, zero, suc, ◌+◌, ◌-◌, ◌/◌, ◌%◌, ◌^◌, List, [], ◌∷◌, ◌++◌, ltb, ◌==◌, if◌then◌else◌, take,
}
use libckit.Common.Word.{sub64}
use libckit.Common.Run.{Run, ok, fault, ◌>>=◌, ◌>>◌, assert}

-- the ASCII code of a digit in base 16
abbrev pub hex_digit : ℕ → ℕ
hex_digit n = if ltb n 10 then 48 + n else 87 + n

-- two bytes by "%02x%02x "
abbrev pub pair_text : ℕ → ℕ → List ℕ
pair_text h c =
    hex_digit (h / 16) ∷ hex_digit (h % 16) ∷ hex_digit (c / 16) ∷ hex_digit (c % 16) ∷ 32 ∷ []

-- Characters are written over those of a buffer, from the front or from an offset on; a write past
-- the end is a fault.
unfoldable pub overwrite : List ℕ → List ℕ → Run (List ℕ)
overwrite [] dst = ok dst
overwrite (x ∷ xs) [] = fault
overwrite (x ∷ xs) (y ∷ ys) = overwrite xs ys >>= λ rest. ok (x ∷ rest)

unfoldable pub write_at : ℕ → List ℕ → List ℕ → Run (List ℕ)
write_at zero src dst = overwrite src dst
write_at (suc offset) src [] = fault
write_at (suc offset) src (y ∷ ys) = write_at offset src ys >>= λ rest. ok (y ∷ rest)

-- `snprintf(buf + offset, room, ...)` of a text
unfoldable pub snprintf : ℕ → ℕ → List ℕ → List ℕ → Run (List ℕ)
snprintf offset room text buf =
    if room == 0 then ok buf else write_at offset (take (room - 1) text ++ 0 ∷ []) buf

-- the body of the loop: the buffer, with the new `len`, which is an `int`; `buflen - len` becomes
-- a `size_t`
unfoldable pub dump_pair : ℕ → ℕ → ℕ → ℕ → List ℕ → Run (List ℕ)
dump_pair h c len buflen buf = do
  buf' ← snprintf len (sub64 buflen len) (pair_text h c) buf
  assert (ltb (len + 5) (2 ^ 31))
  ok buf'

-- the loop over the bytes that are left
unfoldable pub dump_from : List ℕ → ℕ → ℕ → List ℕ → Run (List ℕ)
dump_from [] len buflen buf = ok buf
dump_from (h ∷ []) len buflen buf = dump_pair h 0 len buflen buf
dump_from (h ∷ c ∷ rest) len buflen buf =
    dump_pair h c len buflen buf >>= λ buf'. dump_from rest (len + 5) buflen buf'

unfoldable pub hexdump : List ℕ → ℕ → List ℕ → Run (List ℕ)
hexdump data_bytes buflen buf = dump_from data_bytes 0 buflen buf
