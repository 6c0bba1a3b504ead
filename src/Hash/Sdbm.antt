-- ===== src/Hash/Sdbm.antt =====
-- The two hashes as the sdbm polynomial, and against each other.
use libckit.Common.{
  ℕ, ◌+◌, ◌*◌, ◌%◌, ◌^◌, ◌<◌, ◌≡◌, refl, List, [], ◌∷◌, ◌++◌, length, map, arith, false,
}
use libckit.Common.Int.{ℤ, pos, eqb_ℤ, to_u64}
use libckit.Common.Run.{ok}
use libckit.Hash.{partial_byte_hash, byte_loop, byte_array_hash, string_loop, string_hash}

-- the polynomial in 65599 whose coefficients are the bytes, without bounds, from `h` on
unfoldable pub sdbm : List ℕ → ℕ → ℕ
sdbm [] h = h
sdbm (b ∷ bytes) h = sdbm bytes (b + 65599 * h)

partial_byte_hash_lem : (c h : ℕ) → partial_byte_hash c (h % 2 ^ 64) ≡ (c + 65599 * h) % 2 ^ 64
unfolding partial_byte_hash
partial_byte_hash_lem c h = omega arith

byte_loop-sdbm :
    (bytes rest : List ℕ) (h : ℕ)
    → byte_loop (bytes ++ rest) (length bytes) (h % 2 ^ 64) ≡ ok (sdbm bytes h % 2 ^ 64)
unfolding byte_loop sdbm
byte_loop-sdbm [] rest h = refl
byte_loop-sdbm (b ∷ bytes) rest h =
    rw (partial_byte_hash_lem b h) (byte_loop-sdbm bytes rest (b + 65599 * h))

-- byte_array_hash of the first bytes of an array is their sdbm polynomial in 65599, modulo `2 ^
-- 64`.
pub byte_array_hash_lem :
    (bytes rest : List ℕ)
    → byte_array_hash (bytes ++ rest) (length bytes) ≡ ok (sdbm bytes 0 % 2 ^ 64)
unfolding byte_array_hash
byte_array_hash_lem bytes rest = byte_loop-sdbm bytes rest 0

-- no 0 and no byte above 127
pub data IsAscii : List ℕ → Type 0 where
  none_left : IsAscii []
  another : {b : ℕ} {bytes : List ℕ} → 0 < b → b < 128 → IsAscii bytes → IsAscii (b ∷ bytes)

to_u64-pos : (b : ℕ) → b < 2 ^ 64 → to_u64 (pos b) ≡ b
unfolding to_u64
to_u64-pos b small = omega arith

string_loop-byte_loop :
    (bytes : List ℕ) (rest : List ℤ) (h : ℕ)
    → IsAscii bytes
    → string_loop (map pos bytes ++ pos 0 ∷ rest) h ≡ byte_loop bytes (length bytes) h
unfolding string_loop byte_loop
string_loop-byte_loop [] rest h none_left = refl
string_loop-byte_loop (b ∷ bytes) rest h (another low high ascii) =
    let goes_on : eqb_ℤ (pos b) (pos 0) ≡ false = ground arith in
    rw (string_loop, goes_on, to_u64-pos b (omega arith)) (string_loop-byte_loop bytes rest _ ascii)

-- string_hash of a string of ASCII characters is byte_array_hash of its characters up to the 0,
-- whatever stands behind.
pub string_hash_lem :
    (bytes : List ℕ) (rest : List ℤ)
    → IsAscii bytes
    → string_hash (map pos bytes ++ pos 0 ∷ rest) ≡ byte_array_hash bytes (length bytes)
unfolding string_hash byte_array_hash
string_hash_lem bytes rest ascii = string_loop-byte_loop bytes rest 0 ascii
