-- ===== src/Hash.antt =====
-- include/ckit/hash.h: the hash of a byte array and of a string, on 64 bits. A `char` has a sign; a
-- read behind the end of an array, or of a string without its final 0, is a fault.
pub mod Sdbm
mod Tests
use libckit.Common.{ℕ, zero, suc, ◌+◌, ◌*◌, ◌%◌, ◌^◌, List, [], ◌∷◌, Bool, true, false}
use libckit.Common.Int.{ℤ, pos, eqb_ℤ, to_u64}
use libckit.Common.Run.{Run, ok, fault}
use libckit.Common.Word.{add64, sub64}

abbrev pub shl64 : ℕ → ℕ → ℕ
shl64 x k = (x * 2 ^ k) % 2 ^ 64

unfoldable pub partial_byte_hash : ℕ → ℕ → ℕ
partial_byte_hash c hash = sub64 (add64 (add64 c (shl64 hash 6)) (shl64 hash 16)) hash

-- the loop of byte_array_hash
pub byte_loop : List ℕ → ℕ → ℕ → Run ℕ
byte_loop bytes zero hash = ok hash
byte_loop [] (suc len) hash = fault
byte_loop (b ∷ bytes) (suc len) hash = byte_loop bytes len (partial_byte_hash b hash)

pub byte_array_hash : List ℕ → ℕ → Run ℕ
byte_array_hash bytes len = byte_loop bytes len 0

-- the loop of string_hash
pub string_loop : List ℤ → ℕ → Run ℕ
string_loop [] hash = fault
string_loop (c ∷ str) hash = elim (eqb_ℤ c (pos 0)) [
  | true ↦ ok hash
  | false ↦ string_loop str (partial_byte_hash (to_u64 c) hash)
]

pub string_hash : List ℤ → Run ℕ
string_hash str = string_loop str 0
