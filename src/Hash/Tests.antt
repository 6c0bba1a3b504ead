-- ===== src/Hash/Tests.antt =====
-- include/ckit/hash.h on short arrays, and the theorems about it at these.
use libckit.Common.{◌%◌, ◌^◌, ◌≡◌, refl, [], ◌∷◌}
use libckit.Common.Int.{pos}
use libckit.Common.Run.{ok, fault}
use libckit.Hash.{byte_array_hash, string_loop, string_hash}
use libckit.Hash.Sdbm.{sdbm, byte_array_hash_lem}

-- the hash of "abc", with another byte behind it
byte_array_hash_lem_example : byte_array_hash (97 ∷ 98 ∷ 99 ∷ 7 ∷ []) 3 ≡ ok (417419622498 % 2 ^ 64)
unfolding sdbm
byte_array_hash_lem_example = byte_array_hash_lem (97 ∷ 98 ∷ 99 ∷ []) (7 ∷ [])

-- Without a final 0 the string has no end.
unterminated : string_hash (pos 97 ∷ []) ≡ fault
unfolding string_hash string_loop
unterminated = refl
