-- ===== src/Time/Timeval.antt =====
-- The timeval macros of include/ckit/time.h.
pub mod Totals
use libckit.Common.{ℕ, Bool, not, ◌&&◌, ◌||◌, if◌then◌else◌}
use libckit.Common.Int.{ℤ, pos, ◌+ℤ◌, ◌-ℤ◌, quot, rem, ltb_ℤ, eqb_ℤ}
use libckit.Time.{usec_per_sec}

pub record Timeval : Type 0 where
  pub sec : ℤ
  pub usec : ℤ

unfoldable pub normalize : Timeval → Timeval
normalize t =
    if not (ltb_ℤ t.usec (pos usec_per_sec))
    then record { sec = t.sec +ℤ pos 1; usec = t.usec -ℤ pos usec_per_sec }
    else if ltb_ℤ t.usec (pos 0)
    then record { sec = t.sec -ℤ pos 1; usec = t.usec +ℤ pos usec_per_sec }
    else t

unfoldable pub add_usec : Timeval → ℤ → Timeval
add_usec t n =
    normalize (record { sec = t.sec +ℤ quot n usec_per_sec; usec = t.usec +ℤ rem n usec_per_sec })

unfoldable pub sub_usec : Timeval → ℤ → Timeval
sub_usec t n =
    normalize (record { sec = t.sec -ℤ quot n usec_per_sec; usec = t.usec -ℤ rem n usec_per_sec })

unfoldable pub add : Timeval → Timeval → Timeval
add t u = normalize (record { sec = t.sec +ℤ u.sec; usec = t.usec +ℤ u.usec })

unfoldable pub sub : Timeval → Timeval → Timeval
sub t u = normalize (record { sec = t.sec -ℤ u.sec; usec = t.usec -ℤ u.usec })

unfoldable pub nz : Timeval → Bool
nz t = not (eqb_ℤ t.sec (pos 0)) || not (eqb_ℤ t.usec (pos 0))

unfoldable pub lt : Timeval → Timeval → Bool
lt t u = ltb_ℤ t.sec u.sec || (eqb_ℤ t.sec u.sec && ltb_ℤ t.usec u.usec)

unfoldable pub gt : Timeval → Timeval → Bool
gt t u = lt u t

unfoldable pub ge : Timeval → Timeval → Bool
ge t u = not (lt t u)

unfoldable pub le : Timeval → Timeval → Bool
le t u = not (gt t u)

unfoldable pub eq : Timeval → Timeval → Bool
eq t u = eqb_ℤ t.sec u.sec && eqb_ℤ t.usec u.usec
