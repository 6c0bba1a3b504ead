-- ===== src/Time/Timespec.antt =====
-- The timespec macros of include/ckit/time.h.
pub mod Totals
use libckit.Common.{ℕ, Bool, not, ◌&&◌, ◌||◌, if◌then◌else◌}
use libckit.Common.Int.{ℤ, pos, ◌+ℤ◌, ◌-ℤ◌, quot, rem, ltb_ℤ, eqb_ℤ}
use libckit.Time.{nsec_per_sec}

pub record Timespec : Type 0 where
  pub sec : ℤ
  pub nsec : ℤ

unfoldable pub normalize : Timespec → Timespec
normalize t =
    if not (ltb_ℤ t.nsec (pos nsec_per_sec))
    then record { sec = t.sec +ℤ pos 1; nsec = t.nsec -ℤ pos nsec_per_sec }
    else if ltb_ℤ t.nsec (pos 0)
    then record { sec = t.sec -ℤ pos 1; nsec = t.nsec +ℤ pos nsec_per_sec }
    else t

unfoldable pub add_nsec : Timespec → ℤ → Timespec
add_nsec t n =
    normalize (record { sec = t.sec +ℤ quot n nsec_per_sec; nsec = t.nsec +ℤ rem n nsec_per_sec })

unfoldable pub add : Timespec → Timespec → Timespec
add t u = normalize (record { sec = t.sec +ℤ u.sec; nsec = t.nsec +ℤ u.nsec })

unfoldable pub sub : Timespec → Timespec → Timespec
sub t u = normalize (record { sec = t.sec -ℤ u.sec; nsec = t.nsec -ℤ u.nsec })

unfoldable pub nz : Timespec → Bool
nz t = not (eqb_ℤ t.sec (pos 0)) || not (eqb_ℤ t.nsec (pos 0))

unfoldable pub lt : Timespec → Timespec → Bool
lt t u = ltb_ℤ t.sec u.sec || (eqb_ℤ t.sec u.sec && ltb_ℤ t.nsec u.nsec)

unfoldable pub gt : Timespec → Timespec → Bool
gt t u = lt u t

unfoldable pub ge : Timespec → Timespec → Bool
ge t u = not (lt t u)

unfoldable pub le : Timespec → Timespec → Bool
le t u = not (gt t u)

unfoldable pub eq : Timespec → Timespec → Bool
eq t u = eqb_ℤ t.sec u.sec && eqb_ℤ t.nsec u.nsec
