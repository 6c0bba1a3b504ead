-- ===== src/Time/Tests.antt =====
-- include/ckit/time.h at a few instants.
use libckit.Common.{◌≡◌, refl, arith}
use libckit.Common.Int.{pos, negsuc, ◌+ℤ◌, ◌-ℤ◌, quot, rem}
use libckit.Time.Timespec
use libckit.Time.Timespec.{Timespec}
use libckit.Time.Timespec.Totals.{total-add, total-sub, total-add_nsec, compare_lem, nz_iff}
use libckit.Time.Timespec.Totals
use libckit.Time.Timeval.{Timeval}

abbrev early : Timespec
early = record { sec = pos 7; nsec = pos 900_000_000 }

abbrev late : Timespec
late = record { sec = pos 9; nsec = pos 200_000_000 }

abbrev stamp : Timeval
stamp = record { sec = pos 3; usec = pos 250_000 }

-- 7.9 s and 1.4 s later it is 9.3 s
carried :
    Timespec.add_nsec early (pos 1_400_000_000) ≡ record { sec = pos 9; nsec = pos 300_000_000 }
unfolding Timespec.add_nsec Timespec.normalize ◌+ℤ◌ ◌-ℤ◌ quot rem
carried = refl

-- 7.9 s less 9.2 s is -1.3 s, kept as -2 s and 0.7 s
borrowed : Timespec.sub early late ≡ record { sec = negsuc 1; nsec = pos 700_000_000 }
unfolding Timespec.sub Timespec.normalize ◌+ℤ◌ ◌-ℤ◌
borrowed = refl

total-add_nsec_example :
    Totals.IsNormal (Timespec.add_nsec late (negsuc 3_500_000_000))
    × (Totals.total (Timespec.add_nsec late (negsuc 3_500_000_000))
        ≡ Totals.total late +ℤ negsuc 3_500_000_000)
total-add_nsec_example = total-add_nsec late (negsuc 3_500_000_000) (omega arith)
