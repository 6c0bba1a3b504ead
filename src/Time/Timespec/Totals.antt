-- ===== src/Time/Timespec/Totals.antt =====
-- The timespec macros against the instant in nanoseconds that a value stands for.
use libckit.Common.{
  ◌+◌, ◌*◌, ◌≤◌, ◌<◌, ◌≡◌, ◌≢◌, ◌↔◌, inl, inr, refl, ap, ◌∙◌, true, arith, Bool-cases,
}
use libckit.Common.Int.{
  ℤ, pos, pos_part, neg_part, ◌+ℤ◌, ◌-ℤ◌, ◌≤ℤ◌, ◌<ℤ◌, scale, quot, rem, ltb_ℤ, +ℤ_parts, -ℤ_parts,
  scale_parts, quot-rem, eq_of_parts, parts_apart,
}
use libckit.Time.{nsec_per_sec}
use libckit.Time.Timespec.{Timespec, normalize, add_nsec, add, sub, nz, lt, gt, ge, le, eq}

-- The fraction is less than a second, and not negative.
pub record IsNormal (t : Timespec) : Type 0 where
  pub low : pos 0 ≤ℤ t.nsec
  pub high : t.nsec <ℤ pos nsec_per_sec

-- the instant, as a number of nanoseconds
unfoldable pub total : Timespec → ℤ
total t = scale nsec_per_sec t.sec +ℤ t.nsec

pub total_parts :
    (t : Timespec)
    → pos_part (total t) + nsec_per_sec * neg_part t.sec + neg_part t.nsec
      ≡ neg_part (total t) + nsec_per_sec * pos_part t.sec + pos_part t.nsec
unfolding total
total_parts t =
    omega (arith, +ℤ_parts (scale nsec_per_sec t.sec) t.nsec, scale_parts nsec_per_sec t.sec)

-- Two values stand for one instant if their parts add up alike.
total-eq_of_parts :
    (t u : Timespec)
    → nsec_per_sec * pos_part t.sec
        + pos_part t.nsec
        + nsec_per_sec * neg_part u.sec
        + neg_part u.nsec
      ≡ nsec_per_sec * pos_part u.sec
        + pos_part u.nsec
        + nsec_per_sec * neg_part t.sec
        + neg_part t.nsec
    → total t ≡ total u
total-eq_of_parts t u h =
    eq_of_parts (total t) (total u) (omega (arith, total_parts t, total_parts u))

-- One carry normalises a fraction that is less than a second below 0 or above a second.
normalize_lem :
    (t : Timespec)
    → pos_part t.nsec < nsec_per_sec + nsec_per_sec
    → neg_part t.nsec ≤ nsec_per_sec
    → IsNormal (normalize t) × (total (normalize t) ≡ total t)
unfolding normalize
normalize_lem t low high = elim (Bool-cases (ltb_ℤ t.nsec (pos nsec_per_sec))) [
  | inr over ↦
      let u : Timespec = record { sec = t.sec +ℤ pos 1; nsec = t.nsec -ℤ pos nsec_per_sec } in
      let big : nsec_per_sec + neg_part t.nsec ≤ pos_part t.nsec = ground arith in
      rw over (
        omega (arith, -ℤ_parts t.nsec (pos nsec_per_sec), parts_apart t.nsec),
        total-eq_of_parts u t
            (omega (arith, +ℤ_parts t.sec (pos 1), -ℤ_parts t.nsec (pos nsec_per_sec))),
      )
  | inl under ↦
      let small : pos_part t.nsec < nsec_per_sec + neg_part t.nsec = ground arith in
      rw under (elim (Bool-cases (ltb_ℤ t.nsec (pos 0))) [
        | inl negative ↦
            let u : Timespec = record { sec = t.sec -ℤ pos 1; nsec = t.nsec +ℤ pos nsec_per_sec } in
            let low : pos_part t.nsec < neg_part t.nsec = ground arith in
            rw negative (
              omega (arith, +ℤ_parts t.nsec (pos nsec_per_sec)),
              total-eq_of_parts u t
                  (omega (arith, -ℤ_parts t.sec (pos 1), +ℤ_parts t.nsec (pos nsec_per_sec))),
            )
        | inr inside ↦
            let low : neg_part t.nsec ≤ pos_part t.nsec = ground arith in
            rw inside (omega arith, refl)
      ])
]

-- Adding two normal values gives the normal value of the sum of the instants.
pub total-add :
    (t u : Timespec)
    → IsNormal t
    → IsNormal u
    → IsNormal (add t u) × (total (add t u) ≡ total t +ℤ total u)
unfolding add
total-add t u nt nu =
    let s : Timespec = record { sec = t.sec +ℤ u.sec; nsec = t.nsec +ℤ u.nsec } in
    let parts = +ℤ_parts t.nsec u.nsec in
    let (normal, same) =
      normalize_lem s (omega (arith, parts, parts_apart (t.nsec +ℤ u.nsec)))
        (omega (arith, parts, parts_apart (t.nsec +ℤ u.nsec))) in
    (
      normal,
      same
          ∙ eq_of_parts _ _ (
              omega (
                arith,
                +ℤ_parts t.sec u.sec,
                parts,
                total_parts s,
                total_parts t,
                total_parts u,
                +ℤ_parts (total t) (total u),
              )),
    )

-- Subtracting two normal values gives the normal value of the difference of the instants, before
-- or after 0.
pub total-sub :
    (t u : Timespec)
    → IsNormal t
    → IsNormal u
    → IsNormal (sub t u) × (total (sub t u) ≡ total t -ℤ total u)
unfolding sub
total-sub t u nt nu =
    let s : Timespec = record { sec = t.sec -ℤ u.sec; nsec = t.nsec -ℤ u.nsec } in
    let parts = -ℤ_parts t.nsec u.nsec in
    let (normal, same) =
      normalize_lem s (omega (arith, parts, parts_apart (t.nsec -ℤ u.nsec)))
        (omega (arith, parts, parts_apart (t.nsec -ℤ u.nsec))) in
    (
      normal,
      same
          ∙ eq_of_parts _ _ (
              omega (
                arith,
                -ℤ_parts t.sec u.sec,
                parts,
                total_parts s,
                total_parts t,
                total_parts u,
                -ℤ_parts (total t) (total u),
              )),
    )

-- Adding a number of nanoseconds, of either sign, to a normal value gives the normal value of the
-- instant that is so much later.
pub total-add_nsec :
    (t : Timespec) (n : ℤ)
    → IsNormal t
    → IsNormal (add_nsec t n) × (total (add_nsec t n) ≡ total t +ℤ n)
unfolding add_nsec
total-add_nsec t n nt =
    let q = quot n nsec_per_sec in
    let r = rem n nsec_per_sec in
    let s : Timespec = record { sec = t.sec +ℤ q; nsec = t.nsec +ℤ r } in
    let division = quot-rem n nsec_per_sec (omega arith) in
    let parts = +ℤ_parts t.nsec r in
    let (normal, same) =
      normalize_lem s (omega (arith, parts, parts_apart (t.nsec +ℤ r)))
        (omega (arith, parts, parts_apart (t.nsec +ℤ r))) in
    (
      normal,
      same
          ∙ eq_of_parts _ _ (
              omega (
                arith,
                +ℤ_parts t.sec q,
                parts,
                total_parts s,
                total_parts t,
                +ℤ_parts (total t) n,
              )),
    )

module _ (t u : Timespec) (nt : IsNormal t) (nu : IsNormal u) where
  lt_iff : (lt t u ≡ true) ↔ (total t <ℤ total u)
  unfolding lt
  lt_iff = (
    λ e. ground (arith, total_parts t, total_parts u, parts_apart (total t), parts_apart (total u)),
    λ h. ground (arith, total_parts t, total_parts u),
  )

  ge_iff : (ge t u ≡ true) ↔ (total u ≤ℤ total t)
  unfolding ge
  ge_iff = (λ e. ground (arith, lt_iff.1), λ h. ground (arith, lt_iff.0))

  eq_iff : (eq t u ≡ true) ↔ (total t ≡ total u)
  unfolding eq
  eq_iff = (
    λ e. total-eq_of_parts t u (ground arith),
    λ h.
        let p : pos_part (total t) ≡ pos_part (total u) = ap pos_part h in
        let n : neg_part (total t) ≡ neg_part (total u) = ap neg_part h in
        ground (arith, total_parts t, total_parts u),
  )

-- On normal values the comparisons decide the order and the equality of the instants.
pub compare_lem :
    (t u : Timespec)
    → IsNormal t
    → IsNormal u
    → ((lt t u ≡ true) ↔ (total t <ℤ total u))
      × ((gt t u ≡ true) ↔ (total u <ℤ total t))
      × ((ge t u ≡ true) ↔ (total u ≤ℤ total t))
      × ((le t u ≡ true) ↔ (total t ≤ℤ total u))
      × ((eq t u ≡ true) ↔ (total t ≡ total u))
unfolding gt le ge
compare_lem t u nt nu =
    (lt_iff t u nt nu, lt_iff u t nu nt, ge_iff t u nt nu, ge_iff u t nu nt, eq_iff t u nt nu)

-- A normal value is tested as not zero exactly if its instant is not 0.
pub nz_iff : (t : Timespec) → IsNormal t → (nz t ≡ true) ↔ (total t ≢ pos 0)
unfolding nz
nz_iff t nt = (
  λ e h.
      let p : pos_part (total t) ≡ 0 = ap pos_part h in
      let n : neg_part (total t) ≡ 0 = ap neg_part h in
      ground (arith, total_parts t, parts_apart t.sec, parts_apart t.nsec),
  λ ne. elim (Bool-cases (nz t)) [
    | inl e ↦ e
    | inr e ↦ absurd (ne (eq_of_parts _ _ (ground (arith, total_parts t))))
  ],
)
