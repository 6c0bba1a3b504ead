-- ===== src/Time/Timeval/Totals.antt =====
-- The timeval macros against the instant in microseconds that a value stands for.
use libckit.Common.{
  ◌+◌, ◌*◌, ◌≤◌, ◌<◌, ◌≡◌, ◌≢◌, ◌↔◌, inl, inr, refl, ap, ◌∙◌, true, arith, Bool-cases,
}
use libckit.Common.Int.{
  ℤ, pos, pos_part, neg_part, ◌+ℤ◌, ◌-ℤ◌, ◌≤ℤ◌, ◌<ℤ◌, scale, quot, rem, ltb_ℤ, +ℤ_parts, -ℤ_parts,
  scale_parts, quot-rem, eq_of_parts, parts_apart,
}
use libckit.Time.{usec_per_sec}
use libckit.Time.Timeval.{Timeval, normalize, add_usec, sub_usec, add, sub, nz, lt, gt, ge, le, eq}

-- The fraction is less than a second, and not negative.
pub record IsNormal (t : Timeval) : Type 0 where
  pub low : pos 0 ≤ℤ t.usec
  pub high : t.usec <ℤ pos usec_per_sec

-- the instant, as a number of microseconds
unfoldable pub total : Timeval → ℤ
total t = scale usec_per_sec t.sec +ℤ t.usec

total_parts :
    (t : Timeval)
    → pos_part (total t) + usec_per_sec * neg_part t.sec + neg_part t.usec
      ≡ neg_part (total t) + usec_per_sec * pos_part t.sec + pos_part t.usec
unfolding total
total_parts t =
    omega (arith, +ℤ_parts (scale usec_per_sec t.sec) t.usec, scale_parts usec_per_sec t.sec)

-- Two values stand for one instant if their parts add up alike.
total-eq_of_parts :
    (t u : Timeval)
    → usec_per_sec * pos_part t.sec
        + pos_part t.usec
        + usec_per_sec * neg_part u.sec
        + neg_part u.usec
      ≡ usec_per_sec * pos_part u.sec
        + pos_part u.usec
        + usec_per_sec * neg_part t.sec
        + neg_part t.usec
    → total t ≡ total u
total-eq_of_parts t u h =
    eq_of_parts (total t) (total u) (omega (arith, total_parts t, total_parts u))

-- One carry normalises a fraction that is less than a second below 0 or above a second.
normalize_lem :
    (t : Timeval)
    → pos_part t.usec < usec_per_sec + usec_per_sec
    → neg_part t.usec ≤ usec_per_sec
    → IsNormal (normalize t) × (total (normalize t) ≡ total t)
unfolding normalize
normalize_lem t low high = elim (Bool-cases (ltb_ℤ t.usec (pos usec_per_sec))) [
  | inr over ↦
      let u : Timeval = record { sec = t.sec +ℤ pos 1; usec = t.usec -ℤ pos usec_per_sec } in
      let big : usec_per_sec + neg_part t.usec ≤ pos_part t.usec = ground arith in
      rw over (
        omega (arith, -ℤ_parts t.usec (pos usec_per_sec), parts_apart t.usec),
        total-eq_of_parts u t
            (omega (arith, +ℤ_parts t.sec (pos 1), -ℤ_parts t.usec (pos usec_per_sec))),
      )
  | inl under ↦
      let small : pos_part t.usec < usec_per_sec + neg_part t.usec = ground arith in
      rw under (elim (Bool-cases (ltb_ℤ t.usec (pos 0))) [
        | inl negative ↦
            let u : Timeval = record { sec = t.sec -ℤ pos 1; usec = t.usec +ℤ pos usec_per_sec } in
            let low : pos_part t.usec < neg_part t.usec = ground arith in
            rw negative (
              omega (arith, +ℤ_parts t.usec (pos usec_per_sec)),
              total-eq_of_parts u t
                  (omega (arith, -ℤ_parts t.sec (pos 1), +ℤ_parts t.usec (pos usec_per_sec))),
            )
        | inr inside ↦
            let low : neg_part t.usec ≤ pos_part t.usec = ground arith in
            rw inside (omega arith, refl)
      ])
]

-- Adding two normal values gives the normal value of the sum of the instants.
pub total-add :
    (t u : Timeval)
    → IsNormal t
    → IsNormal u
    → IsNormal (add t u) × (total (add t u) ≡ total t +ℤ total u)
unfolding add
total-add t u nt nu =
    let s : Timeval = record { sec = t.sec +ℤ u.sec; usec = t.usec +ℤ u.usec } in
    let parts = +ℤ_parts t.usec u.usec in
    let (normal, same) =
      normalize_lem s (omega (arith, parts, parts_apart (t.usec +ℤ u.usec)))
        (omega (arith, parts, parts_apart (t.usec +ℤ u.usec))) in
    (
      normal,
      same
          ∙ eq_of_parts _ _ (
              omega (
                arith,
                +ℤ_parts t.sec u.sec,
                parts,
                total_parts s,
                total_parts t,
                total_parts u,
                +ℤ_parts (total t) (total u),
              )),
    )

-- Subtracting two normal values gives the normal value of the difference of the instants, before
-- or after 0.
pub total-sub :
    (t u : Timeval)
    → IsNormal t
    → IsNormal u
    → IsNormal (sub t u) × (total (sub t u) ≡ total t -ℤ total u)
unfolding sub
total-sub t u nt nu =
    let s : Timeval = record { sec = t.sec -ℤ u.sec; usec = t.usec -ℤ u.usec } in
    let parts = -ℤ_parts t.usec u.usec in
    let (normal, same) =
      normalize_lem s (omega (arith, parts, parts_apart (t.usec -ℤ u.usec)))
        (omega (arith, parts, parts_apart (t.usec -ℤ u.usec))) in
    (
      normal,
      same
          ∙ eq_of_parts _ _ (
              omega (
                arith,
                -ℤ_parts t.sec u.sec,
                parts,
                total_parts s,
                total_parts t,
                total_parts u,
                -ℤ_parts (total t) (total u),
              )),
    )

-- Adding a number of microseconds, of either sign, to a normal value gives the normal value of the
-- instant that is so much later.
pub total-add_usec :
    (t : Timeval) (n : ℤ)
    → IsNormal t
    → IsNormal (add_usec t n) × (total (add_usec t n) ≡ total t +ℤ n)
unfolding add_usec
total-add_usec t n nt =
    let q = quot n usec_per_sec in
    let r = rem n usec_per_sec in
    let s : Timeval = record { sec = t.sec +ℤ q; usec = t.usec +ℤ r } in
    let division = quot-rem n usec_per_sec (omega arith) in
    let parts = +ℤ_parts t.usec r in
    let (normal, same) =
      normalize_lem s (omega (arith, parts, parts_apart (t.usec +ℤ r)))
        (omega (arith, parts, parts_apart (t.usec +ℤ r))) in
    (
      normal,
      same
          ∙ eq_of_parts _ _ (
              omega (
                arith,
                +ℤ_parts t.sec q,
                parts,
                total_parts s,
                total_parts t,
                +ℤ_parts (total t) n,
              )),
    )

-- Subtracting a number of microseconds, of either sign, from a normal value gives the normal value
-- of the instant that is so much earlier.
pub total-sub_usec :
    (t : Timeval) (n : ℤ)
    → IsNormal t
    → IsNormal (sub_usec t n) × (total (sub_usec t n) ≡ total t -ℤ n)
unfolding sub_usec
total-sub_usec t n nt =
    let q = quot n usec_per_sec in
    let r = rem n usec_per_sec in
    let s : Timeval = record { sec = t.sec -ℤ q; usec = t.usec -ℤ r } in
    let division = quot-rem n usec_per_sec (omega arith) in
    let parts = -ℤ_parts t.usec r in
    let (normal, same) =
      normalize_lem s (omega (arith, parts, parts_apart (t.usec -ℤ r)))
        (omega (arith, parts, parts_apart (t.usec -ℤ r))) in
    (
      normal,
      same
          ∙ eq_of_parts _ _ (
              omega (
                arith,
                -ℤ_parts t.sec q,
                parts,
                total_parts s,
                total_parts t,
                -ℤ_parts (total t) n,
              )),
    )

module _ (t u : Timeval) (nt : IsNormal t) (nu : IsNormal u) where
  lt_iff : (lt t u ≡ true) ↔ (total t <ℤ total u)
  unfolding lt
  lt_iff = (
    λ e. ground (arith, total_parts t, total_parts u, parts_apart (total t), parts_apart (total u)),
    λ h. ground (arith, total_parts t, total_parts u),
  )

  ge_iff : (ge t u ≡ true) ↔ (total u ≤ℤ total t)
  unfolding ge
  ge_iff = (λ e. ground (arith, lt_iff.1), λ h. ground (arith, lt_iff.0))

  eq_iff : (eq t u ≡ true) ↔ (total t ≡ total u)
  unfolding eq
  eq_iff = (
    λ e. total-eq_of_parts t u (ground arith),
    λ h.
        let p : pos_part (total t) ≡ pos_part (total u) = ap pos_part h in
        let n : neg_part (total t) ≡ neg_part (total u) = ap neg_part h in
        ground (arith, total_parts t, total_parts u),
  )

-- On normal values the comparisons decide the order and the equality of the instants.
pub compare_lem :
    (t u : Timeval)
    → IsNormal t
    → IsNormal u
    → ((lt t u ≡ true) ↔ (total t <ℤ total u))
      × ((gt t u ≡ true) ↔ (total u <ℤ total t))
      × ((ge t u ≡ true) ↔ (total u ≤ℤ total t))
      × ((le t u ≡ true) ↔ (total t ≤ℤ total u))
      × ((eq t u ≡ true) ↔ (total t ≡ total u))
unfolding gt le ge
compare_lem t u nt nu =
    (lt_iff t u nt nu, lt_iff u t nu nt, ge_iff t u nt nu, ge_iff u t nu nt, eq_iff t u nt nu)

-- A normal value is tested as not zero exactly if its instant is not 0.
pub nz_iff : (t : Timeval) → IsNormal t → (nz t ≡ true) ↔ (total t ≢ pos 0)
unfolding nz
nz_iff t nt = (
  λ e h.
      let p : pos_part (total t) ≡ 0 = ap pos_part h in
      let n : neg_part (total t) ≡ 0 = ap neg_part h in
      ground (arith, total_parts t, parts_apart t.sec, parts_apart t.usec),
  λ ne. elim (Bool-cases (nz t)) [
    | inl e ↦ e
    | inr e ↦ absurd (ne (eq_of_parts _ _ (ground (arith, total_parts t))))
  ],
)
