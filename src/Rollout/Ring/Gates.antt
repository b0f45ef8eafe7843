-- ===== src/Rollout/Ring/Gates.antt =====
-- What the thresholds of a wave guarantee.
use sextant.Common.{
  ap, Bool-cases, Nat-cases, pos_part, ◌≤ℤ◌, wrap_int64-pos, pos, ℕ, ◌+◌, ◌-◌, ◌*◌, ◌/◌, ◌^◌, ◌≤◌,
  ◌<◌, ◌≡◌, ◌↔◌, inl, inr, true, false, arith,
}
use native.Mathlib.Nat.{le-div_iff_mul-le}
use sextant.Rollout.Ring.{
  Ring, RingStatus, min_healthy, min_present, present, percent, converged, too_broken,
}

-- The evidence floor of a wave lies between one device and the cohort, and is at least half of the
-- cohort where the wave names no floor of its own.
pub min_present_bounds :
    (r : Ring) (total : ℕ)
    → (1 ≤ min_present r total)
      × (0 < total → min_present r total ≤ total)
      × (r.min_devices ≤ℤ pos 0 → total ≤ 2 * min_present r total)
unfolding min_present
min_present_bounds r total = (ground arith, ground arith, ground arith)

-- Below 2^56 devices the percentage is the mathematical one.
pub percent_lem : (n p : ℕ) → n < 2 ^ 56 → percent n p ≡ pos (n * 100 / p)
unfolding percent
percent_lem n p h = rw (wrap_int64-pos (n * 100) (omega arith))

-- The threshold is a positive number.
min_healthy-pos :
    (r : Ring) → (min_healthy r ≡ pos (pos_part (min_healthy r))) × (1 ≤ pos_part (min_healthy r))
unfolding min_healthy
min_healthy-pos r = ground arith

-- With fewer than 2^56 healthy devices, a wave counts as converged exactly when its evidence floor
-- is reached and the healthy devices are at least the threshold's share of the devices that are
-- present.
pub converged_iff :
    (r : Ring) (rs : RingStatus)
    → rs.healthy < 2 ^ 56
    → (converged r rs ≡ true) ↔ (
        (min_present r rs.total ≤ present rs)
        × (pos_part (min_healthy r) * present rs ≤ rs.healthy * 100))
unfolding converged
converged_iff r rs h = elim (Nat-cases (present rs)) [
  | inl e ↦ ground (arith, (min_present_bounds r rs.total).0)
  | inr p ↦ ground (
    arith,
    min_healthy-pos r,
    min_present_bounds r rs.total,
    percent_lem rs.healthy (present rs) h,
    le-div_iff_mul-le {k = present rs} {x = pos_part (min_healthy r)} {y = rs.healthy * 100} p,
  )
]

-- With fewer than 2^56 broken devices and a threshold of at most 100, a wave is too broken exactly
-- when a device is present and the broken devices are more than the share of those present that the
-- threshold leaves.
pub too_broken_iff :
    (r : Ring) (rs : RingStatus)
    → rs.broken < 2 ^ 56
    → pos_part (min_healthy r) ≤ 100
    → (too_broken r rs ≡ true)
      ↔ ((0 < present rs) × ((101 - pos_part (min_healthy r)) * present rs ≤ rs.broken * 100))
unfolding too_broken
too_broken_iff r rs h m = elim (Nat-cases (present rs)) [
  | inl e ↦ ground arith
  | inr p ↦ ground (
    arith,
    min_healthy-pos r,
    percent_lem rs.broken (present rs) h,
    le-div_iff_mul-le {k = present rs} {x = 101 - pos_part (min_healthy r)} {y = rs.broken * 100} p,
  )
]

-- Two shares that add up to more than all of it do not fit.
shares : (m k p a b : ℕ) → m + k ≡ 101 → 0 < p → a + b ≤ p → m * p ≤ a * 100 → k * p ≤ b * 100 → ⊥
shares m k p a b e hp hab ha hb = omega (arith, ap (λ (t : ℕ). t * p) e)

-- A wave that has converged is not too broken, for a threshold of at most 100, fewer than 2^56
-- devices present, and healthy and broken devices that together are no more than those present.
pub converged-not_too_broken :
    (r : Ring) (rs : RingStatus)
    → rs.healthy + rs.broken ≤ present rs
    → present rs < 2 ^ 56
    → pos_part (min_healthy r) ≤ 100
    → converged r rs ≡ true
    → too_broken r rs ≡ false
converged-not_too_broken r rs counts small m c = elim (Bool-cases (too_broken r rs)) [
  | inr e ↦ e
  | inl e ↦
      let (p, b) = (too_broken_iff r rs (omega arith) m).0 e in
      absurd (
        shares (pos_part (min_healthy r)) (101 - pos_part (min_healthy r)) (present rs) rs.healthy
          rs.broken (omega arith) p counts ((converged_iff r rs (omega arith)).0 c).1 b)
]
