-- ===== src/Clock/Accuracy.antt =====
-- How good a measure timeval_diff is, and that its arithmetic stays within int64_t.
use hyperagents.Base.{◌^◌, ◌-◌, arith}
use hyperagents.Base.Int.{
  ℤ, pos, negsuc, ◌+ℤ◌, ◌-ℤ◌, ◌*ℤ◌, ◌≤ℤ◌, ◌<ℤ◌, +ℤ_parts, -ℤ_parts, *ℤ-pos_parts,
  quot-thousand_bounds,
}
use hyperagents.World.{Timeval}
use hyperagents.Clock.{timeval_diff}

-- The microseconds from `x` to `y`.
pub elapsed_us : Timeval → Timeval → ℤ
elapsed_us x y = (y.tv_sec -ℤ x.tv_sec) *ℤ pos 1000000 +ℤ (y.tv_usec -ℤ x.tv_usec)

-- The milliseconds of timeval_diff differ from the microseconds between the two times by less than
-- one millisecond, in either direction.
pub timeval_diff_accuracy :
    (x y : Timeval)
    → (timeval_diff x y *ℤ pos 1000 -ℤ pos 1000 <ℤ elapsed_us x y)
      × (elapsed_us x y <ℤ timeval_diff x y *ℤ pos 1000 +ℤ pos 1000)
unfolding timeval_diff elapsed_us
timeval_diff_accuracy x y =
    let q = quot-thousand_bounds (y.tv_usec -ℤ x.tv_usec) in
    omega (arith, +ℤ_parts, -ℤ_parts, *ℤ-pos_parts, q)

abbrev pub InInt64 : ℤ → Type 0
InInt64 a = (negsuc (2 ^ 63 - 1) ≤ℤ a) × (a ≤ℤ pos (2 ^ 63 - 1))

-- A time of day: not before the epoch, and a proper fraction of a second.
pub record IsTime (t : Timeval) : Type 0 where
  pub sec_nonneg : pos 0 ≤ℤ t.tv_sec
  pub sec_small : t.tv_sec ≤ℤ pos (2 ^ 53)
  pub usec_nonneg : pos 0 ≤ℤ t.tv_usec
  pub usec_small : t.tv_usec <ℤ pos 1000000

-- For two times from 0 to 2^53 seconds with proper microseconds, the product in timeval_diff and its
-- result are within int64_t.
timeval_diff_bounds :
    (x y : Timeval)
    → IsTime x
    → IsTime y
    → InInt64 ((y.tv_sec -ℤ x.tv_sec) *ℤ pos 1000) × InInt64 (timeval_diff x y)
unfolding timeval_diff
timeval_diff_bounds x y hx hy =
    let q = quot-thousand_bounds (y.tv_usec -ℤ x.tv_usec) in
    omega (arith, +ℤ_parts, -ℤ_parts, *ℤ-pos_parts, q)
