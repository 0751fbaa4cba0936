-- ===== src/Clock.antt =====
-- syncmount::timeval_diff of libhyperagent/syncmount.cc. Its int64_t arithmetic is that of ℤ; a
-- child shows for which times it stays within 64 bits.
pub mod Accuracy
use hyperagents.Base.Int.{ℤ, pos, ◌+ℤ◌, ◌-ℤ◌, ◌*ℤ◌, quot_ℕ}
use hyperagents.World.{Timeval}

-- Milliseconds from `x` to `y`.
unfoldable pub timeval_diff : Timeval → Timeval → ℤ
timeval_diff x y = (y.tv_sec -ℤ x.tv_sec) *ℤ pos 1000 +ℤ quot_ℕ (y.tv_usec -ℤ x.tv_usec) 1000
