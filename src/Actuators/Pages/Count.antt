-- ===== src/Actuators/Pages/Count.antt =====
-- How many pages actuators/15.c hashes.
use hyperagents.Base.{ℕ, ◌+◌, ◌-◌, ◌*◌, ◌/◌, ◌%◌, ◌^◌, ◌≤◌, ◌<◌, ◌≡◌, ◌≢◌, ap, ne→==, arith}
use native.Mathlib.Nat.{mod-le, mod-eq-sub-mod}
use hyperagents.Effect.{done}
use hyperagents.Effect.Rules.{Returns}
use hyperagents.Actuators.Pages.{n_pages}

mod_once : (start end : ℕ) → 0 < start → start ≤ end → end < 2 * start → end % start ≡ end - start
mod_once start end pos low high = grind arith

mod_far : (start end : ℕ) → 0 < start → 2 * start ≤ end → end % start + 2 * start ≤ end
mod_far start end pos far =
    let small = mod-le (end - start - start) start in
    omega (
      arith,
      mod-eq-sub-mod {n = end} {m = start} (omega arith),
      mod-eq-sub-mod {n = end - start} {m = start} (omega arith),
      small,
    )

-- Where the area ends below twice its start, all its full pages are hashed, if they are fewer than
-- 2^32. The start is not 0.
pub n_pages_done :
    {Guest : Type 0} (g : Guest) (start end : ℕ)
    → 0 < start
    → start ≤ end
    → end < 2 * start
    → (end - start) / 4096 < 2 ^ 32
    → n_pages start end g ≡ done ((end - start) / 4096) g
unfolding n_pages
n_pages_done g start end pos low high small =
    let nonzero : start ≢ 0 = omega arith in
    rw (ne→== _ _ nonzero, mod_once start end pos low high) (ap (λ (n : ℕ). done n g) (omega arith))

-- Where the area starts below half of its end, what is hashed falls short of the area by `start` bytes
-- or more. The start is not 0.
n_pages_misses :
    {Guest : Type 0} (g : Guest) (start end : ℕ)
    → 0 < start
    → 2 * start ≤ end
    → Returns (λ n g'. n * 4096 + start ≤ end - start) (n_pages start end g)
unfolding n_pages
n_pages_misses g start end pos far =
    let nonzero : start ≢ 0 = omega arith in
    let over = mod_far start end pos far in rw (ne→== _ _ nonzero) (omega arith)
