-- ===== src/Slots/View/Books.antt =====
-- The mount service against the books of its users: how many mounts of each VMI instance were
-- requested and not released.
pub mod Steps
use hyperagents.Base.{
  ℕ, ◌+◌, ◌-◌, ◌≡◌, ◌≢◌, refl, ap, sym, ◌∙◌, ◌⊎◌, inl, inr, none, some, ◌==◌, if◌then◌else◌,
  ℕ_discrete, eq→==, ne→==, arith, Option-cases, Option,
}
use hyperagents.Base.Int.{ℤ, pos, ◌+ℤ◌, ◌-ℤ◌}
use hyperagents.Slots.View.{Service, change, assign, without, on_device}
use hyperagents.Slots.View.Serves.{Serves, again, fresh, evict}
use hyperagents.Slots.View.Steps.{on_device_self, on_device_other, without_self, without_other}

-- The number of open mounts of each instance, after one more and after one less for `h`.
abbrev pub one_more : ℕ → (ℕ → ℕ) → ℕ → ℕ
one_more h c g = if g == h then c g + 1 else c g

abbrev pub one_less : ℕ → (ℕ → ℕ) → ℕ → ℕ
one_less h c g = if g == h then c g - 1 else c g

-- An instance with open mounts has a device; a device has as many users as there are open mounts of
-- its instance; and it serves one instance.
pub record Books (c : ℕ → ℕ) (m : Service) : Type 0 where
  pub open_mounts : (h : ℕ) → c h ≢ 0 → (d : ℕ) × (m h ≡ some (d, pos (c h)))
  pub users : (h d : ℕ) (u : ℤ) → m h ≡ some (d, u) → u ≡ pos (c h)
  pub apart : (g h d : ℕ) (u v : ℤ) → m g ≡ some (d, u) → m h ≡ some (d, v) → g ≡ h

pub one_more_self : (h : ℕ) (c : ℕ → ℕ) → one_more h c h ≡ c h + 1
one_more_self h c = rw (eq→== h h refl) refl

pub one_more_other : (g h : ℕ) (c : ℕ → ℕ) → g ≢ h → one_more h c g ≡ c g
one_more_other g h c ne = rw (ne→== g h ne) refl

pub one_less_other : (g h : ℕ) (c : ℕ → ℕ) → g ≢ h → one_less h c g ≡ c g
one_less_other g h c ne = rw (ne→== g h ne) refl
