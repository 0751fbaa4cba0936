-- ===== src/Syncmount/Starved.antt =====
-- request_mount (libhyperagent/syncmount.cc) where every slot is in use and stays so.
use hyperagents.Base.{
  ℕ, zero, suc, ◌≡◌, ◌≢◌, refl, inl, inr, true, false, none, some, List, get_elem?, arith,
}
use hyperagents.Base.Int.{pos, ltb_ℤ, ◌<ℤ◌}
use hyperagents.Base.Text.{Bytes}
use hyperagents.World.{Timeval, Slot, Env, World}
use hyperagents.Effect.{running, and_then}
use hyperagents.Slots.{Best, find_vmi, find_unlocked, scan_lru}
use hyperagents.Slots.Lru.{scan_lru-Result}
use hyperagents.Syncmount.{spin, request_mount, no_best}
use hyperagents.Syncmount.Spin.{spin_zero, spin_round, rested}
use hyperagents.Syncmount.Request.{request_mount_full}

-- No slot is released.
abbrev pub AllInUse : List Slot → Type 0
AllInUse ss = (i : ℕ) (s : Slot) → get_elem? ss i ≡ some s → s.refcount ≢ pos 0

-- A scan then finds nothing.
scan_lru-AllInUse : (c : Timeval) (ss : List Slot) (b : Best) → AllInUse ss → scan_lru c 0 ss b ≡ b
scan_lru-AllInUse c ss b used = elim (scan_lru-Result c 0 ss b) [
  | inl same ↦ same
  | inr (k, s, p, _) ↦ absurd (used k s p.found p.released)
]

module _ {Guest : Type 0} (env : Env Guest) where
  spin-Starves :
      ((n : ℕ) (ss : List Slot) → AllInUse ss → AllInUse (env.others n ss))
      → (fuel : ℕ) (b : Best) (w : World Guest) → w.lk ≡ false
      → b.max <ℤ pos 10000
      → AllInUse w.slots
      → spin env fuel b w ≡ running
  spin-Starves keep zero b w free low used = spin_zero env b w
  spin-Starves keep (suc fuel) b w free low used =
      let same = scan_lru-AllInUse (env.time_of_day w.clock) w.slots b used in
      let go : ltb_ℤ b.max (pos 10000) ≡ true = ground (arith, low) in
      rw (spin_round env fuel b w free, same, go)
        (spin-Starves keep fuel b (rested env w) refl low (keep w.sleeps w.slots used))

  -- request_mount for an instance without a slot does not return, whatever number of rounds of its
  -- loop is followed, where every slot's mutex is held and every slot has references, `lk` is free, and
  -- no other thread ever takes the last reference of a slot away.
  pub request_mount-Starves :
      (h : ℕ) (disk : Bytes) (w : World Guest)
      → ((n : ℕ) (ss : List Slot) → AllInUse ss → AllInUse (env.others n ss))
      → find_vmi (some h) w.slots ≡ none
      → find_unlocked w.slots ≡ none
      → w.lk ≡ false
      → AllInUse w.slots
      → request_mount env (some h) disk w ≡ running
  request_mount-Starves h disk w keep miss full free used =
      rw
        (
          request_mount_full env h disk w miss full,
          spin-Starves keep env.fuel (no_best env) w free (omega arith) used,
          and_then,
        )
        refl
