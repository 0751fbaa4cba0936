-- ===== src/Syncmount/Refines.antt =====
-- request_mount and release_mount (libhyperagent/syncmount.cc) against the mount service that they
-- implement, `view` of the slot table.
use hyperagents.Base.{ℕ, ◌≡◌, refl, inl, inr, false, some, List, get_elem?, arith, Option-cases}
use hyperagents.Base.Int.{pos, ◌-ℤ◌, ◌<ℤ◌}
use hyperagents.Base.Text.{Bytes}
use hyperagents.World.{Handle, Slot, Env, World}
use hyperagents.Effect.{and_then, lock_vmi, gettimeofday}
use hyperagents.Effect.Rules.{Returns, Ensures, Ensures-and_then}
use hyperagents.Effect.Frame.{SameTable}
use hyperagents.Slots.{alter, find_vmi, find_unlocked, claim, steal, drop_ref}
use hyperagents.Slots.Table.{
  IsTable, Absent, find_vmi-found, find_vmi-none, find_unlocked-found, find_unlocked-none,
}
use hyperagents.Slots.View.{view, change}
use hyperagents.Slots.View.Serves.{Serves, reuse-Serves, claim-Serves, steal-Serves}
use hyperagents.Slots.View.Steps.{view-alter}
use hyperagents.Mount.{nbd_dev}
use hyperagents.Mount.Frame.{Keeps-do_nbd_mount, Keeps-do_nbd_unmount}
use hyperagents.Syncmount.{
  remount, mount_free, mount_stolen, set_slots, slot_at, request_mount, release_mount, no_best,
}
use hyperagents.Syncmount.Spin.{Spun, spin-Ensures}
use hyperagents.Syncmount.Release.{drop_ref-IsTable, in_use_lem}
use hyperagents.Syncmount.Request.{
  Fair, Waiting, Waiting-others, request_mount_hit, request_mount_free, request_mount_full,
}

-- What other threads make of the table, a sleep at a time.
pub data Meanwhile {Guest : Type 0} (env : Env Guest) (ss : List Slot) : List Slot → Type 0 where
  at_once : Meanwhile env ss ss
  slept : (n : ℕ) (ss' : List Slot) → Meanwhile env ss ss' → Meanwhile env ss (env.others n ss')

module _ {Guest : Type 0} (env : Env Guest) (h : ℕ) where
  -- The caller is served, with the table as it was when the slot was given.
  abbrev pub Served : List Slot → ℕ → World Guest → Type 0
  Served ss i w' = (ss' : List Slot) × Meanwhile env ss ss' × Serves h i (view ss') (view w'.slots)

  remount-Served :
      (i : ℕ) (w : World Guest) (s : Slot)
      → IsTable w.slots
      → get_elem? w.slots i ≡ some s
      → s.vmi ≡ some h
      → Ensures (Served w.slots) (remount env i w)
  unfolding remount gettimeofday set_slots
  remount-Served i w s table found vmi =
      (w.slots, at_once, reuse-Serves h i w.slots table (env.time_of_day w.clock) s found vmi)

  mount_free-Served :
      (i : ℕ) (disk : Bytes) (w : World Guest) (s : Slot)
      → IsTable w.slots
      → get_elem? w.slots i ≡ some s
      → s.l ≡ false
      → Absent h w.slots
      → Ensures (Served w.slots) (mount_free env i (some h) disk w)
  unfolding mount_free gettimeofday set_slots
  mount_free-Served i disk w s table found free absent =
      Ensures-and_then (λ _ w'. SameTable w1 w') (Served w.slots) _ _
        ((Keeps-do_nbd_mount env (nbd_dev i) (some h) disk).at w1)
        (λ r w2 same. (
          w.slots,
          at_once,
          rw same.slots
              (claim-Serves h i w.slots table (env.time_of_day w2.clock) s found free absent),
        ))
    where
      w1 : World Guest
      w1 = set_slots env (alter i (claim i (some h))) w

  mount_stolen-Served :
      (ss : List Slot) (i : ℕ) (disk : Bytes) (w : World Guest) (s : Slot)
      → Meanwhile env ss w.slots
      → Waiting h w.slots
      → get_elem? w.slots i ≡ some s
      → s.refcount ≡ pos 0
      → Ensures (Served ss) (mount_stolen env i (some h) disk w)
  unfolding mount_stolen gettimeofday set_slots
  mount_stolen-Served ss i disk w s past wait found released =
      let held = find_unlocked-none w.slots i s wait.locked found in
      Ensures-and_then (λ _ w'. SameTable w w') (Served ss) _ _
        ((Keeps-do_nbd_unmount env (nbd_dev i) (some h)).at w)
        (λ u w1 same.
          Ensures-and_then (λ _ w'. SameTable (taken w1) w') (Served ss) _ _
            ((Keeps-do_nbd_mount env (nbd_dev i) (some h) disk).at (taken w1))
            (λ r w2 same'. (
              w.slots,
              past,
              rw (same'.slots, same.slots)
                  (steal-Serves h i w.slots wait.in_order (env.time_of_day w2.clock) s found held
                    released wait.absent),
            )))
    where
      taken : World Guest → World Guest
      taken v = set_slots env (alter i (steal i (some h))) v

  -- Where request_mount returns a device, it served the caller as the mount service does: on the
  -- service that the table showed when the slot was given (the table of the call, or what the other
  -- threads made of it while the caller slept), the caller's instance had the device and has one user
  -- more; or it had none, and is now the only instance at the device, with one user, where nobody had
  -- the device or one whose users were gone. Every other device's users are as before. The table was
  -- in order at the call, and the other threads keep it in order, do not mount the caller's instance
  -- and free no mutex.
  pub request_mount-Serves :
      (disk : Bytes) (w : World Guest)
      → IsTable w.slots
      → Fair env h
      → Ensures (Served w.slots) (request_mount env (some h) disk w)
  request_mount-Serves disk w table fair = elim (Option-cases (find_vmi (some h) w.slots)) [
    | inr (i, hit) ↦
        let (s, found, vmi) = find_vmi-found (some h) w.slots i hit in
        rw (request_mount_hit env h disk w i hit) (remount-Served i w s table found vmi)
    | inl miss ↦
        let absent : Absent h w.slots = λ i s e. find_vmi-none (some h) w.slots i s miss e in
        elim (Option-cases (find_unlocked w.slots)) [
          | inr (i, free) ↦
              let (s, found, unlocked) = find_unlocked-found w.slots i free in
              rw (request_mount_free env h disk w i miss free)
                (mount_free-Served i disk w s table found unlocked absent)
          | inl full ↦ rw (request_mount_full env h disk w miss full) (
              Ensures-and_then
                (λ ix w'. (Waiting h w'.slots × Meanwhile env w.slots w'.slots) × Spun env ix w')
                (Served w.slots) _ _
                (spin-Ensures env (λ ss. Waiting h ss × Meanwhile env w.slots ss) keep env.fuel
                  (no_best env) w (omega arith)
                  (record { in_order = table; absent = absent; locked = full }, at_once))
                (λ ix w1 p. picked ix w1 p))
        ]
  ]
    where
      keep :
          (n : ℕ) (ss : List Slot)
          → Waiting h ss × Meanwhile env w.slots ss
          → Waiting h (env.others n ss) × Meanwhile env w.slots (env.others n ss)
      keep n ss (wait, past) = (Waiting-others env h fair n ss wait, slept n ss past)

      picked :
          (ix : ℕ) (w1 : World Guest)
          → (Waiting h w1.slots × Meanwhile env w.slots w1.slots) × Spun env ix w1
          → Ensures (Served w.slots) (mount_stolen env ix (some h) disk w1)
      picked ix w1 ((wait, past), (held, n, now, v)) =
          mount_stolen-Served w.slots ix disk w1 v.slot past wait v.found v.released

module _ {Guest : Type 0} (env : Env Guest) where
  -- release_mount of a slot that is in use, with vmi_global_lock free, returns 0; in the mount service
  -- the slot's device has one user less, and nothing else changes. The table was in order before.
  pub release_mount-change :
      (vmi : Handle) (dev : ℕ) (s : Slot) (w : World Guest)
      → IsTable w.slots
      → get_elem? w.slots dev ≡ some s
      → pos 0 <ℤ s.refcount
      → w.vmi_lock ≡ false
      → Returns
          (λ r w'. (r ≡ 0) × (view w'.slots ≡ change dev (λ n. n -ℤ pos 1) (view w.slots)))
          (release_mount env vmi dev w)
  unfolding release_mount slot_at set_slots lock_vmi
  release_mount-change vmi dev s w table found used free =
      let (g, holder) = in_use_lem env dev s w.slots table found used in
      rw (found, and_then, free, and_then, holder)
        (
          refl,
          view-alter dev drop_ref w.slots table
              (drop_ref-IsTable env dev s w.slots table found used) _ (λ s. refl) (λ s. refl),
        )
