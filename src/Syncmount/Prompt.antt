-- ===== src/Syncmount/Prompt.antt =====
-- request_mount where it does not have to wait: the caller has a slot already, or one is free.
use hyperagents.Base.{
  ℕ, ◌+◌, ◌≤◌, ◌<◌, ◌≡◌, ◌≢◌, lt-length-get_elem?, refl, none, some, false, true, length, arith,
}
use hyperagents.Base.Text.{Bytes, length-to_string}
use hyperagents.World.{Env, World}
use hyperagents.Effect.{done, and_then, gettimeofday}
use hyperagents.Effect.Rules.{Ensures, Returns, Returns-done}
use hyperagents.Slots.{alter, find_vmi, find_unlocked, claim, stamp}
use hyperagents.Slots.Table.{
  IsTable, Absent, Holds, find_vmi-found, find_vmi-none, find_unlocked-found,
}
use hyperagents.Sync.{do_sync}
use hyperagents.Mount.{nbd_dev, connect_command, do_nbd_mount}
use hyperagents.Mount.Whole.{do_nbd_mount-Returns, do_nbd_mount_done, mounted}
use hyperagents.Syncmount.{remount, mount_free, set_slots, request_mount}
use hyperagents.Syncmount.Request.{
  Grants, request_mount_hit, request_mount_free, remount-Granted, mount_free-Granted,
}

module _ {Guest : Type 0} (env : Env Guest) (h : ℕ) where
  -- request_mount for an instance that has a slot returns the first such slot: nothing is listened
  -- for and no command is run, the table stays in order, and the slot is the caller's and in use.
  -- The table was in order before.
  request_mount-Returns_hit :
      (disk : Bytes) (w : World Guest) (i : ℕ)
      → IsTable w.slots
      → find_vmi (some h) w.slots ≡ some i
      → Returns
          (λ ix w'.
            (ix ≡ i)
            × (w'.log ≡ w.log)
            × (w'.listens ≡ w.listens)
            × IsTable w'.slots
            × Holds h ix w'.slots)
          (request_mount env (some h) disk w)
  unfolding remount gettimeofday set_slots
  request_mount-Returns_hit disk w i table hit =
      let (s, found, vmi) = find_vmi-found (some h) w.slots i hit in
      let (table', held) = remount-Granted env h i w s table found vmi in
      rw (request_mount_hit env h disk w i hit) (refl, refl, refl, table', held)

  -- The table once slot `i` is claimed, under vmi_global_lock.
  abbrev pub claimed : ℕ → World Guest → World Guest
  claimed i w = record w { slots = alter i (claim i (some h)) w.slots; vmi_lock = true }

  -- request_mount for an instance without a slot returns the first free slot: the table stays in
  -- order, the slot is the caller's and in use, and the lock is given back. Conditions: the table was
  -- in order and vmi_global_lock free, the do_sync of the mount returns, the paths of the disk and of
  -- the mount point have at most 150 and 69 bytes, and the connect does not return 256.
  pub request_mount-Returns_free :
      (disk : Bytes) (w w1 : World Guest) (i r : ℕ)
      → IsTable w.slots
      → find_vmi (some h) w.slots ≡ none
      → find_unlocked w.slots ≡ some i
      → w.vmi_lock ≡ false
      → do_sync env h (claimed i w) ≡ done r w1
      → length disk ≤ 150
      → length w.base_mountpoint ≤ 69
      → env.shell (length w1.log) (connect_command (nbd_dev i) disk) ≢ 256
      → Returns
          (λ ix w'. (ix ≡ i) × (w'.vmi_lock ≡ false) × IsTable w'.slots × Holds h ix w'.slots)
          (request_mount env (some h) disk w)
  unfolding mount_free gettimeofday set_slots
  request_mount-Returns_free disk w w1 i r table miss free unlocked e fit small ok =
      let (s, found, unheld) = find_unlocked-found w.slots i free in
      let absent : Absent h w.slots = λ j t g. find_vmi-none (some h) w.slots j t miss g in
      let granted = mount_free-Granted env h i disk w s table found absent in
      let (r', w', e', p) = Returns-done _ _ (
        do_nbd_mount-Returns env (nbd_dev i) disk h r (set_slots env (alter i (claim i (some h))) w)
          w1 unlocked e (omega (arith, name)) (omega (arith, name)) ok) in
      let (table', held) = granted' r' w' e' granted in
      rw (request_mount_free env h disk w i miss free, e', and_then) (refl, p.1, table', held)
    where
      name : length (nbd_dev i) ≤ 5
      name =
          let (s, found, unheld) = find_unlocked-found w.slots i free in
          omega (arith, table.size, lt-length-get_elem? w.slots i found, length-to_string 1 i)

      granted' :
          (r' : ℕ) (w' : World Guest)
          → do_nbd_mount env
              (nbd_dev i)
              (some h)
              disk
              (set_slots env (alter i (claim i (some h))) w)
            ≡ done r' w'
          → Ensures (Grants env h) (mount_free env i (some h) disk w)
          → IsTable (alter i (stamp (env.time_of_day w'.clock)) w'.slots)
            × Holds h i (alter i (stamp (env.time_of_day w'.clock)) w'.slots)
      granted' r' w' e' g = rw (e', and_then) at g

  -- The world behind a mount in slot `i`, whose do_sync left `w1`.
  abbrev pub fetched : Bytes → ℕ → World Guest → World Guest
  fetched disk i w1 = record (mounted env (nbd_dev i) disk h w1) {
    slots = alter i (stamp (env.time_of_day w1.clock)) w1.slots;
    clock = w1.clock + 1;
  }

  pub request_mount_free_done :
      (disk : Bytes) (w w1 : World Guest) (i r : ℕ)
      → i < 16
      → find_vmi (some h) w.slots ≡ none
      → find_unlocked w.slots ≡ some i
      → w.vmi_lock ≡ false
      → do_sync env h (claimed i w) ≡ done r w1
      → length disk ≤ 150
      → length w.base_mountpoint ≤ 69
      → env.shell (length w1.log) (connect_command (nbd_dev i) disk) ≢ 256
      → request_mount env (some h) disk w ≡ done i (fetched disk i w1)
  unfolding mount_free gettimeofday set_slots
  request_mount_free_done disk w w1 i r in_range miss free unlocked e fit small ok =
      let name : length (nbd_dev i) ≤ 5 = omega (arith, length-to_string 1 i) in
      rw
        (
          request_mount_free env h disk w i miss free,
          do_nbd_mount_done env (nbd_dev i) disk h r (set_slots env (alter i (claim i (some h))) w)
              w1 unlocked e (omega (arith, name)) (omega (arith, name)) ok,
          and_then,
        )
        refl
