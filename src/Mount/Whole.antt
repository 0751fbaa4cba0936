-- ===== src/Mount/Whole.antt =====
-- do_nbd_mount from its call to its return: the commands that it runs, and their buffers.
use hyperagents.Base.{
  ℕ, ◌+◌, ◌*◌, ◌≤◌, ◌<◌, ◌≡◌, ◌≢◌, refl, some, false, true, ◌++◌, [], ◌∷◌, length, length-append,
  arith, ne→==,
}
use hyperagents.Base.Text.{Bytes}
use hyperagents.World.{Env, World, guest_at, set_guest}
use hyperagents.Effect.{done, and_then, lock_vmi}
use hyperagents.Effect.Rules.{Returns, Ensures-done, run_in_fits, logged}
use hyperagents.Effect.Frame.{SameTable}
use hyperagents.Sync.{do_sync}
use hyperagents.Sync.Frame.{Keeps-do_sync}
use hyperagents.Mount.{
  connect_command, map_command, umount_command, mount_command, check_option, mount_partition,
  do_nbd_mount,
}

module _ {Guest : Type 0} (env : Env Guest) where
  pub length-connect_command :
      (dev disk : Bytes) → length (connect_command dev disk) ≡ 28 + length dev + length disk
  length-connect_command dev disk = simp length-append (omega arith)

  umount_fits :
      (base dev : Bytes)
      → length base + 2 * length dev ≤ 79
      → length (umount_command base dev) < 192
  umount_fits base dev h = simp length-append (omega arith)

  check_fits : (g : Guest) → length (check_option env g) ≤ 11
  check_fits g = ground arith

  mount_fits :
      (check base dev : Bytes)
      → length check ≤ 11
      → length base + 2 * length dev ≤ 79
      → length (mount_command check base dev) < 192
  mount_fits check base dev c h = simp length-append (omega arith)

  -- The world after `h`'s guest was paused, and the lock given back.
  abbrev pub halted : ℕ → World Guest → World Guest
  halted h w = record (set_guest w h (env.vmi.pause_vm (guest_at w h))) { vmi_lock = false }

  -- The last command, as it is put together under the lock.
  abbrev pub last_command : Bytes → ℕ → World Guest → Bytes
  last_command dev h w =
      mount_command (check_option env (guest_at (halted h w) h)) w.base_mountpoint dev

  mount_partition_lem :
      (dev : Bytes) (h : ℕ) (w : World Guest)
      → w.vmi_lock ≡ false
      → length w.base_mountpoint + 2 * length dev ≤ 79
      → mount_partition env dev h w
        ≡ done 0 (
            logged env
              (last_command dev h w)
              (logged env (umount_command w.base_mountpoint dev) (halted h w)))
  unfolding mount_partition lock_vmi
  mount_partition_lem dev h w free small =
      rw (free, and_then)
        (rw (run_in_fits env 192 _ (halted h w) (umount_fits w.base_mountpoint dev small), and_then)
          (rw
            (run_in_fits env 192 _ (logged env (umount_command w.base_mountpoint dev) (halted h w))
              (mount_fits _ w.base_mountpoint dev (check_fits (guest_at (halted h w) h)) small))
            refl))

  abbrev unlocked : World Guest → World Guest
  unlocked w = record w { vmi_lock = false }

  -- The world behind the connect and the map, and that behind all four commands.
  abbrev mapped : Bytes → Bytes → World Guest → World Guest
  mapped dev disk w1 =
      logged env (map_command dev) (logged env (connect_command dev disk) (unlocked w1))

  abbrev pub mounted : Bytes → Bytes → ℕ → World Guest → World Guest
  mounted dev disk h w1 =
      logged env (last_command dev h w1)
        (logged env (umount_command w1.base_mountpoint dev) (halted h (mapped dev disk w1)))

  pub do_sync-SameTable :
      (h r : ℕ) (w w1 : World Guest) → do_sync env h w ≡ done r w1 → SameTable w w1
  do_sync-SameTable h r w w1 e =
      Ensures-done (λ _ w'. SameTable w w') _ r w1 ((Keeps-do_sync env h).at w) e

  -- The world that do_nbd_mount leaves behind the do_sync.
  pub do_nbd_mount_done :
      (dev disk : Bytes) (h r : ℕ) (w w1 : World Guest)
      → w.vmi_lock ≡ false
      → do_sync env h (record w { vmi_lock = true }) ≡ done r w1
      → length dev + length disk ≤ 163
      → length w.base_mountpoint + 2 * length dev ≤ 79
      → env.shell (length w1.log) (connect_command dev disk) ≢ 256
      → do_nbd_mount env dev (some h) disk w ≡ done 0 (mounted dev disk h w1)
  unfolding do_nbd_mount lock_vmi
  do_nbd_mount_done dev disk h r w w1 free e fit small ok =
      rw (free, and_then, and_then)
        (rw (e, and_then, and_then)
          (rw (run_in_fits env 192 _ (unlocked w1) connects, and_then, ne→== _ _ ok)
            (rw
              (
                run_in_fits env 192 _ (logged env (connect_command dev disk) (unlocked w1)) maps,
                and_then,
              )
              (mount_partition_lem dev h (mapped dev disk w1) refl small'))))
    where
      connects : length (connect_command dev disk) < 192
      connects = omega (arith, length-connect_command dev disk)

      maps : length (map_command dev) < 192
      maps = simp length-append (omega arith)

      small' : length w1.base_mountpoint + 2 * length dev ≤ 79
      small' = rw (do_sync-SameTable h r (record w { vmi_lock = true }) w1 e).base small

  -- Where do_sync returns, do_nbd_mount returns 0 and gives vmi_global_lock back, the slots and `lk`
  -- are as before, and its own commands behind those of do_sync are, in this order: connect, map,
  -- unmount, mount. The lock is free before, device and disk path have at most 163 bytes together,
  -- the mount point's directory and twice the device at most 79, and the connect does not return 256.
  pub do_nbd_mount-Returns :
      (dev disk : Bytes) (h r : ℕ) (w w1 : World Guest)
      → w.vmi_lock ≡ false
      → do_sync env h (record w { vmi_lock = true }) ≡ done r w1
      → length dev + length disk ≤ 163
      → length w.base_mountpoint + 2 * length dev ≤ 79
      → env.shell (length w1.log) (connect_command dev disk) ≢ 256
      → Returns
          (λ r' w'.
            (r' ≡ 0)
            × (w'.vmi_lock ≡ false)
            × (w'.slots ≡ w.slots)
            × (w'.lk ≡ w.lk)
            × (w'.log
                ≡ (((w1.log ++ connect_command dev disk ∷ []) ++ map_command dev ∷ [])
                    ++ umount_command w.base_mountpoint dev ∷ [])
                  ++ last_command dev h w1 ∷ []))
          (do_nbd_mount env dev (some h) disk w)
  do_nbd_mount-Returns dev disk h r w w1 free e fit small ok =
      let same = do_sync-SameTable h r (record w { vmi_lock = true }) w1 e in
      rw (do_nbd_mount_done dev disk h r w w1 free e fit small ok)
        (refl, refl, same.slots, same.lk, rw same.base refl)
