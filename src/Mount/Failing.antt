-- ===== src/Mount/Failing.antt =====
-- do_nbd_mount (libhyperagent/syncmount.cc) where its connect fails, and where its commands do not fit
-- their buffer.
use hyperagents.Base.{
  ℕ, ◌+◌, ◌≤◌, ◌<◌, ◌≡◌, refl, some, false, true, ◌++◌, [], ◌∷◌, length, arith, eq→==, ne→==,
  ℕ_discrete, Bool-cases, inl, inr, ◌*◌, ltb, ◌==◌, if◌then◌else◌,
}
use hyperagents.Base.Int.{negsuc}
use hyperagents.Base.Text.{Bytes}
use hyperagents.World.{Env, World}
use hyperagents.Effect.{done, fault, exited, buffer_overflow, and_then, lock_vmi}
use hyperagents.Effect.Rules.{run_in_fits, run_in_overflows}
use hyperagents.Sync.{do_sync}
use hyperagents.Mount.{connect_command, do_nbd_mount}
use hyperagents.Mount.Whole.{length-connect_command, mounted, do_nbd_mount_done}

module _ {Guest : Type 0} (env : Env Guest) (dev disk : Bytes) (h r : ℕ) (w w1 : World Guest) where
  -- A connect that fails.
  do_nbd_mount_exits :
      w.vmi_lock ≡ false
      → do_sync env h (record w { vmi_lock = true }) ≡ done r w1
      → length dev + length disk ≤ 163
      → env.shell (length w1.log) (connect_command dev disk) ≡ 256
      → do_nbd_mount env dev (some h) disk w
        ≡ exited
            (negsuc 0)
            (record w1 { vmi_lock = false; log = w1.log ++ connect_command dev disk ∷ [] })
  unfolding do_nbd_mount lock_vmi
  do_nbd_mount_exits free e fit failed =
      rw (free, and_then, and_then)
        (rw (e, and_then, and_then)
          (rw
            (
              run_in_fits env 192 _ (record w1 { vmi_lock = false }) connects,
              and_then,
              eq→== _ _ failed,
            )
            refl))
    where
      connects : length (connect_command dev disk) < 192
      connects = omega (arith, length-connect_command env dev disk)

  -- A connect that does not fit its buffer.
  do_nbd_mount_overflows :
      w.vmi_lock ≡ false
      → do_sync env h (record w { vmi_lock = true }) ≡ done r w1
      → 164 ≤ length dev + length disk
      → do_nbd_mount env dev (some h) disk w ≡ fault buffer_overflow
  unfolding do_nbd_mount lock_vmi
  do_nbd_mount_overflows free e long =
      rw (free, and_then, and_then)
        (rw (e, and_then, and_then)
          (rw
            (
              run_in_overflows env 192 (connect_command dev disk) (record w1 { vmi_lock = false })
                  (omega (arith, length-connect_command env dev disk)),
              and_then,
            )
            refl))

  -- do_nbd_mount behind a do_sync that returned, by its three ends. With device and disk path of 164
  -- bytes together or more, the connect command overflows its buffer of 192 bytes. Otherwise, where
  -- the connect returns 256, the process exits with -1: vmi_global_lock is free, the connect is the
  -- one command behind those of do_sync, and nothing is undone. Otherwise it returns 0, with its four
  -- commands behind those of do_sync, the guest paused again and the lock free. The lock is free before,
  -- and the mount point's directory and twice the device have at most 79 bytes.
  pub do_nbd_mount_ends :
      w.vmi_lock ≡ false
      → do_sync env h (record w { vmi_lock = true }) ≡ done r w1
      → length w.base_mountpoint + 2 * length dev ≤ 79
      → do_nbd_mount env dev (some h) disk w ≡ (
          if ltb 163 (length dev + length disk)
          then fault buffer_overflow
          else if env.shell (length w1.log) (connect_command dev disk) == 256
          then exited
              (negsuc 0)
              (record w1 { vmi_lock = false; log = w1.log ++ connect_command dev disk ∷ [] })
          else done 0 (mounted env dev disk h w1))
  do_nbd_mount_ends free e small = elim (Bool-cases (ltb 163 (length dev + length disk))) [
    | inl long ↦ rw long (do_nbd_mount_overflows free e (ground (arith, long)))
    | inr fits ↦ elim (ℕ_discrete (env.shell (length w1.log) (connect_command dev disk)) 256) [
      | yes failed ↦
          rw (fits, eq→== _ _ failed) (do_nbd_mount_exits free e (ground (arith, fits)) failed)
      | no ok ↦
          rw (fits, ne→== _ _ ok)
            (do_nbd_mount_done env dev disk h r w w1 free e (ground (arith, fits)) small ok)
    ]
  ]
