-- ===== src/Mount.antt =====
-- The qemu-nbd side of libhyperagent/syncmount.cc: do_nbd_mount, do_nbd_unmount, drop_all_mounts
-- and get_mountpoint. A command is its text; what the shell does with it is the environment's.
pub mod Frame
pub mod Locks
pub mod Whole
pub mod Failing
pub mod Points
pub mod Dropping
pub mod Isolated
use hyperagents.Base.{ℕ, zero, suc, ◌++◌, ◌==◌, if◌then◌else◌}
use hyperagents.Base.Int.{negsuc}
use hyperagents.Base.Text.{Bytes, codes, to_string}
use hyperagents.World.{Handle, Env, World, guest_at, set_guest}
use hyperagents.Effect.{
  Outcome, exited, ◌>>=◌, ◌>>◌, pure, read, modify, run_in, lock_vmi, unlock_vmi, deref,
}
use hyperagents.Sync.{do_sync}

-- "nbd" + std::to_string(i)
abbrev pub nbd_dev : ℕ → Bytes
nbd_dev i = codes "nbd" ++ to_string i

unfoldable pub get_mountpoint : Bytes → ℕ → Bytes
get_mountpoint base i = base ++ codes "nbd" ++ to_string i ++ codes "/"

abbrev pub connect_command : Bytes → Bytes → Bytes
connect_command dev disk = codes "qemu-nbd -nf qcow2 -c /dev/" ++ dev ++ codes " " ++ disk

abbrev pub map_command : Bytes → Bytes
map_command dev = codes "kpartx -av /dev/" ++ dev

abbrev pub umount_command : Bytes → Bytes → Bytes
umount_command base dev = codes "umount " ++ base ++ dev

abbrev pub mount_options : Bytes
mount_options = codes "ro,nodev,nodiratime,noexec,noiversion,nomand,norelatime,nostrictatime,nosuid"

abbrev pub mount_command : Bytes → Bytes → Bytes → Bytes
mount_command check base dev =
    codes "mount -o "
    ++ check
    ++ mount_options
    ++ codes " /dev/mapper/"
    ++ dev
    ++ codes "p1 "
    ++ base
    ++ dev

abbrev pub lazy_umount_command : Bytes → Bytes → Bytes
lazy_umount_command base dev = codes "umount -l " ++ base ++ dev

abbrev pub disconnect_command : Bytes → Bytes
disconnect_command dev = codes "qemu-nbd -d /dev/" ++ dev

module _ {Guest : Type 0} (env : Env Guest) where
  -- VMI_OS_LINUX == vmi_get_ostype(*vmi)
  abbrev pub check_option : Guest → Bytes
  check_option g =
      if env.vmi.os_linux == env.vmi.get_ostype g then codes "check=none," else codes ""

  -- From the lock on: pause the guest, and mount its first partition.
  unfoldable pub mount_partition : Bytes → ℕ → World Guest → Outcome (World Guest) ℕ
  mount_partition dev h = do
    lock_vmi
    modify (λ w. set_guest w h (env.vmi.pause_vm (guest_at w h)))
    check ← read (λ w. check_option (guest_at w h))
    unlock_vmi
    base ← read (λ w. w.base_mountpoint)
    precaution ← run_in env 192 (umount_command base dev)
    c ← run_in env 192 (mount_command check base dev)
    pure 0

  unfoldable pub do_nbd_mount : Bytes → Handle → Bytes → World Guest → Outcome (World Guest) ℕ
  do_nbd_mount dev vmi disk_path = do
    lock_vmi
    h ← deref vmi
    ret ← do_sync env h
    unlock_vmi
    a ← run_in env 192 (connect_command dev disk_path)
    if a == 256
        then exited (negsuc 0)
        else run_in env 192 (map_command dev) >> mount_partition dev h

  unfoldable pub do_nbd_unmount : Bytes → Handle → World Guest → Outcome (World Guest) ℕ
  do_nbd_unmount dev vmi = do
    base ← read (λ w. w.base_mountpoint)
    e ← run_in env 192 (lazy_umount_command base dev)
    lock_vmi
    h ← deref vmi
    modify (λ w. set_guest w h (env.vmi.resume_vm (guest_at w h)))
    unlock_vmi
    f ← run_in env 192 (disconnect_command dev)
    pure 0

  -- The rounds of the loop from index `i` on, `n` of them.
  unfoldable pub drop_mounts : ℕ → ℕ → World Guest → Outcome (World Guest) (Unit {0})
  drop_mounts zero i = pure tt
  drop_mounts (suc n) i = do
    base ← read (λ w. w.base_mountpoint)
    r ← run_in env 192 (umount_command base (nbd_dev i))
    q ← run_in env 192 (disconnect_command (nbd_dev i))
    drop_mounts n (suc i)

  unfoldable pub drop_all_mounts : World Guest → Outcome (World Guest) (Unit {0})
  drop_all_mounts = drop_mounts 16 0
