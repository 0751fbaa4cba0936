-- ===== src/Mount/Frame.antt =====
-- Mounting and unmounting leave the slot table and the agents alone.
use hyperagents.Base.{ℕ}
use hyperagents.Base.Text.{Bytes}
use hyperagents.World.{Handle, Env}
use hyperagents.Effect.Frame.{Keeps, keeping}
use hyperagents.Sync.Frame.{Keeps-do_sync}
use hyperagents.Mount.{mount_partition, do_nbd_mount, do_nbd_unmount}

module _ {Guest : Type 0} (env : Env Guest) where
  Keeps-mount_partition : (dev : Bytes) (h : ℕ) → Keeps (mount_partition env dev h)
  unfolding mount_partition
  Keeps-mount_partition dev h = search keeping depth 20

  pub Keeps-do_nbd_mount :
      (dev : Bytes) (vmi : Handle) (disk_path : Bytes) → Keeps (do_nbd_mount env dev vmi disk_path)
  unfolding do_nbd_mount
  Keeps-do_nbd_mount dev vmi disk_path =
      search (keeping, Keeps-do_sync, Keeps-mount_partition) depth 20

  pub Keeps-do_nbd_unmount : (dev : Bytes) (vmi : Handle) → Keeps (do_nbd_unmount env dev vmi)
  unfolding do_nbd_unmount
  Keeps-do_nbd_unmount dev vmi = search keeping depth 20
