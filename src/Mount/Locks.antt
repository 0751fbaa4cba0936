-- ===== src/Mount/Locks.antt =====
-- Mounting and unmounting give vmi_global_lock back.
use hyperagents.Base.{ℕ}
use hyperagents.Base.Text.{Bytes}
use hyperagents.World.{Handle, Env}
use hyperagents.Effect.{run_in}
use hyperagents.Effect.Leaves.{Leaves, Makes, IsFree, Leaves-run_in, leaving}
use hyperagents.Mount.{mount_partition, do_nbd_mount, do_nbd_unmount}

module _ {Guest : Type 0} (env : Env Guest) where
  Leaves-command : (text : Bytes) → Leaves IsFree (run_in env 192 text)
  Leaves-command text = Leaves-run_in env IsFree 192 text (λ w free. free)

  Makes-mount_partition : (dev : Bytes) (h : ℕ) → Makes IsFree (mount_partition env dev h)
  unfolding mount_partition
  Makes-mount_partition dev h = search (leaving, Leaves-command) depth 20

  pub Makes-do_nbd_mount :
      (dev : Bytes) (vmi : Handle) (disk_path : Bytes)
      → Makes IsFree (do_nbd_mount env dev vmi disk_path)
  unfolding do_nbd_mount
  Makes-do_nbd_mount dev vmi disk_path = search (leaving, Makes-mount_partition) depth 20

  pub Makes-do_nbd_unmount :
      (dev : Bytes) (vmi : Handle) → Makes IsFree (do_nbd_unmount env dev vmi)
  unfolding do_nbd_unmount
  Makes-do_nbd_unmount dev vmi = search (leaving, Leaves-command) depth 20
