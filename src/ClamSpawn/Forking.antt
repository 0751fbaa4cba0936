-- ===== src/ClamSpawn/Forking.antt =====
-- clam_spawn.c up to its fork.
use hyperagents.Base.{if◌then◌else◌, ℕ, ◌≤◌, ◌≡◌, ◌≢◌, refl, some, length}
use hyperagents.Base.Int.{pos, eqb_ℤ}
use hyperagents.Base.Text.{Bytes}
use hyperagents.World.{Env, World}
use hyperagents.Effect.{done, and_then, lock_vmi, system}
use hyperagents.Sync.{do_sync}
use hyperagents.Mount.{get_mountpoint, nbd_dev, connect_command}
use hyperagents.Agents.{get_vmi, agent}
use hyperagents.Testmain.Whole.{
  handle, mounting, synced, listed, ha_main_done, add_agent_done, known_lem, mount_disk_done,
}
use hyperagents.ClamSpawn.{Forks, child, parent, clam_spawn}

module _ {Guest : Type 0} (env : Env Guest) (forks : Forks) (vm profile disk base ghost : Bytes)
    (d : ℕ) where
  -- Up to the fork, which finds the disk mounted in slot 0 and listed.
  pub clam_spawn_forks :
      (w w1 : World Guest) (r : ℕ)
      → env.init_complete vm ≡ some d
      → do_sync env
          (handle env vm profile disk base ghost d w)
          (mounting env vm profile disk base ghost d w)
        ≡ done r (synced env vm profile disk base ghost d w w1)
      → length disk ≤ 150
      → length base ≤ 69
      → env.shell (length w1.log) (connect_command (nbd_dev 0) disk) ≢ 256
      → clam_spawn env forks base ghost vm profile disk w
        ≡ (if eqb_ℤ forks.pid (pos 0)
              then child env forks (get_mountpoint base 0)
              else parent env forks vm)
            (listed env vm profile disk base ghost d w w1)
  unfolding clam_spawn get_vmi agent system lock_vmi
  clam_spawn_forks w w1 r known e fit small ok =
      rw
        (
          ha_main_done env vm profile disk base ghost d w,
          and_then,
          add_agent_done env vm profile disk base ghost d w known,
          and_then,
        )
        (rw
          (
            known_lem env vm profile disk base ghost d (handle env vm profile disk base ghost d w),
            and_then,
          )
          (rw (mount_disk_done env vm profile disk base ghost d w w1 r e fit small ok, and_then)
            refl))
