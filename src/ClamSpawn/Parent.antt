-- ===== src/ClamSpawn/Parent.antt =====
-- The process that waits for the scanner: the status that it reads, and how it ends.
use hyperagents.Base.{
  ℕ, ◌≤◌, ◌<◌, ◌≡◌, ◌≢◌, ◌↔◌, refl, ap, ◌∙◌, false, some, ◌++◌, length, get_elem?, arith,
}
use hyperagents.Base.Int.{pos, ◌-ℤ◌, eqb_ℤ, eqb_ℤ_ne}
use hyperagents.Base.Text.{Bytes}
use hyperagents.World.{Slot, Env, World}
use hyperagents.Effect.{done, and_then}
use hyperagents.Effect.Rules.{Returns}
use hyperagents.Slots.{alter, new_slot}
use hyperagents.Sync.{do_sync}
use hyperagents.Mount.{nbd_dev, connect_command}
use hyperagents.Mount.Whole.{do_sync-SameTable}
use hyperagents.Testmain.Whole.{
  handle, mounting, synced_lem, released, unmount_disk_done, destroy_main_done,
}
use hyperagents.Testmain.Program.{commands, five_snocs}
use hyperagents.ClamSpawn.{WaitMacros, read_waitpid_status, returned, Forks, parent, clam_spawn}
use hyperagents.ClamSpawn.Forking.{clam_spawn_forks}

-- Given that an exit status is one byte, the result is 0 exactly for a process that did not exit, and
-- it is below 384.
pub read_waitpid_status_lem :
    (m : WaitMacros) (status : ℕ)
    → m.wexitstatus status < 256
    → ((read_waitpid_status m status ≡ 0) ↔ (m.wifexited status ≡ false))
      × (read_waitpid_status m status < 384)
unfolding read_waitpid_status
read_waitpid_status_lem m status small = ((λ e. ground arith, λ e. ground arith), ground arith)

module _ {Guest : Type 0} (env : Env Guest) (forks : Forks) (vm profile disk base ghost : Bytes)
    (d : ℕ) where
  -- In the process that fork does not return 0 to, where waitpid gives a status, main returns 0. Behind
  -- the commands of do_sync it ran, in this order: connect, map, unmount and mount for slot 0, the
  -- listing, and an unmount and a disconnect for each of the sixteen slots. Slot 0 is the agent's,
  -- with no reference.
  -- Conditions: LibVMI finds the domain, the do_sync of the mount returns (`w1` is the process then),
  -- the paths of the disk and of the mount point have at most 150 and 69 bytes, and the connect does
  -- not return 256.
  pub parent-Returns :
      (w w1 : World Guest) (r status : ℕ)
      → forks.pid ≢ pos 0
      → forks.waitpid forks.pid ≡ some status
      → env.init_complete vm ≡ some d
      → do_sync env
          (handle env vm profile disk base ghost d w)
          (mounting env vm profile disk base ghost d w)
        ≡ done r w1
      → length disk ≤ 150
      → length base ≤ 69
      → env.shell (length w1.log) (connect_command (nbd_dev 0) disk) ≢ 256
      → Returns
          (λ e w'.
            (e ≡ returned (pos 0))
            × (w'.log ≡ w1.log ++ commands env vm profile disk base ghost d (length w.configs) w1)
            × (t : Slot) × (get_elem? w'.slots 0 ≡ some t)
            × (t.vmi ≡ some (length w.configs))
            × (t.refcount ≡ pos 0))
          (clam_spawn env forks base ghost vm profile disk w)
  unfolding parent alter new_slot ◌-ℤ◌
  parent-Returns w w1 r status away waited known e fit small ok =
      let same =
        do_sync-SameTable env (length w.configs) r (mounting env vm profile disk base ghost d w) w1
          e in
      let e' =
        e
        ∙ ap (λ (v : World Guest). done r v)
            (synced_lem env vm profile disk base ghost d w w1 same) in
      let other : eqb_ℤ forks.pid (pos 0) ≡ false = eqb_ℤ_ne forks.pid (pos 0) away in
      rw
        (
          clam_spawn_forks env forks vm profile disk base ghost d w w1 r known e' fit small ok,
          other,
        )
        (rw
          (
            waited,
            and_then,
            unmount_disk_done env vm profile disk base ghost d w w1,
            and_then,
            destroy_main_done env vm profile disk base ghost d (length w.configs)
                (released env vm profile disk base ghost d w w1) (omega arith) refl refl refl,
            and_then,
          )
          (refl, five_snocs _ _ _ _ _ _ _, _, refl, refl, refl))
