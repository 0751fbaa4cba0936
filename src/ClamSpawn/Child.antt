-- ===== src/ClamSpawn/Child.antt =====
-- The process that is to become the scanner, where execvp fails.
use hyperagents.Base.{ℕ, ◌≤◌, ◌≡◌, ◌≢◌, refl, ap, ◌∙◌, true, some, ◌++◌, length, get_elem?, arith}
use hyperagents.Base.Int.{pos, negsuc}
use hyperagents.Base.Text.{Bytes}
use hyperagents.World.{Slot, Env, World}
use hyperagents.Effect.{done, and_then}
use hyperagents.Effect.Rules.{Returns}
use hyperagents.Slots.{alter, new_slot}
use hyperagents.Sync.{do_sync}
use hyperagents.Mount.{nbd_dev, connect_command}
use hyperagents.Mount.Whole.{do_sync-SameTable}
use hyperagents.Testmain.Whole.{handle, mounting, synced_lem, listed, destroy_main_done}
use hyperagents.Testmain.Program.{commands, five_snocs}
use hyperagents.ClamSpawn.{returned, Forks, child, clam_spawn}
use hyperagents.ClamSpawn.Forking.{clam_spawn_forks}

module _ {Guest : Type 0} (env : Env Guest) (forks : Forks) (vm profile disk base ghost : Bytes)
    (d : ℕ) where
  -- In the process that fork returns 0 to, where execvp returns, main returns -1, and this process too
  -- runs an unmount and a disconnect for each of the sixteen slots, behind the commands that the two
  -- processes share, while slot 0 is the agent's and still has its reference.
  -- Conditions: LibVMI finds the domain, the do_sync of the mount returns (`w1` is the process then),
  -- the paths of the disk and of the mount point have at most 150 and 69 bytes, and the connect does
  -- not return 256.
  pub child-Returns :
      (w w1 : World Guest) (r : ℕ)
      → forks.pid ≡ pos 0
      → forks.execvp_returns ≡ true
      → env.init_complete vm ≡ some d
      → do_sync env
          (handle env vm profile disk base ghost d w)
          (mounting env vm profile disk base ghost d w)
        ≡ done r w1
      → length disk ≤ 150
      → length base ≤ 69
      → env.shell (length w1.log) (connect_command (nbd_dev 0) disk) ≢ 256
      → Returns
          (λ e w'.
            (e ≡ returned (negsuc 0))
            × (w'.log ≡ w1.log ++ commands env vm profile disk base ghost d (length w.configs) w1)
            × (t : Slot) × (get_elem? w'.slots 0 ≡ some t)
            × (t.vmi ≡ some (length w.configs))
            × (t.refcount ≡ pos 1))
          (clam_spawn env forks base ghost vm profile disk w)
  unfolding child alter new_slot
  child-Returns w w1 r here fails known e fit small ok =
      let same =
        do_sync-SameTable env (length w.configs) r (mounting env vm profile disk base ghost d w) w1
          e in
      let e' =
        e
        ∙ ap (λ (v : World Guest). done r v)
            (synced_lem env vm profile disk base ghost d w w1 same) in
      rw
        (clam_spawn_forks env forks vm profile disk base ghost d w w1 r known e' fit small ok, here)
        (rw
          (
            fails,
            destroy_main_done env vm profile disk base ghost d (length w.configs)
                (listed env vm profile disk base ghost d w w1) (omega arith) refl refl refl,
            and_then,
          )
          (refl, five_snocs _ _ _ _ _ _ _, _, refl, refl, refl))
