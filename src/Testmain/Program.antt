-- ===== src/Testmain/Program.antt =====
-- What testmain.c does as a whole, from its command line on.
use hyperagents.Base.{
  ℕ, ◌≤◌, ◌≡◌, ◌≢◌, refl, ap, ◌∙◌, some, false, List, [], ◌∷◌, ◌++◌, length, get_elem?,
}
use mathlib.Core.List.{append_assoc}
use hyperagents.Base.Int.{pos, ◌-ℤ◌}
use hyperagents.Base.Text.{Bytes}
use hyperagents.World.{Slot, Env, World, guest_at}
use hyperagents.Effect.{done}
use hyperagents.Effect.Rules.{Returns}
use hyperagents.Slots.{alter, new_slot}
use hyperagents.Sync.{do_sync}
use hyperagents.Mount.{
  get_mountpoint, nbd_dev, connect_command, map_command, umount_command, mount_command,
  check_option,
}
use hyperagents.Mount.Whole.{halted, do_sync-SameTable}
use hyperagents.Mount.Dropping.{drop_commands}
use hyperagents.Testmain.{ls_command, testmain}
use hyperagents.Testmain.Whole.{handle, mounting, synced_lem, use_agent_done}
use hyperagents.Testmain.Arguments.{testmain_enough}

pub five_snocs :
    (xs ys : List Bytes) (a b c d e : Bytes)
    → (((((xs ++ a ∷ []) ++ b ∷ []) ++ c ∷ []) ++ d ∷ []) ++ e ∷ []) ++ ys
      ≡ xs ++ (a ∷ b ∷ c ∷ d ∷ e ∷ ys)
five_snocs xs ys a b c d e = simp append_assoc

module _ {Guest : Type 0} (env : Env Guest) (vm profile disk base ghost : Bytes) (d : ℕ) where
  -- The commands behind those of do_sync, whose last world is `w1`: the mount in slot 0, the listing,
  -- and what the destructor of syncmount runs.
  abbrev pub commands : ℕ → World Guest → List Bytes
  commands h w1 =
      connect_command (nbd_dev 0) disk
      ∷ map_command (nbd_dev 0)
      ∷ umount_command base (nbd_dev 0)
      ∷ mount_command (check_option env (guest_at (halted env h w1) h)) base (nbd_dev 0)
      ∷ ls_command (get_mountpoint base 0)
      ∷ drop_commands base 16 0

  -- What main leaves, for the agent `h`.
  abbrev pub Ended : ℕ → World Guest → ℕ → World Guest → Type 0
  Ended h w1 r w' =
      (r ≡ 0)
      × (w'.vmi_lock ≡ false)
      × (w'.log ≡ w1.log ++ commands h w1)
      × (t : Slot) × (get_elem? w'.slots 0 ≡ some t)
      × (t.vmi ≡ some h)
      × (t.refcount ≡ pos 0)

  -- With at least five arguments, main returns 0 with vmi_global_lock free. Behind the commands of
  -- do_sync it ran, in this order: connect, map, unmount and mount for slot 0, the listing, and an
  -- unmount and a disconnect for each of the sixteen slots. Slot 0 is the agent's, with no reference.
  -- Conditions: LibVMI finds the domain, the do_sync of the mount returns (`w1` is the process then),
  -- the paths of the disk and of the mount point have at most 150 and 69 bytes, and the connect does
  -- not return 256.
  pub testmain-Returns :
      (prog : Bytes) (more : List Bytes) (w w1 : World Guest) (r : ℕ)
      → env.init_complete vm ≡ some d
      → do_sync env
          (handle env vm profile disk base ghost d w)
          (mounting env vm profile disk base ghost d w)
        ≡ done r w1
      → length disk ≤ 150
      → length base ≤ 69
      → env.shell (length w1.log) (connect_command (nbd_dev 0) disk) ≢ 256
      → Returns
          (Ended (length w.configs) w1)
          (testmain env (prog ∷ vm ∷ profile ∷ disk ∷ base ∷ ghost ∷ more) w)
  unfolding alter new_slot ◌-ℤ◌
  testmain-Returns prog more w w1 r known e fit small ok =
      let same =
        do_sync-SameTable env (length w.configs) r (mounting env vm profile disk base ghost d w) w1
          e in
      let e' =
        e
        ∙ ap (λ (v : World Guest). done r v)
            (synced_lem env vm profile disk base ghost d w w1 same) in
      rw (testmain_enough env prog vm profile disk base ghost more w) (
        rw (use_agent_done env vm profile disk base ghost d w w1 r known e' fit small ok)
          (refl, refl, five_snocs _ _ _ _ _ _ _, _, refl, refl, refl))
