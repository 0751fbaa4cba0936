-- ===== src/Agents/Start.antt =====
-- The constructor of HAMain (libhyperagent/libhyperagent.cc).
use hyperagents.Base.{◌≡◌, refl, false, []}
use hyperagents.Base.Text.{Bytes}
use hyperagents.World.{Env, World}
use hyperagents.Effect.Rules.{Returns, Returns-and_then}
use hyperagents.Slots.Table.{IsTable}
use hyperagents.Syncmount.Start.{construct-Returns}
use hyperagents.Agents.{ha_main}

module _ {Guest : Type 0} (env : Env Guest) where
  -- The constructor of HAMain returns, with the table in order, no agent, both locks free, and the two
  -- paths that it was given.
  ha_main-Returns :
      (mount_path ghost_image : Bytes) (w : World Guest)
      → Returns
          (λ _ w'.
            IsTable w'.slots
            × (w'.agents ≡ [])
            × (w'.vmi_lock ≡ false)
            × (w'.lk ≡ false)
            × (w'.base_mountpoint ≡ mount_path)
            × (w'.ghost_image ≡ ghost_image))
          (ha_main env mount_path ghost_image w)
  unfolding ha_main
  ha_main-Returns mount_path ghost_image w =
      Returns-and_then
        (λ _ w'.
          IsTable w'.slots
          × (w'.lk ≡ false)
          × (w'.base_mountpoint ≡ mount_path)
          × (w'.ghost_image ≡ ghost_image))
        _ _ _ (construct-Returns env mount_path ghost_image w)
        (λ u w' p. (p.0, refl, refl, p.1, p.2, p.3))
