-- ===== src/Agents/Session/Promises.antt =====
-- What a session promises the client of HAMain (libhyperagent/libhyperagent.cc).
use hyperagents.Base.{ℕ, ◌≡◌, ◌≢◌, some, true, get_elem?}
use hyperagents.Base.Int.{pos}
use hyperagents.Base.Text.{Bytes}
use hyperagents.World.{HaConfig, Env, World}
use hyperagents.Effect.Rules.{Returns, Ensures-done, Returns-done}
use hyperagents.Effect.Leaves.{Returns-Ensures}
use hyperagents.Slots.View.{view}
use hyperagents.Slots.View.Books.{one_more, one_less}
use hyperagents.Mount.{get_mountpoint}
use hyperagents.Mount.Points.{get_mountpoint-injective}
use hyperagents.Syncmount.{request_mount}
use hyperagents.Agents.{find_agent, mount_disk, unmount_disk}
use hyperagents.Agents.Session.{IsAlone, Session, begun, added, mounted, unmounted}
use hyperagents.Agents.Session.Sound.{Mounted, Sound, ha_main-Sound, add_agent-Sound}
use hyperagents.Agents.Session.Mounting.{mount_disk-Returns, MountedMore, mount_disk-MountedMore}
use hyperagents.Agents.Session.Unmounting.{MountedLess, unmount_disk-MountedLess}

module _ {Guest : Type 0} (env : Env Guest) (alone : IsAlone env) where
  -- After any calls of a session that returned, where an agent's disk is unmounted only while it has
  -- open mounts, the table is in order, vmi_global_lock is free, each slot has as many references as
  -- its agent has open mounts and serves that agent alone, and for an agent with open mounts
  -- `mountdev` is the slot that it has. No other thread changes the slots.
  pub session-Sound : (c : ℕ → ℕ) (w : World Guest) → Session env c w → Sound c w
  session-Sound _ _ (begun mount_path ghost_image w w' e) =
      Ensures-done (λ _ w'. Sound (λ _. 0) w') _ tt w' (ha_main-Sound env mount_path ghost_image w)
        e
  session-Sound _ _ (added c name profile disk w w' past e) =
      Ensures-done (λ _ w'. Sound c w') _ true w'
        (add_agent-Sound env c name profile disk w (session-Sound c w past)) e
  session-Sound _ _ (mounted c name path h w w' past known e) =
      (Ensures-done (MountedMore env alone h c w) _ path w'
        (mount_disk-MountedMore env alone c name h w (session-Sound c w past) known) e).0
  session-Sound _ _ (unmounted c name h w w' past known still e) =
      (Ensures-done (λ _ w'. MountedLess env h c w w') _ tt w'
        (Returns-Ensures (λ _ w'. MountedLess env h c w w') _
          (unmount_disk-MountedLess env c name h w (session-Sound c w past) known still))
        e).0

  -- In a session, where an agent's disk is unmounted only while it has open mounts, two agents with
  -- open mounts at the same time have their disks at two mount points: for each, `mountdev` is the
  -- slot that the table has for it, with as many references as open mounts, and the mount points of
  -- the two slots differ. No other thread changes the slots.
  pub session-Apart :
      (c : ℕ → ℕ) (w : World Guest) (g h : ℕ)
      → Session env c w
      → c g ≢ 0
      → c h ≢ 0
      → g ≢ h
      → (m : Mounted c w g) × (n : Mounted c w h) × (get_mountpoint w.base_mountpoint m.device
          ≢ get_mountpoint w.base_mountpoint n.device)
  session-Apart c w g h past open_g open_h ne =
      let sound = session-Sound c w past in
      let m = sound.mounts g open_g in
      let n = sound.mounts h open_h in
      (
        m,
        n,
        λ same.
            let one_slot = get_mountpoint-injective w.base_mountpoint m.device n.device same in
            ne (
              sound.books.apart g h n.device (pos (c g)) (pos (c h)) (rw (← one_slot) m.served)
                n.served),
      )

  -- mount_disk in a session, for an agent that is there, returns where its request_mount does. The
  -- session goes on with one open mount more. The result is the mount point of the slot that the table
  -- then has for the agent, with as many references as open mounts, and every other agent with open
  -- mounts keeps its slot and its references. No other thread changes the slots.
  pub session-mount_disk :
      (c : ℕ → ℕ) (name : Bytes) (h : ℕ) (cfg : HaConfig) (w : World Guest)
      → Session env c w
      → find_agent name w.agents ≡ some h
      → get_elem? w.configs h ≡ some cfg
      → Returns (λ _ _. Unit {0}) (request_mount env (some h) cfg.disk_path w)
      → Returns
          (λ path w'.
            Session env (one_more h c) w'
            × ((d : ℕ) × (path ≡ get_mountpoint w.base_mountpoint d)
                × (view w'.slots h ≡ some (d, pos (one_more h c h))))
            × ((g : ℕ) → g ≢ h → c g ≢ 0 → view w'.slots g ≡ view w.slots g))
          (mount_disk env name w)
  session-mount_disk c name h cfg w past known found served =
      let (path, w', e, p) =
        Returns-done (MountedMore env alone h c w) _ (
          mount_disk-Returns env alone c name h cfg w (session-Sound c w past) known found
            served) in
      rw e (mounted c name path h w w' past known e, p.1, p.2)

  -- unmount_disk in a session, for an agent with open mounts, returns, and runs no command. The session
  -- goes on with one open mount less, every other agent keeps its slot and its references, and every
  -- domain but the agent's own keeps its guest. No other thread changes the slots.
  pub session-unmount_disk :
      (c : ℕ → ℕ) (name : Bytes) (h : ℕ) (w : World Guest)
      → Session env c w
      → find_agent name w.agents ≡ some h
      → c h ≢ 0
      → Returns
          (λ _ w'.
            Session env (one_less h c) w'
            × (w'.log ≡ w.log)
            × ((g : ℕ) → g ≢ h → view w'.slots g ≡ view w.slots g)
            × ((d : ℕ) → w.domain h ≢ d → w'.guest d ≡ w.guest d))
          (unmount_disk env name w)
  session-unmount_disk c name h w past known still =
      let (u, w', e, p) =
        Returns-done (λ _ w'. MountedLess env h c w w') _
          (unmount_disk-MountedLess env c name h w (session-Sound c w past) known still) in
      rw e (unmounted c name h w w' past known still e, p.1, p.2, p.3)
