-- ===== src/Agents/Isolated.antt =====
-- HAMain::mount_disk (libhyperagent/libhyperagent.cc), and the guests that are not its agent's.
use hyperagents.Base.{ℕ, ◌≡◌, ◌≢◌, refl, some, Option-cases, inl, inr, get_elem?}
use hyperagents.Base.Text.{Bytes}
use hyperagents.World.{Env, World}
use hyperagents.Effect.{and_then}
use hyperagents.Effect.Rules.{Ensures, Ensures-mono}
use hyperagents.Effect.Leaves.{Leaves, Leaves-bind, Leaves-modify, Leaves-read, Leaves-pure}
use hyperagents.Mount.{get_mountpoint}
use hyperagents.Mount.Isolated.{IsApart, Leaves-do_nbd_mount, Leaves-do_nbd_unmount}
use hyperagents.Syncmount.{request_mount}
use hyperagents.Syncmount.Directory.{request_mount-Leaves}
use hyperagents.Agents.{agent, config, find_agent, set_mountdev, mount_disk}

module _ {Guest : Type 0} (env : Env Guest) (domains : ℕ → ℕ) (d : ℕ) (g : Guest) where
  abbrev Apart : World Guest → Type 0
  Apart = IsApart domains d g

  Leaves-request_mount :
      (h : ℕ) (disk : Bytes) → domains h ≢ d → Leaves Apart (request_mount env (some h) disk)
  Leaves-request_mount h disk other =
      request_mount-Leaves env Apart h
        (λ w _ _ _ _ p. record { domains_kept = p.domains_kept; guest_kept = p.guest_kept })
        (λ dev disk'. Leaves-do_nbd_mount env domains d g h other dev disk')
        (λ dev. Leaves-do_nbd_unmount env domains d g h other dev) disk

  Leaves-config : (h : ℕ) → Leaves Apart (config env h)
  unfolding config
  Leaves-config h = record {
    at = λ w p. elim (Option-cases (get_elem? w.configs h)) [
      | inl gone ↦ rw (gone, config) tt
      | inr (c, found) ↦ rw (found, config) p
    ];
  }

  Leaves-set_mountdev : (h m : ℕ) → Leaves Apart (set_mountdev env h m)
  unfolding set_mountdev
  Leaves-set_mountdev h m = record {
    at =
        (Leaves-bind Apart (Leaves-config h) (λ c.
          Leaves-modify Apart _
            (λ w p. record { domains_kept = p.domains_kept; guest_kept = p.guest_kept }))).at;
  }

  mount_disk-Apart :
      (name : Bytes) (h : ℕ) (w : World Guest)
      → find_agent name w.agents ≡ some h
      → domains h ≢ d
      → Apart w
      → Ensures (λ _. Apart) (mount_disk env name w)
  unfolding mount_disk agent
  mount_disk-Apart name h w known other p =
      rw (known, and_then)
        ((Leaves-bind Apart (Leaves-config h) (λ c.
            Leaves-bind Apart (Leaves-request_mount h c.disk_path other) (λ m.
              Leaves-bind Apart (Leaves-set_mountdev h m) (λ _.
                Leaves-bind Apart (Leaves-read Apart (λ w. w.base_mountpoint))
                  (λ base. Leaves-pure Apart (get_mountpoint base m)))))).at
          w p)

module _ {Guest : Type 0} (env : Env Guest) where
  -- mount_disk of an agent that is there, where it returns, leaves the guest of every domain but the
  -- agent's own as it was.
  pub mount_disk_others :
      (name : Bytes) (h d : ℕ) (w : World Guest)
      → find_agent name w.agents ≡ some h
      → w.domain h ≢ d
      → Ensures (λ _ w'. w'.guest d ≡ w.guest d) (mount_disk env name w)
  mount_disk_others name h d w known other =
      Ensures-mono (λ _. IsApart w.domain d (w.guest d)) (λ _ w'. w'.guest d ≡ w.guest d) _
        (λ _ w' p. p.guest_kept)
        (mount_disk-Apart env w.domain d (w.guest d) name h w known other
          (record { domains_kept = refl; guest_kept = refl }))
