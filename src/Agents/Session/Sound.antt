-- ===== src/Agents/Session/Sound.antt =====
-- What holds between the calls of a session (libhyperagent/libhyperagent.cc), and that each call keeps
-- it.
use hyperagents.Base.{
  ℕ, ◌≡◌, ◌≢◌, refl, none, some, inl, inr, false, get_elem?, arith, Option-cases,
  get_elem?-append_left,
}
use hyperagents.Base.Int.{pos}
use hyperagents.Base.Text.{Bytes}
use hyperagents.World.{HaConfig, Env, World}
use hyperagents.Effect.{and_then, lock_vmi}
use hyperagents.Effect.Rules.{Ensures}
use hyperagents.Slots.Table.{IsTable, find_vmi-none}
use hyperagents.Slots.View.{view, view-Absent}
use hyperagents.Slots.View.Books.{Books}
use hyperagents.Syncmount.Start.{slots_from, construct_done, find_vmi-slots_from, construct-Returns}
use hyperagents.Agents.{ha_main, ha_config, add_agent}

-- Where the disk of `h` is mounted: `mountdev` of its HAConfig is the device that the table has.
pub record Mounted {Guest : Type 0} (c : ℕ → ℕ) (w : World Guest) (h : ℕ) : Type 0 where
  pub config : HaConfig
  pub device : ℕ
  pub found : get_elem? w.configs h ≡ some config
  pub recorded : config.mountdev ≡ some device
  pub served : view w.slots h ≡ some (device, pos (c h))

pub record Sound {Guest : Type 0} (c : ℕ → ℕ) (w : World Guest) : Type 0 where
  pub in_order : IsTable w.slots
  pub books : Books c (view w.slots)
  pub unlocked : w.vmi_lock ≡ false
  pub mounts : (h : ℕ) → c h ≢ 0 → Mounted c w h

module _ {Guest : Type 0} (env : Env Guest) where
  new_view : (h n k : ℕ) → view (slots_from env n k) h ≡ none
  new_view h n k =
      view-Absent h (slots_from env n k)
        (λ i s e. find_vmi-none (some h) _ i s (find_vmi-slots_from env h n k) e)

  pub ha_main-Sound :
      (mount_path ghost_image : Bytes) (w : World Guest)
      → Ensures (λ _ w'. Sound (λ _. 0) w') (ha_main env mount_path ghost_image w)
  unfolding ha_main
  ha_main-Sound mount_path ghost_image w =
      let start = construct-Returns env mount_path ghost_image w in
      rw (construct_done env mount_path ghost_image w, and_then)
        (record {
          in_order = (rw (construct_done env mount_path ghost_image w) at start).0;
          books = record {
            open_mounts = λ h z. absurd (z refl);
            users = λ h d u e. absurd (ground (arith, e, new_view h 16 w.clock));
            apart = λ g h d u v e e'. absurd (ground (arith, e, new_view g 16 w.clock));
          };
          unlocked = refl;
          mounts = λ h z. absurd (z refl);
        })

  -- A name whose domain LibVMI does not find ends the process.
  pub add_agent-Sound :
      (c : ℕ → ℕ) (name profile disk : Bytes) (w : World Guest)
      → Sound c w
      → Ensures (λ _ w'. Sound c w') (add_agent env name profile disk w)
  unfolding add_agent ha_config lock_vmi
  add_agent-Sound c name profile disk w sound = elim (Option-cases (env.init_complete name)) [
    | inl unknown ↦ rw (sound.unlocked, and_then, unknown) tt
    | inr (d, known) ↦
        rw (sound.unlocked, and_then, known)
          (record {
            in_order = sound.in_order;
            books = sound.books;
            unlocked = refl;
            mounts = λ h still.
                let m = sound.mounts h still in
                record {
                  config = m.config;
                  device = m.device;
                  found = get_elem?-append_left w.configs _ h m.found;
                  recorded = m.recorded;
                  served = m.served;
                };
          })
  ]
