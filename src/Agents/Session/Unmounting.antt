-- ===== src/Agents/Session/Unmounting.antt =====
-- HAMain::unmount_disk (libhyperagent/libhyperagent.cc) in a session.
use hyperagents.Base.{
  ℕ, ◌≡◌, ◌≢◌, refl, sym, ap, ◌∙◌, some, get_elem?, arith, ℕ_discrete, false, ne→==,
}
use hyperagents.Base.Int.{pos, ◌-ℤ◌, ◌<ℤ◌}
use hyperagents.Base.Text.{Bytes}
use hyperagents.World.{Slot, Env, World}
use hyperagents.Effect.{and_then, lock_vmi}
use hyperagents.Effect.Rules.{Ensures, Returns, Returns-and_then}
use hyperagents.Effect.Leaves.{Ensures-both, Returns-also, Returns-Ensures}
use hyperagents.Slots.Table.{IsTable}
use hyperagents.Slots.View.{view, view_at, view-some, change}
use hyperagents.Slots.View.Books.Steps.{change-Books}
use hyperagents.Slots.View.Books.{one_less, one_less_other}
use hyperagents.Syncmount.{set_slots, slot_at, release_mount}
use hyperagents.Syncmount.Release.{Released, release_mount-Returns}
use hyperagents.Syncmount.Refines.{release_mount-change}
use hyperagents.Agents.{find_agent, agent, config, unmount_disk}
use hyperagents.Agents.Session.Sound.{Mounted, Sound}

module _ {Guest : Type 0} (env : Env Guest) where
  -- Every domain but that of instance h has the guest of before.
  abbrev pub SameOthers : ℕ → World Guest → World Guest → Type 0
  SameOthers h w w' = (d : ℕ) → w.domain h ≢ d → w'.guest d ≡ w.guest d

  -- What unmount_disk leaves: one mount less is booked.
  abbrev pub MountedLess : ℕ → (ℕ → ℕ) → World Guest → World Guest → Type 0
  MountedLess h c w w' =
      Sound (one_less h c) w'
      × (w'.log ≡ w.log)
      × ((g : ℕ) → g ≢ h → view w'.slots g ≡ view w.slots g)
      × SameOthers h w w'

  -- The guest that is resumed is the one whose slot it is.
  release_mount-Ensures :
      (h dev : ℕ) (s : Slot) (w : World Guest)
      → get_elem? w.slots dev ≡ some s
      → s.vmi ≡ some h
      → w.vmi_lock ≡ false
      → Ensures
          (λ _ w'. (w'.configs ≡ w.configs) × SameOthers h w w')
          (release_mount env (some h) dev w)
  unfolding release_mount slot_at set_slots lock_vmi
  release_mount-Ensures h dev s w found holder free =
      rw (found, and_then, free, and_then, holder)
        (refl, λ d other. rw (ne→== (w.domain h) d other) refl)

  abbrev Fewer : ℕ → World Guest → ℕ → World Guest → Type 0
  Fewer dev w r w' = (r ≡ 0) × (view w'.slots ≡ change dev (λ n. n -ℤ pos 1) (view w.slots))

  -- What release_mount leaves, all told.
  abbrev Let : ℕ → ℕ → Slot → World Guest → ℕ → World Guest → Type 0
  Let h dev s w r w' =
      Released dev s w r w' × (Fewer dev w r w' × ((w'.configs ≡ w.configs) × SameOthers h w w'))

  release_mount-Let :
      (h dev : ℕ) (s : Slot) (w : World Guest)
      → IsTable w.slots
      → get_elem? w.slots dev ≡ some s
      → s.vmi ≡ some h
      → pos 0 <ℤ s.refcount
      → w.vmi_lock ≡ false
      → Returns (Let h dev s w) (release_mount env (some h) dev w)
  release_mount-Let h dev s w table found holder used free =
      Returns-also (Released dev s w) _ _
        (release_mount-Returns env (some h) dev s w table found used free)
        (Ensures-both (Fewer dev w) _ _
          (Returns-Ensures (Fewer dev w) _
            (release_mount-change env (some h) dev s w table found used free))
          (release_mount-Ensures h dev s w found holder free))

  pub unmount_disk-MountedLess :
      (c : ℕ → ℕ) (name : Bytes) (h : ℕ) (w : World Guest)
      → Sound c w
      → find_agent name w.agents ≡ some h
      → c h ≢ 0
      → Returns (λ _ w'. MountedLess h c w w') (unmount_disk env name w)
  unfolding unmount_disk agent config
  unmount_disk-MountedLess c name h w sound known still =
      let m = sound.mounts h still in
      let (s, found, holder) = view-some h m.device (pos (c h)) w.slots sound.in_order m.served in
      let count : s.refcount ≡ pos (c h) =
        ground (arith, view_at h m.device s w.slots sound.in_order found holder, m.served) in
      rw (known, and_then, m.found, and_then, m.recorded, and_then)
        (Returns-and_then (Let h m.device s w) (λ _ w'. MountedLess h c w w') _ _
          (release_mount-Let h m.device s w sound.in_order found holder
            (ground (arith, count, still)) sound.unlocked)
          (λ r w' p. less m r w' s p))
    where
      less :
          (m : Mounted c w h) (r : ℕ) (w' : World Guest) (s : Slot)
          → Let h m.device s w r w'
          → MountedLess h c w w'
      less m r w' s ((_, unlocked, log, table, _), ((_, seen), (configs, apart))) =
          let (books, mine, others) =
            change-Books h m.device c (view w.slots) sound.books still m.served in
          (
            record {
              in_order = table;
              books = rw seen books;
              unlocked = unlocked;
              mounts = λ g open_g. elim (ℕ_discrete g h) [
                | yes same ↦ rw same (record {
                  config = m.config;
                  device = m.device;
                  found = rw configs m.found;
                  recorded = m.recorded;
                  served = rw seen mine;
                })
                | no ne ↦
                    let other = one_less_other g h c ne in
                    let before = sound.mounts g (λ z. open_g (other ∙ z)) in
                    record {
                      config = before.config;
                      device = before.device;
                      found = rw configs before.found;
                      recorded = before.recorded;
                      served = rw seen (
                          others g ne
                          ∙ before.served
                          ∙ ap (λ (n : ℕ). some (before.device, pos n)) (sym other));
                    }
              ];
            },
            log,
            rw seen others,
            apart,
          )
