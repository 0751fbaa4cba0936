-- ===== src/Agents/Session/Mounting.antt =====
-- HAMain::mount_disk (libhyperagent/libhyperagent.cc) in a session that no other thread disturbs.
use hyperagents.Base.{
  ℕ, ◌≡◌, ◌≢◌, refl, sym, ap, ◌∙◌, some, inl, inr, List, set, get_elem?, arith, Option-cases,
  ℕ_discrete, get_elem?-set_self, get_elem?-set_ne, lt-length-get_elem?, false,
}
use hyperagents.Base.Int.{pos}
use hyperagents.Base.Text.{Bytes}
use hyperagents.World.{HaConfig, Slot, Env, World}
use hyperagents.Effect.{done, ◌>>=◌, and_then, read, pure}
use hyperagents.Effect.Rules.{Returns, Returns-and_then, Ensures, Ensures-and_then}
use hyperagents.Effect.Leaves.{Ensures-both, Returns-with}
use hyperagents.Slots.Table.{IsTable}
use hyperagents.Slots.View.{view}
use hyperagents.Slots.View.Books.Steps.{Serves-Books}
use hyperagents.Slots.View.Books.{one_more, one_more_other}
use hyperagents.Mount.{get_mountpoint}
use hyperagents.Syncmount.{request_mount}
use hyperagents.Syncmount.Request.{Fair, Granted, request_mount-Granted}
use hyperagents.Syncmount.Refines.{Meanwhile, at_once, slept, Served, request_mount-Serves}
use hyperagents.Syncmount.Directory.{Directory, request_mount-IsFree, request_mount-Directory}
use hyperagents.Agents.{find_agent, agent, config, set_mountdev, mount_disk}
use hyperagents.Agents.Session.{IsAlone}
use hyperagents.Agents.Session.Sound.{Sound}

module _ {Guest : Type 0} (env : Env Guest) (alone : IsAlone env) where
  IsAlone-Fair : (h : ℕ) → Fair env h
  IsAlone-Fair h = record {
    in_order = λ n ss table. rw (alone n ss) table;
    absent = λ n ss absent. rw (alone n ss) absent;
    locked = λ n ss locked. rw (alone n ss) locked;
  }

  Meanwhile-same : (ss ss' : List Slot) → Meanwhile env ss ss' → ss' ≡ ss
  Meanwhile-same ss _ at_once = refl
  Meanwhile-same ss _ (slept n ss' before) = alone n ss' ∙ Meanwhile-same ss ss' before

  -- What request_mount leaves, all told.
  abbrev Requested : ℕ → World Guest → ℕ → World Guest → Type 0
  Requested h w d w1 =
      Granted h d w1
      × (Served env h w.slots d w1
          × ((w1.vmi_lock ≡ false) × Directory w.agents w.configs w.base_mountpoint w1))

  request_mount-Requested :
      (h : ℕ) (disk : Bytes) (w : World Guest)
      → IsTable w.slots
      → w.vmi_lock ≡ false
      → Ensures (Requested h w) (request_mount env (some h) disk w)
  request_mount-Requested h disk w table free =
      Ensures-both (Granted h) _ _ (request_mount-Granted env h disk w table (IsAlone-Fair h)) (
        Ensures-both (Served env h w.slots) _ _
          (request_mount-Serves env h disk w table (IsAlone-Fair h))
          (Ensures-both (λ _ w1. w1.vmi_lock ≡ false) _ _
            ((request_mount-IsFree env h disk).at w free)
            ((request_mount-Directory env h disk w.agents w.configs w.base_mountpoint).at w
              (refl, refl, refl))))

  -- What mount_disk leaves for the agent `h`: one mount more is booked, at the device whose mount
  -- point it returns, and the other agents with open mounts keep theirs.
  abbrev pub MountedMore : ℕ → (ℕ → ℕ) → World Guest → Bytes → World Guest → Type 0
  MountedMore h c w path w' =
      Sound (one_more h c) w'
      × ((d : ℕ) × (path ≡ get_mountpoint w.base_mountpoint d)
          × (view w'.slots h ≡ some (d, pos (one_more h c h))))
      × ((g : ℕ) → g ≢ h → c g ≢ 0 → view w'.slots g ≡ view w.slots g)

  -- The record of the device in the HAConfig, behind request_mount.
  abbrev noted : ℕ → ℕ → HaConfig → World Guest → World Guest
  noted h d cfg w = record w { configs = set w.configs h (record cfg { mountdev = some d }) }

  Requested-MountedMore :
      (h d : ℕ) (c : ℕ → ℕ) (cfg : HaConfig) (w w1 : World Guest)
      → Sound c w
      → get_elem? w.configs h ≡ some cfg
      → Requested h w d w1
      → MountedMore h c w (get_mountpoint w1.base_mountpoint d) (noted h d cfg w1)
  Requested-MountedMore h d c cfg w w1 sound found
        ((table, _), ((ss', past, served), (free, (_, cfgs, base)))) =
      let served' = rw (Meanwhile-same w.slots ss' past) at served in
      let (books, mine, others) = Serves-Books h d c sound.books served' in
      (
        record {
          in_order = table;
          books = books;
          unlocked = free;
          mounts = λ g still. elim (ℕ_discrete g h) [
            | yes same ↦ rw same (record {
              config = record cfg { mountdev = some d };
              device = d;
              found =
                  rw cfgs
                    (get_elem?-set_self w.configs h _ (lt-length-get_elem? w.configs h found));
              recorded = refl;
              served = mine;
            })
            | no ne ↦
                let other = one_more_other g h c ne in
                let before = sound.mounts g (λ z. still (other ∙ z)) in
                record {
                  config = before.config;
                  device = before.device;
                  found =
                      rw cfgs (get_elem?-set_ne w.configs h g _ (λ z. ne (sym z)) ∙ before.found);
                  recorded = before.recorded;
                  served =
                      others g ne (λ z. still (other ∙ z))
                      ∙ before.served
                      ∙ ap (λ (n : ℕ). some (before.device, pos n)) (sym other);
                }
          ];
        },
        (d, ap (λ (b : Bytes). get_mountpoint b d) base, mine),
        others,
      )

  -- Behind request_mount the outcome is fixed.
  noted_lem :
      (h d : ℕ) (cfg : HaConfig) (w w1 : World Guest)
      → get_elem? w.configs h ≡ some cfg
      → Requested h w d w1
      → and_then
          (set_mountdev env h d w1)
          (λ _. read (λ w. w.base_mountpoint) >>= λ base. pure (get_mountpoint base d))
        ≡ done (get_mountpoint w1.base_mountpoint d) (noted h d cfg w1)
  unfolding set_mountdev config
  noted_lem h d cfg w w1 found p =
      let held : get_elem? w1.configs h ≡ some cfg = ground (arith, p.1.1.1.1, found) in
      rw (held, and_then) refl

  pub mount_disk-MountedMore :
      (c : ℕ → ℕ) (name : Bytes) (h : ℕ) (w : World Guest)
      → Sound c w
      → find_agent name w.agents ≡ some h
      → Ensures (MountedMore h c w) (mount_disk env name w)
  unfolding mount_disk agent config
  mount_disk-MountedMore c name h w sound known = elim (Option-cases (get_elem? w.configs h)) [
    | inl gone ↦ rw (known, and_then, gone) tt
    | inr (cfg, found) ↦
        rw (known, and_then, found)
          (Ensures-and_then (Requested h w) (MountedMore h c w) _ _
            (request_mount-Requested h cfg.disk_path w sound.in_order sound.unlocked)
            (λ d w1 p.
              rw (noted_lem h d cfg w w1 found p)
                (Requested-MountedMore h d c cfg w w1 sound found p)))
  ]

  -- mount_disk returns where its request_mount does.
  pub mount_disk-Returns :
      (c : ℕ → ℕ) (name : Bytes) (h : ℕ) (cfg : HaConfig) (w : World Guest)
      → Sound c w
      → find_agent name w.agents ≡ some h
      → get_elem? w.configs h ≡ some cfg
      → Returns (λ _ _. Unit {0}) (request_mount env (some h) cfg.disk_path w)
      → Returns (MountedMore h c w) (mount_disk env name w)
  unfolding mount_disk agent config
  mount_disk-Returns c name h cfg w sound known found served =
      rw (known, and_then, found)
        (Returns-and_then (Requested h w) (MountedMore h c w) _ _
          (Returns-with (λ _ _. Unit {0}) (Requested h w) _ served
            (request_mount-Requested h cfg.disk_path w sound.in_order sound.unlocked))
          (λ d w1 p.
            rw (noted_lem h d cfg w w1 found p)
              (Requested-MountedMore h d c cfg w w1 sound found p)))
