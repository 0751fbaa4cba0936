-- ===== src/Syncmount/Directory.antt =====
-- What request_mount (libhyperagent/syncmount.cc) leaves alone besides the slots: the agents of
-- HAMain, and vmi_global_lock.
use hyperagents.Base.{ℕ, zero, suc, ◌≡◌, ◌∙◌, inl, inr, Bool, Bool-cases, Option-cases, some, List}
use hyperagents.Base.Int.{pos, ltb_ℤ}
use hyperagents.Base.Text.{Bytes}
use hyperagents.World.{HaConfig, Slot, Env, World}
use hyperagents.Effect.{Outcome, ◌>>=◌, gettimeofday, unlock_lk}
use hyperagents.Effect.Rules.{Ensures, Ensures-mono}
use hyperagents.Effect.Frame.{Keeps, SameTable}
use hyperagents.Effect.Leaves.{
  Leaves, IsFree, Makes-Leaves, Leaves-modify, Leaves-gettimeofday, leaving,
}
use hyperagents.Slots.{Best, find_vmi, find_unlocked}
use hyperagents.Mount.{do_nbd_mount, do_nbd_unmount}
use hyperagents.Mount.Frame.{Keeps-do_nbd_mount, Keeps-do_nbd_unmount}
use hyperagents.Mount.Locks.{Makes-do_nbd_mount, Makes-do_nbd_unmount}
use hyperagents.Syncmount.{
  set_slots, touch, remount, mount_free, mount_stolen, spin, no_best, request_mount,
}
use hyperagents.Syncmount.Request.{request_mount_hit, request_mount_free, request_mount_full}
use hyperagents.Syncmount.Spin.{spin_round, spin_held, spin_zero, scanned, rested}

module _ {Guest : Type 0} (env : Env Guest) (P : World Guest → Type 0) (h : ℕ)
    (stays : (w : World Guest) (slots : List Slot) (lk : Bool) (clock sleeps : ℕ)
      → P w
      → P (record w { slots = slots; lk = lk; clock = clock; sleeps = sleeps }))
    (mounts : (dev disk : Bytes) → Leaves P (do_nbd_mount env dev (some h) disk))
    (unmounts : (dev : Bytes) → Leaves P (do_nbd_unmount env dev (some h))) where
  Leaves-touch : (f : List Slot → List Slot) → Leaves P (touch env f)
  unfolding set_slots
  Leaves-touch f = Leaves-modify P _ (λ w p. stays w _ _ _ _ p)

  Leaves-clock : Leaves P (gettimeofday env)
  Leaves-clock = Leaves-gettimeofday env P (λ w p. stays w _ _ _ _ p)

  Leaves-unlock_lk : Leaves P unlock_lk
  Leaves-unlock_lk = record { at = λ w p. stays w _ _ _ _ p }

  Leaves-remount : (i : ℕ) → Leaves P (remount env i)
  unfolding remount
  Leaves-remount i = search (leaving, Leaves-touch, Leaves-clock) depth 12

  Leaves-mount_free : (i : ℕ) (disk : Bytes) → Leaves P (mount_free env i (some h) disk)
  unfolding mount_free
  Leaves-mount_free i disk = search (leaving, Leaves-touch, Leaves-clock, mounts) depth 12

  Leaves-mount_stolen : (i : ℕ) (disk : Bytes) → Leaves P (mount_stolen env i (some h) disk)
  unfolding mount_stolen
  Leaves-mount_stolen i disk =
      search (leaving, Leaves-touch, Leaves-clock, Leaves-unlock_lk, mounts, unmounts) depth 16

  spin-P :
      (fuel : ℕ) (b : Best) (w : World Guest) → P w → Ensures (λ _ w'. P w') (spin env fuel b w)
  spin-P zero b w p = rw (spin_zero env b w) tt
  spin-P (suc fuel) b w p = elim (Bool-cases w.lk) [
    | inl held ↦ rw (spin_held env fuel b w held) tt
    | inr free ↦ elim (Bool-cases (ltb_ℤ (scanned env b w).max (pos 10000))) [
      | inr stop ↦ rw (spin_round env fuel b w free, stop) (stays w _ _ _ _ p)
      | inl go ↦
          rw (spin_round env fuel b w free, go)
            (spin-P fuel (scanned env b w) (rested env w) (stays w _ _ _ _ p))
    ]
  ]

  Leaves-spin : (fuel : ℕ) (b : Best) → Leaves P (spin env fuel b)
  Leaves-spin fuel b = record { at = spin-P fuel b }

  Leaves-full :
      (disk : Bytes)
      → Leaves P (spin env env.fuel (no_best env) >>= λ i. mount_stolen env i (some h) disk)
  Leaves-full disk = search (leaving, Leaves-spin, Leaves-mount_stolen)

  pub request_mount-Leaves : (disk : Bytes) → Leaves P (request_mount env (some h) disk)
  request_mount-Leaves disk = record {
    at = λ w p. elim (Option-cases (find_vmi (some h) w.slots)) [
      | inr (i, hit) ↦ rw (request_mount_hit env h disk w i hit) ((Leaves-remount i).at w p)
      | inl miss ↦ elim (Option-cases (find_unlocked w.slots)) [
        | inr (i, free) ↦
            rw (request_mount_free env h disk w i miss free) ((Leaves-mount_free i disk).at w p)
        | inl full ↦ rw (request_mount_full env h disk w miss full) ((Leaves-full disk).at w p)
      ]
    ];
  }

module _ {Guest : Type 0} where
  -- The agents and the base directory.
  abbrev pub Directory : List (Bytes × ℕ) → List HaConfig → Bytes → World Guest → Type 0
  Directory agents configs base w =
      (w.agents ≡ agents) × (w.configs ≡ configs) × (w.base_mountpoint ≡ base)

module _ {Guest : Type 0} (env : Env Guest) (h : ℕ) (disk : Bytes) where
  pub request_mount-IsFree : Leaves IsFree (request_mount env (some h) disk)
  request_mount-IsFree =
      request_mount-Leaves env IsFree h (λ w _ _ _ _ free. free)
        (λ dev disk'. Makes-Leaves IsFree _ (Makes-do_nbd_mount env dev (some h) disk'))
        (λ dev. Makes-Leaves IsFree _ (Makes-do_nbd_unmount env dev (some h))) disk

  pub request_mount-Directory :
      (agents : List (Bytes × ℕ)) (configs : List HaConfig) (base : Bytes)
      → Leaves (Directory agents configs base) (request_mount env (some h) disk)
  request_mount-Directory agents configs base =
      request_mount-Leaves env (Directory agents configs base) h (λ w _ _ _ _ p. p)
        (λ dev disk'. Keeps-Directory (Keeps-do_nbd_mount env dev (some h) disk'))
        (λ dev. Keeps-Directory (Keeps-do_nbd_unmount env dev (some h))) disk
    where
      Keeps-Directory :
          {A : Type 0} {m : World Guest → Outcome (World Guest) A}
          → Keeps m
          → Leaves (Directory agents configs base) m
      Keeps-Directory {m} keeps = record {
        at = λ w (a, c, b).
            Ensures-mono (λ _ w'. SameTable w w') (λ _. Directory agents configs base) (m w)
              (λ _ w' same. (same.agents ∙ a, same.configs ∙ c, same.base ∙ b)) (keeps.at w);
      }
