-- ===== src/Agents/Ending.antt =====
-- The destructor of HAMain (libhyperagent/libhyperagent.cc): every agent's VMI instance is destroyed,
-- then every mount is dropped.
use hyperagents.Base.{
  ℕ, ◌≤◌, ◌≡◌, refl, ap, ◌∙◌, inl, inr, some, false, List, [], ◌∷◌, ◌++◌, length, arith, Bool-cases,
  ℕ_discrete, eq→==, ne→==,
}
use hyperagents.Base.Text.{Bytes}
use hyperagents.World.{Env, World, guest_at, set_guest}
use hyperagents.Effect.{and_then, lock_vmi}
use hyperagents.Effect.Rules.{Returns, Returns-mono, Returns-and_then}
use hyperagents.Mount.Dropping.{drop_commands, drop_all_mounts_lem}
use hyperagents.Syncmount.{destruct}
use hyperagents.Agents.{bytes_eq, find_agent, destroy_config, destroy_agents, destroy_main}

module _ {Guest : Type 0} (env : Env Guest) (IsDestroyed : Guest → Type 0)
    (destroys : (g : Guest) → IsDestroyed (env.vmi.destroy g)) where
  -- What is left behind the destructors of the HAConfigs.
  record Ended (agents : List (Bytes × ℕ)) (w w' : World Guest) : Type 0 where
    unlocked : w'.vmi_lock ≡ false
    log : w'.log ≡ w.log
    base : w'.base_mountpoint ≡ w.base_mountpoint
    domain : w'.domain ≡ w.domain
    stays : (d : ℕ) → IsDestroyed (w.guest d) → IsDestroyed (w'.guest d)
    each : (name : Bytes) (h : ℕ) → find_agent name agents ≡ some h → IsDestroyed (guest_at w' h)

  abbrev gone : ℕ → World Guest → World Guest
  gone h w = record (set_guest w h (env.vmi.destroy (guest_at w h))) { vmi_lock = false }

  gone-here : (h : ℕ) (w : World Guest) → IsDestroyed (guest_at (gone h w) h)
  gone-here h w = rw (eq→== (w.domain h) (w.domain h) refl) (destroys _)

  gone-stays :
      (h d : ℕ) (w : World Guest) → IsDestroyed (w.guest d) → IsDestroyed ((gone h w).guest d)
  gone-stays h d w dead = elim (ℕ_discrete (w.domain h) d) [
    | yes same ↦ rw (eq→== _ _ same) (destroys _)
    | no ne ↦ rw (ne→== _ _ ne) dead
  ]

  destroy_agents-Returns :
      (agents : List (Bytes × ℕ)) (w : World Guest)
      → w.vmi_lock ≡ false
      → Returns (λ _ w'. Ended agents w w') (destroy_agents env agents w)
  unfolding destroy_agents destroy_config lock_vmi find_agent
  destroy_agents-Returns [] w free = record {
    unlocked = free;
    log = refl;
    base = refl;
    domain = refl;
    stays = λ d dead. dead;
    each = λ name h e. cc;
  }
  destroy_agents-Returns ((n, i) ∷ rest) w free =
      rw (free, and_then)
        (Returns-mono {P = λ _ w'. Ended rest (gone i w) w'}
          {Q = λ _ w'. Ended ((n, i) ∷ rest) (record w { vmi_lock = false }) w'} _
          (destroy_agents-Returns rest (gone i w) refl)
          (λ _ w' e. record {
            unlocked = e.unlocked;
            log = e.log;
            base = e.base;
            domain = e.domain;
            stays = λ d dead. e.stays d (gone-stays i d w dead);
            each = λ name h found. elim (Bool-cases (bytes_eq n name)) [
              | inl hit ↦
                  let same : i ≡ h = ground (arith, found, hit) in
                  rw (← same, e.domain) (e.stays (w.domain i) (gone-here i w))
              | inr miss ↦ e.each name h (ground (arith, found, miss))
            ];
          }))

  -- The destructor of HAMain returns: vmi_global_lock is free, the VMI instance of every agent in the
  -- map was destroyed (whatever holds of a guest once its instance is destroyed holds of the agent's),
  -- and its commands are the unmount and the disconnect of each of the sixteen slots. The lock is free
  -- before, and the path of the mount points' directory has at most 179 bytes.
  pub destroy_main-Returns :
      (name : Bytes) (h : ℕ) (w : World Guest)
      → w.vmi_lock ≡ false
      → length w.base_mountpoint ≤ 179
      → find_agent name w.agents ≡ some h
      → Returns
          (λ _ w'.
            (w'.vmi_lock ≡ false)
            × IsDestroyed (guest_at w' h)
            × (w'.log ≡ w.log ++ drop_commands w.base_mountpoint 16 0))
          (destroy_main env w)
  unfolding destroy_main destruct
  destroy_main-Returns name h w free small known =
      Returns-and_then (λ _ w'. Ended w.agents w w')
        (λ _ w'.
          (w'.vmi_lock ≡ false)
          × IsDestroyed (guest_at w' h)
          × (w'.log ≡ w.log ++ drop_commands w.base_mountpoint 16 0))
        _ _ (destroy_agents-Returns w.agents w free)
        (λ _ w1 e. rw (drop_all_mounts_lem env w1 (rw e.base small)) (
          e.unlocked,
          e.each name h known,
          ap (λ (l : List Bytes). l ++ drop_commands w1.base_mountpoint 16 0) e.log
              ∙ ap (λ (b : Bytes). w.log ++ drop_commands b 16 0) e.base,
        ))
