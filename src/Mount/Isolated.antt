-- ===== src/Mount/Isolated.antt =====
-- do_sync, do_nbd_mount and do_nbd_unmount (libhyperagent/syncmount.cc) work on the domain of their
-- VMI instance; here are the guests of the other domains.
use hyperagents.Base.{
  ℕ, zero, suc, ◌≡◌, ◌≢◌, Bool, Bool-cases, true, false, if◌then◌else◌, some, inl, inr, ne→==,
}
use hyperagents.Base.Text.{Bytes}
use hyperagents.World.{Env, World, update, set_guest, set_machine}
use hyperagents.Engine.{Machine}
use hyperagents.Effect.{Outcome, ◌>>=◌, modify, run_in, lock_vmi, unlock_vmi, deref}
use hyperagents.Effect.Rules.{Ensures, Ensures-and_then}
use hyperagents.Effect.Leaves.{Leaves, Leaves-modify, Leaves-run_in, leaving}
use hyperagents.Sync.{do_sync, watch, event_loop, listen, attach_once, attach, detach}
use hyperagents.Sync.Loop.{interrupted-cases, event_loop_zero, event_loop_stopped, event_loop_goes}
use hyperagents.Mount.{do_nbd_mount, do_nbd_unmount, mount_partition}

-- The domains of the instances are `domains`, and the guest of domain d is `g`.
module _ {Guest : Type 0} (domains : ℕ → ℕ) (d : ℕ) (g : Guest) where
  pub record IsApart (w : World Guest) : Type 0 where
    pub domains_kept : w.domain ≡ domains
    pub guest_kept : w.guest d ≡ g

module _ {Guest : Type 0} (env : Env Guest) (domains : ℕ → ℕ) (d : ℕ) (g : Guest) (h : ℕ)
    (other : domains h ≢ d) where
  abbrev Apart : World Guest → Type 0
  Apart = IsApart domains d g

  -- Whatever becomes of the guest of instance `h`.
  update-IsApart : (w : World Guest) (g' : Guest) → Apart w → update w.guest (w.domain h) g' d ≡ g
  update-IsApart w g' p = rw (p.domains_kept, ne→== (domains h) d other) p.guest_kept

  Leaves-set_guest : (f : World Guest → Guest) → Leaves Apart (modify (λ w. set_guest w h (f w)))
  Leaves-set_guest f =
      Leaves-modify Apart _
        (λ w p. record { domains_kept = p.domains_kept; guest_kept = update-IsApart w (f w) p })

  Leaves-set_machine :
      (f : World Guest → Machine Guest) → Leaves Apart (modify (λ w. set_machine w h (f w)))
  Leaves-set_machine f =
      Leaves-modify Apart _ (λ w p. record {
        domains_kept = p.domains_kept;
        guest_kept = update-IsApart w (f w).guest p;
      })

  Leaves-lock : Leaves Apart lock_vmi
  unfolding lock_vmi
  Leaves-lock = record {
    at = λ w p. elim (Bool-cases w.vmi_lock) [
      | inl held ↦ rw held tt
      | inr free ↦ rw free (record { domains_kept = p.domains_kept; guest_kept = p.guest_kept })
    ];
  }

  Leaves-unlock : Leaves Apart unlock_vmi
  Leaves-unlock = record {
    at = λ w p. record { domains_kept = p.domains_kept; guest_kept = p.guest_kept };
  }

  Leaves-command : (size : ℕ) (text : Bytes) → Leaves Apart (run_in env size text)
  Leaves-command size text =
      Leaves-run_in env Apart size text
        (λ w p. record { domains_kept = p.domains_kept; guest_kept = p.guest_kept })

  Leaves-known :
      {A : Type 0} (k : ℕ → World Guest → Outcome (World Guest) A)
      → Leaves Apart (k h)
      → Leaves Apart (deref (some h) >>= k)
  Leaves-known k rest = record { at = rest.at }

  Leaves-if :
      {A : Type 0} (b : Bool) {m n : World Guest → Outcome (World Guest) A}
      → Leaves Apart m
      → Leaves Apart n
      → Leaves Apart (if b then m else n)
  Leaves-if true first second = first
  Leaves-if false first second = second

  ruleset staying = (
    leaving, Leaves-set_guest, Leaves-set_machine, Leaves-lock, Leaves-unlock, Leaves-command,
    Leaves-known, Leaves-if,
  )

  Leaves-attach_once : (b : Bool) (vmid : ℕ) → Leaves Apart (attach_once env b vmid)
  unfolding attach_once attach
  Leaves-attach_once b vmid = search staying depth 12

  listen-IsApart : (w : World Guest) → Apart w → Apart (listen env h w)
  unfolding listen
  listen-IsApart w p = record { domains_kept = p.domains_kept; guest_kept = update-IsApart w _ p }

  event_loop-IsApart :
      (fuel vmid : ℕ) (b : Bool) (w : World Guest)
      → Apart w
      → Ensures (λ _. Apart) (event_loop env fuel h vmid b w)
  event_loop-IsApart zero vmid b w p = rw (event_loop_zero env h vmid b w) tt
  event_loop-IsApart (suc fuel) vmid b w p = elim (interrupted-cases env w) [
    | inr stop ↦ rw (event_loop_stopped env fuel h vmid b w stop) p
    | inl go ↦ rw (event_loop_goes env fuel h vmid b w go) (
        Ensures-and_then (λ _. Apart) (λ _. Apart) _ _
          ((Leaves-attach_once b vmid).at _ (listen-IsApart w p))
          (λ _ w1. event_loop-IsApart fuel vmid true w1))
  ]

  Leaves-event_loop : (fuel vmid : ℕ) (b : Bool) → Leaves Apart (event_loop env fuel h vmid b)
  Leaves-event_loop fuel vmid b = record { at = event_loop-IsApart fuel vmid b }

  Leaves-watch : (vmid : ℕ) → Leaves Apart (watch env h vmid)
  unfolding watch detach
  Leaves-watch vmid = search (staying, Leaves-event_loop) depth 16

  Leaves-do_sync : Leaves Apart (do_sync env h)
  unfolding do_sync
  Leaves-do_sync = search (staying, Leaves-watch) depth 12

  Leaves-mount_partition : (dev : Bytes) → Leaves Apart (mount_partition env dev h)
  unfolding mount_partition
  Leaves-mount_partition dev = search staying depth 20

  pub Leaves-do_nbd_mount : (dev disk : Bytes) → Leaves Apart (do_nbd_mount env dev (some h) disk)
  unfolding do_nbd_mount
  Leaves-do_nbd_mount dev disk = search (staying, Leaves-do_sync, Leaves-mount_partition) depth 20

  pub Leaves-do_nbd_unmount : (dev : Bytes) → Leaves Apart (do_nbd_unmount env dev (some h))
  unfolding do_nbd_unmount
  Leaves-do_nbd_unmount dev = search staying depth 20
