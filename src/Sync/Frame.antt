-- ===== src/Sync/Frame.antt =====
-- do_sync leaves the slot table and the agents alone.
use hyperagents.Base.{ℕ, zero, suc, Bool, true, inl, inr, refl}
use hyperagents.World.{Env, World}
use hyperagents.Effect.Rules.{Ensures, Ensures-mono}
use hyperagents.Effect.Frame.{
  SameTable, SameTable-refl, SameTable-trans, Keeps, Keeps-bind, keeping,
}
use hyperagents.Sync.Loop.{event_loop_zero, event_loop_goes, event_loop_stopped, interrupted-cases}
use hyperagents.Sync.{listen, attach, attach_once, event_loop, detach, watch, do_sync}

module _ {Guest : Type 0} (env : Env Guest) where
  Keeps-attach : (vmid : ℕ) → Keeps (attach env vmid)
  unfolding attach
  Keeps-attach vmid = search keeping depth 10

  Keeps-attach_once : (attached : Bool) (vmid : ℕ) → Keeps (attach_once env attached vmid)
  unfolding attach_once
  Keeps-attach_once attached vmid = search (keeping, Keeps-attach) depth 10

  SameTable-listen : (h : ℕ) (w : World Guest) → SameTable w (listen env h w)
  unfolding listen
  SameTable-listen h w = record {
    slots = refl;
    lk = refl;
    base = refl;
    agents = refl;
    configs = refl;
  }

  event_loop-SameTable :
      (fuel h vmid : ℕ) (attached : Bool) (w : World Guest)
      → Ensures (λ _ w'. SameTable w w') (event_loop env fuel h vmid attached w)
  event_loop-SameTable zero h vmid attached w = rw (event_loop_zero env h vmid attached w) tt
  event_loop-SameTable (suc fuel) h vmid attached w = elim (interrupted-cases env w) [
    | inr stop ↦ rw (event_loop_stopped env fuel h vmid attached w stop) (SameTable-refl w)
    | inl go ↦ rw (event_loop_goes env fuel h vmid attached w go) (
        Ensures-mono (λ _ w'. SameTable (listen env h w) w') (λ _ w'. SameTable w w') _
          (λ _ w' same. SameTable-trans (SameTable-listen h w) same)
          ((Keeps-bind {k = λ _. event_loop env fuel h vmid true} (Keeps-attach_once attached vmid)
              (λ _. record { at = event_loop-SameTable fuel h vmid true })).at
            (listen env h w)))
  ]

  Keeps-event_loop :
      (fuel h vmid : ℕ) (attached : Bool) → Keeps (event_loop env fuel h vmid attached)
  Keeps-event_loop fuel h vmid attached = record { at = event_loop-SameTable fuel h vmid attached }

  Keeps-detach : (vmid : ℕ) → Keeps (detach env vmid)
  unfolding detach
  Keeps-detach vmid = search keeping depth 10

  Keeps-watch : (h vmid : ℕ) → Keeps (watch env h vmid)
  unfolding watch
  Keeps-watch h vmid = search (keeping, Keeps-event_loop, Keeps-detach) depth 12

  pub Keeps-do_sync : (h : ℕ) → Keeps (do_sync env h)
  unfolding do_sync
  Keeps-do_sync h = search (keeping, Keeps-watch) depth 12
