-- ===== src/Sync/Loop.antt =====
-- The event loop of do_sync: that it ends, what it leaves, and the commands of its first round.
use hyperagents.Base.{
  ℕ, zero, suc, ◌+◌, ◌≤◌, ◌<◌, ◌≡◌, ◌≢◌, refl, inl, inr, ◌⊎◌, Bool, true, false, List, length,
  arith, Bool-cases,
}
use hyperagents.Base.Int.{pos, eqb_ℤ}
use hyperagents.Base.Text.{Bytes}
use hyperagents.Callback.Sites.{SameSites, SameSites-refl, SameSites-trans}
use hyperagents.Listen.Sites.{listen_round-SameSites}
use hyperagents.Listen.Count.{traps, listen_round-Counted, listen_round-IsStopped}
use hyperagents.World.{Env, World, machine_at}
use hyperagents.Effect.{Outcome, done, running, and_then, run_in, pure}
use hyperagents.Effect.Rules.{
  Ensures, Returns, Ensures-and_then, Ensures-mono, Returns-and_then, run_in_fits, run_in-Ensures,
  logged,
}
use hyperagents.Sync.{listen, attach_command, list_command, attach_once, event_loop}

module _ {Guest : Type 0} where
  -- Only the log differs.
  abbrev pub OnlyLog : World Guest → World Guest → Type 0
  OnlyLog w w' = (l : List Bytes) × (w' ≡ record w { log = l })

module _ {Guest : Type 0} (env : Env Guest) where
  -- The breakpoint events of the calls of vmi_events_listen from the `k`-th on, `n` of them.
  unfoldable pub traps_from : ℕ → ℕ → ℕ
  unfolding traps
  traps_from zero k = 0
  traps_from (suc n) k = traps (env.listen k).deliveries + traps_from n (k + 1)

  -- One of these calls fails.
  unfoldable pub FailsFrom : ℕ → ℕ → Type 0
  FailsFrom zero k = ⊥
  FailsFrom (suc n) k = ((env.listen k).success ≡ false) ⊎ FailsFrom n (k + 1)

  pub attach_once-Returns :
      (attached : Bool) (vmid : ℕ) (w : World Guest)
      → length (attach_command env vmid w.ghost_image) < 128
      → length (list_command env vmid) < 128
      → Returns (λ _. OnlyLog w) (attach_once env attached vmid w)
  unfolding attach_once
  attach_once-Returns true vmid w h k = (w.log, refl)
  attach_once-Returns false vmid w h k =
      rw (run_in_fits env 128 _ w h, and_then)
        (rw (run_in_fits env 128 _ (logged env _ w) k) (_, refl))

  pub attach_once-Ensures :
      (attached : Bool) (vmid : ℕ) (w : World Guest)
      → Ensures (λ _. OnlyLog w) (attach_once env attached vmid w)
  unfolding attach_once
  attach_once-Ensures true vmid w = (w.log, refl)
  attach_once-Ensures false vmid w =
      Ensures-and_then (λ _ w'. w' ≡ logged env _ w) (λ _. OnlyLog w) _ _
        (run_in-Ensures env 128 _ w) (λ r w1 e. rw e (two _))
    where
      two :
          (l : List Bytes)
          → Ensures
              (λ _. OnlyLog w)
              (and_then
                (run_in env 128 (list_command env vmid) (record w { log = l }))
                (λ _. pure tt))
      two l =
          Ensures-and_then (λ _ w'. w' ≡ logged env _ (record w { log = l })) (λ _. OnlyLog w) _ _
            (run_in-Ensures env 128 _ _) (λ r w2 e. (_, e))

  -- Once told to stop, the loop is left without another round.
  pub event_loop_stopped :
      (fuel h vmid : ℕ) (attached : Bool) (w : World Guest)
      → w.engine.interrupted ≢ pos 0
      → event_loop env (suc fuel) h vmid attached w ≡ done tt w
  unfolding event_loop
  event_loop_stopped fuel h vmid attached w s = ground arith

  pub event_loop_goes :
      (fuel h vmid : ℕ) (attached : Bool) (w : World Guest)
      → w.engine.interrupted ≡ pos 0
      → event_loop env (suc fuel) h vmid attached w
        ≡ and_then
            (attach_once env attached vmid (listen env h w))
            (λ _. event_loop env fuel h vmid true)
  unfolding event_loop
  event_loop_goes fuel h vmid attached w go = ground arith

  pub interrupted-cases :
      (w : World Guest) → (w.engine.interrupted ≡ pos 0) ⊎ (w.engine.interrupted ≢ pos 0)
  interrupted-cases w = elim (Bool-cases (eqb_ℤ w.engine.interrupted (pos 0))) [
    | inl e ↦ inl (ground arith)
    | inr e ↦ inr (ground arith)
  ]

  abbrev Stops : Outcome (World Guest) (Unit {0}) → Type 0
  Stops = Returns (λ _ w'. w'.engine.interrupted ≢ pos 0)

  -- From `w` on, `n` rounds bring the 51st breakpoint event or a call that fails.
  abbrev pub EndsIn : ℕ → World Guest → Type 0
  EndsIn n w = (51 ≤ w.engine.safety + traps_from n w.listens) ⊎ FailsFrom n w.listens

  -- A round ends the loop, or the rounds behind it do.
  listen-EndsIn :
      (n h : ℕ) (w : World Guest)
      → w.engine.safety ≤ 50
      → EndsIn (suc n) w
      → ((listen env h w).engine.interrupted ≢ pos 0)
        ⊎ (((listen env h w).engine.safety ≤ 50) × EndsIn n (listen env h w))
  unfolding traps_from FailsFrom listen
  listen-EndsIn n h w low (inr (inl failed)) =
      inl (listen_round-IsStopped env.vmi (machine_at w h) _ failed)
  listen-EndsIn n h w low (inr (inr later)) =
      elim (listen_round-Counted env.vmi (machine_at w h) (env.listen w.listens) low) [
        | inl stopped ↦ inl stopped
        | inr (counted, low') ↦ inr (low', inr later)
      ]
  listen-EndsIn n h w low (inl many) =
      elim (listen_round-Counted env.vmi (machine_at w h) (env.listen w.listens) low) [
        | inl stopped ↦ inl stopped
        | inr (counted, low') ↦ inr (low', inl (omega arith))
      ]

  pub event_loop-Returns :
      (fuel h vmid : ℕ) (attached : Bool) (w : World Guest)
      → w.engine.safety ≤ 50
      → EndsIn fuel w
      → length (attach_command env vmid w.ghost_image) < 128
      → length (list_command env vmid) < 128
      → Stops (event_loop env (suc fuel) h vmid attached w)
  unfolding traps_from FailsFrom listen
  event_loop-Returns zero h vmid attached w low (inl many) fits fits' = absurd (omega arith)
  event_loop-Returns zero h vmid attached w low (inr none_fails) fits fits' = absurd none_fails
  event_loop-Returns (suc fuel) h vmid attached w low ends fits fits' = elim (interrupted-cases w) [
    | inr stop ↦ rw (event_loop_stopped (suc fuel) h vmid attached w stop) stop
    | inl go ↦ rw (event_loop_goes (suc fuel) h vmid attached w go) (
        Returns-and_then (λ _. OnlyLog (listen env h w)) (λ _ w''. w''.engine.interrupted ≢ pos 0) _
          _ (attach_once-Returns attached vmid (listen env h w) fits fits')
          (λ _ w1 (l, e). rw e (elim (listen-EndsIn fuel h w low ends) [
            | inl stopped ↦ rw (event_loop_stopped fuel h vmid true (after l) stopped) stopped
            | inr (low', ends') ↦
                event_loop-Returns fuel h vmid true (after l) low' ends' fits fits'
          ])))
  ]
    where
      after : List Bytes → World Guest
      after l = record (listen env h w) { log = l }

  pub event_loop_zero :
      (h vmid : ℕ) (attached : Bool) (w : World Guest)
      → event_loop env 0 h vmid attached w ≡ running
  unfolding event_loop
  event_loop_zero h vmid attached w = refl

  listen-SameSites : (h : ℕ) (w : World Guest) → SameSites w.engine (listen env h w).engine
  unfolding listen
  listen-SameSites h w = listen_round-SameSites env.vmi (machine_at w h) (env.listen w.listens)

  -- What holds behind the loop.
  abbrev pub Left : World Guest → Unit {0} → World Guest → Type 0
  Left w _ w' = SameSites w.engine w'.engine × (w'.engine.interrupted ≢ pos 0)

  -- The loop keeps the sites, and ends only when told to.
  pub event_loop-Ensures :
      (fuel h vmid : ℕ) (attached : Bool) (w : World Guest)
      → Ensures (Left w) (event_loop env fuel h vmid attached w)
  event_loop-Ensures zero h vmid attached w = rw (event_loop_zero h vmid attached w) tt
  event_loop-Ensures (suc fuel) h vmid attached w = elim (interrupted-cases w) [
    | inr stop ↦ rw (event_loop_stopped fuel h vmid attached w stop) (SameSites-refl w.engine, stop)
    | inl go ↦ rw (event_loop_goes fuel h vmid attached w go) (
        Ensures-and_then (λ _. OnlyLog (listen env h w)) (Left w) _ _
          (attach_once-Ensures attached vmid (listen env h w))
          (λ _ w1 (l, e). rw e (
            Ensures-mono (Left (after l)) (Left w) _
              (λ _ w2 (same, stop). (SameSites-trans (kept l) same, stop))
              (event_loop-Ensures fuel h vmid true (after l)))))
  ]
    where
      after : List Bytes → World Guest
      after l = record (listen env h w) { log = l }

      kept : (l : List Bytes) → SameSites w.engine (after l).engine
      kept l = listen-SameSites h w
