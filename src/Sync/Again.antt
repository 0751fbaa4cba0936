-- ===== src/Sync/Again.antt =====
-- A second do_sync in the same process. Nothing resets `interrupted`, so it neither listens nor
-- attaches the ghost device: the guest's page cache is flushed by the first call alone.
use hyperagents.Base.{ℕ, suc, ◌^◌, ◌<◌, ◌≡◌, ◌≢◌, refl, sym, ◌∙◌, ◌++◌, [], ◌∷◌, false}
use hyperagents.Base.Int.{pos}
use hyperagents.Patch.{end_events}
use hyperagents.World.{Env, World}
use hyperagents.Effect.{done}
use hyperagents.Effect.Rules.{Ensures, Returns, Ensures-and_then, Ensures-done}
use hyperagents.Sync.Loop.{event_loop-Ensures, Left}
use hyperagents.Sync.Commands.{detach-Ensures, detached}
use hyperagents.Sync.Whole.{
  installed, started, ended, vmid, do_sync_goes, watch_stopped, install-keeps,
}
use hyperagents.Sync.{detach_command, list_command, watch, do_sync}

module _ {Guest : Type 0} (env : Env Guest) (h : ℕ) where
  watch-Told :
      (v : ℕ) (w : World Guest) → Ensures (λ _ w'. w'.engine.interrupted ≢ pos 0) (watch env h v w)
  unfolding watch end_events
  watch-Told v w =
      Ensures-and_then (Left env (started env h w)) (λ _ w'. w'.engine.interrupted ≢ pos 0) _ _
        (event_loop-Ensures env env.fuel h v false (started env h w))
        (λ _ w2 left.
          Ensures-and_then (λ _ w'. w' ≡ detached env v (ended env h w2))
            (λ _ w'. w'.engine.interrupted ≢ pos 0) _ _ (detach-Ensures env v (ended env h w2))
            (λ _ w3 e. rw e left.1))

  -- After a do_sync that found the work function, the engine stays told to stop.
  pub do_sync-Told :
      (w w1 : World Guest) (r : ℕ)
      → (installed env h w).engine.target_work_fn ≢ 0
      → do_sync env h w ≡ done r w1
      → w1.engine.interrupted ≢ pos 0
  do_sync-Told w w1 r t e =
      Ensures-done (λ _ w'. w'.engine.interrupted ≢ pos 0) _ r w1
        (watch-Told (vmid env h w) (installed env h w)) (sym (do_sync_goes env h w t) ∙ e)

module _ {Guest : Type 0} (env : Env Guest) where
  -- Once a do_sync that found the work function has returned, the next do_sync of the process, for
  -- the same guest or another, returns without a call of vmi_events_listen, and its only commands
  -- are the detach and the list behind the loop: the ghost device is not attached. The second call
  -- finds the work function too, its domain number has at most 20 digits, and the fuel is not 0.
  pub do_sync_again :
      (h h' : ℕ) (w w1 : World Guest) (r fuel : ℕ)
      → (installed env h w).engine.target_work_fn ≢ 0
      → do_sync env h w ≡ done r w1
      → (installed env h' w1).engine.target_work_fn ≢ 0
      → env.fuel ≡ suc fuel
      → vmid env h' w1 < 10 ^ 20
      → Returns
          (λ _ w2.
            (w2.listens ≡ w1.listens)
            × (w2.log
                ≡ (w1.log ++ detach_command env (vmid env h' w1) ∷ [])
                  ++ list_command env (vmid env h' w1) ∷ []))
          (do_sync env h' w1)
  do_sync_again h h' w w1 r fuel t e t' f small =
      rw
        (do_sync_goes env h' w1 t'
          ∙ watch_stopped env h' (vmid env h' w1) fuel (installed env h' w1) small f told)
        (refl, refl)
    where
      told : (installed env h' w1).engine.interrupted ≢ pos 0
      told = λ z. do_sync-Told env h w w1 r t e (sym (install-keeps env h' w1).1 ∙ z)
