-- ===== src/Sync/Whole.antt =====
-- do_sync from its call to its return.
use hyperagents.Base.{
  ℕ, suc, ◌^◌, ◌≤◌, ◌<◌, ◌≡◌, ◌≢◌, refl, ap, ◌∙◌, some, length, false, ne→==, eq→==,
}
use hyperagents.Base.Int.{pos}
use hyperagents.Vmi.{VmiLaws}
use hyperagents.Callback.Sites.{SameSites}
use hyperagents.Patch.{install, start_events, end_events}
use hyperagents.Patch.Restore.{Apart, AllResident, IsSite, restore-install}
use hyperagents.Patch.Planted.{site-Trapped}
use hyperagents.Engine.{breakpoint_byte, Machine}
use hyperagents.World.{Env, World, machine_at, set_machine, guest_at}
use hyperagents.Effect.{done, and_then}
use hyperagents.Effect.Rules.{Returns, Returns-done, Ensures-done}
use hyperagents.Sync.Loop.{EndsIn, event_loop_stopped, event_loop-Returns, event_loop-Ensures, Left}
use hyperagents.Sync.Commands.{attach_fits, list_fits, detach_lem, detached}
use hyperagents.Sync.{event_loop, watch, do_sync}

module _ {Guest : Type 0} (env : Env Guest) (h : ℕ) where
  -- The guest behind `h` after the breakpoints went in.
  abbrev pub installed : World Guest → World Guest
  installed w = set_machine w h (install env.vmi (machine_at w h))

  abbrev pub started : World Guest → World Guest
  started w = set_machine w h (start_events env.vmi (machine_at w h))

  abbrev pub ended : World Guest → World Guest
  ended w = set_machine w h (end_events env.vmi (machine_at w h))

  abbrev pub vmid : World Guest → ℕ
  vmid w = env.vmi.get_vmid (guest_at w h)

  -- The machine that the first call of vmi_events_listen finds.
  abbrev pub watched : World Guest → Machine Guest
  watched w = machine_at (started (installed w)) h

  pub do_sync_goes :
      (w : World Guest)
      → (install env.vmi (machine_at w h)).engine.target_work_fn ≢ 0
      → do_sync env h w ≡ watch env h (vmid w) (installed w)
  unfolding do_sync
  do_sync_goes w t = rw (ne→== _ _ t)

  -- Where the address of the work function is 0 after the patching, do_sync returns 0 at once: a
  -- breakpoint byte is left at every resident breakpoint site, nothing was listened for, and no
  -- command was run.
  pub do_sync_gives_up :
      (Resident : ℕ → Type 0) (w : World Guest) (a : ℕ)
      → VmiLaws env.vmi Resident
      → Resident a
      → IsSite (installed w).engine a
      → (installed w).engine.target_work_fn ≡ 0
      → Returns
          (λ r w'.
            (r ≡ 0)
            × (env.vmi.read_8_va (guest_at w' h) a ≡ some breakpoint_byte)
            × (w'.listens ≡ w.listens)
            × (w'.log ≡ w.log))
          (do_sync env h w)
  unfolding do_sync
  do_sync_gives_up Resident w a laws here s t = rw (eq→== _ _ t) (
    refl,
    rw (eq→== (w.domain h) (w.domain h) refl) (site-Trapped laws (machine_at w h) a here s),
    refl,
    refl,
  )

  -- Behind the loop the outcome is fixed.
  pub watch_tail :
      (v : ℕ) (w w2 : World Guest)
      → v < 10 ^ 20
      → event_loop env env.fuel h v false (started w) ≡ done tt w2
      → watch env h v w ≡ done 0 (detached env v (ended w2))
  unfolding watch
  watch_tail v w w2 small e = rw (e, and_then) (rw (detach_lem env v (ended w2) small))

  -- An engine that was told to stop does not listen: the breakpoints go in and come out.
  pub watch_stopped :
      (v fuel : ℕ) (w : World Guest)
      → v < 10 ^ 20
      → env.fuel ≡ suc fuel
      → w.engine.interrupted ≢ pos 0
      → watch env h v w ≡ done 0 (detached env v (ended (started w)))
  unfolding start_events
  watch_stopped v fuel w small f stop = watch_tail v w (started w) small (
      ap (λ n. event_loop env n h v false (started w)) f
      ∙ event_loop_stopped env fuel h v false (started w) stop)

  pub record Hooked (Resident : ℕ → Type 0) (w : World Guest) : Type 0 where
    pub laws : VmiLaws env.vmi Resident
    pub here : AllResident Resident (install env.vmi (machine_at w h)).engine
    pub apart : Apart (install env.vmi (machine_at w h)).engine

  -- The bytes at the sites, behind the loop.
  restored :
      (Resident : ℕ → Type 0) (w w2 : World Guest)
      → Hooked Resident w
      → SameSites (installed w).engine w2.engine
      → (a b : ℕ) → IsSite (installed w).engine a
      → env.vmi.read_8_va (guest_at w h) a ≡ some b
      → env.vmi.read_8_va (guest_at (ended w2) h) a ≡ some b
  unfolding end_events
  restored Resident w w2 hk same a b s r = rw (eq→== (w2.domain h) (w2.domain h) refl) (
      hk.laws.read-resume _ a
      ∙ restore-install hk.laws (machine_at w h) hk.here hk.apart _ b a w2.engine same s r)

  pub install-keeps :
      (w : World Guest)
      → ((installed w).engine.safety ≡ w.engine.safety)
        × ((installed w).engine.interrupted ≡ w.engine.interrupted)
  unfolding install
  install-keeps w = (refl, refl)

  -- Where the loop comes to its end, do_sync returns 0.
  pub do_sync_done :
      (w : World Guest) (fuel : ℕ)
      → (installed w).engine.target_work_fn ≢ 0
      → env.fuel ≡ suc fuel
      → vmid w < 10 ^ 20
      → Returns
          (λ _ w'. w'.engine.interrupted ≢ pos 0)
          (event_loop env (suc fuel) h (vmid w) false (started (installed w)))
      → (w2 : World Guest) × (event_loop env (suc fuel) h (vmid w) false (started (installed w))
          ≡ done tt w2)
        × (do_sync env h w ≡ done 0 (detached env (vmid w) (ended w2)))
  do_sync_done w fuel t f small loop =
      let (u, w2, e, stop) = Returns-done (λ _ w'. w'.engine.interrupted ≢ pos 0) _ loop in
      (
        w2,
        e,
        do_sync_goes w t
            ∙ watch_tail (vmid w) (installed w) w2 small
                (ap (λ n. event_loop env n h (vmid w) false (started (installed w))) f ∙ e),
      )

  -- What do_sync leaves at a site that held `b`.
  abbrev pub Clean : ℕ → ℕ → ℕ → World Guest → Type 0
  Clean a b r w' =
      (r ≡ 0) × (w'.engine.interrupted ≢ pos 0) × (env.vmi.read_8_va (guest_at w' h) a ≡ some b)

  pub do_sync-Clean :
      (Resident : ℕ → Type 0) (w : World Guest) (fuel a b : ℕ)
      → Hooked Resident w
      → (installed w).engine.target_work_fn ≢ 0
      → env.fuel ≡ suc fuel
      → vmid w < 10 ^ 20
      → Returns
          (λ _ w'. w'.engine.interrupted ≢ pos 0)
          (event_loop env (suc fuel) h (vmid w) false (started (installed w)))
      → IsSite (installed w).engine a
      → env.vmi.read_8_va (guest_at w h) a ≡ some b
      → Returns (Clean a b) (do_sync env h w)
  unfolding start_events end_events
  do_sync-Clean Resident w fuel a b hooked t f small loop s r =
      let (w2, e, whole) = do_sync_done w fuel t f small loop in
      let left =
        Ensures-done (Left env (started (installed w))) _ tt w2
          (event_loop-Ensures env (suc fuel) h (vmid w) false (started (installed w))) e in
      rw whole (refl, left.1, restored Resident w w2 hooked left.0 a b s r)

  -- do_sync returns 0, with `interrupted` set and with the byte at every breakpoint site that could
  -- be read before the call back in its place. Conditions: the assumptions on LibVMI hold, the
  -- breakpoint sites are resident, the two sites in the work function and the two in sys_sync are
  -- four addresses, the work function was found, at most 50 events were counted before the call, the
  -- next rounds, one less than the fuel, bring the 51st or have one that ends in an error, the
  -- domain's number has at most 20 digits, and the path of the ghost image has at most 78 bytes.
  pub do_sync-Returns :
      (Resident : ℕ → Type 0) (w : World Guest) (fuel a b : ℕ)
      → VmiLaws env.vmi Resident
      → AllResident Resident (installed w).engine
      → Apart (installed w).engine
      → (installed w).engine.target_work_fn ≢ 0
      → env.fuel ≡ suc fuel
      → w.engine.safety ≤ 50
      → EndsIn env fuel w
      → vmid w < 10 ^ 20
      → length w.ghost_image ≤ 78
      → IsSite (installed w).engine a
      → env.vmi.read_8_va (guest_at w h) a ≡ some b
      → Returns
          (λ r w'.
            (r ≡ 0)
            × (w'.engine.interrupted ≢ pos 0)
            × (env.vmi.read_8_va (guest_at w' h) a ≡ some b))
          (do_sync env h w)
  unfolding start_events install
  do_sync-Returns Resident w fuel a b laws here apart t f low many small short s r =
      do_sync-Clean Resident w fuel a b (record { laws = laws; here = here; apart = apart }) t f
        small
        (event_loop-Returns env fuel h (vmid w) false (started (installed w)) low many
          (attach_fits env (vmid w) _ small short) (list_fits env (vmid w) small))
        s r
