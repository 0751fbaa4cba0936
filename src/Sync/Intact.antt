-- ===== src/Sync/Intact.antt =====
-- do_sync leaves the guest's kernel text as it was, at every address.
use hyperagents.Base.{
  ℕ, zero, suc, ◌+◌, ◌^◌, ◌≤◌, ◌<◌, ◌≡◌, ◌≢◌, refl, ◌∙◌, inl, inr, Bool, true, false, some, length,
  arith, eq→==, List,
}
use hyperagents.Base.Int.{pos}
use hyperagents.Vmi.{VmiLaws}
use hyperagents.Engine.{Machine}
use hyperagents.Base.Text.{Bytes}
use hyperagents.Callback.Sites.{SameSites, SameSites-refl, SameSites-trans}
use hyperagents.Patch.{start_events, end_events}
use hyperagents.Patch.Restore.{Apart, AllResident, IsSite, IsSite-cases, restore-elsewhere}
use hyperagents.Patch.Planted.{elsewhere_same}
use hyperagents.World.{Env, World, machine_at, guest_at}
use hyperagents.Effect.Rules.{
  Ensures, Returns, Ensures-and_then, Ensures-mono, Ensures-done, Returns-mono,
}
use hyperagents.Listen.{listen_round}
use hyperagents.Listen.Count.{IsStopped}
use hyperagents.Listen.Intact.{
  AllProper, armed_after, Intact, IsSite-SameSites, listen_round-Intact,
}
use hyperagents.Sync.{listen, event_loop, do_sync}
use hyperagents.Sync.Commands.{attach_fits, list_fits}
use hyperagents.Sync.Loop.{
  OnlyLog, attach_once-Ensures, event_loop_zero, event_loop_stopped, event_loop_goes,
  interrupted-cases,
}
use hyperagents.Sync.Rounds.{machine_after, machine_at-listen, loop-Stops}
use hyperagents.Sync.Whole.{
  installed, started, ended, vmid, watched, Clean, do_sync_done, do_sync-Clean,
}

module _ {Guest : Type 0} (env : Env Guest) (a : ℕ) where
  -- The events of `n` rounds from the `k`-th call on are proper for the address `a`.
  abbrev pub ProperRounds : ℕ → ℕ → Bool → Machine Guest → Type 0
  ProperRounds zero k armed m = Unit {0}
  ProperRounds (suc n) k armed m =
      AllProper env.vmi a armed m (env.listen k).deliveries
      × ProperRounds n (k + 1) (armed_after armed (env.listen k).deliveries)
          (listen_round env.vmi m (env.listen k))

  abbrev Untouched : ℕ → World Guest → Unit {0} → World Guest → Type 0
  Untouched h w _ w' =
      SameSites w.engine w'.engine
      × (env.vmi.read_8_va (guest_at w' h) a ≡ env.vmi.read_8_va (guest_at w h) a)

  module _ {Resident : ℕ → Type 0} (laws : VmiLaws env.vmi Resident) (h : ℕ) where
    event_loop-Untouched :
        (fuel vmid : ℕ) (attached armed : Bool) (w : World Guest)
        → ¬ IsSite w.engine a
        → (armed ≡ true → IsSite w.engine w.engine.step_rewrite_loc)
        → ProperRounds fuel w.listens armed (machine_at w h)
        → Ensures (Untouched h w) (event_loop env fuel h vmid attached w)
    unfolding listen
    event_loop-Untouched zero vmid attached armed w away steps proper =
        rw (event_loop_zero env h vmid attached w) tt
    event_loop-Untouched (suc fuel) vmid attached armed w away steps (first, rest) =
        elim (interrupted-cases env w) [
          | inr stop ↦
              rw (event_loop_stopped env fuel h vmid attached w stop)
                (SameSites-refl w.engine, refl)
          | inl go ↦ rw (event_loop_goes env fuel h vmid attached w go) (
              Ensures-and_then (λ _. OnlyLog w') (Untouched h w) _ _
                (attach_once-Ensures env attached vmid w')
                (λ _ w1 (l, e). rw e (
                  Ensures-mono (Untouched h (record w' { log = l })) (Untouched h w) _
                    (λ _ w2 (same, byte). (SameSites-trans round.same same, byte ∙ round.byte))
                    (event_loop-Untouched fuel vmid true _ (record w' { log = l })
                      (λ z. away (IsSite-SameSites a round.same z)) round.steps (later l)))))
        ]
      where
        w' : World Guest
        w' = listen env h w

        round :
            Intact env.vmi a
              (armed_after armed (env.listen w.listens).deliveries)
              (machine_at w h)
              (machine_at w' h)
        round = rw (machine_at-listen env h w) (
            listen_round-Intact laws a armed (machine_at w h) (env.listen w.listens) away steps
              first)

        later :
            (l : List Bytes)
            → ProperRounds fuel
                (w.listens + 1)
                (armed_after armed (env.listen w.listens).deliveries)
                (machine_at (record w' { log = l }) h)
        later l = rw (machine_at-listen env h w) rest

  -- Putting the breakpoints in and taking them out, seen from an address that has none.
  started-Untouched :
      {Resident : ℕ → Type 0} (laws : VmiLaws env.vmi Resident) (h : ℕ) (w : World Guest)
      → ¬ IsSite (installed env h w).engine a
      → env.vmi.read_8_va (guest_at (started env h (installed env h w)) h) a
        ≡ env.vmi.read_8_va (guest_at w h) a
  unfolding start_events
  started-Untouched laws h w away = rw (eq→== (w.domain h) (w.domain h) refl) (
      laws.read-resume _ a
      ∙ laws.read-register _ _ a
      ∙ laws.read-register _ _ a
      ∙ elsewhere_same laws (machine_at w h) a away)

  ended-Untouched :
      {Resident : ℕ → Type 0} (laws : VmiLaws env.vmi Resident) (h : ℕ) (w : World Guest)
      → ¬ IsSite w.engine a
      → env.vmi.read_8_va (guest_at (ended env h w) h) a ≡ env.vmi.read_8_va (guest_at w h) a
  unfolding end_events
  ended-Untouched laws h w away = rw (eq→== (w.domain h) (w.domain h) refl) (
      laws.read-resume _ a
      ∙ restore-elsewhere laws w.engine _ a away
      ∙ laws.read-clear _ _ a
      ∙ laws.read-clear _ _ a)

module _ {Guest : Type 0} (env : Env Guest) (h : ℕ) where
  -- do_sync leaves every byte of the guest's kernel text as it was: it returns 0, and a byte that
  -- could be read at address `a` before the call, breakpoint site or not, is there again. Conditions:
  -- the assumptions on LibVMI hold, the breakpoint sites are resident, the two sites in the work
  -- function and the two in sys_sync are four addresses, the work function was found, some round that
  -- the fuel allows tells the loop to stop, the domain's number has at most 20 digits, the path of the
  -- ghost image has at most 78 bytes, and in every round the guest leaves the byte at `a` alone
  -- between two events, breakpoint events come from breakpoint sites alone, and no single step comes
  -- before the first breakpoint event.
  pub do_sync-Intact :
      (Resident : ℕ → Type 0) (w : World Guest) (fuel n a b : ℕ)
      → VmiLaws env.vmi Resident
      → AllResident Resident (installed env h w).engine
      → Apart (installed env h w).engine
      → (installed env h w).engine.target_work_fn ≢ 0
      → env.fuel ≡ suc fuel
      → n ≤ fuel
      → IsStopped (machine_after env n w.listens (watched env h w))
      → ProperRounds env a (suc fuel) w.listens false (watched env h w)
      → vmid env h w < 10 ^ 20
      → length w.ghost_image ≤ 78
      → env.vmi.read_8_va (guest_at w h) a ≡ some b
      → Returns (λ r w'. (r ≡ 0) × (env.vmi.read_8_va (guest_at w' h) a ≡ some b)) (do_sync env h w)
  unfolding start_events
  do_sync-Intact Resident w fuel n a b laws here apart t f low stop proper small short r =
      elim (IsSite-cases laws (installed env h w).engine a) [
        | inl site ↦
            Returns-mono {P = Clean env h a b}
              {Q = λ r w'. (r ≡ 0) × (env.vmi.read_8_va (guest_at w' h) a ≡ some b)} _
              (do_sync-Clean env h Resident w fuel a b
                (record { laws = laws; here = here; apart = apart }) t f small loop site r)
              (λ r' w' clean. (clean.0, clean.2))
        | inr away ↦ outside away
      ]
    where
      loop :
          Returns
            (λ _ w'. w'.engine.interrupted ≢ pos 0)
            (event_loop env (suc fuel) h (vmid env h w) false (started env h (installed env h w)))
      loop =
          loop-Stops env n fuel h (vmid env h w) false (started env h (installed env h w)) low stop
            (attach_fits env (vmid env h w) _ small short) (list_fits env (vmid env h w) small)

      outside :
          ¬ IsSite (installed env h w).engine a
          → Returns
              (λ r w'. (r ≡ 0) × (env.vmi.read_8_va (guest_at w' h) a ≡ some b))
              (do_sync env h w)
      outside away =
          let (w2, e, whole) = do_sync_done env h w fuel t f small loop in
          let (same, byte) =
            Ensures-done (Untouched env a h (started env h (installed env h w))) _ tt w2
              (event_loop-Untouched env a laws h (suc fuel) (vmid env h w) false false
                (started env h (installed env h w)) away (λ z. absurd (ground (arith, z))) proper)
              e in
          rw whole (
            refl,
            ended-Untouched env a laws h w2 (λ z. away (IsSite-SameSites a same z))
                ∙ byte
                ∙ started-Untouched env a laws h w away
                ∙ r,
          )
