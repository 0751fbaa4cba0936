-- ===== src/Sync/Finish.antt =====
-- do_sync ended by the hijack itself: the work function came to its end after the detour.
use hyperagents.Base.{ℕ, suc, ◌+◌, ◌^◌, ◌≤◌, ◌<◌, ◌≡◌, ◌≢◌, ◌++◌, ◌∷◌, some, false, List, length}
use hyperagents.Base.Int.{pos}
use hyperagents.Vmi.{interrupt, VmiLaws}
use hyperagents.Patch.{install, start_events}
use hyperagents.Patch.Restore.{Apart, AllResident, IsSite}
use hyperagents.World.{Delivery, Env, World, guest_at}
use hyperagents.Effect.Rules.{Returns}
use hyperagents.Listen.{deliver_all}
use hyperagents.Listen.Finish.{steps}
use hyperagents.Listen.Hijack.{trap_rip}
use hyperagents.Sync.{do_sync}
use hyperagents.Sync.Commands.{attach_fits, list_fits}
use hyperagents.Sync.Rounds.{machine_after, steps_from, rounds_finish, loop-Stops}
use hyperagents.Sync.Whole.{installed, started, vmid, watched, do_sync-Clean}

module _ {Guest : Type 0} (env : Env Guest) (h : ℕ) where
  -- do_sync ended by the hijack itself: in the `p`-th round (counted from 0) comes a breakpoint event
  -- at the end of the work function, and behind it, in the same round or in one of the next `q`, a
  -- single step. Then do_sync returns 0, with `interrupted` set and with the byte at every breakpoint
  -- site that could be read before the call back in its place. Conditions: the assumptions on LibVMI
  -- hold, the breakpoint sites are resident, the two sites in the work function and the two in
  -- sys_sync are four addresses, the last instruction of the work function is not queue_work_on, the
  -- work function was found, the fuel covers these rounds and one more test of `interrupted`, the
  -- domain's number has at most 20 digits, and the path of the ghost image has at most 78 bytes.
  pub do_sync_finishes :
      (Resident : ℕ → Type 0) (w : World Guest) (fuel p q a b : ℕ)
      (pre post : List (Delivery Guest)) (d : Delivery Guest)
      → VmiLaws env.vmi Resident
      → AllResident Resident (installed env h w).engine
      → Apart (installed env h w).engine
      → (installed env h w).engine.qworko.addr ≢ (installed env h w).engine.dwork_back.addr
      → (installed env h w).engine.target_work_fn ≢ 0
      → env.fuel ≡ suc fuel
      → p + suc q ≤ fuel
      → (env.listen (w.listens + p)).deliveries ≡ pre ++ d ∷ post
      → d.kind ≡ interrupt
      → trap_rip env.vmi
          (deliver_all env.vmi (machine_after env p w.listens (watched env h w)) pre)
          d
        ≡ (installed env h w).engine.dwork_back.addr
      → 1 ≤ steps post + steps_from env q (w.listens + p + 1)
      → vmid env h w < 10 ^ 20
      → length w.ghost_image ≤ 78
      → IsSite (installed env h w).engine a
      → env.vmi.read_8_va (guest_at w h) a ≡ some b
      → Returns
          (λ r w'.
            (r ≡ 0)
            × (w'.engine.interrupted ≢ pos 0)
            × (env.vmi.read_8_va (guest_at w' h) a ≡ some b))
          (do_sync env h w)
  unfolding start_events install
  do_sync_finishes Resident w fuel p q a b pre post d laws here apart nq t f low split kind at
        stepped small short s r =
      do_sync-Clean env h Resident w fuel a b (record { laws = laws; here = here; apart = apart }) t
        f small
        (loop-Stops env (p + suc q) fuel h (vmid env h w) false (started env h (installed env h w))
          low
          (rounds_finish env p q w.listens (watched env h w) pre post d split kind at nq apart
            stepped)
          (attach_fits env (vmid env h w) _ small short) (list_fits env (vmid env h w) small))
        s r
