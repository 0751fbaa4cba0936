-- ===== src/Sync.antt =====
-- syncmount::do_sync of libhyperagent/syncmount.cc: plants the breakpoints, listens to events until
-- a callback or an error ends it, and takes the breakpoints out again. Debug output is left out,
-- with print_regs, which only prints.
pub mod Loop
pub mod Rounds
pub mod Frame
pub mod Commands
pub mod Whole
pub mod Again
pub mod Finish
pub mod Intact
use hyperagents.Base.{ℕ, zero, suc, ◌+◌, ◌++◌, Bool, true, false, ◌==◌, if◌then◌else◌}
use hyperagents.Base.Int.{pos, eqb_ℤ}
use hyperagents.Base.Text.{Bytes, codes, to_string}
use hyperagents.Patch.{install, start_events, end_events}
use hyperagents.Listen.{listen_round}
use hyperagents.World.{Env, World, guest_at, machine_at, set_machine}
use hyperagents.Effect.{Outcome, running, ◌>>=◌, ◌>>◌, pure, read, modify, run_in}

module _ {Guest : Type 0} (env : Env Guest) where
  unfoldable pub listen : ℕ → World Guest → World Guest
  listen h w =
      record (set_machine w h (listen_round env.vmi (machine_at w h) (env.listen w.listens))) {
        listens = w.listens + 1;
      }

  abbrev pub attach_command : ℕ → Bytes → Bytes
  attach_command vmid image =
      codes "xl block-attach " ++ to_string vmid ++ codes " file:" ++ image ++ codes " xvdz r"

  abbrev pub list_command : ℕ → Bytes
  list_command vmid = codes "xl block-list " ++ to_string vmid

  abbrev pub detach_command : ℕ → Bytes
  detach_command vmid = codes "xl block-detach " ++ to_string vmid ++ codes " xvdz"

  unfoldable pub attach : ℕ → World Guest → Outcome (World Guest) (Unit {0})
  attach vmid = do
    image ← read (λ w. w.ghost_image)
    r ← run_in env 128 (attach_command vmid image)
    r' ← run_in env 128 (list_command vmid)
    pure tt

  unfoldable pub attach_once : Bool → ℕ → World Guest → Outcome (World Guest) (Unit {0})
  unfolding attach
  attach_once attached vmid = if attached then pure tt else attach vmid

  -- `while (!interrupted)`; `attached` is the local variable.
  unfoldable pub event_loop : ℕ → ℕ → ℕ → Bool → World Guest → Outcome (World Guest) (Unit {0})
  event_loop zero h vmid attached w = running
  event_loop (suc fuel) h vmid attached w = elim (eqb_ℤ w.engine.interrupted (pos 0)) [
    | false ↦ pure tt w
    | true ↦ (attach_once attached vmid >> event_loop fuel h vmid true) (listen h w)
  ]

  unfoldable pub detach : ℕ → World Guest → Outcome (World Guest) (Unit {0})
  detach vmid = do
    r ← run_in env 128 (detach_command vmid)
    r' ← run_in env 128 (list_command vmid)
    pure tt

  -- Behind the test of target_work_fn.
  unfoldable pub watch : ℕ → ℕ → World Guest → Outcome (World Guest) ℕ
  watch h vmid = do
    modify (λ w. set_machine w h (start_events env.vmi (machine_at w h)))
    event_loop env.fuel h vmid false
    modify (λ w. set_machine w h (end_events env.vmi (machine_at w h)))
    detach vmid
    pure 0

  unfoldable pub do_sync : ℕ → World Guest → Outcome (World Guest) ℕ
  do_sync h = do
    vmid ← read (λ w. env.vmi.get_vmid (guest_at w h))
    modify (λ w. set_machine w h (install env.vmi (machine_at w h)))
    target ← read (λ w. w.engine.target_work_fn)
    if target == 0 then pure 0 else watch h vmid
