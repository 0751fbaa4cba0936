-- ===== src/Callback/Stray.antt =====
-- A breakpoint event where do_sync planted no breakpoint, and the single step behind it.
use hyperagents.Base.{◌≡◌, ◌≢◌, refl, sym, ap, ◌∙◌, inl, inr, some, arith, ℕ}
use hyperagents.Vmi.{Event, Vmi, VmiLaws}
use hyperagents.Engine.{breakpoint_byte, Machine}
use hyperagents.Callback.{int_cb_front, step_cb_front}
use hyperagents.Callback.Answers.{seen}
use hyperagents.Patch.Restore.{IsSite}

module _ {Guest : Type 0} (vmi : Vmi Guest) (m : Machine Guest) (ev ev' : Event) where
  -- The machine after the event, and the guest after the single step.
  abbrev pub trapped : Machine Guest
  trapped = (int_cb_front vmi m ev).machine

  abbrev pub stepped : Guest
  stepped = (step_cb_front vmi trapped ev').machine.guest

  abbrev pub rip : ℕ
  rip = (seen vmi m ev).rip

  stray-front_lem :
      ¬ IsSite m.engine rip
      → (trapped.guest ≡ vmi.write_8_va m.guest 0 0)
        × (trapped.engine.step_rewrite_loc ≡ rip)
        × (trapped.engine.do_cleanup ≡ m.engine.do_cleanup)
  unfolding int_cb_front
  stray-front_lem away =
      let nq : rip ≢ m.engine.qworko.addr = λ e. away (inl e) in
      let nd : rip ≢ m.engine.dwork.addr = λ e. away (inr (inl e)) in
      let nb : rip ≢ m.engine.dwork_back.addr = λ e. away (inr (inr (inl e))) in
      let nf : rip ≢ m.engine.sys_sync_front.addr = λ e. away (inr (inr (inr (inl e)))) in
      let ne : rip ≢ m.engine.sys_sync_back.addr = λ e. away (inr (inr (inr (inr e)))) in
      (ground arith, refl, ground arith)

  pub stray-step_lem :
      trapped.engine.step_rewrite_loc ≡ rip
      → trapped.engine.do_cleanup ≢ 1
      → stepped ≡ vmi.write_8_va trapped.guest rip breakpoint_byte
  unfolding step_cb_front
  stray-step_lem at going = ground arith

  -- A breakpoint event at an address that is no breakpoint site writes byte 0 at address 0, and after
  -- its single step a breakpoint byte stands at that address. The assumptions on LibVMI hold, the
  -- address is resident, and the work function has not come to its end.
  pub stray_plants :
      (Resident : ℕ → Type 0)
      → VmiLaws vmi Resident
      → Resident rip
      → ¬ IsSite m.engine rip
      → m.engine.do_cleanup ≢ 1
      → (trapped.guest ≡ vmi.write_8_va m.guest 0 0)
        × (vmi.read_8_va stepped rip ≡ some breakpoint_byte)
  stray_plants Resident laws here away going =
      let (wrote, at, same) = stray-front_lem away in
      (
        wrote,
        ap (λ (g : Guest). vmi.read_8_va g rip) (stray-step_lem at (λ z. going (sym same ∙ z)))
            ∙ laws.read-write_self trapped.guest rip breakpoint_byte here,
      )
