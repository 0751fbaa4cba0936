-- ===== src/Callback/Rearm.antt =====
-- The breakpoint at queue_work_on: taken out for one instruction, and put back by the single step.
use hyperagents.Base.{ℕ, ◌≡◌, ◌≢◌, refl, sym, ap, ◌∙◌, some, arith}
use hyperagents.Vmi.{Event, Vmi, VmiLaws}
use hyperagents.Engine.{breakpoint_byte, Machine}
use hyperagents.Callback.{toggle, int_cb_front}
use hyperagents.Callback.Answers.{seen}
use hyperagents.Callback.Stray.{trapped, stepped, stray-step_lem}

module _ {Guest : Type 0} (vmi : Vmi Guest) (m : Machine Guest) (ev ev' : Event) where
  qworko-front_lem :
      (seen vmi m ev).rip ≡ m.engine.qworko.addr
      → ((trapped vmi m ev ev').guest
          ≡ vmi.write_8_va m.guest m.engine.qworko.addr m.engine.qworko.byte)
        × ((trapped vmi m ev ev').engine.step_rewrite_loc ≡ (seen vmi m ev).rip)
        × ((trapped vmi m ev ev').engine.do_cleanup ≡ m.engine.do_cleanup)
        × ((int_cb_front vmi m ev).ret ≡ toggle)
  unfolding int_cb_front
  qworko-front_lem at = (ground arith, refl, ground arith, ground arith)

  -- A breakpoint event at queue_work_on puts the saved byte back and asks for a single step; the
  -- single step behind it puts the breakpoint byte back. The assumptions on LibVMI hold,
  -- queue_work_on is resident, and the work function has not come to its end.
  pub qworko_rearms :
      (Resident : ℕ → Type 0)
      → VmiLaws vmi Resident
      → Resident m.engine.qworko.addr
      → (seen vmi m ev).rip ≡ m.engine.qworko.addr
      → m.engine.do_cleanup ≢ 1
      → (vmi.read_8_va (trapped vmi m ev ev').guest m.engine.qworko.addr
          ≡ some m.engine.qworko.byte)
        × ((int_cb_front vmi m ev).ret ≡ toggle)
        × (vmi.read_8_va (stepped vmi m ev ev') m.engine.qworko.addr ≡ some breakpoint_byte)
  qworko_rearms Resident laws here at going =
      let (wrote, loc, same, ret) = qworko-front_lem at in
      let step = stray-step_lem vmi m ev ev' loc (λ z. going (sym same ∙ z)) in
      (
        ap (λ (g : Guest). vmi.read_8_va g m.engine.qworko.addr) wrote
            ∙ laws.read-write_self _ _ _ here,
        ret,
        ap (λ (g : Guest). vmi.read_8_va g m.engine.qworko.addr) step
            ∙ rw at (laws.read-write_self _ _ _ here),
      )
