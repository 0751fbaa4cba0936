-- ===== src/Callback/Answers.antt =====
-- What int_cb_front answers at each breakpoint site, and what it does with the vCPU.
use hyperagents.Base.{ℕ, ◌+◌, ◌≡◌, ◌≢◌, ◌⊎◌, ◌↔◌, true, false, or_keep, arith}
use hyperagents.Vmi.{Regs, Event, Vmi}
use hyperagents.Engine.{u64, Machine}
use hyperagents.Callback.{Answer, int_cb_front}

module _ {Guest : Type 0} (vmi : Vmi Guest) (m : Machine Guest) (ev : Event) where
  abbrev pub seen : Regs
  seen = vmi.get_vcpuregs m.guest ev.vcpu_id

  abbrev pub answer : Answer Guest
  answer = int_cb_front vmi m ev

  abbrev pub work_fn : ℕ
  work_fn = or_keep (vmi.read_64_va m.guest (u64 (seen.rdx + 24))) 0

  -- After a call of int_cb_front `quiet_qwork` is 1 if and only if it was 1 before, or it was 0 and
  -- the vCPU was at queue_work_on with a work struct whose function, at offset 24, is the target (0
  -- stands for a function that cannot be read).
  quiet_qwork_iff : (answer.machine.engine.quiet_qwork ≡ 1) ↔ (
      (m.engine.quiet_qwork ≡ 1)
      ⊎ ((seen.rip ≡ m.engine.qworko.addr)
          × (m.engine.quiet_qwork ≡ 0)
          × (work_fn ≡ m.engine.target_work_fn)))
  unfolding int_cb_front
  quiet_qwork_iff = (λ h. ground arith, λ h. ground arith)

  -- At the work function the vCPU is sent to sys_sync, and its arguments are kept.
  pub answer-dwork :
      seen.rip ≡ m.engine.dwork.addr
      → m.engine.dwork.addr ≢ m.engine.qworko.addr
      → (answer.event.x86_regs ≡ record ev.x86_regs { rip = m.engine.sys_sync_front.addr })
        × (answer.ret ≡ record { toggle_singlestep = false; set_registers = true })
        × (answer.machine.engine.saved_rdi ≡ ev.x86_regs.rdi)
        × (answer.machine.engine.saved_rsi ≡ ev.x86_regs.rsi)
        × (answer.machine.engine.saved_rdx ≡ ev.x86_regs.rdx)
  unfolding int_cb_front
  answer-dwork at ne = ground arith

  -- At the end of sys_sync the vCPU is sent back, with the arguments that were kept.
  pub answer-sys_sync_back :
      seen.rip ≡ m.engine.sys_sync_back.addr
      → m.engine.sys_sync_back.addr ≢ m.engine.qworko.addr
      → m.engine.sys_sync_back.addr ≢ m.engine.dwork.addr
      → m.engine.sys_sync_back.addr ≢ m.engine.sys_sync_front.addr
      → (answer.event.x86_regs ≡ record ev.x86_regs {
        rip = m.engine.dwork.addr;
        rdi = m.engine.saved_rdi;
        rsi = m.engine.saved_rsi;
        rdx = m.engine.saved_rdx;
      })
        × (answer.ret ≡ record { toggle_singlestep = false; set_registers = true })
  unfolding int_cb_front
  answer-sys_sync_back at nq nd nf = ground arith

  -- Elsewhere the saved arguments stay.
  pub saved-keeps :
      seen.rip ≢ m.engine.dwork.addr
      → (answer.machine.engine.saved_rdi ≡ m.engine.saved_rdi)
        × (answer.machine.engine.saved_rsi ≡ m.engine.saved_rsi)
        × (answer.machine.engine.saved_rdx ≡ m.engine.saved_rdx)
  unfolding int_cb_front
  saved-keeps away = ground arith
