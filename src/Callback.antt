-- ===== src/Callback.antt =====
-- The two LibVMI event callbacks of libhyperagent/syncmount.cc. Debug output, and the reads that
-- feed it alone, are left out. A read of a register does not fail.
pub mod Sites
pub mod Answers
pub mod Stray
pub mod Rearm
use hyperagents.Base.{ℕ, ◌+◌, true, false, ltb, ◌==◌, if◌then◌else◌, or_keep}
use hyperagents.Base.Int.{pos}
use hyperagents.Vmi.{Regs, Response, Event, Vmi}
use hyperagents.Engine.{u64, breakpoint_byte, Site, Engine, Machine}

abbrev pub toggle : Response
toggle = record { toggle_singlestep = true; set_registers = false }

-- The locals of int_cb_front behind its if-chain, with the state that the chain leaves.
pub record Hit : Type 0 where
  pub engine : Engine
  pub event : Event
  pub ret : Response
  pub byte_location : ℕ
  pub byte_replacement : ℕ

abbrev pub hit : Engine → Event → Response → Site → Hit
hit e ev ret s = record {
  engine = e;
  event = ev;
  ret = ret;
  byte_location = s.addr;
  byte_replacement = s.byte;
}

abbrev pub with_regs : Event → Regs → Event
with_regs ev r = record ev { x86_regs = r }

module _ {Guest : Type 0} (vmi : Vmi Guest) where
  -- Step 0: queue_work_on. Its third argument is the work struct, whose function is at 24.
  unfoldable pub at_qworko : Engine → Guest → Event → Regs → Hit
  at_qworko e g ev r = hit noticed ev toggle e.qworko
    where
      work_fn : ℕ
      work_fn = or_keep (vmi.read_64_va g (u64 (r.rdx + 24))) 0

      noticed : Engine
      noticed =
          if e.quiet_qwork == 0
          then if work_fn == e.target_work_fn then record e { quiet_qwork = 1 } else e
          else e

-- Step 1: the front of the work function. The vCPU goes to sys_sync.
unfoldable pub at_dwork : Engine → Event → Regs → Hit
at_dwork e ev r =
    hit
      (record e {
        our_stack = r.rsp;
        our_frame = r.rbp;
        saved_rdi = ev.x86_regs.rdi;
        saved_rsi = ev.x86_regs.rsi;
        saved_rdx = ev.x86_regs.rdx;
      })
      (with_regs ev (record ev.x86_regs { rip = e.sys_sync_front.addr }))
      (record { toggle_singlestep = false; set_registers = true }) e.dwork

-- Step 2: the vCPU made it to sys_sync.
unfoldable pub at_sys_sync_front : Engine → Event → Hit
at_sys_sync_front e ev =
    hit e ev (record { toggle_singlestep = false; set_registers = false }) e.sys_sync_front

-- Step 3: the end of sys_sync. The vCPU goes back to the work function.
unfoldable pub at_sys_sync_back : Engine → Event → Hit
at_sys_sync_back e ev =
    hit e
      (with_regs ev (record ev.x86_regs {
        rip = e.dwork.addr;
        rdi = e.saved_rdi;
        rsi = e.saved_rsi;
        rdx = e.saved_rdx;
      }))
      (record { toggle_singlestep = false; set_registers = true }) e.sys_sync_back

-- Step 4: the end of the work function.
unfoldable pub at_dwork_back : Engine → Event → Hit
at_dwork_back e ev = hit (record e { do_cleanup = 1 }) ev toggle e.dwork_back

-- No site of ours: the location and the byte keep their initial 0.
unfoldable pub elsewhere : Engine → Event → Hit
elsewhere e ev = record {
  engine = e;
  event = ev;
  ret = toggle;
  byte_location = 0;
  byte_replacement = 0;
}

-- `safety++`, and the halt.
unfoldable pub count_event : Engine → Engine
count_event e =
    let safety = u64 (e.safety + 1) in
    record e { safety = safety; interrupted = if ltb 50 safety then pos 1 else e.interrupted }

-- What a callback leaves: the state and guest, the event as LibVMI gets it back, and the answer.
pub record Answer (Guest : Type 0) : Type 0 where
  pub machine : Machine Guest
  pub event : Event
  pub ret : Response

module _ {Guest : Type 0} (vmi : Vmi Guest) where
  -- The if-chain on `rip`.
  unfoldable pub classify : Engine → Guest → Event → Regs → Hit
  unfolding at_qworko at_dwork at_sys_sync_front at_sys_sync_back at_dwork_back elsewhere
  classify e g ev r =
      if r.rip == e.qworko.addr
      then at_qworko vmi e g ev r
      else if r.rip == e.dwork.addr
      then at_dwork e ev r
      else if r.rip == e.sys_sync_front.addr
      then at_sys_sync_front e ev
      else if r.rip == e.sys_sync_back.addr
      then at_sys_sync_back e ev
      else if r.rip == e.dwork_back.addr
      then at_dwork_back e ev
      else elsewhere e ev

  unfoldable pub int_cb_front : Machine Guest → Event → Answer Guest
  unfolding classify count_event
  int_cb_front m ev = record {
    machine = record {
      engine = record h.engine { step_rewrite_loc = regs.rip };
      guest = vmi.write_8_va m.guest h.byte_location h.byte_replacement;
    };
    event = record h.event { reinject = 0 };
    ret = h.ret;
  }
    where
      regs : Regs
      regs = vmi.get_vcpuregs m.guest ev.vcpu_id

      h : Hit
      h = classify (count_event m.engine) m.guest ev regs

  unfoldable pub step_cb_front : Machine Guest → Event → Answer Guest
  step_cb_front m ev = record {
    machine =
        if m.engine.do_cleanup == 1
        then record {
          engine = record m.engine { interrupted = pos 1 };
          guest = vmi.pause_vm m.guest;
        }
        else record m { guest = vmi.write_8_va m.guest m.engine.step_rewrite_loc breakpoint_byte };
    event = ev;
    ret = toggle;
  }
