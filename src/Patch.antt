-- ===== src/Patch.antt =====
-- The two halves of syncmount::do_sync (libhyperagent/syncmount.cc) that patch the guest's kernel:
-- the breakpoints go in before the event loop, and come out behind it. Debug output is left out,
-- with the reads whose values are only printed.
pub mod Saved
pub mod Restore
pub mod Planted
use hyperagents.Base.{ℕ, ◌+◌, ◌-◌, ◌^◌, String, or_keep}
use hyperagents.Vmi.{interrupt, singlestep, Vmi}
use hyperagents.Engine.{u64, mask_low, breakpoint_byte, Site, Engine, Machine}

-- Offsets for one kernel build, and where its deferred_probe_work_func lies without KASLR.
abbrev pub dwork_back_offset : ℕ
dwork_back_offset = 170

abbrev pub sys_sync_back_offset : ℕ
sys_sync_back_offset = 156

abbrev pub normal_dwork : ℕ
normal_dwork = 0xffffffff8152d920

module _ {Guest : Type 0} (vmi : Vmi Guest) where
  -- The four calls for a site whose address is known: save the word and the byte, write 0xCC.
  unfoldable pub save_site : Guest → Site → Site
  save_site g s = record s {
    byte = or_keep (vmi.read_8_va g s.addr) s.byte;
    orig = or_keep (vmi.read_64_va g (mask_low s.addr)) s.orig;
  }

  unfoldable pub plant : Guest → Site → Guest
  plant g s = vmi.write_8_va g s.addr breakpoint_byte

  -- vmi_translate_ksym2v into a variable, which keeps its value where the symbol is not found.
  unfoldable pub translate : Guest → String → ℕ → ℕ
  translate g sym old = or_keep (vmi.translate_ksym2v g sym) old

  unfoldable pub install_qworko : Machine Guest → Machine Guest
  unfolding save_site plant translate
  install_qworko m =
      let s =
        save_site m.guest
          (record e.qworko { addr = translate m.guest "queue_work_on" e.qworko.addr }) in
      record { engine = record e { qworko = s }; guest = plant m.guest s }
    where
      e : Engine
      e = m.engine

  -- The front offset is 0.
  unfoldable pub install_dwork : Machine Guest → Machine Guest
  unfolding save_site plant translate
  install_dwork m =
      let target = u64 (translate m.guest "deferred_probe_work_func" e.target_work_fn + 0) in
      let s = save_site m.guest (record e.dwork { addr = target }) in
      record { engine = record e { target_work_fn = target; dwork = s }; guest = plant m.guest s }
    where
      e : Engine
      e = m.engine

  unfoldable pub install_dwork_back : Machine Guest → Machine Guest
  unfolding save_site plant translate
  install_dwork_back m =
      let s = save_site m.guest (record e.dwork_back {
        addr =
            u64
              (translate m.guest "deferred_probe_work_func" e.dwork_back.addr + dwork_back_offset);
      }) in
      record { engine = record e { dwork_back = s }; guest = plant m.guest s }
    where
      e : Engine
      e = m.engine

  unfoldable pub install_sys_sync_front : Machine Guest → Machine Guest
  unfolding save_site plant translate
  install_sys_sync_front m =
      let s = save_site m.guest (record e.sys_sync_front {
        addr = u64 (translate m.guest "sys_sync" e.sys_sync_front.addr + 0);
      }) in
      record { engine = record e { sys_sync_front = s }; guest = plant m.guest s }
    where
      e : Engine
      e = m.engine

  unfoldable pub install_sys_sync_back : Machine Guest → Machine Guest
  unfolding save_site plant translate
  install_sys_sync_back m =
      let s = save_site m.guest (record e.sys_sync_back {
        addr = u64 (translate m.guest "sys_sync" e.sys_sync_back.addr + sys_sync_back_offset);
      }) in
      record { engine = record e { sys_sync_back = s }; guest = plant m.guest s }
    where
      e : Engine
      e = m.engine

  unfoldable pub set_kaslr_offset : Machine Guest → Machine Guest
  set_kaslr_offset m = record m {
    engine = record m.engine {
      kaslr_offset = u64 (m.engine.target_work_fn + 2 ^ 64 - normal_dwork);
    };
  }

  -- Everything before the test of target_work_fn: the guest is paused, then patched.
  unfoldable pub install : Machine Guest → Machine Guest
  unfolding install_qworko install_dwork install_dwork_back install_sys_sync_front
      install_sys_sync_back set_kaslr_offset
  install m = set_kaslr_offset (
      install_sys_sync_back (
        install_sys_sync_front (
          install_dwork_back
            (install_dwork (install_qworko (record m { guest = vmi.pause_vm m.guest }))))))

  unfoldable pub start_events : Machine Guest → Machine Guest
  start_events m = record m {
    guest = vmi.resume_vm (vmi.register_event (vmi.register_event m.guest interrupt) singlestep);
  }

  unfoldable pub unplant : Site → Guest → Guest
  unplant s g = vmi.write_8_va g s.addr s.byte

  -- "replacing memory": the five sites in this order.
  unfoldable pub restore : Engine → Guest → Guest
  unfolding unplant
  restore e g = unplant e.qworko (
      unplant e.sys_sync_back (unplant e.sys_sync_front (unplant e.dwork_back (unplant e.dwork g))))

  unfoldable pub end_events : Machine Guest → Machine Guest
  end_events m = record m {
    guest =
        vmi.resume_vm
          (restore m.engine (vmi.clear_event (vmi.clear_event m.guest interrupt) singlestep));
  }
