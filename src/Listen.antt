-- ===== src/Listen.antt =====
-- vmi_events_listen as do_sync calls it (libhyperagent/syncmount.cc): the events of one call reach
-- the callbacks one by one, and between two events the guest runs.
pub mod Sites
pub mod Count
pub mod Hijack
pub mod Intact
pub mod Finish
use hyperagents.Base.{List, [], ◌∷◌, if◌then◌else◌}
use hyperagents.Base.Int.{negsuc}
use hyperagents.Vmi.{Event, EventKind, interrupt, singlestep, Vmi}
use hyperagents.Engine.{Machine}
use hyperagents.Callback.{Answer, int_cb_front, step_cb_front}
use hyperagents.World.{Delivery, Round}

module _ {Guest : Type 0} (vmi : Vmi Guest) where
  -- SETUP_INTERRUPT_EVENT and SETUP_SINGLESTEP_EVENT: which callback serves which event.
  unfoldable pub callback : EventKind → Machine Guest → Event → Answer Guest
  callback interrupt m ev = int_cb_front vmi m ev
  callback singlestep m ev = step_cb_front vmi m ev

  -- One event: the guest runs up to it, the callback runs, LibVMI carries out its answer.
  unfoldable pub deliver : Machine Guest → Delivery Guest → Machine Guest
  deliver m d =
      let a = callback d.kind (record m { guest = d.ran m.guest }) d.event in
      record a.machine {
        guest = vmi.respond a.machine.guest a.event.vcpu_id a.ret a.event.x86_regs;
      }

  unfoldable pub deliver_all : Machine Guest → List (Delivery Guest) → Machine Guest
  deliver_all m [] = m
  deliver_all m (d ∷ ds) = deliver_all (deliver m d) ds

  -- vmi_events_listen, and the error branch behind it.
  unfoldable pub listen_round : Machine Guest → Round Guest → Machine Guest
  listen_round m r = if r.success then after else record {
    engine = record after.engine { interrupted = negsuc 0 };
    guest = vmi.pause_vm after.guest;
  }
    where
      after : Machine Guest
      after = deliver_all m r.deliveries
