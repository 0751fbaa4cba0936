-- ===== src/Listen/Sites.antt =====
-- The events of one call of vmi_events_listen leave the breakpoint sites as they are.
use hyperagents.Base.{List, [], ◌∷◌, arith}
use hyperagents.Vmi.{Event, EventKind, interrupt, singlestep, Vmi}
use hyperagents.Engine.{Machine}
use hyperagents.Callback.Sites.{
  SameSites, SameSites-refl, SameSites-trans, int_cb_front-SameSites, step_cb_front-SameSites,
}
use hyperagents.World.{Delivery, Round}
use hyperagents.Listen.{callback, deliver, deliver_all, listen_round}

module _ {Guest : Type 0} (vmi : Vmi Guest) where
  pub callback-SameSites :
      (k : EventKind) (m : Machine Guest) (ev : Event)
      → SameSites m.engine (callback vmi k m ev).machine.engine
  unfolding callback
  callback-SameSites interrupt m ev = int_cb_front-SameSites vmi m ev
  callback-SameSites singlestep m ev = step_cb_front-SameSites vmi m ev

  pub deliver_all-SameSites :
      (m : Machine Guest) (ds : List (Delivery Guest))
      → SameSites m.engine (deliver_all vmi m ds).engine
  unfolding deliver_all deliver
  deliver_all-SameSites m [] = SameSites-refl m.engine
  deliver_all-SameSites m (d ∷ ds) =
      SameSites-trans (callback-SameSites d.kind (record m { guest = d.ran m.guest }) d.event)
        (deliver_all-SameSites (deliver vmi m d) ds)

  pub listen_round-SameSites :
      (m : Machine Guest) (r : Round Guest) → SameSites m.engine (listen_round vmi m r).engine
  unfolding listen_round
  listen_round-SameSites m r = ground (arith, deliver_all-SameSites m r.deliveries)
