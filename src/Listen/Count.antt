-- ===== src/Listen/Count.antt =====
-- How the events of vmi_events_listen end the loop of do_sync: each breakpoint event counts in
-- `safety`, and past 50 of them `interrupted` is set. Nothing sets it back.
use hyperagents.Base.{ℕ, ◌+◌, ◌≤◌, ◌≡◌, ◌≢◌, ◌⊎◌, inl, inr, false, List, [], ◌∷◌, arith}
use hyperagents.Base.Int.{pos}
use hyperagents.Vmi.{Event, EventKind, interrupt, singlestep, Vmi}
use hyperagents.Engine.{Machine}
use hyperagents.Callback.{int_cb_front, step_cb_front}
use hyperagents.World.{Delivery, Round}
use hyperagents.Listen.{callback, deliver, deliver_all, listen_round}

-- Breakpoint events.
abbrev pub weight : EventKind → ℕ
weight interrupt = 1
weight singlestep = 0

unfoldable pub traps : {Guest : Type 0} → List (Delivery Guest) → ℕ
traps [] = 0
traps (d ∷ ds) = weight d.kind + traps ds

module _ {Guest : Type 0} where
  abbrev pub IsStopped : Machine Guest → Type 0
  IsStopped m = m.engine.interrupted ≢ pos 0

  -- After `n` breakpoint events the loop is told to stop, or all of them were counted.
  abbrev pub Counted : Machine Guest → ℕ → Machine Guest → Type 0
  Counted m n m' =
      IsStopped m' ⊎ ((m'.engine.safety ≡ m.engine.safety + n) × (m'.engine.safety ≤ 50))

module _ {Guest : Type 0} (vmi : Vmi Guest) where
  callback-IsStopped :
      (k : EventKind) (m : Machine Guest) (ev : Event)
      → IsStopped m
      → IsStopped (callback vmi k m ev).machine
  unfolding callback int_cb_front step_cb_front
  callback-IsStopped interrupt m ev h = ground arith
  callback-IsStopped singlestep m ev h = ground arith

  pub deliver_all-IsStopped :
      (m : Machine Guest) (ds : List (Delivery Guest))
      → IsStopped m
      → IsStopped (deliver_all vmi m ds)
  unfolding deliver_all deliver
  deliver_all-IsStopped m [] h = h
  deliver_all-IsStopped m (d ∷ ds) h =
      deliver_all-IsStopped (deliver vmi m d) ds
        (callback-IsStopped d.kind (record m { guest = d.ran m.guest }) d.event h)

  callback-Counted :
      (k : EventKind) (m : Machine Guest) (ev : Event)
      → m.engine.safety ≤ 50
      → Counted m (weight k) (callback vmi k m ev).machine
  unfolding callback int_cb_front step_cb_front
  callback-Counted interrupt m ev h = ground arith
  callback-Counted singlestep m ev h = ground arith

  deliver_all-Counted :
      (m : Machine Guest) (ds : List (Delivery Guest))
      → m.engine.safety ≤ 50
      → Counted m (traps ds) (deliver_all vmi m ds)
  unfolding deliver_all deliver traps
  deliver_all-Counted m [] h = inr (omega arith, h)
  deliver_all-Counted m (d ∷ ds) h =
      elim (callback-Counted d.kind (record m { guest = d.ran m.guest }) d.event h) [
        | inl stopped ↦ inl (deliver_all-IsStopped (deliver vmi m d) ds stopped)
        | inr (counted, low) ↦ elim (deliver_all-Counted (deliver vmi m d) ds low) [
          | inl stopped ↦ inl stopped
          | inr (rest, low') ↦ inr (omega arith, low')
        ]
      ]

  pub listen_round-Counted :
      (m : Machine Guest) (r : Round Guest)
      → m.engine.safety ≤ 50
      → Counted m (traps r.deliveries) (listen_round vmi m r)
  unfolding listen_round
  listen_round-Counted m r h = ground (arith, deliver_all-Counted m r.deliveries h)

  -- A call that fails tells the loop to stop.
  pub listen_round-IsStopped :
      (m : Machine Guest) (r : Round Guest) → r.success ≡ false → IsStopped (listen_round vmi m r)
  unfolding listen_round
  listen_round-IsStopped m r failed = ground (arith, failed)
