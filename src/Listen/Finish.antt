-- ===== src/Listen/Finish.antt =====
-- The hijack's own end of the loop: a breakpoint event at the end of the work function sets
-- `do_cleanup`, and the next single step sets `interrupted`.
use hyperagents.Base.{
  ℕ, ◌+◌, ◌≡◌, ◌≢◌, ◌⊎◌, inl, inr, refl, ap, sym, ◌∙◌, List, [], ◌∷◌, ◌++◌, arith,
}
use hyperagents.Vmi.{Event, EventKind, interrupt, singlestep, Vmi}
use hyperagents.Engine.{Site, Engine, Machine}
use hyperagents.Callback.{int_cb_front, step_cb_front}
use hyperagents.Callback.Answers.{seen}
use hyperagents.Callback.Sites.{SameSites}
use hyperagents.Patch.Restore.{Apart, Apart-SameSites}
use hyperagents.World.{Delivery, Round}
use hyperagents.Listen.{callback, deliver, deliver_all, listen_round}
use hyperagents.Listen.Count.{IsStopped, deliver_all-IsStopped}
use hyperagents.Listen.Hijack.{before, trap_rip, deliver-interrupt}
use hyperagents.Listen.Sites.{deliver_all-SameSites}

-- Single steps.
abbrev pub step_weight : EventKind → ℕ
step_weight interrupt = 0
step_weight singlestep = 1

unfoldable pub steps : {Guest : Type 0} → List (Delivery Guest) → ℕ
steps [] = 0
steps (d ∷ ds) = step_weight d.kind + steps ds

module _ {Guest : Type 0} where
  -- The loop is told to stop, or the next single step will tell it to.
  abbrev pub IsEnding : Machine Guest → Type 0
  IsEnding m = IsStopped m ⊎ (m.engine.do_cleanup ≡ 1)

  -- After `n` single steps from there.
  abbrev pub Ended : ℕ → Machine Guest → Type 0
  Ended n m = IsStopped m ⊎ ((m.engine.do_cleanup ≡ 1) × (n ≡ 0))

module _ {Guest : Type 0} (vmi : Vmi Guest) where
  callback-Ended :
      (k : EventKind) (m : Machine Guest) (ev : Event)
      → IsEnding m
      → Ended (step_weight k) (callback vmi k m ev).machine
  unfolding callback int_cb_front step_cb_front
  callback-Ended interrupt m ev h = ground (arith, h)
  callback-Ended singlestep m ev h = ground (arith, h)

  deliver_all-Ended :
      (m : Machine Guest) (ds : List (Delivery Guest))
      → IsEnding m
      → Ended (steps ds) (deliver_all vmi m ds)
  unfolding deliver_all deliver steps
  deliver_all-Ended m [] h = elim h [ inl stopped ↦ inl stopped | inr c ↦ inr (c, refl) ]
  deliver_all-Ended m (d ∷ ds) h = elim (callback-Ended d.kind (before vmi m d) d.event h) [
    | inl stopped ↦ inl (deliver_all-IsStopped vmi (deliver vmi m d) ds stopped)
    | inr (c, none_yet) ↦ elim (deliver_all-Ended (deliver vmi m d) ds (inr c)) [
      | inl stopped ↦ inl stopped
      | inr (c', rest) ↦ inr (c', omega arith)
    ]
  ]

  pub listen_round-IsStopped :
      (m : Machine Guest) (r : Round Guest) → IsStopped m → IsStopped (listen_round vmi m r)
  unfolding listen_round
  listen_round-IsStopped m r h = ground (arith, deliver_all-IsStopped vmi m r.deliveries h)

  pub listen_round-Ended :
      (m : Machine Guest) (r : Round Guest)
      → IsEnding m
      → Ended (steps r.deliveries) (listen_round vmi m r)
  unfolding listen_round
  listen_round-Ended m r h = ground (arith, deliver_all-Ended m r.deliveries h)

  -- A breakpoint event at the end of the work function.
  front-IsEnding :
      (m : Machine Guest) (ev : Event)
      → (seen vmi m ev).rip ≡ m.engine.dwork_back.addr
      → m.engine.qworko.addr ≢ m.engine.dwork_back.addr
      → Apart m.engine
      → (int_cb_front vmi m ev).machine.engine.do_cleanup ≡ 1
  unfolding int_cb_front
  front-IsEnding m ev at nq apart =
      ground (arith, nq, apart.dwork-dwork_back, apart.dwork_back-front, apart.dwork_back-back)

  deliver_all-append :
      (m : Machine Guest) (ds ds' : List (Delivery Guest))
      → deliver_all vmi m (ds ++ ds') ≡ deliver_all vmi (deliver_all vmi m ds) ds'
  unfolding deliver_all
  deliver_all-append m [] ds' = refl
  deliver_all-append m (d ∷ ds) ds' = deliver_all-append (deliver vmi m d) ds ds'

  deliver-IsEnding :
      (m : Machine Guest) (d : Delivery Guest)
      → d.kind ≡ interrupt
      → trap_rip vmi m d ≡ m.engine.dwork_back.addr
      → m.engine.qworko.addr ≢ m.engine.dwork_back.addr
      → Apart m.engine
      → IsEnding (deliver vmi m d)
  deliver-IsEnding m d k at nq apart = inr (
      ap (λ (e : Engine). e.do_cleanup) (deliver-interrupt vmi m d k)
      ∙ front-IsEnding (before vmi m d) d.event at nq apart)

  -- A round with that event.
  pub listen_round-Finish :
      (m : Machine Guest) (r : Round Guest) (pre post : List (Delivery Guest)) (d : Delivery Guest)
      → r.deliveries ≡ pre ++ d ∷ post
      → d.kind ≡ interrupt
      → trap_rip vmi (deliver_all vmi m pre) d ≡ m.engine.dwork_back.addr
      → m.engine.qworko.addr ≢ m.engine.dwork_back.addr
      → Apart m.engine
      → Ended (steps post) (listen_round vmi m r)
  unfolding listen_round deliver_all
  listen_round-Finish m r pre post d split k at nq apart = ground (arith, whole)
    where
      m' : Machine Guest
      m' = deliver_all vmi m pre

      same : SameSites m.engine m'.engine
      same = deliver_all-SameSites vmi m pre

      whole : Ended (steps post) (deliver_all vmi m r.deliveries)
      whole =
          rw (split, deliver_all-append m pre (d ∷ post))
            (deliver_all-Ended (deliver vmi m' d) post (
              deliver-IsEnding m' d k (at ∙ ap (λ (s : Site). s.addr) (sym same.dwork_back))
                (rw (same.qworko, same.dwork_back) nq) (Apart-SameSites same apart)))
