-- ===== src/Listen/Intact.antt =====
-- Memory outside the breakpoint sites, under the events of vmi_events_listen: the callbacks write at
-- the sites alone, since they answer breakpoint events there and the single steps behind them.
use hyperagents.Base.{
  ℕ, ◌≡◌, refl, ap, sym, ◌∙◌, inl, inr, Bool, true, List, [], ◌∷◌, arith, Bool-cases, ℕ_discrete,
  eq→==, ne→==,
}
use hyperagents.Vmi.{Regs, Event, EventKind, interrupt, singlestep, Vmi, VmiLaws}
use hyperagents.Engine.{Engine, Machine}
use hyperagents.Callback.{classify, count_event, int_cb_front, step_cb_front}
use hyperagents.Callback.Sites.{SameSites, SameSites-refl, SameSites-trans}
use hyperagents.Callback.Answers.{seen}
use hyperagents.Patch.Restore.{IsSite}
use hyperagents.World.{Delivery, Round}
use hyperagents.Listen.{callback, deliver, deliver_all, listen_round}
use hyperagents.Listen.Hijack.{before, trap_rip}
use hyperagents.Listen.Sites.{callback-SameSites}

-- Whether there was a breakpoint event, after one more event.
abbrev pub armed_by : Bool → EventKind → Bool
armed_by armed interrupt = true
armed_by armed singlestep = armed

abbrev pub armed_after : {Guest : Type 0} → Bool → List (Delivery Guest) → Bool
armed_after armed [] = armed
armed_after armed (d ∷ ds) = armed_after (armed_by armed d.kind) ds

module _ {Guest : Type 0} (vmi : Vmi Guest) (a : ℕ) where
  -- A breakpoint event comes from a breakpoint site, a single step behind a breakpoint event.
  abbrev pub Shown : Bool → EventKind → Engine → ℕ → Type 0
  Shown armed interrupt e rip = IsSite e rip
  Shown armed singlestep e rip = armed ≡ true

  -- The guest that runs up to the event leaves the byte at `a` alone.
  pub record Proper (armed : Bool) (m : Machine Guest) (d : Delivery Guest) : Type 0 where
    pub shown : Shown armed d.kind m.engine (trap_rip vmi m d)
    pub spared : vmi.read_8_va (d.ran m.guest) a ≡ vmi.read_8_va m.guest a

  abbrev pub AllProper : Bool → Machine Guest → List (Delivery Guest) → Type 0
  AllProper armed m [] = Unit {0}
  AllProper armed m (d ∷ ds) =
      Proper armed m d × AllProper (armed_by armed d.kind) (deliver vmi m d) ds

-- What the events leave alone at an address `a`: the byte; and where the next single step writes.
pub record Intact {Guest : Type 0} (vmi : Vmi Guest) (a : ℕ) (armed : Bool) (m m' : Machine Guest)
    : Type 0 where
  pub same : SameSites m.engine m'.engine
  pub byte : vmi.read_8_va m'.guest a ≡ vmi.read_8_va m.guest a
  pub steps : (armed ≡ true) → IsSite m'.engine m'.engine.step_rewrite_loc

pub IsSite-SameSites : {e e' : Engine} (a : ℕ) → SameSites e e' → IsSite e' a → IsSite e a
IsSite-SameSites a s site =
    rw (← s.qworko, ← s.dwork, ← s.dwork_back, ← s.sys_sync_front, ← s.sys_sync_back) site

pub IsSite-keeps : {e e' : Engine} (a : ℕ) → SameSites e e' → IsSite e a → IsSite e' a
IsSite-keeps a s site = rw (s.qworko, s.dwork, s.dwork_back, s.sys_sync_front, s.sys_sync_back) site

module _ {Guest : Type 0} {vmi : Vmi Guest} {Resident : ℕ → Type 0} (laws : VmiLaws vmi Resident)
    (a : ℕ) where
  -- At a site the byte is written at the vCPU's instruction pointer.
  classify-at_site :
      (e : Engine) (g : Guest) (ev : Event) (r : Regs)
      → IsSite e r.rip
      → (classify vmi e g ev r).byte_location ≡ r.rip
  unfolding classify
  classify-at_site e g ev r site = ground (arith, site)

  front-at_site :
      (m : Machine Guest) (ev : Event)
      → IsSite m.engine (seen vmi m ev).rip
      → (v : ℕ) × ((int_cb_front vmi m ev).machine.guest
          ≡ vmi.write_8_va m.guest (seen vmi m ev).rip v)
  unfolding int_cb_front count_event
  front-at_site m ev site = (
    _,
    ap
        (λ (l : ℕ).
          vmi.write_8_va m.guest l
            (classify vmi (count_event m.engine) m.guest ev (seen vmi m ev)).byte_replacement)
        (classify-at_site (count_event m.engine) m.guest ev (seen vmi m ev) site),
  )

  step-writes :
      (m : Machine Guest) (ev : Event)
      → ¬ (a ≡ m.engine.step_rewrite_loc)
      → vmi.read_8_va (step_cb_front vmi m ev).machine.guest a ≡ vmi.read_8_va m.guest a
  unfolding step_cb_front
  step-writes m ev ne = elim (ℕ_discrete m.engine.do_cleanup 1) [
    | yes e ↦ rw (eq→== _ _ e) (laws.read-pause m.guest a)
    | no n ↦ rw (ne→== _ _ n) (laws.read-write_ne _ _ a _ (λ z. ne (sym z)))
  ]

  front-loc :
      (m : Machine Guest) (ev : Event)
      → (int_cb_front vmi m ev).machine.engine.step_rewrite_loc ≡ (seen vmi m ev).rip
  unfolding int_cb_front
  front-loc m ev = refl

  step-loc :
      (m : Machine Guest) (ev : Event)
      → (step_cb_front vmi m ev).machine.engine.step_rewrite_loc ≡ m.engine.step_rewrite_loc
  unfolding step_cb_front
  step-loc m ev = ground arith

  -- A callback on a machine whose last breakpoint event, if any, was at a site.
  callback-Intact :
      (armed : Bool) (k : EventKind) (m : Machine Guest) (ev : Event)
      → ¬ IsSite m.engine a
      → (armed ≡ true → IsSite m.engine m.engine.step_rewrite_loc)
      → Shown vmi a armed k m.engine (seen vmi m ev).rip
      → Intact vmi a (armed_by armed k) m (callback vmi k m ev).machine
  unfolding callback
  callback-Intact armed interrupt m ev away steps shown =
      let (v, wrote) = front-at_site m ev shown in
      record {
        same = callback-SameSites vmi interrupt m ev;
        byte =
            ap (λ (g : Guest). vmi.read_8_va g a) wrote
            ∙ laws.read-write_ne _ _ a v (λ z. away (rw (← z) shown));
        steps =
            λ _. IsSite-keeps _ (callback-SameSites vmi interrupt m ev) (rw (front-loc m ev) shown);
      }
  callback-Intact armed singlestep m ev away steps shown = record {
    same = callback-SameSites vmi singlestep m ev;
    byte = step-writes m ev (λ z. away (rw z (steps shown)));
    steps = λ now.
        IsSite-keeps _ (callback-SameSites vmi singlestep m ev) (rw (step-loc m ev) (steps now));
  }

  Intact-trans :
      {armed armed' : Bool} {m m' m'' : Machine Guest}
      → Intact vmi a armed m m'
      → Intact vmi a armed' m' m''
      → Intact vmi a armed' m m''
  Intact-trans h k = record {
    same = SameSites-trans h.same k.same;
    byte = k.byte ∙ h.byte;
    steps = k.steps;
  }

  deliver-Intact :
      (armed : Bool) (m : Machine Guest) (d : Delivery Guest)
      → ¬ IsSite m.engine a
      → (armed ≡ true → IsSite m.engine m.engine.step_rewrite_loc)
      → Proper vmi a armed m d
      → Intact vmi a (armed_by armed d.kind) m (deliver vmi m d)
  unfolding deliver
  deliver-Intact armed m d away steps proper =
      let served = callback-Intact armed d.kind (before vmi m d) d.event away steps proper.shown in
      record {
        same = served.same;
        byte = laws.read-respond _ _ _ _ a ∙ served.byte ∙ proper.spared;
        steps = served.steps;
      }

  deliver_all-Intact :
      (armed : Bool) (m : Machine Guest) (ds : List (Delivery Guest))
      → ¬ IsSite m.engine a
      → (armed ≡ true → IsSite m.engine m.engine.step_rewrite_loc)
      → AllProper vmi a armed m ds
      → Intact vmi a (armed_after armed ds) m (deliver_all vmi m ds)
  unfolding deliver_all
  deliver_all-Intact armed m [] away steps proper = record {
    same = SameSites-refl m.engine;
    byte = refl;
    steps = steps;
  }
  deliver_all-Intact armed m (d ∷ ds) away steps (first, rest) =
      let one = deliver-Intact armed m d away steps first in
      Intact-trans one (
        deliver_all-Intact (armed_by armed d.kind) (deliver vmi m d) ds
          (λ z. away (IsSite-SameSites a one.same z)) one.steps rest)

  pub listen_round-Intact :
      (armed : Bool) (m : Machine Guest) (r : Round Guest)
      → ¬ IsSite m.engine a
      → (armed ≡ true → IsSite m.engine m.engine.step_rewrite_loc)
      → AllProper vmi a armed m r.deliveries
      → Intact vmi a (armed_after armed r.deliveries) m (listen_round vmi m r)
  unfolding listen_round
  listen_round-Intact armed m r away steps proper =
      let all = deliver_all-Intact armed m r.deliveries away steps proper in
      elim (Bool-cases r.success) [
        | inl ok ↦ rw ok all
        | inr bad ↦ rw bad (record {
          same = record {
            qworko = all.same.qworko;
            dwork = all.same.dwork;
            dwork_back = all.same.dwork_back;
            sys_sync_front = all.same.sys_sync_front;
            sys_sync_back = all.same.sys_sync_back;
            target = all.same.target;
          };
          byte = laws.read-pause _ a ∙ all.byte;
          steps = all.steps;
        })
      ]
