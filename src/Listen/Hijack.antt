-- ===== src/Listen/Hijack.antt =====
-- The detour of a vCPU: from the work function to sys_sync, and back with its arguments.
use hyperagents.Base.{ℕ, ◌≡◌, ◌≢◌, refl, ap, sym, ◌∙◌, List, [], ◌∷◌, true, false, arith}
use hyperagents.Vmi.{Event, EventKind, interrupt, singlestep, Vmi}
use hyperagents.Engine.{Site, Engine, Machine}
use hyperagents.Callback.{int_cb_front, step_cb_front}
use hyperagents.Callback.Sites.{SameSites}
use hyperagents.Callback.Answers.{answer-dwork, answer-sys_sync_back, saved-keeps}
use hyperagents.World.{Delivery}
use hyperagents.Listen.{callback, deliver, deliver_all}
use hyperagents.Listen.Sites.{callback-SameSites, deliver_all-SameSites}

pub record SameSaved (e e' : Engine) : Type 0 where
  pub saved_rdi : e'.saved_rdi ≡ e.saved_rdi
  pub saved_rsi : e'.saved_rsi ≡ e.saved_rsi
  pub saved_rdx : e'.saved_rdx ≡ e.saved_rdx

module _ {Guest : Type 0} (vmi : Vmi Guest) where
  -- The machine that a callback works on, after the guest has run up to the event.
  abbrev pub before : Machine Guest → Delivery Guest → Machine Guest
  before m d = record m { guest = d.ran m.guest }

  -- The instruction pointer that the callback for `d` reads.
  abbrev pub trap_rip : Machine Guest → Delivery Guest → ℕ
  trap_rip m d = (vmi.get_vcpuregs (d.ran m.guest) d.event.vcpu_id).rip

  -- No breakpoint event at `a`.
  abbrev pub NotTrappedAt : EventKind → ℕ → ℕ → Type 0
  NotTrappedAt interrupt rip a = rip ≢ a
  NotTrappedAt singlestep rip a = Unit {0}

  abbrev pub Avoids : ℕ → Machine Guest → List (Delivery Guest) → Type 0
  Avoids a m [] = Unit {0}
  Avoids a m (d ∷ ds) = NotTrappedAt d.kind (trap_rip m d) a × Avoids a (deliver vmi m d) ds

  callback-SameSaved :
      (k : EventKind) (m : Machine Guest) (ev : Event)
      → NotTrappedAt k (vmi.get_vcpuregs m.guest ev.vcpu_id).rip m.engine.dwork.addr
      → SameSaved m.engine (callback vmi k m ev).machine.engine
  unfolding callback step_cb_front
  callback-SameSaved interrupt m ev away =
      let (rdi, rsi, rdx) = saved-keeps vmi m ev away in
      record { saved_rdi = rdi; saved_rsi = rsi; saved_rdx = rdx }
  callback-SameSaved singlestep m ev away = ground arith

  deliver_all-SameSaved :
      (a : ℕ) (m : Machine Guest) (ds : List (Delivery Guest))
      → m.engine.dwork.addr ≡ a
      → Avoids a m ds
      → SameSaved m.engine (deliver_all vmi m ds).engine
  unfolding deliver_all deliver
  deliver_all-SameSaved a m [] e away = record {
    saved_rdi = refl;
    saved_rsi = refl;
    saved_rdx = refl;
  }
  deliver_all-SameSaved a m (d ∷ ds) e (here, rest) =
      let first = callback-SameSaved d.kind (before m d) d.event (rw e here) in
      let same = callback-SameSites vmi d.kind (before m d) d.event in
      let later =
        deliver_all-SameSaved a (deliver vmi m d) ds (ap (λ (s : Site). s.addr) same.dwork ∙ e)
          rest in
      record {
        saved_rdi = later.saved_rdi ∙ first.saved_rdi;
        saved_rsi = later.saved_rsi ∙ first.saved_rsi;
        saved_rdx = later.saved_rdx ∙ first.saved_rdx;
      }

  pub deliver-interrupt :
      (m : Machine Guest) (d : Delivery Guest)
      → d.kind ≡ interrupt
      → (deliver vmi m d).engine ≡ (int_cb_front vmi (before m d) d.event).machine.engine
  unfolding deliver callback
  deliver-interrupt m d k =
      ap (λ (k : EventKind). (callback vmi k (before m d) d.event).machine.engine) k

  deliver-SameSites :
      (m : Machine Guest) (d : Delivery Guest) → SameSites m.engine (deliver vmi m d).engine
  unfolding deliver
  deliver-SameSites m d = callback-SameSites vmi d.kind (before m d) d.event

  deliver-SameSites_all :
      (m : Machine Guest) (d : Delivery Guest) (ds : List (Delivery Guest))
      → SameSites m.engine (deliver_all vmi (deliver vmi m d) ds).engine
  unfolding deliver_all
  deliver-SameSites_all m d ds = deliver_all-SameSites vmi m (d ∷ ds)

  -- The machine that the callback for `d'` works on, after `d` and `ds`.
  abbrev pub later : Machine Guest → Delivery Guest → List (Delivery Guest) → Machine Guest
  later m d ds = deliver_all vmi (deliver vmi m d) ds

  -- The callback for a breakpoint event at the work function sends its vCPU to sys_sync: its answer
  -- asks LibVMI to set the registers, without a single step, and they are those of the event with the
  -- front of sys_sync as instruction pointer. After any events `ds` without another breakpoint event
  -- at the work function, the callback for a breakpoint event at the back site of sys_sync sends its
  -- vCPU to the work function in the same way, with the three arguments from the first event and all
  -- other registers of the second. Conditions: the work function is not at queue_work_on, and the back site is
  -- neither of these, nor the front of sys_sync.
  pub hijack_returns :
      (m : Machine Guest) (d d' : Delivery Guest) (ds : List (Delivery Guest))
      → d.kind ≡ interrupt
      → trap_rip m d ≡ m.engine.dwork.addr
      → Avoids m.engine.dwork.addr (deliver vmi m d) ds
      → trap_rip (later m d ds) d' ≡ m.engine.sys_sync_back.addr
      → m.engine.dwork.addr ≢ m.engine.qworko.addr
      → m.engine.sys_sync_back.addr ≢ m.engine.qworko.addr
      → m.engine.sys_sync_back.addr ≢ m.engine.dwork.addr
      → m.engine.sys_sync_back.addr ≢ m.engine.sys_sync_front.addr
      → ((int_cb_front vmi (before m d) d.event).event.x86_regs
          ≡ record d.event.x86_regs { rip = m.engine.sys_sync_front.addr })
        × ((int_cb_front vmi (before m d) d.event).ret
            ≡ record { toggle_singlestep = false; set_registers = true })
        × ((int_cb_front vmi (before (later m d ds) d') d'.event).event.x86_regs
            ≡ record d'.event.x86_regs {
              rip = m.engine.dwork.addr;
              rdi = d.event.x86_regs.rdi;
              rsi = d.event.x86_regs.rsi;
              rdx = d.event.x86_regs.rdx;
            })
        × ((int_cb_front vmi (before (later m d ds) d') d'.event).ret
            ≡ record { toggle_singlestep = false; set_registers = true })
  hijack_returns m d d' ds k at away back nd nb bd bf =
      let same = deliver-SameSites_all m d ds in
      let site = λ (s : Site). s.addr in
      let start = answer-dwork vmi (before m d) d.event at nd in
      let first = deliver-interrupt m d k in
      let kept =
        deliver_all-SameSaved m.engine.dwork.addr (deliver vmi m d) ds
          (ap site (deliver-SameSites m d).dwork) away in
      let finish =
        answer-sys_sync_back vmi (before (later m d ds) d') d'.event
          (back ∙ sym (ap site same.sys_sync_back))
          (λ z. nb (sym (ap site same.sys_sync_back) ∙ z ∙ ap site same.qworko))
          (λ z. bd (sym (ap site same.sys_sync_back) ∙ z ∙ ap site same.dwork))
          (λ z. bf (sym (ap site same.sys_sync_back) ∙ z ∙ ap site same.sys_sync_front)) in
      (
        start.0,
        start.1,
        ground (
          arith,
          finish.0,
          ap site same.dwork,
          kept.saved_rdi ∙ ap (λ (e : Engine). e.saved_rdi) first ∙ start.2,
          kept.saved_rsi ∙ ap (λ (e : Engine). e.saved_rsi) first ∙ start.3,
          kept.saved_rdx ∙ ap (λ (e : Engine). e.saved_rdx) first ∙ start.4,
        ),
        finish.1,
      )
