-- ===== src/Tests/TrapRuns.antt =====
-- The callbacks on the test guest, after its breakpoints went in.
use hyperagents.Callback.Stray.{trapped, stepped, stray_plants}
use hyperagents.Patch.Restore.{IsSite}
use hyperagents.Base.{some, inl, inr, ◌≡◌, refl, arith, [], ◌∷◌, true, false}
use hyperagents.Base.Int.{pos, ◌-ℤ◌, ◌+ℤ◌, ◌*ℤ◌, ◌<ℤ◌}
use hyperagents.World.{Timeval, Delivery}
use hyperagents.Engine.{Machine, initial}
use hyperagents.Patch.{install}
use hyperagents.Callback.{int_cb_front, toggle}
use hyperagents.Callback.Rearm.{qworko_rearms}
use hyperagents.Listen.Hijack.{before, later, hijack_returns}
use hyperagents.Clock.{timeval_diff}
use hyperagents.Clock.Accuracy.{elapsed_us, timeval_diff_accuracy}
use hyperagents.Tests.Guest.{
  Machine64, guest_vmi, guest_laws, Anywhere, fresh_guest, trap_at, step_at, event_at, regs_at,
}

hooked : Machine Machine64
unfolding install
hooked = install guest_vmi (record { engine = initial; guest = fresh_guest })

abbrev at_work : Delivery Machine64
at_work = trap_at 0x2000

abbrev at_end : Delivery Machine64
at_end = trap_at 0x309c

hijack_returns_example :
    ((int_cb_front guest_vmi (before guest_vmi hooked at_work) at_work.event).event.x86_regs
      ≡ record (regs_at 0x2000) { rip = 0x3000 })
    × ((int_cb_front guest_vmi (before guest_vmi hooked at_work) at_work.event).ret
        ≡ record { toggle_singlestep = false; set_registers = true })
    × ((int_cb_front guest_vmi
          (before guest_vmi
            (later guest_vmi hooked at_work (trap_at 0x3000 ∷ step_at 0x3001 ∷ []))
            at_end)
          at_end.event).event.x86_regs
        ≡ record (regs_at 0x309c) { rip = 0x2000; rdi = 11; rsi = 12; rdx = 0x4000 })
    × ((int_cb_front guest_vmi
          (before guest_vmi
            (later guest_vmi hooked at_work (trap_at 0x3000 ∷ step_at 0x3001 ∷ []))
            at_end)
          at_end.event).ret
        ≡ record { toggle_singlestep = false; set_registers = true })
unfolding hooked install
hijack_returns_example =
    hijack_returns guest_vmi hooked at_work at_end (trap_at 0x3000 ∷ step_at 0x3001 ∷ []) refl refl
      (omega arith, (tt, tt)) refl (omega arith) (omega arith) (omega arith) (omega arith)

abbrev earlier : Timeval
earlier = record { tv_sec = pos 1000; tv_usec = pos 999999 }

abbrev now : Timeval
now = record { tv_sec = pos 1012; tv_usec = pos 500 }

timeval_diff_accuracy_example :
    (timeval_diff earlier now *ℤ pos 1000 -ℤ pos 1000 <ℤ elapsed_us earlier now)
    × (elapsed_us earlier now <ℤ timeval_diff earlier now *ℤ pos 1000 +ℤ pos 1000)
timeval_diff_accuracy_example = timeval_diff_accuracy earlier now

-- The vCPU at 0x5000, where no breakpoint of do_sync stands.
abbrev strayed : Machine Machine64
strayed = before guest_vmi hooked (trap_at 0x5000)

stray_plants_example :
    ((trapped guest_vmi strayed (event_at 0x5000) (event_at 0x5001)).guest
      ≡ guest_vmi.write_8_va strayed.guest 0 0)
    × (guest_vmi.read_8_va (stepped guest_vmi strayed (event_at 0x5000) (event_at 0x5001)) 0x5000
        ≡ some 0xCC)
unfolding hooked install
stray_plants_example =
    stray_plants guest_vmi strayed (event_at 0x5000) (event_at 0x5001) Anywhere guest_laws tt
      no_site_here (omega arith)
  where
    no_site_here : ¬ IsSite strayed.engine 0x5000
    no_site_here site = elim site [
      | inl e ↦ omega arith
      | inr (inl e) ↦ omega arith
      | inr (inr (inl e)) ↦ omega arith
      | inr (inr (inr (inl e))) ↦ omega arith
      | inr (inr (inr (inr e))) ↦ omega arith
    ]

abbrev queued : Machine Machine64
queued = before guest_vmi hooked (trap_at 0x1000)

qworko_rearms_example :
    (guest_vmi.read_8_va (trapped guest_vmi queued (event_at 0x1000) (event_at 0x1001)).guest 0x1000
      ≡ some 0x90)
    × ((int_cb_front guest_vmi queued (event_at 0x1000)).ret ≡ toggle)
    × (guest_vmi.read_8_va (stepped guest_vmi queued (event_at 0x1000) (event_at 0x1001)) 0x1000
        ≡ some 0xCC)
unfolding hooked install
qworko_rearms_example =
    qworko_rearms guest_vmi queued (event_at 0x1000) (event_at 0x1001) Anywhere guest_laws tt refl
      (omega arith)
