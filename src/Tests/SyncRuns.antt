-- ===== src/Tests/SyncRuns.antt =====
-- do_sync on the test guest.
use hyperagents.Base.{ℕ, ◌≡◌, ◌≢◌, refl, some, [], ◌∷◌, inl, inr, arith, false, none, ◌++◌}
use hyperagents.Base.Int.{pos}
use hyperagents.Engine.{Engine}
use hyperagents.Base.Text.{codes, to_string}
use hyperagents.Patch.{install, start_events, end_events, restore}
use hyperagents.Listen.{listen_round, deliver_all}
use hyperagents.Effect.{Outcome, done, run_in}
use hyperagents.Patch.Restore.{Apart, AllResident, IsSite}
use hyperagents.World.{Env, World, machine_at, guest_at}
use hyperagents.Effect.Rules.{Returns}
use hyperagents.Sync.Loop.{traps_from}
use hyperagents.Sync.Whole.{installed, do_sync-Returns, do_sync_gives_up}
use hyperagents.Patch.Planted.{install-Trapped}
use hyperagents.Vmi.{VmiLaws}
use hyperagents.Sync.Again.{do_sync_again}
use hyperagents.Sync.{
  do_sync, watch, event_loop, listen, attach_once, attach, detach, detach_command, list_command,
}
use hyperagents.Tests.Guest.{Machine64, guest_vmi, guest_laws, Anywhere, test_env, test_world}

abbrev installed_engine : Engine
installed_engine = (installed test_env 0 test_world).engine

everywhere : AllResident Anywhere installed_engine
everywhere = record { qworko = tt; dwork = tt; dwork_back = tt; front = tt; back = tt }

apart : Apart installed_engine
unfolding install
apart = omega arith

do_sync-Returns_example :
    Returns
      (λ r w'.
        (r ≡ 0)
        × (w'.engine.interrupted ≢ pos 0)
        × (guest_vmi.read_8_va (guest_at w' 0) 0x3000 ≡ some 0x90))
      (do_sync test_env 0 test_world)
unfolding install traps_from
do_sync-Returns_example =
    do_sync-Returns test_env 0 Anywhere test_world 1 0x3000 0x90 guest_laws everywhere apart
      (omega arith) refl (omega arith) (inl (omega arith)) (omega arith) (omega arith)
      (inr (inr (inr (inl refl)))) refl

-- vmi_events_listen fails at once.
abbrev pub failing_env : Env Machine64
failing_env = record test_env { listen = λ n. record { deliveries = []; success = false } }

abbrev pub world_of : Outcome (World Machine64) ℕ → World Machine64
world_of (done r w) = w
world_of _ = test_world

first_sync : Outcome (World Machine64) ℕ
unfolding do_sync watch event_loop listen listen_round deliver_all attach_once attach detach run_in
    install start_events end_events restore to_string
first_sync = do_sync failing_env 0 test_world

first_sync_result :
    ((world_of first_sync).listens ≡ 1)
    × ((world_of first_sync).log
        ≡ codes "xl block-attach 7 file:/ghost.img xvdz r"
          ∷ codes "xl block-list 7"
          ∷ codes "xl block-detach 7 xvdz"
          ∷ codes "xl block-list 7"
          ∷ [])
    × ((guest_at (world_of first_sync) 0).paused ≡ false)
unfolding first_sync
first_sync_result = (refl, refl, refl)

do_sync_again_example :
    Returns
      (λ _ w2.
        (w2.listens ≡ 1)
        × (w2.log
            ≡ ((world_of first_sync).log ++ detach_command failing_env 7 ∷ [])
              ++ list_command failing_env 7 ∷ []))
      (do_sync failing_env 0 (world_of first_sync))
unfolding first_sync
do_sync_again_example =
    do_sync_again failing_env 0 0 test_world (world_of first_sync) 0 1 (omega arith) refl
      (omega arith) refl (omega arith)

-- LibVMI knows no symbol of this kernel.
abbrev lost_env : Env Machine64
lost_env = record test_env { vmi = record guest_vmi { translate_ksym2v = λ g s. none } }

lost_laws : VmiLaws lost_env.vmi Anywhere
lost_laws = record {
  read-write_self = guest_laws.read-write_self;
  read-write_ne = guest_laws.read-write_ne;
  read-pause = guest_laws.read-pause;
  read-resume = guest_laws.read-resume;
  read-register = guest_laws.read-register;
  read-clear = guest_laws.read-clear;
  read-respond = guest_laws.read-respond;
}

do_sync_gives_up_example :
    Returns
      (λ r w'.
        (r ≡ 0)
        × (guest_vmi.read_8_va (guest_at w' 0) 156 ≡ some 0xCC)
        × (w'.listens ≡ 0)
        × (w'.log ≡ []))
      (do_sync lost_env 0 test_world)
unfolding install
do_sync_gives_up_example =
    do_sync_gives_up lost_env 0 Anywhere test_world 156 lost_laws tt (inr (inr (inr (inr refl))))
      refl

install-Trapped_example :
    (guest_vmi.read_8_va (install guest_vmi (machine_at test_world 0)).guest 0x3000 ≡ some 0xCC)
    × (guest_vmi.read_8_va (install guest_vmi (machine_at test_world 0)).guest 0x3001 ≡ some 0x90)
unfolding install
install-Trapped_example =
    install-Trapped guest_laws (machine_at test_world 0) 0x3000 0x3001 tt
      (inr (inr (inr (inl refl)))) not_site
  where
    not_site : ¬ IsSite installed_engine 0x3001
    not_site site = elim site [
      | inl e ↦ omega arith
      | inr (inl e) ↦ omega arith
      | inr (inr (inl e)) ↦ omega arith
      | inr (inr (inr (inl e))) ↦ omega arith
      | inr (inr (inr (inr e))) ↦ omega arith
    ]
