-- ===== src/Tests/PassRuns.antt =====
-- do_sync on a test guest whose work function is detoured once and comes to its end.
use hyperagents.Base.{◌≡◌, ◌≢◌, refl, some, [], ◌∷◌, inl, inr, arith, true, false}
use hyperagents.Base.Int.{pos}
use hyperagents.Callback.{int_cb_front, step_cb_front}
use hyperagents.Patch.{install, start_events}
use hyperagents.Patch.Restore.{Apart, AllResident}
use hyperagents.Listen.{listen_round, deliver_all, deliver, callback}
use hyperagents.Listen.Count.{IsStopped}
use hyperagents.Listen.Finish.{steps}
use hyperagents.World.{Env, guest_at}
use hyperagents.Effect.Rules.{Returns}
use hyperagents.Sync.Whole.{installed, watched}
use hyperagents.Sync.Rounds.{machine_after, steps_from}
use hyperagents.Sync.Finish.{do_sync_finishes}
use hyperagents.Sync.Intact.{ProperRounds, do_sync-Intact}
use hyperagents.Sync.{do_sync}
use hyperagents.Tests.Guest.{
  Machine64, guest_vmi, guest_laws, Anywhere, trap_at, step_at, test_env, test_world,
}

abbrev pass_env : Env Machine64
pass_env = record test_env {
  listen = λ n. record {
    deliveries =
        trap_at 0x2000 ∷ trap_at 0x3000 ∷ trap_at 0x309c ∷ trap_at 0x20aa ∷ step_at 0x20ab ∷ [];
    success = true;
  };
}

everywhere : AllResident Anywhere (installed pass_env 0 test_world).engine
everywhere = record { qworko = tt; dwork = tt; dwork_back = tt; front = tt; back = tt }

apart : Apart (installed pass_env 0 test_world).engine
unfolding install
apart = omega arith

do_sync_finishes_example :
    Returns
      (λ r w'.
        (r ≡ 0)
        × (w'.engine.interrupted ≢ pos 0)
        × (guest_vmi.read_8_va (guest_at w' 0) 0x2000 ≡ some 0x90))
      (do_sync pass_env 0 test_world)
unfolding install steps steps_from
do_sync_finishes_example =
    do_sync_finishes pass_env 0 Anywhere test_world 1 0 0 0x2000 0x90
      (trap_at 0x2000 ∷ trap_at 0x3000 ∷ trap_at 0x309c ∷ []) (step_at 0x20ab ∷ []) (trap_at 0x20aa)
      guest_laws everywhere apart (omega arith) (omega arith) refl (omega arith) refl refl refl
      (omega arith) (omega arith) (omega arith) (inr (inl refl)) refl

stopped : IsStopped (machine_after pass_env 1 0 (watched pass_env 0 test_world))
unfolding install start_events listen_round deliver_all int_cb_front step_cb_front callback deliver
stopped = λ e. ground (arith, e)

proper : ProperRounds pass_env 0x2001 2 0 false (watched pass_env 0 test_world)
unfolding install start_events listen_round deliver_all int_cb_front step_cb_front callback deliver
proper = (
  (
    record { shown = inr (inl refl); spared = refl },
    (
      record { shown = inr (inr (inr (inl refl))); spared = refl },
      (
        record { shown = inr (inr (inr (inr refl))); spared = refl },
        (
          record { shown = inr (inr (inl refl)); spared = refl },
          (record { shown = refl; spared = refl }, tt),
        ),
      ),
    ),
  ),
  (
    (
      record { shown = inr (inl refl); spared = refl },
      (
        record { shown = inr (inr (inr (inl refl))); spared = refl },
        (
          record { shown = inr (inr (inr (inr refl))); spared = refl },
          (
            record { shown = inr (inr (inl refl)); spared = refl },
            (record { shown = refl; spared = refl }, tt),
          ),
        ),
      ),
    ),
    tt,
  ),
)

do_sync-Intact_example :
    Returns
      (λ r w'. (r ≡ 0) × (guest_vmi.read_8_va (guest_at w' 0) 0x2001 ≡ some 0x90))
      (do_sync pass_env 0 test_world)
unfolding install
do_sync-Intact_example =
    do_sync-Intact pass_env 0 Anywhere test_world 1 1 0x2001 0x90 guest_laws everywhere apart
      (omega arith) refl (omega arith) stopped proper (omega arith) (omega arith) refl
