-- ===== src/Tests/ProgramRuns.antt =====
-- testmain.c and clam_spawn.c on the test guest.
use hyperagents.Base.{ℕ, ◌≡◌, refl, some, true, [], ◌∷◌, ◌++◌, get_elem?, inl, inr, arith}
use hyperagents.Base.Int.{ℤ, pos, negsuc}
use hyperagents.Base.Text.{Bytes, codes, to_string}
use hyperagents.World.{Slot, World}
use hyperagents.Effect.{Outcome, done, run_in}
use hyperagents.Effect.Rules.{Returns}
use hyperagents.Patch.{install, start_events, end_events, restore}
use hyperagents.Patch.Restore.{Apart, AllResident}
use hyperagents.Listen.{listen_round, deliver_all}
use hyperagents.Sync.{do_sync, watch, event_loop, listen, attach_once, attach, detach}
use hyperagents.Sync.Loop.{traps_from}
use hyperagents.Testmain.{testmain}
use hyperagents.Testmain.Whole.{mounting}
use hyperagents.Testmain.Program.{Ended, commands}
use hyperagents.Testmain.Flushed.{Synced, planted, testmain-Synced}
use hyperagents.ClamSpawn.{WaitMacros, returned, Forks, clam_spawn}
use hyperagents.ClamSpawn.Parent.{parent-Returns}
use hyperagents.ClamSpawn.Child.{child-Returns}
use hyperagents.Tests.Guest.{Machine64, guest_laws, Anywhere, test_env, test_world}
use hyperagents.Tests.SyncRuns.{failing_env, world_of}

abbrev vm : Bytes
vm = codes "fedora"

abbrev profile : Bytes
profile = codes "rekall.json"

abbrev disk : Bytes
disk = codes "/disk.img"

abbrev base : Bytes
base = codes "/mnt/"

abbrev ghost : Bytes
ghost = codes "/ghost.img"

abbrev prog : Bytes
prog = codes "testmain"

-- The do_sync of the first mount, whose events fail at once.
first_mount : Outcome (World Machine64) ℕ
unfolding do_sync watch event_loop listen listen_round deliver_all attach_once attach detach run_in
    install start_events end_events restore to_string
first_mount = do_sync failing_env 0 (mounting failing_env vm profile disk base ghost 3 test_world)

first_mount_done :
    do_sync failing_env 0 (mounting failing_env vm profile disk base ghost 3 test_world)
    ≡ done 0 (world_of first_mount)
unfolding first_mount
first_mount_done = refl

all_resident :
    AllResident Anywhere (planted test_env vm profile disk base ghost 3 test_world).engine
all_resident = record { qworko = tt; dwork = tt; dwork_back = tt; front = tt; back = tt }

four_sites : Apart (planted test_env vm profile disk base ghost 3 test_world).engine
unfolding install
four_sites = omega arith

testmain-Synced_example :
    (w1 : World Machine64) × Synced test_env vm profile disk base ghost 3 test_world 0x3000 0x90 w1
    × Returns
        (Ended test_env vm profile disk base ghost 3 0 w1)
        (testmain test_env (prog ∷ vm ∷ profile ∷ disk ∷ base ∷ ghost ∷ []) test_world)
unfolding install traps_from
testmain-Synced_example =
    testmain-Synced test_env vm profile disk base ghost 3 test_world prog [] Anywhere 1 0x3000 0x90
      refl (omega arith) (omega arith) (omega arith) (λ n. omega arith) guest_laws all_resident
      four_sites (omega arith) refl (omega arith) (inl (omega arith)) (omega arith)
      (inr (inr (inr (inl refl)))) refl

-- A shell's view of a status: the low seven bits are the signal, the next byte is the exit status.
abbrev macros : WaitMacros
macros = record { wifexited = λ s. true; wexitstatus = λ s. 1 }

abbrev forks_of : ℤ → Forks
forks_of p = record { pid = p; execvp_returns = true; waitpid = λ q. some 256; macros = macros }

parent-Returns_example :
    Returns
      (λ e w'.
        (e ≡ returned (pos 0))
        × (w'.log
            ≡ (world_of first_mount).log
              ++ commands failing_env vm profile disk base ghost 3 0 (world_of first_mount))
        × (t : Slot) × (get_elem? w'.slots 0 ≡ some t)
        × (t.vmi ≡ some 0)
        × (t.refcount ≡ pos 0))
      (clam_spawn failing_env (forks_of (pos 42)) base ghost vm profile disk test_world)
parent-Returns_example =
    parent-Returns failing_env (forks_of (pos 42)) vm profile disk base ghost 3 test_world
      (world_of first_mount) 0 256 (λ e. ground (arith, e)) refl refl first_mount_done (omega arith)
      (omega arith) (omega arith)

child-Returns_example :
    Returns
      (λ e w'.
        (e ≡ returned (negsuc 0))
        × (w'.log
            ≡ (world_of first_mount).log
              ++ commands failing_env vm profile disk base ghost 3 0 (world_of first_mount))
        × (t : Slot) × (get_elem? w'.slots 0 ≡ some t)
        × (t.vmi ≡ some 0)
        × (t.refcount ≡ pos 1))
      (clam_spawn failing_env (forks_of (pos 0)) base ghost vm profile disk test_world)
child-Returns_example =
    child-Returns failing_env (forks_of (pos 0)) vm profile disk base ghost 3 test_world
      (world_of first_mount) 0 refl refl refl first_mount_done (omega arith) (omega arith)
      (omega arith)
