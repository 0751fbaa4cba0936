-- ===== src/Tests/EndingRuns.antt =====
-- Calls that fail or do not end, and the end of a process, on the test guest.
use hyperagents.Base.{ℕ, ◌≡◌, refl, zero, suc, some, [], ◌∷◌, ◌++◌, true, false, arith, length}
use hyperagents.Base.Int.{pos, negsuc}
use hyperagents.Base.Text.{codes, to_string}
use hyperagents.World.{Slot, Env, World, guest_at}
use hyperagents.Effect.{Outcome, done, fault, exited, deadlock, running, uninitialised, run_in}
use hyperagents.Effect.Rules.{Returns}
use hyperagents.Patch.{install, start_events, end_events, restore}
use hyperagents.Listen.{listen_round, deliver_all}
use hyperagents.Sync.{do_sync, watch, event_loop, listen, attach_once, attach, detach}
use hyperagents.Slots.{new_slot, find_vmi, find_unlocked}
use hyperagents.Slots.View.{view}
use hyperagents.Mount.{do_nbd_mount, connect_command}
use hyperagents.Mount.Failing.{do_nbd_mount_ends}
use hyperagents.Mount.Dropping.{drop_commands}
use hyperagents.Syncmount.{request_mount, print_status}
use hyperagents.Syncmount.Starved.{AllInUse, request_mount-Starves}
use hyperagents.Agents.{
  find_agent, add_agent, get_vmi_lock, rel_vmi_lock, unmount_disk, destroy_main,
}
use hyperagents.Agents.Ending.{destroy_main-Returns}
use hyperagents.Agents.Replacing.{add_agent-Replaces}
use hyperagents.Agents.Session.Locked.{get_vmi_lock-Deadlocks}
use hyperagents.Tests.Guest.{Machine64, guest_vmi, test_env, test_world}
use hyperagents.Tests.SlotRuns.{start}
use hyperagents.Tests.SyncRuns.{failing_env, world_of}
use hyperagents.Tests.SessionRuns.{
  fedora, centos, alone, both_open, two_mounts, session_two_mounts, still_centos,
}

-- Every command returns 256.
abbrev broken_env : Env Machine64
broken_env = record failing_env { shell = λ n cmd. 256 }

broken_sync : Outcome (World Machine64) ℕ
unfolding do_sync watch event_loop listen listen_round deliver_all attach_once attach detach run_in
    install start_events end_events restore to_string
broken_sync = do_sync broken_env 0 (record test_world { vmi_lock = true })

broken_sync_done :
    do_sync broken_env 0 (record test_world { vmi_lock = true }) ≡ done 0 (world_of broken_sync)
unfolding broken_sync
broken_sync_done = refl

do_nbd_mount_ends_example :
    do_nbd_mount broken_env (codes "nbd0") (some 0) (codes "/disk.img") test_world
    ≡ exited (negsuc 0) (record (world_of broken_sync) {
      vmi_lock = false;
      log = (world_of broken_sync).log ++ connect_command (codes "nbd0") (codes "/disk.img") ∷ [];
    })
do_nbd_mount_ends_example =
    do_nbd_mount_ends broken_env (codes "nbd0") (codes "/disk.img") 0 0 test_world
      (world_of broken_sync) refl broken_sync_done (omega arith)

-- The one slot is in use.
abbrev busy_slot : Slot
busy_slot = record (new_slot start) { l = true; refcount = pos 2; vmi = some 1; mountindex = pos 0 }

abbrev busy_world : World Machine64
busy_world = record test_world { slots = busy_slot ∷ [] }

busy_world-AllInUse : AllInUse busy_world.slots
busy_world-AllInUse zero s e = ground (arith, e)
busy_world-AllInUse (suc i) s e = cc

request_mount-Starves_example :
    request_mount test_env (some 0) (codes "/disk.img") busy_world ≡ running
unfolding find_vmi find_unlocked new_slot
request_mount-Starves_example =
    request_mount-Starves test_env 0 (codes "/disk.img") busy_world (λ n ss used. used) refl refl
      refl busy_world-AllInUse

-- A guest whose instance was destroyed is paused.
abbrev ending_env : Env Machine64
ending_env = record test_env {
  vmi = record guest_vmi { destroy = λ g. record g { paused = true } };
}

abbrev ending_world : World Machine64
ending_world = record test_world { agents = (centos, 1) ∷ (fedora, 0) ∷ [] }

destroy_main-Returns_example :
    Returns
      (λ _ (w' : World Machine64).
        (w'.vmi_lock ≡ false)
        × ((guest_at w' 0).paused ≡ true)
        × (w'.log ≡ [] ++ drop_commands (codes "/mnt/") 16 0))
      (destroy_main ending_env ending_world)
unfolding find_agent
destroy_main-Returns_example =
    destroy_main-Returns ending_env (λ g. g.paused ≡ true) (λ g. refl) fedora 0 ending_world refl
      (omega arith) refl

get_vmi_lock-Deadlocks_example :
    Returns
      (λ _ w'.
        (add_agent failing_env (codes "debian") (codes "p") (codes "/d.img") w' ≡ deadlock)
        × (get_vmi_lock failing_env w' ≡ deadlock)
        × (print_status failing_env w' ≡ deadlock)
        × (unmount_disk failing_env centos w' ≡ deadlock)
        × (rel_vmi_lock failing_env w' ≡ done tt two_mounts))
      (get_vmi_lock failing_env two_mounts)
get_vmi_lock-Deadlocks_example =
    get_vmi_lock-Deadlocks failing_env both_open centos (codes "debian") (codes "p")
      (codes "/d.img") 1 two_mounts alone session_two_mounts still_centos (omega arith)

add_agent-Replaces_example :
    Returns
      (λ r w'.
        (r ≡ true)
        × (find_agent centos w'.agents ≡ some (length two_mounts.configs))
        × ((e : ℕ) × (view w'.slots 1 ≡ some (e, pos (both_open 1))))
        × (unmount_disk failing_env centos w' ≡ fault uninitialised))
      (add_agent failing_env centos (codes "q") (codes "/new.img") two_mounts)
add_agent-Replaces_example =
    add_agent-Replaces failing_env both_open centos (codes "q") (codes "/new.img") 1 3 two_mounts
      alone session_two_mounts still_centos (omega arith) refl
