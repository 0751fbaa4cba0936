-- ===== src/Tests/MountRuns.antt =====
-- Mounting and unmounting on the test guest, whose events fail at once.
use hyperagents.Base.{get_elem?, ℕ, ◌≡◌, refl, ap, some, none, [], ◌∷◌, true, false, arith, length}
use hyperagents.Base.Text.{Bytes, codes, to_string}
use hyperagents.World.{HaConfig, World}
use hyperagents.Effect.{Outcome, done, run_in}
use hyperagents.Effect.Rules.{Returns}
use hyperagents.Patch.{install, start_events, end_events, restore}
use hyperagents.Listen.{listen_round, deliver_all}
use hyperagents.Sync.{do_sync, watch, event_loop, listen, attach_once, attach, detach}
use hyperagents.Slots.{new_slot, find_vmi, find_unlocked, claim, alter}
use hyperagents.Slots.Table.{IsTable, Holds}
use hyperagents.Syncmount.{request_mount, release_mount, StatusLine, print_status}
use hyperagents.Syncmount.Status.{Shows, print_status-Returns}
use hyperagents.Syncmount.Prompt.{claimed, request_mount-Returns_free}
use hyperagents.Base.Int.{pos, ◌-ℤ◌}
use hyperagents.Slots.View.{view, change}
use hyperagents.Syncmount.Refines.{release_mount-change}
use hyperagents.Agents.{add_agent, mount_disk, unmount_disk, find_agent}
use hyperagents.Agents.Adding.{Added, add_agent-Returns}
use hyperagents.Mount.{get_mountpoint}
use hyperagents.Agents.Disk.{Unmounted, mount_disk-unmount_disk}
use hyperagents.Tests.Guest.{Machine64, test_env, test_world}
use hyperagents.Slots.Grants.{claim-Granted}
use hyperagents.Tests.SlotRuns.{start, get_elem?-replicate, fresh_slots, fresh_slots-IsTable}
use hyperagents.Tests.SyncRuns.{failing_env, world_of}

abbrev mount_world : World Machine64
mount_world = record test_world { slots = fresh_slots }

abbrev disk : Bytes
disk = codes "/disk.img"

-- do_sync from within do_nbd_mount.
locked_sync : Outcome (World Machine64) ℕ
unfolding do_sync watch event_loop listen listen_round deliver_all attach_once attach detach run_in
    install start_events end_events restore to_string
locked_sync = do_sync failing_env 0 (record mount_world { vmi_lock = true })

locked_sync_done :
    do_sync failing_env 0 (record mount_world { vmi_lock = true }) ≡ done 0 (world_of locked_sync)
unfolding locked_sync
locked_sync_done = refl

claimed_sync : Outcome (World Machine64) ℕ
unfolding do_sync watch event_loop listen listen_round deliver_all attach_once attach detach run_in
    install start_events end_events restore to_string
claimed_sync = do_sync failing_env 0 (claimed failing_env 0 0 mount_world)

claimed_sync_done :
    do_sync failing_env 0 (claimed failing_env 0 0 mount_world) ≡ done 0 (world_of claimed_sync)
unfolding claimed_sync
claimed_sync_done = refl

request_mount-Returns_free_example :
    Returns
      (λ ix w'. (ix ≡ 0) × (w'.vmi_lock ≡ false) × IsTable w'.slots × Holds 0 ix w'.slots)
      (request_mount failing_env (some 0) disk mount_world)
unfolding find_vmi find_unlocked new_slot
request_mount-Returns_free_example =
    request_mount-Returns_free failing_env 0 disk mount_world (world_of claimed_sync) 0 0
      fresh_slots-IsTable refl refl refl claimed_sync_done (omega arith) (omega arith) (omega arith)

-- An agent is added; the name of another stays unknown.
abbrev name : Bytes
name = codes "fedora"

add_agent-Returns_example :
    Returns
      (λ b w'.
        (b ≡ true)
        × Added failing_env name (codes "win7") (codes "rekall.json") disk 3 mount_world w')
      (add_agent failing_env name (codes "rekall.json") disk mount_world)
add_agent-Returns_example =
    add_agent-Returns failing_env name (codes "win7") (codes "rekall.json") disk 3 mount_world refl
      refl (λ z. omega (arith, ap length z))

-- Slot 3 is taken for instance 0, whose agent is `name`.
held_slots-IsTable : IsTable (alter 3 (claim 3 (some 0)) fresh_slots)
unfolding new_slot
held_slots-IsTable =
    (claim-Granted 0 3 fresh_slots fresh_slots-IsTable (new_slot start) refl
      (λ i s e. ground (arith, get_elem?-replicate 16 i (new_slot start) s e))).0

abbrev agent_config : HaConfig
agent_config = record {
  rekall_profile = codes "rekall.json";
  vm_name = name;
  disk_path = disk;
  vmtype = 1;
  mountdev = none;
}

abbrev held_world : World Machine64
held_world = record test_world {
  slots = alter 3 (claim 3 (some 0)) fresh_slots;
  agents = (name, 0) ∷ [];
  configs = agent_config ∷ [];
}

release_mount-change_example :
    Returns
      (λ r w'. (r ≡ 0) × (view w'.slots ≡ change 3 (λ n. n -ℤ pos 1) (view held_world.slots)))
      (release_mount test_env (some 0) 3 held_world)
unfolding alter
release_mount-change_example =
    release_mount-change test_env (some 0) 3 (claim 3 (some 0) (new_slot start)) held_world
      held_slots-IsTable refl (omega arith) refl

mount_disk-unmount_disk_example :
    Returns
      (λ path w'.
        (path ≡ get_mountpoint (codes "/mnt/") 3)
        × Returns
            (λ _ w''. Unmounted test_env 0 3 (claim 3 (some 0) (new_slot start)) held_world w'')
            (unmount_disk test_env name w'))
      (mount_disk test_env name held_world)
unfolding find_vmi alter new_slot find_agent
mount_disk-unmount_disk_example =
    mount_disk-unmount_disk test_env name 0 3 agent_config (claim 3 (some 0) (new_slot start))
      held_world held_slots-IsTable refl refl refl refl refl

print_status-Returns_example :
    Returns
      (λ lines w'.
        (length lines ≡ 16)
        × (w' ≡ record held_world { clock = 1; vmi_lock = false })
        × (line : StatusLine) × (get_elem? lines 3 ≡ some line)
        × Shows test_env 3 (claim 3 (some 0) (new_slot start)) line)
      (print_status test_env held_world)
unfolding alter
print_status-Returns_example =
    print_status-Returns test_env held_world 3 (claim 3 (some 0) (new_slot start)) refl refl
