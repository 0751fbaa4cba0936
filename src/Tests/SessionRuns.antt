-- ===== src/Tests/SessionRuns.antt =====
-- Two agents, on test guests whose events fail at once.
use hyperagents.Base.{ℕ, ◌≡◌, ◌≢◌, refl, none, some, arith, true, get_elem?}
use hyperagents.Base.Text.{Bytes, codes, to_string}
use hyperagents.Base.Int.{pos}
use hyperagents.World.{HaConfig, World}
use hyperagents.Effect.{Outcome, done, run_in, gettimeofday, lock_vmi}
use hyperagents.Effect.Rules.{Ensures, Returns}
use hyperagents.Slots.View.{view}
use hyperagents.Slots.View.Books.{one_more, one_less}
use hyperagents.Patch.{install, start_events, end_events, restore}
use hyperagents.Listen.{listen_round, deliver_all}
use hyperagents.Sync.{do_sync, watch, event_loop, listen, attach_once, attach, detach}
use hyperagents.Slots.{new_slot, find_vmi, find_unlocked, alter}
use hyperagents.Mount.{get_mountpoint, do_nbd_mount, mount_partition}
use hyperagents.Syncmount.{construct, new_slots, request_mount, mount_free, set_slots}
use hyperagents.Agents.{
  ha_main, ha_config, add_agent, put_agent, find_agent, agent, config, set_mountdev, mount_disk,
  unmount_disk,
}
use hyperagents.Agents.Isolated.{mount_disk_others}
use hyperagents.Agents.Session.{IsAlone, Session, begun, added, mounted}
use hyperagents.Agents.Session.Sound.{Mounted, Sound}
use hyperagents.Agents.Session.Promises.{
  session-Sound, session-Apart, session-mount_disk, session-unmount_disk,
}
use hyperagents.Tests.Guest.{Machine64, test_world}
use hyperagents.Tests.SyncRuns.{failing_env}

abbrev pub fedora : Bytes
fedora = codes "fedora"

abbrev pub centos : Bytes
centos = codes "centos"

abbrev pub state_of : {A : Type 0} → Outcome (World Machine64) A → World Machine64
state_of (done a w) = w
state_of _ = test_world

pub alone : IsAlone failing_env
alone n ss = refl

began : World Machine64
unfolding ha_main construct new_slots gettimeofday new_slot
began = state_of (ha_main failing_env (codes "/mnt/") (codes "/ghost.img") test_world)

began_lem : ha_main failing_env (codes "/mnt/") (codes "/ghost.img") test_world ≡ done tt began
unfolding began
began_lem = refl

one_agent : World Machine64
unfolding add_agent ha_config lock_vmi put_agent began
one_agent = state_of (add_agent failing_env fedora (codes "p") (codes "/f.img") began)

one_agent_lem :
    add_agent failing_env fedora (codes "p") (codes "/f.img") began ≡ done true one_agent
unfolding one_agent began
one_agent_lem = refl

two_agents : World Machine64
unfolding add_agent ha_config lock_vmi put_agent one_agent
two_agents = state_of (add_agent failing_env centos (codes "p") (codes "/c.img") one_agent)

two_agents_lem :
    add_agent failing_env centos (codes "p") (codes "/c.img") one_agent ≡ done true two_agents
unfolding two_agents
two_agents_lem = refl

one_mount : World Machine64
unfolding mount_disk agent config set_mountdev request_mount mount_free do_nbd_mount mount_partition
    do_sync watch event_loop listen listen_round deliver_all attach_once attach detach run_in
    install start_events end_events restore to_string find_vmi find_unlocked alter find_agent
    set_slots gettimeofday new_slot two_agents lock_vmi get_mountpoint
one_mount = state_of (mount_disk failing_env fedora two_agents)

one_mount_lem : mount_disk failing_env fedora two_agents ≡ done (codes "/mnt/nbd0/") one_mount
unfolding one_mount
one_mount_lem = refl

pub two_mounts : World Machine64
unfolding mount_disk agent config set_mountdev request_mount mount_free do_nbd_mount mount_partition
    do_sync watch event_loop listen listen_round deliver_all attach_once attach detach run_in
    install start_events end_events restore to_string find_vmi find_unlocked alter find_agent
    set_slots gettimeofday new_slot one_mount lock_vmi get_mountpoint
two_mounts = state_of (mount_disk failing_env centos one_mount)

two_mounts_lem : mount_disk failing_env centos one_mount ≡ done (codes "/mnt/nbd1/") two_mounts
unfolding two_mounts
two_mounts_lem = refl

abbrev none_open : ℕ → ℕ
none_open h = 0

session_two_agents : Session failing_env none_open two_agents
session_two_agents =
    added none_open centos (codes "p") (codes "/c.img") one_agent two_agents
      (added none_open fedora (codes "p") (codes "/f.img") began one_agent
        (begun (codes "/mnt/") (codes "/ghost.img") test_world began began_lem) one_agent_lem)
      two_agents_lem

knows_fedora : find_agent fedora two_agents.agents ≡ some 0
unfolding find_agent two_agents
knows_fedora = refl

knows_centos : find_agent centos one_mount.agents ≡ some 1
unfolding find_agent one_mount
knows_centos = refl

abbrev pub both_open : ℕ → ℕ
both_open = one_more 1 (one_more 0 none_open)

pub session_two_mounts : Session failing_env both_open two_mounts
session_two_mounts =
    mounted (one_more 0 none_open) centos (codes "/mnt/nbd1/") 1 one_mount two_mounts
      (mounted none_open fedora (codes "/mnt/nbd0/") 0 two_agents one_mount session_two_agents
        knows_fedora one_mount_lem)
      knows_centos two_mounts_lem

session-Sound_example : Sound both_open two_mounts
session-Sound_example = session-Sound failing_env alone both_open two_mounts session_two_mounts

session-Apart_example :
    (m : Mounted both_open two_mounts 0) × (n : Mounted both_open two_mounts 1) × (get_mountpoint
        two_mounts.base_mountpoint m.device
      ≢ get_mountpoint two_mounts.base_mountpoint n.device)
session-Apart_example =
    session-Apart failing_env alone both_open two_mounts 0 1 session_two_mounts (omega arith)
      (omega arith) (omega arith)

pub still_centos : find_agent centos two_mounts.agents ≡ some 1
unfolding find_agent two_mounts
still_centos = refl

session-unmount_disk_example :
    Returns
      (λ _ w'.
        Session failing_env (one_less 1 both_open) w'
        × (w'.log ≡ two_mounts.log)
        × ((g : ℕ) → g ≢ 1 → view w'.slots g ≡ view two_mounts.slots g)
        × ((d : ℕ) → two_mounts.domain 1 ≢ d → w'.guest d ≡ two_mounts.guest d))
      (unmount_disk failing_env centos two_mounts)
session-unmount_disk_example =
    session-unmount_disk failing_env alone both_open centos 1 two_mounts session_two_mounts
      still_centos (omega arith)

abbrev fedora_config : HaConfig
fedora_config = record {
  rekall_profile = codes "p";
  vm_name = fedora;
  disk_path = codes "/f.img";
  vmtype = 1;
  mountdev = none;
}

configured : get_elem? two_agents.configs 0 ≡ some fedora_config
unfolding two_agents
configured = refl

requested :
    Returns (λ _ _. Unit {0}) (request_mount failing_env (some 0) (codes "/f.img") two_agents)
unfolding request_mount mount_free do_nbd_mount mount_partition do_sync watch event_loop listen
    listen_round deliver_all attach_once attach detach run_in install start_events end_events
    restore to_string find_vmi find_unlocked alter set_slots gettimeofday new_slot two_agents
    lock_vmi
requested = tt

session-mount_disk_example :
    Returns
      (λ path w'.
        Session failing_env (one_more 0 none_open) w'
        × ((d : ℕ) × (path ≡ get_mountpoint two_agents.base_mountpoint d)
            × (view w'.slots 0 ≡ some (d, pos (one_more 0 none_open 0))))
        × ((g : ℕ) → g ≢ 0 → none_open g ≢ 0 → view w'.slots g ≡ view two_agents.slots g))
      (mount_disk failing_env fedora two_agents)
session-mount_disk_example =
    session-mount_disk failing_env alone none_open fedora 0 fedora_config two_agents
      session_two_agents knows_fedora configured requested

another_domain : two_agents.domain 0 ≢ 5
unfolding two_agents
another_domain = omega arith

mount_disk_others_example :
    Ensures (λ _ w'. w'.guest 5 ≡ two_agents.guest 5) (mount_disk failing_env fedora two_agents)
mount_disk_others_example =
    mount_disk_others failing_env fedora 0 5 two_agents knows_fedora another_domain
