-- ===== src/Testmain/Whole.antt =====
-- testmain.c from the construction of HAMain to its destruction.
use hyperagents.Base.{
  ℕ, ◌≤◌, ◌≡◌, ◌≢◌, refl, none, some, true, false, [], ◌∷◌, ◌++◌, length, set, get_elem?-set_self,
  get_elem?-append_last, lt-length-get_elem?, ◌==◌, if◌then◌else◌, arith,
}
use hyperagents.Base.Text.{Bytes}
use hyperagents.World.{HaConfig, Env, World, guest_at, set_guest}
use hyperagents.Effect.{done, and_then, lock_vmi, system}
use hyperagents.Effect.Frame.{SameTable}
use hyperagents.Slots.{alter, drop_ref, new_slot, find_unlocked}
use hyperagents.Sync.{do_sync}
use hyperagents.Mount.{get_mountpoint, nbd_dev, connect_command}
use hyperagents.Mount.Dropping.{drop_commands, drop_all_mounts_lem}
use hyperagents.Syncmount.{destruct, release_mount, slot_at, set_slots}
use hyperagents.Syncmount.Start.{constructed, construct_done, find_vmi-slots_from}
use hyperagents.Syncmount.Prompt.{claimed, fetched, request_mount_free_done}
use hyperagents.Agents.{
  find_agent, put_agent, ha_main, ha_config, add_agent, agent, config, get_vmi, set_mountdev,
  mount_disk, unmount_disk, destroy_config, destroy_agents, destroy_main,
}
use hyperagents.Agents.Table.{bytes_eq_refl}
use hyperagents.Testmain.{ls_command, use_agent}

module _ {Guest : Type 0} (env : Env Guest) (vm profile disk base ghost : Bytes) (d : ℕ) where
  -- The number of the new HAConfig, and the object.
  abbrev pub handle : World Guest → ℕ
  handle w = length w.configs

  abbrev pub entry : World Guest → HaConfig
  entry w = record {
    rekall_profile = profile;
    vm_name = vm;
    disk_path = disk;
    vmtype = env.vmi.get_ostype (w.guest d);
    mountdev = none;
  }

  -- The world behind the constructor of HAMain, and behind add_agent.
  abbrev pub opened : World Guest → World Guest
  opened w = record (constructed env base ghost w) { vmi_lock = false; agents = [] }

  abbrev pub joined : World Guest → World Guest
  joined w = record (opened w) {
    domain = λ j. if handle w == j then d else w.domain j;
    configs = w.configs ++ entry w ∷ [];
    agents = (vm, handle w) ∷ [];
  }

  pub ha_main_done : (w : World Guest) → ha_main env base ghost w ≡ done tt (opened w)
  unfolding ha_main
  ha_main_done w = rw (construct_done env base ghost w) refl

  pub add_agent_done :
      (w : World Guest)
      → env.init_complete vm ≡ some d
      → add_agent env vm profile disk (opened w) ≡ done true (joined w)
  unfolding add_agent ha_config lock_vmi put_agent
  add_agent_done w known = rw known refl

  -- The world where do_sync starts.
  abbrev pub mounting : World Guest → World Guest
  mounting w = claimed env (handle w) 0 (joined w)

  -- do_sync leaves the table and the agents as they were, so `w1` has this form.
  abbrev pub synced : World Guest → World Guest → World Guest
  synced w w1 = record w1 {
    slots = (mounting w).slots;
    lk = false;
    base_mountpoint = base;
    agents = (vm, handle w) ∷ [];
    configs = w.configs ++ entry w ∷ [];
  }

  pub synced_lem : (w w1 : World Guest) → SameTable (mounting w) w1 → w1 ≡ synced w w1
  synced_lem w w1 same = λ i. record w1 {
    slots = same.slots i;
    lk = same.lk i;
    base_mountpoint = same.base i;
    agents = same.agents i;
    configs = same.configs i;
  }

  pub known_lem : (h : ℕ) → find_agent vm ((vm, h) ∷ []) ≡ some h
  unfolding find_agent
  known_lem h = rw (bytes_eq_refl vm) refl

  -- The world behind mount_disk.
  abbrev pub served : World Guest → World Guest → World Guest
  served w w1 = record (fetched env (handle w) disk 0 (synced w w1)) {
    configs = set (w.configs ++ entry w ∷ []) (handle w) (record (entry w) { mountdev = some 0 });
  }

  pub mount_disk_done :
      (w w1 : World Guest) (r : ℕ)
      → do_sync env (handle w) (mounting w) ≡ done r (synced w w1)
      → length disk ≤ 150
      → length base ≤ 69
      → env.shell (length w1.log) (connect_command (nbd_dev 0) disk) ≢ 256
      → mount_disk env vm (joined w) ≡ done (get_mountpoint base 0) (served w w1)
  unfolding mount_disk agent config set_mountdev find_unlocked new_slot
  mount_disk_done w w1 r e fit small ok =
      rw (known_lem (handle w), and_then, get_elem?-append_last w.configs (entry w), and_then)
        (rw
          (
            request_mount_free_done env (handle w) disk (joined w) (synced w w1) 0 r (omega arith)
                (find_vmi-slots_from env (handle w) 16 w.clock) refl refl e fit small ok,
            and_then,
            get_elem?-append_last w.configs (entry w),
          )
          refl)

  abbrev pub listed : World Guest → World Guest → World Guest
  listed w w1 = record (served w w1) {
    log = (served w w1).log ++ ls_command (get_mountpoint base 0) ∷ [];
  }

  -- The world behind unmount_disk, and at the end.
  abbrev pub released : World Guest → World Guest → World Guest
  released w w1 =
      record (set_guest (listed w w1) (handle w)
        (env.vmi.resume_vm (guest_at (listed w w1) (handle w)))) {
          slots = alter 0 drop_ref (listed w w1).slots;
        }

  pub unmount_disk_done :
      (w w1 : World Guest) → unmount_disk env vm (listed w w1) ≡ done tt (released w w1)
  unfolding unmount_disk agent config release_mount slot_at set_slots lock_vmi alter
  unmount_disk_done w w1 =
      let mine =
        get_elem?-set_self (w.configs ++ entry w ∷ []) (handle w)
          (record (entry w) { mountdev = some 0 })
          (lt-length-get_elem? (w.configs ++ entry w ∷ []) (handle w)
            (get_elem?-append_last w.configs (entry w))) in
      rw (known_lem (handle w), and_then, mine) refl

  abbrev pub destroyed : ℕ → World Guest → World Guest
  destroyed h s = record (set_guest s h (env.vmi.destroy (guest_at s h))) {
    log = s.log ++ drop_commands base 16 0;
  }

  abbrev pub ended : World Guest → World Guest → World Guest
  ended w w1 = destroyed (handle w) (released w w1)

  -- The destructor of HAMain where `vm` is the only agent.
  pub destroy_main_done :
      (h : ℕ) (s : World Guest)
      → length base ≤ 179
      → s.agents ≡ (vm, h) ∷ []
      → s.vmi_lock ≡ false
      → s.base_mountpoint ≡ base
      → destroy_main env s ≡ done tt (record (destroyed h s) { vmi_lock = false })
  unfolding destroy_main destroy_agents destroy_config destruct lock_vmi
  destroy_main_done h s small only free here =
      rw (only, free, here) (drop_all_mounts_lem env _ small)

  pub use_agent_done :
      (w w1 : World Guest) (r : ℕ)
      → env.init_complete vm ≡ some d
      → do_sync env (handle w) (mounting w) ≡ done r (synced w w1)
      → length disk ≤ 150
      → length base ≤ 69
      → env.shell (length w1.log) (connect_command (nbd_dev 0) disk) ≢ 256
      → use_agent env vm profile disk base ghost w ≡ done 0 (ended w w1)
  unfolding use_agent get_vmi agent system lock_vmi
  use_agent_done w w1 r known e fit small ok =
      rw (ha_main_done w, and_then, add_agent_done w known, and_then)
        (rw (known_lem (handle w), and_then)
          (rw (mount_disk_done w w1 r e fit small ok, and_then)
            (rw (unmount_disk_done w w1, and_then)
              (rw (destroy_main_done (handle w) (released w w1) (omega arith) refl refl refl)
                refl))))
