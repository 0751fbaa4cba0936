-- ===== src/Agents/Replacing.antt =====
-- HAMain::add_agent (libhyperagent/libhyperagent.cc) for a name that the map has already.
use hyperagents.Base.{ℕ, ◌≡◌, ◌≢◌, refl, none, some, true, length, get_elem?-append_last}
use hyperagents.Base.Int.{pos}
use hyperagents.Base.Text.{Bytes}
use hyperagents.World.{HaConfig, Env, World}
use hyperagents.Effect.{fault, uninitialised, and_then, lock_vmi}
use hyperagents.Effect.Rules.{Returns}
use hyperagents.Slots.View.{view}
use hyperagents.Agents.{find_agent, agent, config, ha_config, add_agent, unmount_disk}
use hyperagents.Agents.Table.{find_agent-put_agent_self}
use hyperagents.Agents.Session.{IsAlone, Session}
use hyperagents.Agents.Session.Promises.{session-Sound}

module _ {Guest : Type 0} (env : Env Guest) where
  abbrev created : Bytes → Bytes → Bytes → ℕ → World Guest → HaConfig
  created name profile disk d w = record {
    rekall_profile = profile;
    vm_name = name;
    disk_path = disk;
    vmtype = env.vmi.get_ostype (w.guest d);
    mountdev = none;
  }

  -- In a session, add_agent for the name of an agent with open mounts returns true. The name then
  -- stands for a new object, and the agent's slot keeps its references, but unmount_disk for the name
  -- reads a `mountdev` that was not set. LibVMI finds the name's domain, and no other thread changes
  -- the slots.
  pub add_agent-Replaces :
      (c : ℕ → ℕ) (name profile disk : Bytes) (h d : ℕ) (w : World Guest)
      → IsAlone env
      → Session env c w
      → find_agent name w.agents ≡ some h
      → c h ≢ 0
      → env.init_complete name ≡ some d
      → Returns
          (λ r w'.
            (r ≡ true)
            × (find_agent name w'.agents ≡ some (length w.configs))
            × ((e : ℕ) × (view w'.slots h ≡ some (e, pos (c h))))
            × (unmount_disk env name w' ≡ fault uninitialised))
          (add_agent env name profile disk w)
  unfolding add_agent ha_config lock_vmi unmount_disk agent config
  add_agent-Replaces c name profile disk h d w alone past known still found =
      let sound = session-Sound env alone c w past in
      let mine = find_agent-put_agent_self name (length w.configs) w.agents in
      let last = get_elem?-append_last w.configs (created name profile disk d w) in
      rw (sound.unlocked, and_then, found)
        (refl, mine, sound.books.open_mounts h still, rw (mine, and_then, last, and_then) refl)
