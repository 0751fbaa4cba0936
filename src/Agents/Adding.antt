-- ===== src/Agents/Adding.antt =====
-- HAMain::add_agent (libhyperagent/libhyperagent.cc) and the lookups behind it.
use hyperagents.Base.{
  get_elem?-append_last, ℕ, ◌≡◌, ◌≢◌, refl, true, false, none, some, length, get_elem?, eq→==,
}
use hyperagents.Base.Text.{Bytes}
use hyperagents.World.{Env, World}
use hyperagents.Effect.{and_then, lock_vmi}
use hyperagents.Effect.Rules.{Returns}
use hyperagents.Agents.{find_agent, ha_config, add_agent}
use hyperagents.Agents.Table.{find_agent-put_agent}

module _ {Guest : Type 0} (env : Env Guest) where
  -- What add_agent leaves: the name stands for a new object, whose VMI instance is that of domain
  -- `d`, and another name for what it stood for.
  abbrev pub Added : Bytes → Bytes → Bytes → Bytes → ℕ → World Guest → World Guest → Type 0
  Added name other profile disk d w w' =
      (w'.vmi_lock ≡ false)
      × (find_agent name w'.agents ≡ some (length w.configs))
      × (find_agent other w'.agents ≡ find_agent other w.agents)
      × (w'.domain (length w.configs) ≡ d)
      × (get_elem? w'.configs (length w.configs)
          ≡ some (record {
            rekall_profile = profile;
            vm_name = name;
            disk_path = disk;
            vmtype = env.vmi.get_ostype (w.guest d);
            mountdev = none;
          }))

  -- add_agent for a name whose domain LibVMI finds, with vmi_global_lock free, returns true and gives
  -- the lock back: the name then stands for a new object with the three arguments and no mount, whose
  -- VMI instance is that of the domain, and every other name stands for what it stood for.
  pub add_agent-Returns :
      (name other profile disk : Bytes) (d : ℕ) (w : World Guest)
      → w.vmi_lock ≡ false
      → env.init_complete name ≡ some d
      → name ≢ other
      → Returns
          (λ b w'. (b ≡ true) × Added name other profile disk d w w')
          (add_agent env name profile disk w)
  unfolding add_agent ha_config lock_vmi
  add_agent-Returns name other profile disk d w free known ne =
      let (mine, others) = find_agent-put_agent name other (length w.configs) w.agents ne in
      rw (free, and_then, known)
        (
          refl,
          (
            refl,
            mine,
            others,
            rw (eq→== (length w.configs) (length w.configs) refl) refl,
            get_elem?-append_last w.configs _,
          ),
        )
