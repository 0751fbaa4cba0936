-- ===== src/Agents.antt =====
-- HAMain and HAConfig of libhyperagent/libhyperagent.cc: the table of agents, and the interface
-- that a hyperagent uses at its actuator sites.
pub mod Table
pub mod Adding
pub mod Disk
pub mod Start
pub mod Ending
pub mod Replacing
pub mod Isolated
pub mod Session
use hyperagents.Base.{
  ℕ, ◌++◌, Bool, true, false, Option, none, some, List, [], ◌∷◌, ◌==◌, ◌&&◌, ltb, if◌then◌else◌,
  get_elem?, set, length,
}
use hyperagents.Base.Int.{pos}
use hyperagents.Base.Text.{Bytes}
use hyperagents.World.{Handle, HaConfig, Env, World, guest_at, set_guest}
use hyperagents.Effect.{
  Outcome, exited, uninitialised, ◌>>=◌, ◌>>◌, pure, fail, read, modify, lock_vmi, unlock_vmi,
  deref,
}
use hyperagents.Mount.{get_mountpoint}
use hyperagents.Syncmount.{construct, request_mount, release_mount, destruct}

abbrev pub bytes_eq : Bytes → Bytes → Bool
bytes_eq [] [] = true
bytes_eq [] (b ∷ bs) = false
bytes_eq (a ∷ as_) [] = false
bytes_eq (a ∷ as_) (b ∷ bs) = a == b && bytes_eq as_ bs

-- `<` of std::string.
abbrev pub bytes_lt : Bytes → Bytes → Bool
bytes_lt [] [] = false
bytes_lt [] (b ∷ bs) = true
bytes_lt (a ∷ as_) [] = false
bytes_lt (a ∷ as_) (b ∷ bs) = if a == b then bytes_lt as_ bs else ltb a b

-- `agents[name]`: the number of the HAConfig, or a null pointer for a name that is not there.
unfoldable pub find_agent : Bytes → List (Bytes × ℕ) → Option ℕ
find_agent name [] = none
find_agent name ((n, i) ∷ rest) = if bytes_eq n name then some i else find_agent name rest

-- `agents[name] = ha`, in the order of the names.
unfoldable pub put_agent : Bytes → ℕ → List (Bytes × ℕ) → List (Bytes × ℕ)
put_agent name h [] = (name, h) ∷ []
put_agent name h ((n, i) ∷ rest) =
    if bytes_eq n name
    then (n, h) ∷ rest
    else if bytes_lt name n
    then (name, h) ∷ (n, i) ∷ rest
    else (n, i) ∷ put_agent name h rest

module _ {Guest : Type 0} (env : Env Guest) where
  -- The constructor of HAMain.
  unfoldable pub ha_main : Bytes → Bytes → World Guest → Outcome (World Guest) (Unit {0})
  ha_main mount_path ghost_image = do
    construct env mount_path ghost_image
    modify (λ w. record w { vmi_lock = false; agents = [] })

  -- The constructor of HAConfig; the result is the number of the object. `exit(1)` where LibVMI
  -- does not find the domain.
  unfoldable pub ha_config : Bytes → Bytes → Bytes → World Guest → Outcome (World Guest) ℕ
  ha_config vm_name rekall_profile disk_path = do
    lock_vmi
    h ← read (λ w. length w.configs)
    elim (env.init_complete vm_name) [
      | none ↦ exited (pos 1)
      | some d ↦
          modify (λ w. record w {
            domain = λ j. if h == j then d else w.domain j;
            configs =
                w.configs
                ++ record {
                  rekall_profile = rekall_profile;
                  vm_name = vm_name;
                  disk_path = disk_path;
                  vmtype = env.vmi.get_ostype (w.guest d);
                  mountdev = none;
                }
                  ∷ [];
          })
          >> unlock_vmi
          >> pure h
    ]

  unfoldable pub add_agent : Bytes → Bytes → Bytes → World Guest → Outcome (World Guest) Bool
  add_agent vm_name rekall_profile disk_path = do
    ha ← ha_config vm_name rekall_profile disk_path
    modify (λ w. record w { agents = put_agent vm_name ha w.agents })
    pure true

  abbrev pub get_vmi_lock : World Guest → Outcome (World Guest) (Unit {0})
  get_vmi_lock = lock_vmi

  abbrev pub rel_vmi_lock : World Guest → Outcome (World Guest) (Unit {0})
  rel_vmi_lock = unlock_vmi

  -- `agents[vm_name]->`: a name that is not there gives a null pointer, and a new entry for it,
  -- which the fault makes unobservable.
  unfoldable pub agent : Bytes → World Guest → Outcome (World Guest) ℕ
  agent vm_name w = deref (find_agent vm_name w.agents) w

  unfoldable pub config : ℕ → World Guest → Outcome (World Guest) HaConfig
  config h w = deref (get_elem? w.configs h) w

  unfoldable pub get_vmi : Bytes → World Guest → Outcome (World Guest) Handle
  get_vmi vm_name = do h ← agent vm_name; pure (some h)

  unfoldable pub set_mountdev : ℕ → ℕ → World Guest → Outcome (World Guest) (Unit {0})
  set_mountdev h m = do
    c ← config h
    modify (λ w. record w { configs = set w.configs h (record c { mountdev = some m }) })

  unfoldable pub mount_disk : Bytes → World Guest → Outcome (World Guest) Bytes
  mount_disk vm_name = do
    h ← agent vm_name
    c ← config h
    m ← request_mount env (some h) c.disk_path
    set_mountdev h m
    base ← read (λ w. w.base_mountpoint)
    pure (get_mountpoint base m)

  -- `mountdev` is read whether or not mount_disk has set it.
  unfoldable pub unmount_disk : Bytes → World Guest → Outcome (World Guest) (Unit {0})
  unmount_disk vm_name = do
    h ← agent vm_name
    c ← config h
    dev ← elim c.mountdev [ none ↦ fail uninitialised | some m ↦ pure m ]
    r ← release_mount env (some h) dev
    pure tt

  -- The destructor of HAConfig.
  unfoldable pub destroy_config : ℕ → World Guest → Outcome (World Guest) (Unit {0})
  destroy_config h = do
    lock_vmi
    modify (λ w. set_guest w h (env.vmi.destroy (guest_at w h)))
    unlock_vmi

  unfoldable pub destroy_agents : List (Bytes × ℕ) → World Guest → Outcome (World Guest) (Unit {0})
  destroy_agents [] = pure tt
  destroy_agents ((n, h) ∷ rest) = destroy_config h >> destroy_agents rest

  -- The destructor of HAMain, then that of its member `sm`.
  unfoldable pub destroy_main : World Guest → Outcome (World Guest) (Unit {0})
  destroy_main = do agents ← read (λ w. w.agents); destroy_agents agents; destruct env
