-- ===== src/World.antt =====
-- The state of a hyperagent process: the syncmount object (libhyperagent/syncmount.h), the agents
-- of HAMain and HAConfig (libhyperagent/libhyperagent.h), the file-level state of syncmount.cc, and
-- the environment that the process runs in.
use hyperagents.Base.{ℕ, Bool, Option, List, ◌==◌, if◌then◌else◌, true, false, none, some}
use hyperagents.Base.Int.{ℤ}
use hyperagents.Base.Text.{Bytes}
use hyperagents.Vmi.{Event, EventKind, Vmi}
use hyperagents.Engine.{Engine, Machine}

-- struct timeval
pub record Timeval : Type 0 where
  pub tv_sec : ℤ
  pub tv_usec : ℤ

-- A vmi_instance_t pointer: NULL, or the `vmi` field of a HAConfig, named by that HAConfig's number.
abbrev pub Handle : Type 0
Handle = Option ℕ

abbrev pub handle_eq : Handle → Handle → Bool
handle_eq none none = true
handle_eq none (some b) = false
handle_eq (some a) none = false
handle_eq (some a) (some b) = a == b

-- syncmount_record. `l` tells whether the mutex is held. `int` fields do not reach their bounds.
pub record Slot : Type 0 where
  pub valid : ℕ
  pub calls : ℕ
  pub mountindex : ℤ
  pub refcount : ℤ
  pub last_used : Timeval
  pub vmi : Handle
  pub l : Bool

-- HAConfig. `mountdev` is `none` until mount_disk sets it: the constructor does not.
pub record HaConfig : Type 0 where
  pub rekall_profile : Bytes
  pub vm_name : Bytes
  pub disk_path : Bytes
  pub vmtype : ℕ
  pub mountdev : Option ℕ

-- One event that vmi_events_listen hands to a callback, after the guest has run up to it.
pub record Delivery (Guest : Type 0) : Type 0 where
  pub kind : EventKind
  pub ran : Guest → Guest
  pub event : Event

-- One call of vmi_events_listen: its events, and whether it returns VMI_SUCCESS.
pub record Round (Guest : Type 0) : Type 0 where
  pub deliveries : List (Delivery Guest)
  pub success : Bool

-- What the process does not decide. `fuel` bounds the rounds of a loop that are followed.
pub record Env (Guest : Type 0) : Type 0 where
  pub vmi : Vmi Guest
  pub listen : ℕ → Round Guest  -- the n-th call of vmi_events_listen
  pub time_of_day : ℕ → Timeval  -- the n-th call of gettimeofday
  pub shell : ℕ → Bytes → ℕ  -- the return value of system(), by its number and command
  pub others : ℕ → List Slot → List Slot  -- what other threads do to the slots in the n-th sleep
  pub init_complete : Bytes → Option ℕ  -- the domain that vmi_init_complete finds by its name
  pub fuel : ℕ

-- `agents` maps a name to the number of its HAConfig; `configs` are the objects on the heap.
pub record World (Guest : Type 0) : Type 0 where
  pub engine : Engine
  pub guest : ℕ → Guest  -- by domain
  pub domain : ℕ → ℕ  -- the domain that a handle was initialised for
  pub slots : List Slot
  pub base_mountpoint : Bytes
  pub ghost_image : Bytes
  pub vmi_lock : Bool  -- vmi_global_lock
  pub lk : Bool
  pub agents : List (Bytes × ℕ)
  pub configs : List HaConfig
  pub log : List Bytes  -- the commands given to system(), oldest first
  pub listens : ℕ
  pub clock : ℕ
  pub sleeps : ℕ

module _ {Guest : Type 0} where
  abbrev pub update : (ℕ → Guest) → ℕ → Guest → ℕ → Guest
  update f i g j = if i == j then g else f j

  abbrev pub guest_at : World Guest → ℕ → Guest
  guest_at w h = w.guest (w.domain h)

  abbrev pub set_guest : World Guest → ℕ → Guest → World Guest
  set_guest w h g = record w { guest = update w.guest (w.domain h) g }

  -- The state that a callback for the VMI instance `h` works on, and writing it back.
  abbrev pub machine_at : World Guest → ℕ → Machine Guest
  machine_at w h = record { engine = w.engine; guest = guest_at w h }

  abbrev pub set_machine : World Guest → ℕ → Machine Guest → World Guest
  set_machine w h m = record w { engine = m.engine; guest = update w.guest (w.domain h) m.guest }
