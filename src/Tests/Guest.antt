-- ===== src/Tests/Guest.antt =====
-- A guest with a byte memory and one vCPU, on which the assumptions about LibVMI hold.
use hyperagents.Base.{
  ℕ, ◌+◌, ◌*◌, ◌≡◌, refl, Bool, true, false, Option, none, some, [], String, ◌==◌, if◌then◌else◌,
  eq→==, ne→==, replicate,
}
use text.Mathlib.Text.{◌==◌ as str_eq}
use hyperagents.Base.Int.{pos}
use hyperagents.Base.Text.{codes}
use hyperagents.Vmi.{Regs, Event, interrupt, singlestep, Vmi, VmiLaws}
use hyperagents.Engine.{initial}
use hyperagents.World.{Delivery, Round, Env, World}

pub record Machine64 : Type 0 where
  pub mem : ℕ → ℕ
  pub regs : Regs
  pub paused : Bool

abbrev pub word_at : (ℕ → ℕ) → ℕ → ℕ
word_at mem a = mem a + 256 * mem (a + 1)

abbrev pub symbol : String → Option ℕ
symbol s =
    if str_eq s "queue_work_on"
    then some 0x1000
    else if str_eq s "deferred_probe_work_func"
    then some 0x2000
    else if str_eq s "sys_sync"
    then some 0x3000
    else none

abbrev pub guest_vmi : Vmi Machine64
guest_vmi = record {
  read_8_va = λ g a. some (g.mem a);
  read_64_va = λ g a. some (word_at g.mem a);
  write_8_va = λ g a v. record g { mem = λ c. if a == c then v else g.mem c };
  get_vcpuregs = λ g cpu. g.regs;
  translate_ksym2v = λ g s. symbol s;
  get_vmid = λ g. 7;
  get_name = λ g. codes "guest";
  get_ostype = λ g. 1;
  os_linux = 1;
  pause_vm = λ g. record g { paused = true };
  resume_vm = λ g. record g { paused = false };
  register_event = λ g k. g;
  clear_event = λ g k. g;
  respond = λ g cpu r regs. if r.set_registers then record g { regs = regs } else g;
  destroy = λ g. g;
}

abbrev pub Anywhere : ℕ → Type 0
Anywhere a = Unit {0}

read-respond_lem :
    (g : Machine64) (r : Bool) (regs : Regs) (c : ℕ)
    → ◌≡◌ {A = Option ℕ} (some ((if r then record g { regs = regs } else g).mem c)) (some (g.mem c))
read-respond_lem g true regs c = refl
read-respond_lem g false regs c = refl

pub guest_laws : VmiLaws guest_vmi Anywhere
guest_laws = record {
  read-write_self = λ g a v here. rw (eq→== a a refl);
  read-write_ne = λ g a c v h. rw (ne→== a c h);
  read-pause = λ g c. refl;
  read-resume = λ g c. refl;
  read-register = λ g k c. refl;
  read-clear = λ g k c. refl;
  read-respond = λ g cpu r regs c. read-respond_lem g r.set_registers regs c;
}

-- The vCPU with its instruction pointer at `a`.
abbrev pub regs_at : ℕ → Regs
regs_at a = record { rip = a; rsp = 0x500; rbp = 0x600; rax = 0; rdi = 11; rsi = 12; rdx = 0x4000 }

abbrev pub event_at : ℕ → Event
event_at a = record { vcpu_id = 0; x86_regs = regs_at a; reinject = 1 }

-- The guest runs into the breakpoint at `a`; then its single step.
abbrev pub trap_at : ℕ → Delivery Machine64
trap_at a = record {
  kind = interrupt;
  ran = λ g. record g { regs = regs_at a };
  event = event_at a;
}

abbrev pub step_at : ℕ → Delivery Machine64
step_at a = record {
  kind = singlestep;
  ran = λ g. record g { regs = regs_at a };
  event = event_at a;
}

-- 0x90 everywhere.
abbrev pub fresh_guest : Machine64
fresh_guest = record { mem = λ a. 0x90; regs = regs_at 0; paused = false }

-- One call of vmi_events_listen brings 51 breakpoint events.
abbrev pub busy_round : Round Machine64
busy_round = record { deliveries = replicate 51 (trap_at 0x1000); success = true }

abbrev pub test_env : Env Machine64
test_env = record {
  vmi = guest_vmi;
  listen = λ n. busy_round;
  time_of_day = λ n. record { tv_sec = pos (1000 + 20 * n); tv_usec = pos 0 };
  shell = λ n cmd. 0;
  others = λ n slots. slots;
  init_complete = λ name. some 3;
  fuel = 2;
}

abbrev pub test_world : World Machine64
test_world = record {
  engine = initial;
  guest = λ d. fresh_guest;
  domain = λ h. h;
  slots = [];
  base_mountpoint = codes "/mnt/";
  ghost_image = codes "/ghost.img";
  vmi_lock = false;
  lk = false;
  agents = [];
  configs = [];
  log = [];
  listens = 0;
  clock = 0;
  sleeps = 0;
}
