-- ===== src/Vmi.antt =====
-- LibVMI as libhyperagent calls it (libhyperagent/syncmount.cc, libhyperagent/libhyperagent.cc).
-- LibVMI and the guest behind it are not part of the repository: the guest is a type, the calls
-- are the fields of `Vmi`, and the behaviour that the code relies on is `VmiLaws`.
use hyperagents.Base.{ℕ, ◌≡◌, ◌≢◌, Bool, Option, some, String}
use hyperagents.Base.Text.{Bytes}

-- The registers that the callbacks read or write.
pub record Regs : Type 0 where
  pub rip : ℕ
  pub rsp : ℕ
  pub rbp : ℕ
  pub rax : ℕ
  pub rdi : ℕ
  pub rsi : ℕ
  pub rdx : ℕ

-- event_response_t: the two flags that the callbacks use.
pub record Response : Type 0 where
  pub toggle_singlestep : Bool
  pub set_registers : Bool

-- vmi_event_t: the vCPU that trapped, its registers, and `interrupt_event.reinject`.
pub record Event : Type 0 where
  pub vcpu_id : ℕ
  pub x86_regs : Regs
  pub reinject : ℕ

pub data EventKind : Type 0 where
  interrupt singlestep : EventKind

-- The calls, each without its `vmi_` prefix, on the guest that the instance refers to. A read or a
-- translation is `none` where LibVMI fails. The status of the other calls is only ever printed, so
-- they return the guest alone.
pub record Vmi (Guest : Type 0) : Type 0 where
  pub read_8_va : Guest → ℕ → Option ℕ
  pub read_64_va : Guest → ℕ → Option ℕ
  pub write_8_va : Guest → ℕ → ℕ → Guest
  pub get_vcpuregs : Guest → ℕ → Regs
  pub translate_ksym2v : Guest → String → Option ℕ
  pub get_vmid : Guest → ℕ
  pub get_name : Guest → Bytes
  pub get_ostype : Guest → ℕ
  pub os_linux : ℕ  -- VMI_OS_LINUX
  pub pause_vm : Guest → Guest
  pub resume_vm : Guest → Guest
  pub register_event : Guest → EventKind → Guest
  pub clear_event : Guest → EventKind → Guest
  -- what LibVMI does with a callback's answer: the vCPU, the answer, the event's registers
  pub respond : Guest → ℕ → Response → Regs → Guest
  pub destroy : Guest → Guest

-- What the code relies on: at a resident address (kernel text, which is always mapped) a byte that
-- was written is read back; a write changes no other address; control calls leave memory alone.
pub record VmiLaws {Guest : Type 0} (vmi : Vmi Guest) (Resident : ℕ → Type 0) : Type 0 where
  pub read-write_self :
      (g : Guest) (a v : ℕ) → Resident a → vmi.read_8_va (vmi.write_8_va g a v) a ≡ some v
  pub read-write_ne :
      (g : Guest) (a c v : ℕ) → a ≢ c → vmi.read_8_va (vmi.write_8_va g a v) c ≡ vmi.read_8_va g c
  pub read-pause : (g : Guest) (c : ℕ) → vmi.read_8_va (vmi.pause_vm g) c ≡ vmi.read_8_va g c
  pub read-resume : (g : Guest) (c : ℕ) → vmi.read_8_va (vmi.resume_vm g) c ≡ vmi.read_8_va g c
  pub read-register :
      (g : Guest) (k : EventKind) (c : ℕ)
      → vmi.read_8_va (vmi.register_event g k) c ≡ vmi.read_8_va g c
  pub read-clear :
      (g : Guest) (k : EventKind) (c : ℕ)
      → vmi.read_8_va (vmi.clear_event g k) c ≡ vmi.read_8_va g c
  pub read-respond :
      (g : Guest) (cpu : ℕ) (r : Response) (regs : Regs) (c : ℕ)
      → vmi.read_8_va (vmi.respond g cpu r regs) c ≡ vmi.read_8_va g c
