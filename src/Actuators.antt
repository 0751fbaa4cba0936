-- ===== src/Actuators.antt =====
-- The actuators in C, actuators/13.c to actuators/15.c: pieces of code that read a paused guest
-- through LibVMI. Each is a function of the guest; what it prints is its result, or left out.
pub mod Hex
pub mod Nics
pub mod Uts
pub mod Pages
use hyperagents.Base.{ℕ, ◌+◌, ◌-◌, ◌%◌, ◌^◌, String, Option}
use hyperagents.Base.Text.{Bytes}
use hyperagents.Engine.{u64}

-- The reads of LibVMI that they use, without the prefix `vmi_`. `read_va` gives the bytes that it
-- read, at most as many as were asked for. The third argument of the calls is a process's number.
pub record Peek (Guest : Type 0) : Type 0 where
  pub read_addr_va : Guest → ℕ → ℕ → Option ℕ
  pub read_32_va : Guest → ℕ → ℕ → Option ℕ
  pub read_str_va : Guest → ℕ → ℕ → Option Bytes
  pub read_va : Guest → ℕ → ℕ → ℕ → Bytes
  pub translate_ksym2v : Guest → String → Option ℕ
  pub pause_vm : Guest → Guest
  pub resume_vm : Guest → Guest

-- addr_t arithmetic; an offset is below 2^64.
abbrev pub u64_sub : ℕ → ℕ → ℕ
u64_sub a b = u64 (a + 2 ^ 64 - b)
