-- ===== src/Engine.antt =====
-- The file-level state of libhyperagent/syncmount.cc: flags, breakpoint sites, saved registers.
-- It outlives a call of do_sync, and every syncmount object of the process shares it.
use hyperagents.Base.{ℕ, ◌*◌, ◌/◌, ◌%◌, ◌^◌}
use hyperagents.Base.Int.{ℤ, pos}

-- uint64_t arithmetic.
abbrev pub u64 : ℕ → ℕ
u64 n = n % 2 ^ 64

-- `a & ~0x7`
abbrev pub mask_low : ℕ → ℕ
mask_low a = a / 8 * 8

abbrev pub breakpoint_byte : ℕ
breakpoint_byte = 0xCC

-- One patched instruction: its address, the byte under the breakpoint, and the aligned word around
-- it (`qworko`, `qworko_byte`, `qworko_orig`, and so on).
pub record Site : Type 0 where
  pub addr : ℕ
  pub byte : ℕ
  pub orig : ℕ

pub record Engine : Type 0 where
  pub interrupted : ℤ
  pub do_cleanup : ℕ
  pub quiet_qwork : ℕ
  pub safety : ℕ
  pub sys_sync_front : Site
  pub sys_sync_back : Site
  pub qworko : Site
  pub dwork : Site
  pub dwork_back : Site
  pub step_rewrite_loc : ℕ
  pub target_work_fn : ℕ
  pub kaslr_offset : ℕ
  pub our_stack : ℕ
  pub our_frame : ℕ
  pub saved_rdi : ℕ
  pub saved_rsi : ℕ
  pub saved_rdx : ℕ

abbrev pub no_site : Site
no_site = record { addr = 0; byte = 0; orig = 0 }

-- The initialisers; the last three have static storage, so they start at 0.
abbrev pub initial : Engine
initial = record {
  interrupted = pos 0;
  do_cleanup = 0;
  quiet_qwork = 0;
  safety = 0;
  sys_sync_front = no_site;
  sys_sync_back = no_site;
  qworko = no_site;
  dwork = no_site;
  dwork_back = no_site;
  step_rewrite_loc = 0;
  target_work_fn = 0;
  kaslr_offset = 0;
  our_stack = 0;
  our_frame = 0;
  saved_rdi = 0;
  saved_rsi = 0;
  saved_rdx = 0;
}

-- What a callback works on: the state above, and the guest of its VMI instance.
pub record Machine (Guest : Type 0) : Type 0 where
  pub engine : Engine
  pub guest : Guest
