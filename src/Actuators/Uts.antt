-- ===== src/Actuators/Uts.antt =====
-- actuators/14.c: what `uname` says of a Linux guest. The offsets are to be filled in, and are
-- arguments.
use hyperagents.Base.{ℕ, ◌+◌, Option, none, some}
use hyperagents.Base.Text.{Bytes}
use hyperagents.Engine.{u64}
use hyperagents.Effect.{Outcome, uninitialised, ◌>>=◌, pure, fail, read}
use hyperagents.Actuators.{Peek}

pub record UtsOffsets : Type 0 where
  pub uts_offset : ℕ
  pub sysoff : ℕ
  pub nodoff : ℕ
  pub reloff : ℕ
  pub veroff : ℕ
  pub macoff : ℕ
  pub domoff : ℕ

-- A string that cannot be read is NULL.
pub record Uts : Type 0 where
  pub sysn : Option Bytes
  pub node : Option Bytes
  pub rele : Option Bytes
  pub veri : Option Bytes
  pub mach : Option Bytes
  pub doma : Option Bytes

unfoldable pub uts : {Guest : Type 0} → Peek Guest → UtsOffsets → Guest → Outcome Guest Uts
uts peek off = do
  symbol ← read (λ g. peek.translate_ksym2v g "init_uts_ns")
  init_uts_ns ← elim symbol [ none ↦ fail uninitialised | some a ↦ pure a ]
  let at = λ (g : _) (o : ℕ). peek.read_str_va g (u64 (init_uts_ns + off.uts_offset + o)) 0
  read (λ g. record {
    sysn = at g off.sysoff;
    node = at g off.nodoff;
    rele = at g off.reloff;
    veri = at g off.veroff;
    mach = at g off.macoff;
    doma = at g off.domoff;
  })
