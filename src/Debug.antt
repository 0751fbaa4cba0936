-- ===== src/Debug.antt =====
-- The debug helpers of libhyperagent/syncmount.cc: what print_regs prints, as data, and how RDTSC puts
-- its number together. The instruction itself is inline assembly: its two halves are arguments.
use hyperagents.Base.{ℕ, ◌+◌, ◌-◌, ◌*◌, ◌^◌, List, [], ◌∷◌}
use hyperagents.Base.Text.{Bytes, codes}
use hyperagents.Vmi.{Regs, Vmi}
use hyperagents.Engine.{u64}

-- One line: the register, its value, and the value without the KASLR offset.
pub record RegLine : Type 0 where
  pub name : Bytes
  pub value : ℕ
  pub without_kaslr : ℕ

-- `rip-kaslr`, on 64-bit numbers.
unfoldable pub reg_line : Bytes → ℕ → ℕ → RegLine
reg_line name value kaslr = record {
  name = name;
  value = value;
  without_kaslr = u64 (value + 2 ^ 64 - kaslr);
}

-- The lines, and the return value. The registers are those of vCPU 0.
unfoldable pub print_regs : {Guest : Type 0} → Vmi Guest → Guest → ℕ → List RegLine × ℕ
unfolding reg_line
print_regs vmi g kaslr = (
  reg_line (codes "RIP") r.rip kaslr
      ∷ reg_line (codes "RSP") r.rsp kaslr
      ∷ reg_line (codes "RDI") r.rdi kaslr
      ∷ reg_line (codes "RAX") r.rax kaslr
      ∷ [],
  0,
)
  where
    r : Regs
    r = vmi.get_vcpuregs g 0

-- `((uint64_t) hi << 32) | lo`: the halves are of 32 bits, so nothing overlaps.
unfoldable pub rdtsc : ℕ → ℕ → ℕ
rdtsc hi lo = u64 (hi * 2 ^ 32) + lo
