-- ===== src/Actuators/Nics/Walk.antt =====
-- How actuators/13.c ends: its loop over the kernel's list of devices does not get past the first.
use hyperagents.Base.{ℕ, suc, ◌+◌, ◌≡◌, ◌≢◌, refl, some, ◌∷◌, length, ne→==, or_keep, arith}
use hyperagents.Base.Text.{Bytes}
use hyperagents.Engine.{u64}
use hyperagents.Effect.{fault, buffer_overflow, and_then}
use hyperagents.Actuators.{Peek, u64_sub}
use hyperagents.Actuators.Nics.{Offsets, hardware_of, device, nics_loop, nics}
use hyperagents.Actuators.Nics.Mac.{format_mac_overflows}

-- What is read of the hardware address of the first device.
abbrev pub first_hardware : {Guest : Type 0} → Peek Guest → Offsets → Guest → ℕ → Bytes
first_hardware peek off g init_net =
    hardware_of peek off
      (u64_sub
        (or_keep
          (peek.read_addr_va (peek.pause_vm g)
            (u64 (u64_sub (u64 (init_net + off.net)) off.net + off.dev)) 0)
          0)
        off.dev_list)
      (peek.pause_vm g)

-- As it stands, with its buffer of two bytes, the actuator overflows it at the first device, where
-- LibVMI finds init_net and a byte of the hardware address can be read. The fuel is not 0.
pub nics_overflows :
    {Guest : Type 0} (peek : Peek Guest) (off : Offsets) (g : Guest) (init_net fuel b : ℕ)
    (bs : Bytes)
    → peek.translate_ksym2v (peek.pause_vm g) "init_net" ≡ some init_net
    → first_hardware peek off g init_net ≡ b ∷ bs
    → nics peek off (suc fuel) g ≡ fault buffer_overflow
unfolding nics nics_loop device
nics_overflows peek off g init_net fuel b bs symbol read_some =
    let some_bytes : suc (length bs) ≢ 0 = omega arith in
    rw (symbol, and_then)
      (rw (read_some, ne→== _ _ some_bytes)
        (rw (format_mac_overflows (peek.pause_vm g) b bs, and_then) refl))
