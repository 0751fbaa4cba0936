-- ===== src/Actuators/Nics.antt =====
-- actuators/13.c: the network interfaces of a Linux guest. The offsets into the kernel's structures
-- are to be filled in, and are arguments. What is printed is left out, but for the line of each
-- interface, which is in the result.
pub mod Mac
pub mod Walk
use hyperagents.Base.{
  ℕ, zero, suc, ◌+◌, ◌*◌, ◌/◌, ◌%◌, ◌^◌, ◌++◌, Bool, true, false, Option, none, some, List, [], ◌∷◌,
  ltb, ◌==◌, if◌then◌else◌, or_keep, length,
}
use hyperagents.Base.Text.{Bytes, codes, to_string}
use hyperagents.Engine.{u64}
use hyperagents.Effect.{
  Outcome, running, buffer_overflow, uninitialised, ◌>>=◌, ◌>>◌, pure, fail, read, modify,
}
use hyperagents.Actuators.{Peek, u64_sub}
use hyperagents.Actuators.Hex.{hex_byte, scan_hex}

pub record Offsets : Type 0 where
  pub net : ℕ
  pub dev : ℕ
  pub dev_addr : ℕ
  pub ip_ptr : ℕ
  pub dev_list : ℕ
  pub ifa_list : ℕ
  pub ifa_address : ℕ

-- `ifname`, `mac`, `ip` and, once it is computed, `res`.
pub record Nic : Type 0 where
  pub ifname : Bytes
  pub mac : Bytes
  pub ip : Bytes
  pub res : ℕ

abbrev pub no_nic : Nic
no_nic = record { ifname = codes "mynic0"; mac = codes "123456"; ip = codes "12.34.56.78"; res = 0 }

-- The size of the buffer `z`.
abbrev pub z_size : ℕ
z_size = 2

-- After "%x" the format wants a colon.
unfoldable pub skip_colon : Bytes → Option Bytes
skip_colon [] = none
skip_colon (c ∷ cs) = if c == b':' then some cs else none

-- sscanf of `n` fields "%x" with colons between them: the values that it stores, the first in `u[5]`.
unfoldable pub scan_fields : ℕ → Bytes → List ℕ
unfolding skip_colon
scan_fields zero t = []
scan_fields (suc n) t = elim (scan_hex t) [
  | none ↦ []
  | some (v, rest) ↦ v ∷ elim (skip_colon rest) [ none ↦ [] | some t' ↦ scan_fields n t' ]
]

-- `res = (res << 8) + u[i]` from `u[0]` on, which holds the last value.
unfoldable pub join : List ℕ → ℕ
join [] = 0
join (v ∷ vs) = u64 (join vs * 256 + v)

-- inet_ntoa of an address in memory order.
unfoldable pub inet_ntoa : ℕ → Bytes
inet_ntoa a =
    to_string (a % 256)
    ++ codes "."
    ++ to_string (a / 256 % 256)
    ++ codes "."
    ++ to_string (a / 65536 % 256)
    ++ codes "."
    ++ to_string (a / 16777216 % 256)

module _ {Guest : Type 0} where
  -- sprintf of "%02x" into `z`: two digits and a NUL.
  unfoldable pub print_byte : ℕ → Guest → Outcome Guest Bytes
  print_byte b = if ltb 2 z_size then pure (hex_byte b) else fail buffer_overflow

  -- The loop over the bytes of the address, with colons between them.
  unfoldable pub format_mac : Bytes → Guest → Outcome Guest Bytes
  unfolding print_byte
  format_mac [] = pure []
  format_mac (b ∷ []) = print_byte b
  format_mac (b ∷ c ∷ rest) = do
    x ← print_byte b
    more ← format_mac (c ∷ rest)
    pure (x ++ b':' ∷ more)

  unfoldable pub mac_int : Bytes → Guest → Outcome Guest ℕ
  mac_int mac =
      let vs = scan_fields 6 mac in if length vs == 6 then pure (join vs) else fail uninitialised

module _ {Guest : Type 0} (peek : Peek Guest) (off : Offsets) where
  unfoldable pub address_of : ℕ → Guest → ℕ
  address_of current g =
      let ip4_ptr = or_keep (peek.read_addr_va g (u64 (current + off.ip_ptr)) 0) 0 in
      let ifa_ptr = or_keep (peek.read_addr_va g (u64 (ip4_ptr + off.ifa_list)) 0) 0 in
      or_keep (peek.read_32_va g (u64 (ifa_ptr + off.ifa_address)) 0) 0

  abbrev pub hardware_of : ℕ → Guest → Bytes
  hardware_of current g =
      peek.read_va g (or_keep (peek.read_addr_va g (u64 (current + off.dev_addr)) 0) 0) 0 6

  abbrev pub named : ℕ → Nic → Guest → Nic
  named current nic g = record nic {
    ifname = or_keep (peek.read_str_va g (u64 (current + 0)) 0) nic.ifname;
  }

  -- The body of the loop up to the line of the interface. `false`: the read error that breaks it.
  unfoldable pub device : ℕ → Nic → Guest → Outcome Guest (Nic × Bool)
  device current nic = do
    nic' ← read (named current nic)
    bytes ← read (hardware_of current)
    if length bytes == 0 then pure (nic', false) else do
      mac ← format_mac bytes
      res ← mac_int mac
      address ← read (address_of current)
      pure (record nic' { mac = mac; res = res; ip = inet_ntoa address }, true)

  -- The loop, with the lines printed so far; `head` is `net_list_head`.
  unfoldable pub nics_loop : ℕ → ℕ → ℕ → Nic → List Nic → Guest → Outcome Guest (Nic × List Nic)
  nics_loop zero head next nic lines = λ g. running
  nics_loop (suc fuel) head next nic lines = do
    (nic', more) ← device (u64_sub next off.dev_list) nic
    next' ← read (λ g. peek.read_addr_va g next 0)
    elim more [
      | false ↦ pure (nic', lines)
      | true ↦ elim next' [
        | none ↦ pure (nic', lines ++ nic' ∷ [])
        | some p ↦ elim (head == u64_sub (u64 (p + off.net)) off.dev) [
          | true ↦ pure (nic', lines ++ nic' ∷ [])
          | false ↦ nics_loop fuel head p nic' (lines ++ nic' ∷ [])
        ]
      ]
    ]

  unfoldable pub nics : ℕ → Guest → Outcome Guest (Nic × List Nic)
  nics fuel = do
    modify peek.pause_vm
    symbol ← read (λ g. peek.translate_ksym2v g "init_net")
    init_net ← elim symbol [ none ↦ fail uninitialised | some a ↦ pure a ]
    let head = u64 (init_net + off.net)
    first ← read (λ g. peek.read_addr_va g (u64 (u64_sub head off.net + off.dev)) 0)
    result ← nics_loop fuel head (or_keep first 0) no_nic []
    modify peek.resume_vm
    pure result
