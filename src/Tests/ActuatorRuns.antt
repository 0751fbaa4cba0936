-- ===== src/Tests/ActuatorRuns.antt =====
-- The C actuators on a guest with two network interfaces and one process, and on one whose hardware
-- addresses cannot be read.
use hyperagents.Base.{
  ℕ, ◌-◌, ◌/◌, ◌≡◌, refl, Bool, true, false, Option, none, some, List, [], ◌∷◌, ◌==◌, if◌then◌else◌,
  replicate, arith,
}
use hyperagents.Base.Text.{Bytes, codes}
use hyperagents.Effect.{done, fault, buffer_overflow}
use hyperagents.Actuators.{Peek}
use hyperagents.Actuators.Nics.{Offsets, nics}
use hyperagents.Actuators.Nics.Walk.{nics_overflows}
use hyperagents.Actuators.Pages.{hash_pages}
use hyperagents.Actuators.Pages.Region.{texts_from, hash_pages_done}

abbrev cell : List (ℕ × ℕ) → ℕ → Option ℕ
cell [] a = none
cell ((b, v) ∷ rest) a = if a == b then some v else cell rest a

-- The list's head is at 0x1000, its first node at 0x2000, its second at 0x6000.
abbrev cells : List (ℕ × ℕ)
cells =
    (0x1010, 0x2000)
    ∷ (0x2000, 0x6000)
    ∷ (0x6000, 0x1010)
    ∷ (0x2008, 0x3000)
    ∷ (0x6008, 0x3100)
    ∷ (0x2018, 0x4000)
    ∷ (0x6018, 0x4100)
    ∷ (0x4000, 0x5000)
    ∷ (0x4100, 0x5100)
    ∷ (0x7000, 0x7100)
    ∷ (0x7100, 0x400000)
    ∷ (0x7108, 0x403000)
    ∷ []

abbrev hardware : Bytes
hardware = 0x52 ∷ 0x54 ∷ 0 ∷ 0x12 ∷ 0x34 ∷ 0x56 ∷ []

abbrev peek : Peek Bool
peek = record {
  read_addr_va = λ g a p. cell cells a;
  read_32_va = λ g a p. some 0x100007f;
  read_str_va = λ g a p. some (codes "eth0");
  read_va = λ g a p n. hardware;
  translate_ksym2v = λ g s. some 0x1000;
  pause_vm = λ g. true;
  resume_vm = λ g. false;
}

abbrev offsets : Offsets
offsets = record {
  net = 0;
  dev = 16;
  dev_addr = 8;
  ip_ptr = 24;
  dev_list = 0;
  ifa_list = 0;
  ifa_address = 0;
}

abbrev silent : Peek Bool
silent = record peek { read_va = λ g a p n. [] }

nics_overflows_example : nics peek offsets 2 false ≡ fault buffer_overflow
nics_overflows_example =
    nics_overflows peek offsets false 0x1000 1 0x52 (0x54 ∷ 0 ∷ 0x12 ∷ 0x34 ∷ 0x56 ∷ []) refl refl

abbrev no_hash : Bytes → Bytes
no_hash bs = replicate 32 0

hash_pages_done_example :
    hash_pages peek no_hash 1 0x7000 false
    ≡ done (some (texts_from peek no_hash 1 0x400000 ((0x403000 - 0x400000) / 4096) true)) false
hash_pages_done_example =
    hash_pages_done peek no_hash 1 false 0x7000 0x7100 0x400000 0x403000
      (record { vma = refl; start = refl; end = refl }) (omega arith) (omega arith) (omega arith)
      (omega arith) (omega arith)
