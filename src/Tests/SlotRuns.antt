-- ===== src/Tests/SlotRuns.antt =====
-- request_mount and release_mount on the test guest.
use hyperagents.Base.{
  ℕ, zero, suc, ◌≡◌, refl, arith, some, [], ◌∷◌, true, inr, List, replicate, get_elem?,
}
use hyperagents.Base.Int.{pos, ◌-ℤ◌, ◌+ℤ◌, ◌*ℤ◌, quot_ℕ}
use hyperagents.Clock.{timeval_diff}
use hyperagents.Base.Text.{codes}
use hyperagents.World.{Timeval, Slot, Env}
use hyperagents.Effect.Rules.{Ensures, Returns}
use hyperagents.Slots.{new_slot, alter, drop_ref}
use hyperagents.Slots.Table.{IsTable}
use hyperagents.Syncmount.{spin, request_mount, no_best}
use hyperagents.Syncmount.Spin.{Spun, slots_after, spin-Returns}
use hyperagents.Syncmount.Request.{Granted, Fair, request_mount-Granted}
use hyperagents.Syncmount.Refines.{Served, request_mount-Serves}
use hyperagents.Tests.Guest.{Machine64, test_env, test_world}

abbrev pub start : Timeval
start = record { tv_sec = pos 1000; tv_usec = pos 0 }

pub get_elem?-replicate : (n i : ℕ) (x s : Slot) → get_elem? (replicate n x) i ≡ some s → s ≡ x
get_elem?-replicate zero i x s e = cc
get_elem?-replicate (suc n) zero x s e = ground arith
get_elem?-replicate (suc n) (suc i) x s e = get_elem?-replicate n i x s e

abbrev pub fresh_slots : List Slot
fresh_slots = replicate 16 (new_slot start)

pub fresh_slots-IsTable : IsTable fresh_slots
unfolding new_slot
fresh_slots-IsTable = record {
  size = refl;
  slots_ok = λ i s e.
      rw (get_elem?-replicate 16 i (new_slot start) s e)
        (omega arith, inr (refl, refl, refl, refl));
  unique = λ i j h s t es et hs ht.
      absurd (ground (arith, get_elem?-replicate 16 i (new_slot start) s es, hs));
}

pub nobody_else : Fair test_env 0
nobody_else = record {
  in_order = λ n ss table. table;
  absent = λ n ss absent. absent;
  locked = λ n ss locked. locked;
}

request_mount-Granted_example : Ensures (Granted 0) (
    request_mount test_env (some 0) (codes "/disk.img") (record test_world { slots = fresh_slots }))
request_mount-Granted_example =
    request_mount-Granted test_env 0 (codes "/disk.img") (record test_world { slots = fresh_slots })
      fresh_slots-IsTable nobody_else

request_mount-Serves_example : Ensures (Served test_env 0 fresh_slots) (
    request_mount test_env (some 0) (codes "/disk.img") (record test_world { slots = fresh_slots }))
request_mount-Serves_example =
    request_mount-Serves test_env 0 (codes "/disk.img") (record test_world { slots = fresh_slots })
      fresh_slots-IsTable nobody_else

-- Another thread releases slot 0 while request_mount sleeps.
abbrev releasing_env : Env Machine64
releasing_env = record test_env { others = λ n ss. alter 0 drop_ref ss }

abbrev used_slot : Slot
used_slot = record (new_slot start) { l = true; refcount = pos 1; vmi = some 1; mountindex = pos 0 }

spin-Returns_example :
    Returns
      (Spun releasing_env)
      (spin releasing_env 2 (no_best releasing_env) (record test_world { slots = used_slot ∷ [] }))
unfolding slots_after alter ◌-ℤ◌ timeval_diff ◌+ℤ◌ ◌*ℤ◌ new_slot quot_ℕ
spin-Returns_example =
    spin-Returns releasing_env 1 0 (drop_ref used_slot) (no_best releasing_env)
      (record test_world { slots = used_slot ∷ [] }) refl (omega arith) refl refl (omega arith)
