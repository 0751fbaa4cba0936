-- ===== src/Slots.antt =====
-- The slot table of libhyperagent/syncmount.cc: the scans of request_mount and the updates of one
-- record, as functions on the vector `syncmount_records`.
pub mod Lru
pub mod Table
pub mod Grants
pub mod View
use hyperagents.Base.{
  ℕ, zero, suc, ◌+◌, true, false, Option, none, some, List, [], ◌∷◌, ◌&&◌, if◌then◌else◌,
}
use hyperagents.Base.Int.{ℤ, pos, negsuc, ltb_ℤ, eqb_ℤ, ◌+ℤ◌, ◌-ℤ◌}
use hyperagents.Engine.{u64}
use hyperagents.World.{Handle, handle_eq, Timeval, Slot}
use hyperagents.Clock.{timeval_diff}

abbrev pub devmax : ℕ
devmax = 16

-- The default constructor of syncmount_record, then the loop body of the constructor of syncmount.
-- `l.unlock()` on a mutex that is free leaves it free.
unfoldable pub new_slot : Timeval → Slot
new_slot t = record {
  valid = 1;
  calls = 0;
  mountindex = negsuc 0;
  refcount = pos 0;
  last_used = t;
  vmi = none;
  l = false;
}

-- The first loop of request_mount: the first record of this VMI instance.
unfoldable pub find_vmi : Handle → List Slot → Option ℕ
find_vmi h [] = none
find_vmi h (s ∷ ss) =
    if handle_eq s.vmi h
    then some 0
    else elim (find_vmi h ss) [ none ↦ none | some i ↦ some (suc i) ]

-- The second loop: the first record whose try_lock succeeds.
unfoldable pub find_unlocked : List Slot → Option ℕ
find_unlocked [] = none
find_unlocked (s ∷ ss) =
    if s.l then elim (find_unlocked ss) [ none ↦ none | some i ↦ some (suc i) ] else some 0

-- The variables `max` and `maxix` of the third loop.
pub record Best : Type 0 where
  pub max : ℤ
  pub maxix : ℕ

-- The body of the third loop at index `i`, at the time `c`.
unfoldable pub consider : Timeval → ℕ → Slot → Best → Best
consider c i s b =
    let d = timeval_diff s.last_used c in
    if eqb_ℤ s.refcount (pos 0) && ltb_ℤ b.max d then record { max = d; maxix = i } else b

unfoldable pub scan_lru : Timeval → ℕ → List Slot → Best → Best
scan_lru c i [] b = b
scan_lru c i (s ∷ ss) b = scan_lru c (suc i) ss (consider c i s b)

unfoldable pub alter : ℕ → (Slot → Slot) → List Slot → List Slot
alter i f [] = []
alter zero f (s ∷ ss) = f s ∷ ss
alter (suc i) f (s ∷ ss) = s ∷ alter i f ss

-- `refcount++; calls++`
abbrev pub reuse : Slot → Slot
reuse s = record s { refcount = s.refcount +ℤ pos 1; calls = u64 (s.calls + 1) }

-- A slot that try_lock has just got, for the instance `h`.
abbrev pub claim : ℕ → Handle → Slot → Slot
claim i h s = record s {
  l = true;
  refcount = pos 1;
  mountindex = pos i;
  valid = 1;
  vmi = h;
  calls = u64 (s.calls + 1);
}

-- A slot taken from another instance; its mutex stays held.
abbrev pub steal : ℕ → Handle → Slot → Slot
steal i h s = record s { refcount = pos 1; mountindex = pos i; valid = 1; calls = 0; vmi = h }

abbrev pub stamp : Timeval → Slot → Slot
stamp t s = record s { last_used = t }

-- `refcount--`
abbrev pub drop_ref : Slot → Slot
drop_ref s = record s { refcount = s.refcount -ℤ pos 1 }
