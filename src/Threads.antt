-- ===== src/Threads.antt =====
-- Several threads in request_mount and release_mount (libhyperagent/syncmount.cc) at once. A step is
-- an access to the shared records or to `lk`: the test of a record, its try_lock, its count, the writes
-- that give it to an instance, or its time, which may be any. The scan for the least recently used
-- record is one step, under `lk`. Calls of LibVMI and the commands touch none of this, and are left
-- out.
pub mod Runs
pub mod Kinds
pub mod Exclusion
pub mod Race
pub mod Scans
pub mod Alone
pub mod Twice
use hyperagents.Base.{ℕ, suc, ◌≡◌, ◌≢◌, Bool, true, false, some, List, length, get_elem?}
use hyperagents.Base.Int.{ℤ, pos, ◌<ℤ◌, ◌≤ℤ◌}
use hyperagents.World.{Timeval, Slot, update}
use hyperagents.Slots.{Best, scan_lru, alter, reuse, claim, steal, stamp, drop_ref}

pub record Shared : Type 0 where
  pub slots : List Slot
  pub lk : Bool

-- Where a thread stands, with its instance and local variables.
pub data Pc : Type 0 where
  idle : Pc
  searching : (h i : ℕ) → Pc  -- the first loop, before the test of record `i`
  found : (h i : ℕ) → Pc  -- before `refcount++`
  counted : (h i : ℕ) → Pc  -- before the time of a remount
  trying : (h i : ℕ) → Pc  -- the second loop, before the try_lock of record `i`
  won : (h i : ℕ) → Pc  -- behind a try_lock that succeeded
  mounting : (h i : ℕ) → Pc  -- in do_nbd_mount
  asking : (h : ℕ) → Best → Pc  -- before `lk.lock()`
  holding : (h : ℕ) → Best → Pc  -- before the scan
  stealing : (h i : ℕ) → Pc  -- behind the loop, in do_nbd_unmount
  stolen : (h i : ℕ) → Pc  -- in do_nbd_mount, `lk` held
  using : (h i : ℕ) → Pc  -- request_mount has returned `i`

abbrev pub try_lock : Slot → Slot
try_lock s = record s { l = true }

abbrev pub nothing : Best
nothing = record { max = pos 0; maxix = 0 }

-- One step of one thread.
pub data Move (m : Shared) : Pc → Shared → Pc → Type 0 where
  call : {h : ℕ} → Move m idle m (searching h 0)
  hit :
      {h i : ℕ} {s : Slot}
      → get_elem? m.slots i ≡ some s
      → s.vmi ≡ some h
      → Move m (searching h i) m (found h i)
  miss :
      {h i : ℕ} {s : Slot}
      → get_elem? m.slots i ≡ some s
      → s.vmi ≢ some h
      → Move m (searching h i) m (searching h (suc i))
  not_there : {h : ℕ} → Move m (searching h (length m.slots)) m (trying h 0)
  count : {h i : ℕ} → Move m (found h i) (record m { slots = alter i reuse m.slots }) (counted h i)
  remounted :
      {h i : ℕ} (t : Timeval)
      → Move m (counted h i) (record m { slots = alter i (stamp t) m.slots }) (using h i)
  win :
      {h i : ℕ} {s : Slot}
      → get_elem? m.slots i ≡ some s
      → s.l ≡ false
      → Move m (trying h i) (record m { slots = alter i try_lock m.slots }) (won h i)
  lose :
      {h i : ℕ} {s : Slot}
      → get_elem? m.slots i ≡ some s
      → s.l ≡ true
      → Move m (trying h i) m (trying h (suc i))
  all_held : {h : ℕ} → Move m (trying h (length m.slots)) m (asking h nothing)
  take :
      {h i : ℕ}
      → Move m (won h i) (record m { slots = alter i (claim i (some h)) m.slots }) (mounting h i)
  mounted :
      {h i : ℕ} (t : Timeval)
      → Move m (mounting h i) (record m { slots = alter i (stamp t) m.slots }) (using h i)
  lock :
      {h : ℕ} {b : Best} → m.lk ≡ false → Move m (asking h b) (record m { lk = true }) (holding h b)
  unlucky :
      {h : ℕ} {b : Best} (c : Timeval)
      → (scan_lru c 0 m.slots b).max <ℤ pos 10000
      → Move m (holding h b) (record m { lk = false }) (asking h (scan_lru c 0 m.slots b))
  nominate :
      {h : ℕ} {b : Best} (c : Timeval)
      → pos 10000 ≤ℤ (scan_lru c 0 m.slots b).max
      → Move m (holding h b) m (stealing h (scan_lru c 0 m.slots b).maxix)
  seize :
      {h i : ℕ}
      → Move m (stealing h i) (record m { slots = alter i (steal i (some h)) m.slots }) (stolen h i)
  settle :
      {h i : ℕ} (t : Timeval)
      → Move m (stolen h i) (record { slots = alter i (stamp t) m.slots; lk = false }) (using h i)
  release : {h i : ℕ} → Move m (using h i) (record m { slots = alter i drop_ref m.slots }) idle

-- All threads, each with a number. Most of them may stay idle.
pub record Threads : Type 0 where
  pub shared : Shared
  pub pc : ℕ → Pc

pub data Step (s : Threads) : Threads → Type 0 where
  pick :
      (i : ℕ) {m : Shared} {p : Pc}
      → Move s.shared (s.pc i) m p
      → Step s (record { shared = m; pc = update s.pc i p })

-- Behind the constructor, with `lk` free, every thread is idle.
abbrev pub init : List Slot → Threads
init ss = record { shared = record { slots = ss; lk = false }; pc = λ i. Pc.idle }

pub data Reach (ss : List Slot) : Threads → Type 0 where
  at_first : Reach ss (init ss)
  later : {s s' : Threads} → Reach ss s → Step s s' → Reach ss s'
