-- ===== src/Threads/Race.antt =====
-- The first loop of request_mount (libhyperagent/syncmount.cc) takes no lock: between its test of a
-- record and its count, another thread can steal the record.
use hyperagents.Base.{ℕ, ◌≡◌, ◌≢◌, refl, sym, ◌∙◌, false, some, get_elem?}
use hyperagents.Base.Int.{pos, ◌≤ℤ◌}
use hyperagents.World.{Timeval, Slot, update}
use hyperagents.Slots.{Best, scan_lru, alter, reuse, steal, stamp}
use hyperagents.Slots.Table.{get_elem?-alter_self}
use hyperagents.Threads.Runs.{Later, now, then, update_self, update_other, step_at}
use hyperagents.Threads.{
  found, counted, holding, stealing, stolen, using, count, remounted, nominate, seize, settle,
  Threads,
}

module _ (s : Threads) (i j h g : ℕ) (b : Best) (c t : Timeval) where
  -- The record that thread `j` nominates.
  abbrev pub victim : ℕ
  victim = (scan_lru c 0 s.shared.slots b).maxix

  abbrev nominated : Threads
  nominated = record s { pc = update s.pc j (stealing g victim) }

  abbrev reused : Threads
  reused = record {
    shared = record s.shared { slots = alter victim reuse s.shared.slots };
    pc = update nominated.pc i (counted h victim);
  }

  abbrev returned : Threads
  returned = record {
    shared = record s.shared { slots = alter victim (stamp t) reused.shared.slots };
    pc = update reused.pc i (using h victim);
  }

  abbrev seized : Threads
  seized = record {
    shared = record s.shared { slots = alter victim (steal victim (some g)) returned.shared.slots };
    pc = update returned.pc j (stolen g victim);
  }

  abbrev settled : Threads
  settled = record {
    shared = record { slots = alter victim (stamp t) seized.shared.slots; lk = false };
    pc = update seized.pc j (using g victim);
  }

  -- Whatever the state: if thread `i` has found the record of its instance `h` and has not counted
  -- itself yet, and thread `j`, for instance `g`, holds `lk` and its scan nominates that record, then
  -- the two can go on so that request_mount returns the same slot to both, while the record is `g`'s
  -- and has one reference.
  pub remount_stolen :
      (r : Slot)
      → i ≢ j
      → get_elem? s.shared.slots victim ≡ some r
      → s.pc i ≡ found h victim
      → s.pc j ≡ holding g b
      → pos 10000 ≤ℤ (scan_lru c 0 s.shared.slots b).max
      → (s' : Threads) × Later s s'
        × (s'.pc i ≡ using h victim)
        × (s'.pc j ≡ using g victim)
        × (r' : Slot) × (get_elem? s'.shared.slots victim ≡ some r')
        × (r'.vmi ≡ some g)
        × (r'.refcount ≡ pos 1)
  remount_stolen r ne there at_found at_holding long = (
    settled,
    then
        (then
          (then
            (then (then now (step_at s j (holding g b) at_holding (nominate c long)))
              (step_at nominated i (found h victim) (i_found ∙ at_found) count))
            (step_at reused i (counted h victim) (update_self nominated.pc i _) (remounted t)))
          (step_at returned j (stealing g victim) j_stealing seize))
        (step_at seized j (stolen g victim) (update_self returned.pc j _) (settle t)),
    update_other seized.pc j i _ ne'
        ∙ update_other returned.pc j i _ ne'
        ∙ update_self reused.pc i _,
    update_self seized.pc j _,
    stamp t (steal victim (some g) (stamp t (reuse r))),
    get_elem?-alter_self victim (stamp t) seized.shared.slots _ (
        get_elem?-alter_self victim (steal victim (some g)) returned.shared.slots _ (
          get_elem?-alter_self victim (stamp t) reused.shared.slots _
            (get_elem?-alter_self victim reuse s.shared.slots r there))),
    refl,
    refl,
  )
    where
      ne' : j ≢ i
      ne' e = ne (sym e)

      i_found : nominated.pc i ≡ s.pc i
      i_found = update_other s.pc j i _ ne'

      j_stealing : returned.pc j ≡ stealing g victim
      j_stealing =
          update_other reused.pc i j _ ne
          ∙ update_other nominated.pc i j _ ne
          ∙ update_self s.pc j _
