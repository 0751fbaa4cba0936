-- ===== src/Tests/ThreadRuns.antt =====
-- Two threads on a table with one record, a step at a time.
use hyperagents.Base.{ℕ, ◌≡◌, ◌≢◌, refl, true, some, List, [], ◌∷◌, get_elem?, arith}
use hyperagents.Base.Int.{pos, ◌+ℤ◌, ◌-ℤ◌, ◌*ℤ◌, quot_ℕ}
use hyperagents.World.{Timeval, Slot}
use hyperagents.Clock.{timeval_diff}
use hyperagents.Threads.Twice.{For, mounted_twice}
use hyperagents.Slots.{find_vmi, find_unlocked, new_slot, alter, scan_lru, consider}
use hyperagents.Threads.{
  init, call, hit, miss, not_there, win, lose, all_held, take, mounted, lock, release, nothing,
  using, Threads, pick, Reach, at_first, later,
}
use hyperagents.Threads.Kinds.{thief, Locked, claimant}
use hyperagents.Threads.Exclusion.{one_thief, one_claimant}
use hyperagents.Threads.Runs.{Later}
use hyperagents.Threads.Race.{remount_stolen}
use hyperagents.Base.Text.{codes}
use hyperagents.Effect.Rules.{Ensures}
use hyperagents.Syncmount.{request_mount}
use hyperagents.Threads.Alone.{Went, request_mount-Went}
use hyperagents.Tests.Guest.{test_env, test_world}
use hyperagents.Tests.SlotRuns.{start, fresh_slots}

abbrev table : List Slot
table = new_slot start ∷ []

-- Thread 0 has won the record for instance 1.
abbrev winning : (s : Threads) × Reach table s
unfolding alter new_slot
winning = (
  _,
  later
      (later (later (later at_first (pick 0 (call {h = 1}))) (pick 0 (miss refl (λ e. cc))))
        (pick 0 not_there))
      (pick 0 (win refl refl)),
)

-- It has mounted the record, released it, and found it again.
abbrev found_again : (s : Threads) × Reach table s
unfolding alter new_slot winning
found_again = (
  _,
  later
      (later
        (later (later (later winning.1 (pick 0 take)) (pick 0 (mounted start))) (pick 0 release))
        (pick 0 (call {h = 1})))
      (pick 0 (hit refl refl)),
)

-- Thread 1, for instance 2, found the record held, and has `lk`.
abbrev racing : (s : Threads) × Reach table s
unfolding alter new_slot found_again
racing = (
  _,
  later
      (later
        (later
          (later
            (later (later found_again.1 (pick 1 (call {h = 2}))) (pick 1 (miss refl (λ e. cc))))
            (pick 1 not_there))
          (pick 1 (lose refl refl)))
        (pick 1 all_held))
      (pick 1 (lock refl)),
)

one_claimant_example :
    Locked 0 winning.0.shared.slots
    × ((j : ℕ) → claimant (winning.0.pc j) ≡ some 0 → ◌≡◌ {A = ℕ} 0 j)
unfolding winning
one_claimant_example = one_claimant winning.1 0 0 refl

one_thief_example :
    ((i j : ℕ) → thief (racing.0.pc i) ≡ true → thief (racing.0.pc j) ≡ true → i ≡ j)
    × ((i : ℕ) → thief (racing.0.pc i) ≡ true → racing.0.shared.lk ≡ true)
    × (racing.0.shared.lk ≡ true → (i : ℕ) × (thief (racing.0.pc i) ≡ true))
one_thief_example = one_thief racing.1

-- Twenty seconds later.
abbrev after_wait : Timeval
after_wait = record { tv_sec = pos 1020; tv_usec = pos 0 }

remount_stolen_example :
    (s' : Threads) × Later racing.0 s'
    × (s'.pc 0 ≡ using 1 0)
    × (s'.pc 1 ≡ using 2 0)
    × (r' : Slot) × (get_elem? s'.shared.slots 0 ≡ some r')
    × (r'.vmi ≡ some 2)
    × (r'.refcount ≡ pos 1)
unfolding racing alter new_slot scan_lru consider timeval_diff ◌-ℤ◌ ◌+ℤ◌ ◌*ℤ◌ quot_ℕ
remount_stolen_example =
    remount_stolen racing.0 0 1 1 2 nothing after_wait after_wait _ (omega arith) refl refl refl
      (omega arith)

-- Nobody else acts on the test guest: the first mount as a run of thread 0.
request_mount-Went_example : Ensures (Went test_env (init fresh_slots) 0 1) (
    request_mount test_env (some 1) (codes "/disk.img") (record test_world { slots = fresh_slots }))
request_mount-Went_example =
    request_mount-Went test_env (init fresh_slots) 0 1 (λ n ss. refl) (codes "/disk.img")
      (record test_world { slots = fresh_slots }) refl refl

mounted_twice_example :
    (s' : Threads) × Later (init fresh_slots) s'
    × (s'.pc 0 ≡ using 1 0)
    × (s'.pc 1 ≡ using 1 1)
    × (◌≢◌ {A = ℕ} 0 1)
    × For 1 0 s'.shared
    × For 1 1 s'.shared
unfolding find_vmi find_unlocked alter new_slot
mounted_twice_example =
    mounted_twice (init fresh_slots) 0 1 (omega arith) 1 0 1 start refl refl refl refl refl
