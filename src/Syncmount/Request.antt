-- ===== src/Syncmount/Request.antt =====
-- What syncmount::request_mount (libhyperagent/syncmount.cc) does to the slot table.
use hyperagents.Slots.Grants.{stamp-Granted, reuse-Granted, claim-Granted, steal-Granted}
use hyperagents.Base.{ℕ, ◌≡◌, inl, inr, true, none, some, List, get_elem?, arith, Option-cases}
use hyperagents.Base.Text.{Bytes}
use hyperagents.World.{Slot, Env, World}
use hyperagents.Effect.{◌>>=◌, gettimeofday}
use hyperagents.Effect.Rules.{Ensures, Ensures-and_then}
use hyperagents.Effect.Frame.{SameTable}
use hyperagents.Slots.{alter, find_vmi, find_unlocked, claim, steal}
use hyperagents.Slots.Table.{
  IsTable, Absent, Holds, find_vmi-found, find_vmi-none, find_unlocked-found, find_unlocked-none,
}
use hyperagents.Mount.{nbd_dev}
use hyperagents.Mount.Frame.{Keeps-do_nbd_mount, Keeps-do_nbd_unmount}
use hyperagents.Syncmount.{
  remount, mount_free, mount_stolen, spin, set_slots, request_mount, no_best,
}
use hyperagents.Syncmount.Spin.{Spun, spin-Ensures}

-- After the call the table is in order, and the caller's instance holds the slot.
abbrev pub Granted : {Guest : Type 0} → ℕ → ℕ → World Guest → Type 0
Granted h i w = IsTable w.slots × Holds h i w.slots

-- What other threads do keeps the table in order, and does not mount `h`.
pub record Fair {Guest : Type 0} (env : Env Guest) (h : ℕ) : Type 0 where
  pub in_order : (n : ℕ) (ss : List Slot) → IsTable ss → IsTable (env.others n ss)
  pub absent : (n : ℕ) (ss : List Slot) → Absent h ss → Absent h (env.others n ss)
  pub locked :
      (n : ℕ) (ss : List Slot) → find_unlocked ss ≡ none → find_unlocked (env.others n ss) ≡ none

-- What holds while request_mount spins.
pub record Waiting (h : ℕ) (ss : List Slot) : Type 0 where
  pub in_order : IsTable ss
  pub absent : Absent h ss
  pub locked : find_unlocked ss ≡ none

pub Waiting-others :
    {Guest : Type 0} (env : Env Guest) (h : ℕ)
    → Fair env h
    → (n : ℕ) (ss : List Slot) → Waiting h ss
    → Waiting h (env.others n ss)
Waiting-others env h fair n ss wait = record {
  in_order = fair.in_order n ss wait.in_order;
  absent = fair.absent n ss wait.absent;
  locked = fair.locked n ss wait.locked;
}

module _ {Guest : Type 0} (env : Env Guest) (h : ℕ) where
  -- The three branches.
  pub request_mount_hit :
      (disk : Bytes) (w : World Guest) (i : ℕ)
      → find_vmi (some h) w.slots ≡ some i
      → request_mount env (some h) disk w ≡ remount env i w
  unfolding request_mount
  request_mount_hit disk w i hit = ground (arith, hit)

  pub request_mount_free :
      (disk : Bytes) (w : World Guest) (i : ℕ)
      → find_vmi (some h) w.slots ≡ none
      → find_unlocked w.slots ≡ some i
      → request_mount env (some h) disk w ≡ mount_free env i (some h) disk w
  unfolding request_mount
  request_mount_free disk w i miss free = ground (arith, miss, free)

  pub request_mount_full :
      (disk : Bytes) (w : World Guest)
      → find_vmi (some h) w.slots ≡ none
      → find_unlocked w.slots ≡ none
      → request_mount env (some h) disk w
        ≡ (spin env env.fuel (no_best env) >>= λ i. mount_stolen env i (some h) disk) w
  unfolding request_mount
  request_mount_full disk w miss full = ground (arith, miss, full)

  abbrev pub Grants : ℕ → World Guest → Type 0
  Grants i w = IsTable w.slots × Holds h i w.slots

  pub remount-Granted :
      (i : ℕ) (w : World Guest) (s : Slot)
      → IsTable w.slots
      → get_elem? w.slots i ≡ some s
      → s.vmi ≡ some h
      → Ensures Grants (remount env i w)
  unfolding remount gettimeofday set_slots
  remount-Granted i w s table found vmi =
      let (table', held) = reuse-Granted h i w.slots table s found vmi in
      stamp-Granted h i _ table' (env.time_of_day w.clock) held

  pub mount_free-Granted :
      (i : ℕ) (disk : Bytes) (w : World Guest) (s : Slot)
      → IsTable w.slots
      → get_elem? w.slots i ≡ some s
      → Absent h w.slots
      → Ensures Grants (mount_free env i (some h) disk w)
  unfolding mount_free gettimeofday set_slots
  mount_free-Granted i disk w s table found absent =
      let (table', held) = claim-Granted h i w.slots table s found absent in
      Ensures-and_then (λ _ w'. SameTable w1 w') Grants _ _
        ((Keeps-do_nbd_mount env (nbd_dev i) (some h) disk).at w1)
        (λ r w2 same. rw same.slots (stamp-Granted h i _ table' (env.time_of_day w2.clock) held))
    where
      w1 : World Guest
      w1 = set_slots env (alter i (claim i (some h))) w

  mount_stolen-Granted :
      (i : ℕ) (disk : Bytes) (w : World Guest) (s : Slot)
      → Waiting h w.slots
      → get_elem? w.slots i ≡ some s
      → s.l ≡ true
      → Ensures Grants (mount_stolen env i (some h) disk w)
  unfolding mount_stolen gettimeofday set_slots
  mount_stolen-Granted i disk w s wait found held =
      let (table', holds) = steal-Granted h i w.slots wait.in_order s found held wait.absent in
      Ensures-and_then (λ _ w'. SameTable w w') Grants _ _
        ((Keeps-do_nbd_unmount env (nbd_dev i) (some h)).at w)
        (λ u w1 same.
          Ensures-and_then (λ _ w'. SameTable (taken w1) w') Grants _ _
            ((Keeps-do_nbd_mount env (nbd_dev i) (some h) disk).at (taken w1))
            (λ r w2 same'.
              rw (same'.slots, same.slots)
                (stamp-Granted h i _ table' (env.time_of_day w2.clock) holds)))
    where
      taken : World Guest → World Guest
      taken v = set_slots env (alter i (steal i (some h))) v

  -- Where request_mount returns an index, the table is in order (sixteen records, each taken with
  -- its mutex held or never taken, no instance in two), and the record at the index is the caller's
  -- and in use. The table was in order before, and what other threads do to it during a sleep keeps
  -- it in order, does not mount the caller's instance, and frees no mutex.
  pub request_mount-Granted :
      (disk : Bytes) (w : World Guest)
      → IsTable w.slots
      → Fair env h
      → Ensures Grants (request_mount env (some h) disk w)
  request_mount-Granted disk w table fair = elim (Option-cases (find_vmi (some h) w.slots)) [
    | inr (i, hit) ↦
        let (s, found, vmi) = find_vmi-found (some h) w.slots i hit in
        rw (request_mount_hit disk w i hit) (remount-Granted i w s table found vmi)
    | inl miss ↦
        let absent : Absent h w.slots = λ i s e. find_vmi-none (some h) w.slots i s miss e in
        elim (Option-cases (find_unlocked w.slots)) [
          | inr (i, free) ↦
              let (s, found, unlocked) = find_unlocked-found w.slots i free in
              rw (request_mount_free disk w i miss free)
                (mount_free-Granted i disk w s table found absent)
          | inl full ↦ rw (request_mount_full disk w miss full) (
              Ensures-and_then (λ ix w'. Waiting h w'.slots × Spun env ix w') Grants _ _
                (spin-Ensures env (Waiting h) (Waiting-others env h fair) env.fuel (no_best env) w
                  (omega arith) (record { in_order = table; absent = absent; locked = full }))
                (λ ix w1 p. picked ix w1 p))
        ]
  ]
    where
      picked :
          (ix : ℕ) (w1 : World Guest)
          → Waiting h w1.slots × Spun env ix w1
          → Ensures Grants (mount_stolen env ix (some h) disk w1)
      picked ix w1 (wait, (held, n, now, v)) =
          mount_stolen-Granted ix disk w1 v.slot wait v.found
            (find_unlocked-none w1.slots ix v.slot wait.locked v.found)
