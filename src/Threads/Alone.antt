-- ===== src/Threads/Alone.antt =====
-- The request_mount of Syncmount, in which the other threads act in its sleeps alone, against the
-- threads of libhyperagent/syncmount.cc that act at any time: with the others at rest, what it does
-- is a run of its thread.
use hyperagents.Base.{
  ℕ, zero, suc, ◌≡◌, refl, ap, inl, inr, false, some, List, [], ◌∷◌, length, get_elem?, arith,
  Option-cases, Bool-cases,
}
use hyperagents.Base.Int.{pos, ltb_ℤ}
use hyperagents.Base.Text.{Bytes}
use hyperagents.World.{Slot, Env, World}
use hyperagents.Effect.{gettimeofday}
use hyperagents.Effect.Rules.{Ensures, Ensures-and_then}
use hyperagents.Effect.Frame.{SameTable}
use hyperagents.Slots.{Best, alter, find_vmi, find_unlocked, claim, steal}
use hyperagents.Slots.Table.{find_vmi-found, find_unlocked-found}
use hyperagents.Mount.{nbd_dev}
use hyperagents.Mount.Frame.{Keeps-do_nbd_mount, Keeps-do_nbd_unmount}
use hyperagents.Syncmount.{remount, mount_free, mount_stolen, spin, set_slots, request_mount}
use hyperagents.Syncmount.Spin.{scanned, rested, spin_round, spin_held, spin_zero}
use hyperagents.Syncmount.Request.{request_mount_hit, request_mount_free, request_mount_full}
use hyperagents.Threads.{
  Shared, idle, searching, found, trying, mounting, asking, stealing, using, nothing, Threads, call,
  hit, not_there, count, remounted, win, all_held, take, mounted, lock, unlucky, nominate, seize,
  settle, try_lock,
}
use hyperagents.Threads.Runs.{Solo, Goes, Goes-Move}
use hyperagents.Threads.Scans.{
  search_to, try_to, find_vmi-Before, find_vmi-Before_all, find_unlocked-Before,
  find_unlocked-Before_all,
}

alter-try_lock :
    (k : ℕ) (f : Slot → Slot) (ss : List Slot)
    → ((s : Slot) → f (try_lock s) ≡ f s)
    → alter k f (alter k try_lock ss) ≡ alter k f ss
unfolding alter
alter-try_lock k f [] same = refl
alter-try_lock zero f (s ∷ ss) same = ap (λ (t : Slot). t ∷ ss) (same s)
alter-try_lock (suc k) f (s ∷ ss) same = ap (λ (l : List Slot). s ∷ l) (alter-try_lock k f ss same)

-- What the threads share of a process.
abbrev pub shared_of : {Guest : Type 0} → World Guest → Shared
shared_of w = record { slots = w.slots; lk = w.lk }

module _ {Guest : Type 0} (env : Env Guest) (s : Threads) (i h : ℕ) where
  abbrev pub Went : ℕ → World Guest → Type 0
  Went ix w' = Goes s i (using h ix) (shared_of w')

  remount-Went :
      (k : ℕ) (w : World Guest)
      → Goes s i (found h k) (shared_of w)
      → Ensures Went (remount env k w)
  unfolding remount gettimeofday set_slots
  remount-Went k w g = Goes-Move (remounted (env.time_of_day w.clock)) (Goes-Move count g)

  mount_free-Went :
      (k : ℕ) (disk : Bytes) (w : World Guest) (t : Slot)
      → get_elem? w.slots k ≡ some t
      → t.l ≡ false
      → Goes s i (trying h k) (shared_of w)
      → Ensures Went (mount_free env k (some h) disk w)
  unfolding mount_free gettimeofday set_slots
  mount_free-Went k disk w t there free g =
      Ensures-and_then (λ _ w'. SameTable w1 w') Went _ _
        ((Keeps-do_nbd_mount env (nbd_dev k) (some h) disk).at w1)
        (λ r w2 same.
          rw (same.slots, same.lk) (Goes-Move (mounted (env.time_of_day w2.clock)) claimed))
    where
      w1 : World Guest
      w1 = set_slots env (alter k (claim k (some h))) w

      claimed : Goes s i (mounting h k) (shared_of w1)
      claimed =
          rw (alter-try_lock k (claim k (some h)) w.slots (λ s. refl)) at
            (Goes-Move take (Goes-Move (win there free) g))

  mount_stolen-Went :
      (k : ℕ) (disk : Bytes) (w : World Guest)
      → Goes s i (stealing h k) (shared_of w)
      → Ensures Went (mount_stolen env k (some h) disk w)
  unfolding mount_stolen gettimeofday set_slots
  mount_stolen-Went k disk w g =
      Ensures-and_then (λ _ w'. SameTable w w') Went _ _
        ((Keeps-do_nbd_unmount env (nbd_dev k) (some h)).at w)
        (λ u w1 same.
          Ensures-and_then (λ _ w'. SameTable (taken w1) w') Went _ _
            ((Keeps-do_nbd_mount env (nbd_dev k) (some h) disk).at (taken w1))
            (λ r w2 same'.
              rw (same'.slots, same.slots)
                (Goes-Move (settle (env.time_of_day w2.clock)) (Goes-Move seize g))))
    where
      taken : World Guest → World Guest
      taken v = set_slots env (alter k (steal k (some h))) v

  module _ (quiet : (n : ℕ) (ss : List Slot) → env.others n ss ≡ ss) where
    spin-Went :
        (fuel : ℕ) (b : Best) (w : World Guest)
        → Goes s i (asking h b) (shared_of w)
        → Ensures (λ ix w'. Goes s i (stealing h ix) (shared_of w')) (spin env fuel b w)
    spin-Went zero b w g = rw (spin_zero env b w) tt
    spin-Went (suc fuel) b w g = elim (Bool-cases w.lk) [
      | inl held ↦ rw (spin_held env fuel b w held) tt
      | inr free ↦
          let locked = Goes-Move {i = i} (lock {h = h} {b = b} free) g in
          elim (Bool-cases (ltb_ℤ (scanned env b w).max (pos 10000))) [
            | inr stop ↦
                rw (spin_round env fuel b w free, stop)
                  (Goes-Move (nominate (env.time_of_day w.clock) (ground (arith, stop))) locked)
            | inl go ↦
                rw (spin_round env fuel b w free, go)
                  (spin-Went fuel (scanned env b w) (rested env w) (
                    rw (quiet w.sleeps w.slots)
                      (Goes-Move (unlucky (env.time_of_day w.clock) (ground (arith, go))) locked)))
          ]
    ]

    -- Where request_mount of Syncmount returns, and no other thread acts in its sleeps, an idle thread
    -- of Threads, with the same records and the same `lk`, can go on alone, through steps of its own,
    -- until its request_mount has returned the same slot, and leaves the same records and `lk`.
    pub request_mount-Went :
        (disk : Bytes) (w : World Guest)
        → s.pc i ≡ idle
        → s.shared ≡ shared_of w
        → Ensures Went (request_mount env (some h) disk w)
    request_mount-Went disk w rest same = elim (Option-cases (find_vmi (some h) w.slots)) [
      | inr (k, there) ↦
          let (t, at_k, vmi) = find_vmi-found (some h) w.slots k there in
          rw (request_mount_hit env h disk w k there) (
            remount-Went k w (
              Goes-Move (hit at_k vmi)
                (search_to s i h (shared_of w) k (find_vmi-Before h w.slots k there) entered)))
      | inl missing ↦
          let tries = Goes-Move {i = i} (not_there {h = h}) (
            search_to s i h (shared_of w) (length w.slots) (find_vmi-Before_all h w.slots missing)
              entered) in
          elim (Option-cases (find_unlocked w.slots)) [
            | inr (k, open_slot) ↦
                let (t, at_k, free) = find_unlocked-found w.slots k open_slot in
                rw (request_mount_free env h disk w k missing open_slot) (
                  mount_free-Went k disk w t at_k free
                    (try_to s i h (shared_of w) k (find_unlocked-Before w.slots k open_slot) tries))
            | inl full ↦ rw (request_mount_full env h disk w missing full) (
                Ensures-and_then (λ ix w'. Goes s i (stealing h ix) (shared_of w')) Went _ _
                  (spin-Went env.fuel nothing w (
                    Goes-Move all_held (
                      try_to s i h (shared_of w) (length w.slots)
                        (find_unlocked-Before_all w.slots full) tries)))
                  (λ ix w1 g. mount_stolen-Went ix disk w1 g))
          ]
    ]
      where
        entered : Goes s i (searching h 0) (shared_of w)
        entered = Goes-Move call (s, Solo.start, rest, same)
