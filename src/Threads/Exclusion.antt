-- ===== src/Threads/Exclusion.antt =====
-- What the two kinds of mutexes in request_mount (libhyperagent/syncmount.cc) guarantee, whatever the
-- order in which the threads run.
use hyperagents.Base.{
  ℕ, ◌≡◌, ◌≢◌, refl, sym, ap, ◌∙◌, ◌⊎◌, inl, inr, true, false, some, List, get_elem?, ℕ_discrete,
  eq→==, ne→==, arith,
}
use hyperagents.World.{Slot, update}
use hyperagents.Threads.{Shared, Pc, Threads, pick, Reach, at_first, later}
use hyperagents.Threads.Kinds.{
  thief, claimant, OnLk, kept, taken, back, Move-OnLk, Locked, OnSlots, stays, wins, Move-OnSlots,
  Move-Locked,
}

-- The one that moved, or another.
update_cases :
    (f : ℕ → Pc) (i : ℕ) (p : Pc) (j : ℕ)
    → ((i ≡ j) × (update f i p j ≡ p)) ⊎ ((i ≢ j) × (update f i p j ≡ f j))
update_cases f i p j = elim (ℕ_discrete i j) [
  | yes same ↦ inl (same, rw (eq→== i j same) refl)
  | no ne ↦ inr (ne, rw (ne→== i j ne) refl)
]

-- At most one thread is between locking and unlocking `lk`, and one is exactly while it is held.
record LkInv (s : Threads) : Type 0 where
  single : (i j : ℕ) → thief (s.pc i) ≡ true → thief (s.pc j) ≡ true → i ≡ j
  held : (i : ℕ) → thief (s.pc i) ≡ true → s.shared.lk ≡ true
  holder : s.shared.lk ≡ true → (i : ℕ) × (thief (s.pc i) ≡ true)

-- A record that is mounted for the first time is locked, and one thread's.
record SlotInv (s : Threads) : Type 0 where
  owned : (i k : ℕ) → claimant (s.pc i) ≡ some k → Locked k s.shared.slots
  one_owner : (i j k : ℕ) → claimant (s.pc i) ≡ some k → claimant (s.pc j) ≡ some k → i ≡ j

module _ (s : Threads) (i : ℕ) (m : Shared) (p : Pc) where
  abbrev after : Threads
  after = record { shared = m; pc = update s.pc i p }

  -- Where the thread's part in `lk` is as before.
  LkInv-kept : LkInv s → m.lk ≡ s.shared.lk → thief p ≡ thief (s.pc i) → LkInv after
  LkInv-kept inv lk part = record {
    single = λ j k a b. inv.single j k (sym (as_before j) ∙ a) (sym (as_before k) ∙ b);
    held = λ j a. lk ∙ inv.held j (sym (as_before j) ∙ a);
    holder = λ e. let (j, a) = inv.holder (sym lk ∙ e) in (j, as_before j ∙ a);
  }
    where
      as_before : (j : ℕ) → thief (update s.pc i p j) ≡ thief (s.pc j)
      as_before j = elim (update_cases s.pc i p j) [
        | inl (same, e) ↦ ap thief e ∙ part ∙ ap (λ (k : ℕ). thief (s.pc k)) same
        | inr (ne, e) ↦ ap thief e
      ]

  LkInv-taken : LkInv s → s.shared.lk ≡ false → m.lk ≡ true → thief p ≡ true → LkInv after
  LkInv-taken inv free lk part = record {
    single = λ j k a b. sym (only j a) ∙ only k b;
    held = λ j a. lk;
    holder = λ e. elim (update_cases s.pc i p i) [
      | inl (same, e) ↦ (i, ap thief e ∙ part)
      | inr (ne, e) ↦ absurd (ne refl)
    ];
  }
    where
      only : (j : ℕ) → thief (update s.pc i p j) ≡ true → i ≡ j
      only j a = elim (update_cases s.pc i p j) [
        | inl (same, e) ↦ same
        | inr (ne, e) ↦ absurd (ground (arith, free, inv.held j (sym (ap thief e) ∙ a)))
      ]

  LkInv-back : LkInv s → thief (s.pc i) ≡ true → thief p ≡ false → m.lk ≡ false → LkInv after
  LkInv-back inv was part lk = record {
    single = λ j k a b. absurd (nobody j a);
    held = λ j a. absurd (nobody j a);
    holder = λ e. absurd (ground (arith, e, lk));
  }
    where
      nobody : (j : ℕ) → ¬ (thief (update s.pc i p j) ≡ true)
      nobody j a = elim (update_cases s.pc i p j) [
        | inl (same, e) ↦ ground (arith, a, ap thief e, part)
        | inr (ne, e) ↦ ne (inv.single i j was (sym (ap thief e) ∙ a))
      ]

  LkInv-Move : LkInv s → OnLk s.shared (s.pc i) m p → LkInv after
  LkInv-Move inv (kept lk part) = LkInv-kept inv lk part
  LkInv-Move inv (taken free lk part) = LkInv-taken inv free lk part
  LkInv-Move inv (back was part lk) = LkInv-back inv was part lk

  module _ (inv : SlotInv s) (still : (k : ℕ) → Locked k s.shared.slots → Locked k m.slots) where
    SlotInv-stays : ((k : ℕ) → claimant p ≡ some k → claimant (s.pc i) ≡ some k) → SlotInv after
    SlotInv-stays had = record {
      owned = λ j k a. still k (inv.owned j k (before j k a));
      one_owner = λ j j' k a b. inv.one_owner j j' k (before j k a) (before j' k b);
    }
      where
        before : (j k : ℕ) → claimant (update s.pc i p j) ≡ some k → claimant (s.pc j) ≡ some k
        before j k a = elim (update_cases s.pc i p j) [
          | inl (same, e) ↦ rw same at (had k (sym (ap claimant e) ∙ a))
          | inr (ne, e) ↦ sym (ap claimant e) ∙ a
        ]

    SlotInv-wins :
        (k : ℕ) (t : Slot)
        → get_elem? s.shared.slots k ≡ some t
        → t.l ≡ false
        → Locked k m.slots
        → claimant p ≡ some k
        → SlotInv after
    SlotInv-wins k t there free locked part = record {
      owned = λ j n a. elim (mine j n a) [
        | inl (same, here) ↦ rw (← here) locked
        | inr (ne, a') ↦ still n (inv.owned j n a')
      ];
      one_owner = λ j j' n a b. elim (mine j n a) [
        | inl (same, here) ↦ elim (mine j' n b) [
          | inl (same', here') ↦ sym same ∙ same'
          | inr (ne', b') ↦ absurd (not_before j' (b' ∙ ap some (sym here)))
        ]
        | inr (ne, a') ↦ elim (mine j' n b) [
          | inl (same', here') ↦ absurd (not_before j (a' ∙ ap some (sym here')))
          | inr (ne', b') ↦ inv.one_owner j j' n a' b'
        ]
      ];
    }
      where
        mine :
            (j n : ℕ)
            → claimant (update s.pc i p j) ≡ some n
            → ((i ≡ j) × (k ≡ n)) ⊎ ((i ≢ j) × (claimant (s.pc j) ≡ some n))
        mine j n a = elim (update_cases s.pc i p j) [
          | inl (same, e) ↦ inl (same, ground (arith, a, ap claimant e, part))
          | inr (ne, e) ↦ inr (ne, sym (ap claimant e) ∙ a)
        ]

        not_before : (j : ℕ) → claimant (s.pc j) ≢ some k
        not_before j a = let (u, e, held) = inv.owned j k a in ground (arith, there, free, e, held)

    SlotInv-Move : OnSlots s.shared (s.pc i) m p → SlotInv after
    SlotInv-Move (stays had) = SlotInv-stays had
    SlotInv-Move (wins k t there free locked part) = SlotInv-wins k t there free locked part

Reach-LkInv : {ss : List Slot} {s : Threads} → Reach ss s → LkInv s
Reach-LkInv at_first = record { single = λ i j a b. cc; held = λ i a. cc; holder = λ e. cc }
Reach-LkInv (later {s} r (pick i {m} {p} mv)) = LkInv-Move s i m p (Reach-LkInv r) (Move-OnLk mv)

Reach-SlotInv : {ss : List Slot} {s : Threads} → Reach ss s → SlotInv s
Reach-SlotInv at_first = record { owned = λ i k a. cc; one_owner = λ i j k a b. cc }
Reach-SlotInv (later {s} r (pick i {m} {p} mv)) =
    SlotInv-Move s i m p (Reach-SlotInv r) (λ k. Move-Locked k mv) (Move-OnSlots mv)

-- In whatever order the threads run: while `lk` is held, exactly one thread is between locking and
-- unlocking it, and while it is free none is. So at most one thread at a time scans for a slot to
-- steal, or steals one.
pub one_thief :
    {ss : List Slot} {s : Threads}
    → Reach ss s
    → ((i j : ℕ) → thief (s.pc i) ≡ true → thief (s.pc j) ≡ true → i ≡ j)
      × ((i : ℕ) → thief (s.pc i) ≡ true → s.shared.lk ≡ true)
      × (s.shared.lk ≡ true → (i : ℕ) × (thief (s.pc i) ≡ true))
one_thief r = let inv = Reach-LkInv r in (inv.single, inv.held, inv.holder)

-- In whatever order the threads run: a record that a thread mounts after a try_lock of it has its
-- mutex held, and no other thread mounts the same record after a try_lock.
pub one_claimant :
    {ss : List Slot} {s : Threads}
    → Reach ss s
    → (i k : ℕ) → claimant (s.pc i) ≡ some k
    → Locked k s.shared.slots × ((j : ℕ) → claimant (s.pc j) ≡ some k → i ≡ j)
one_claimant r i k a =
    let inv = Reach-SlotInv r in (inv.owned i k a, λ j b. inv.one_owner i j k a b)
