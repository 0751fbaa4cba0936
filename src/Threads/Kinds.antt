-- ===== src/Threads/Kinds.antt =====
-- The moves of a thread by what they do to `lk` and to the records' mutexes.
use hyperagents.Base.{
  ℕ, ◌≡◌, refl, Bool, true, false, Option, none, some, List, get_elem?, ℕ_discrete, arith,
}
use hyperagents.World.{Slot}
use hyperagents.Slots.{alter}
use hyperagents.Slots.Table.{get_elem?-alter_self}
use hyperagents.Slots.View.Steps.{get_elem?-alter_ne}
use hyperagents.Threads.{
  Shared, Pc, won, mounting, holding, stealing, stolen, Move, call, hit, miss, not_there, count,
  remounted, win, lose, all_held, take, mounted, lock, unlucky, nominate, seize, settle, release,
  try_lock,
}

-- Between `lk.lock()` and `lk.unlock()`.
abbrev pub thief : Pc → Bool
thief (holding h b) = true
thief (stealing h i) = true
thief (stolen h i) = true
thief _ = false

-- The record that it is mounting for the first time, whose try_lock it won.
abbrev pub claimant : Pc → Option ℕ
claimant (won h i) = some i
claimant (mounting h i) = some i
claimant _ = none

-- `lk` stays with whom it is, is taken, or is given back.
pub data OnLk (m : Shared) (p : Pc) (m' : Shared) (p' : Pc) : Type 0 where
  kept : m'.lk ≡ m.lk → thief p' ≡ thief p → OnLk m p m' p'
  taken : m.lk ≡ false → m'.lk ≡ true → thief p' ≡ true → OnLk m p m' p'
  back : thief p ≡ true → thief p' ≡ false → m'.lk ≡ false → OnLk m p m' p'

pub Move-OnLk : {m m' : Shared} {p p' : Pc} → Move m p m' p' → OnLk m p m' p'
Move-OnLk call = kept refl refl
Move-OnLk (hit e v) = kept refl refl
Move-OnLk (miss e v) = kept refl refl
Move-OnLk not_there = kept refl refl
Move-OnLk count = kept refl refl
Move-OnLk (remounted t) = kept refl refl
Move-OnLk (win e free) = kept refl refl
Move-OnLk (lose e held) = kept refl refl
Move-OnLk all_held = kept refl refl
Move-OnLk take = kept refl refl
Move-OnLk (mounted t) = kept refl refl
Move-OnLk (lock free) = taken free refl refl
Move-OnLk (unlucky c low) = back refl refl refl
Move-OnLk (nominate c high) = kept refl refl
Move-OnLk seize = kept refl refl
Move-OnLk (settle t) = back refl refl refl
Move-OnLk release = kept refl refl

abbrev pub Locked : ℕ → List Slot → Type 0
Locked k ss = (s : Slot) × (get_elem? ss k ≡ some s) × (s.l ≡ true)

alter-Locked :
    (i : ℕ) (f : Slot → Slot) (ss : List Slot)
    → ((s : Slot) → s.l ≡ true → (f s).l ≡ true)
    → (k : ℕ) → Locked k ss
    → Locked k (alter i f ss)
alter-Locked i f ss keeps k (s, e, held) = elim (ℕ_discrete i k) [
  | yes same ↦
      let here : get_elem? ss i ≡ some s = rw same e in
      (f s, rw (← same) (get_elem?-alter_self i f ss s here), keeps s held)
  | no ne ↦ (s, get_elem?-alter_ne i k f ss s ne e, held)
]

-- The mutexes: none is given back, and a thread comes to mount a record only by a try_lock of its
-- that succeeds.
pub data OnSlots (m : Shared) (p : Pc) (m' : Shared) (p' : Pc) : Type 0 where
  stays : ((k : ℕ) → claimant p' ≡ some k → claimant p ≡ some k) → OnSlots m p m' p'
  wins :
      (k : ℕ) (s : Slot)
      → get_elem? m.slots k ≡ some s
      → s.l ≡ false
      → Locked k m'.slots
      → claimant p' ≡ some k
      → OnSlots m p m' p'

pub Move-OnSlots : {m m' : Shared} {p p' : Pc} → Move m p m' p' → OnSlots m p m' p'
Move-OnSlots call = stays (λ k e. absurd (ground (arith, e)))
Move-OnSlots (hit e v) = stays (λ k e. cc)
Move-OnSlots (miss e v) = stays (λ k e. cc)
Move-OnSlots not_there = stays (λ k e. cc)
Move-OnSlots count = stays (λ k e. cc)
Move-OnSlots (remounted t) = stays (λ k e. cc)
Move-OnSlots {m} (win {i} {s} e free) =
    wins i s e free (try_lock s, get_elem?-alter_self i try_lock m.slots s e, refl) refl
Move-OnSlots (lose e held) = stays (λ k e. cc)
Move-OnSlots all_held = stays (λ k e. cc)
Move-OnSlots take = stays (λ k e. e)
Move-OnSlots (mounted t) = stays (λ k e. cc)
Move-OnSlots (lock free) = stays (λ k e. cc)
Move-OnSlots (unlucky c low) = stays (λ k e. cc)
Move-OnSlots (nominate c high) = stays (λ k e. cc)
Move-OnSlots seize = stays (λ k e. cc)
Move-OnSlots (settle t) = stays (λ k e. cc)
Move-OnSlots release = stays (λ k e. cc)

pub Move-Locked :
    {m m' : Shared} {p p' : Pc} (k : ℕ) → Move m p m' p' → Locked k m.slots → Locked k m'.slots
Move-Locked {m} k (count {i}) = alter-Locked i _ m.slots (λ s held. held) k
Move-Locked {m} k (remounted {i} t) = alter-Locked i _ m.slots (λ s held. held) k
Move-Locked {m} k (win {i} e free) = alter-Locked i _ m.slots (λ s held. refl) k
Move-Locked {m} k (take {i}) = alter-Locked i _ m.slots (λ s held. refl) k
Move-Locked {m} k (mounted {i} t) = alter-Locked i _ m.slots (λ s held. held) k
Move-Locked {m} k (seize {i}) = alter-Locked i _ m.slots (λ s held. held) k
Move-Locked {m} k (settle {i} t) = alter-Locked i _ m.slots (λ s held. held) k
Move-Locked {m} k (release {i}) = alter-Locked i _ m.slots (λ s held. held) k
Move-Locked k call = λ held. held
Move-Locked k (hit e v) = λ held. held
Move-Locked k (miss e v) = λ held. held
Move-Locked k not_there = λ held. held
Move-Locked k (lose e v) = λ held. held
Move-Locked k all_held = λ held. held
Move-Locked k (lock e) = λ held. held
Move-Locked k (unlucky c e) = λ held. held
Move-Locked k (nominate c e) = λ held. held
