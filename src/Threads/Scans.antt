-- ===== src/Threads/Scans.antt =====
-- The first two loops of request_mount (libhyperagent/syncmount.cc), a record at a time.
use hyperagents.Base.{
  ℕ, zero, suc, ◌<◌, ◌≡◌, ◌≢◌, refl, ap, true, none, some, List, [], ◌∷◌, length, get_elem?, arith,
}
use hyperagents.World.{Handle, Slot, handle_eq}
use hyperagents.Slots.{find_vmi, find_unlocked}
use hyperagents.Slots.Table.{handle_eq_refl, find_vmi-none, find_unlocked-none}
use hyperagents.Threads.{Shared, searching, trying, Threads, miss, lose}
use hyperagents.Threads.Runs.{Goes, Goes-Move}

-- Every record before the `k`-th has the property.
abbrev pub Before : (Slot → Type 0) → ℕ → List Slot → Type 0
Before P k ss = (n : ℕ) → n < k → (s : Slot) × (get_elem? ss n ≡ some s) × P s

Before-length :
    (P : Slot → Type 0) (ss : List Slot)
    → ((n : ℕ) (s : Slot) → get_elem? ss n ≡ some s → P s)
    → Before P (length ss) ss
Before-length P [] each n lt = absurd (omega arith)
Before-length P (s ∷ ss) each zero lt = (s, refl, each 0 s refl)
Before-length P (s ∷ ss) each (suc n) lt =
    Before-length P ss (λ m t e. each (suc m) t e) n (omega arith)

Before-cons :
    (P : Slot → Type 0) (k : ℕ) (s : Slot) (ss : List Slot)
    → P s
    → Before P k ss
    → Before P (suc k) (s ∷ ss)
Before-cons P k s ss first rest zero lt = (s, refl, first)
Before-cons P k s ss first rest (suc n) lt = rest n (omega arith)

pub find_vmi-Before :
    (h : ℕ) (ss : List Slot) (k : ℕ)
    → find_vmi (some h) ss ≡ some k
    → Before (λ s. s.vmi ≢ some h) k ss
unfolding find_vmi
find_vmi-Before h [] k e = cc
find_vmi-Before h (s ∷ ss) zero e = λ n lt. absurd (omega arith)
find_vmi-Before h (s ∷ ss) (suc k) e =
    Before-cons _ k s ss
      (λ mine.
        ground (arith, e, handle_eq_refl (some h), ap (λ (x : Handle). handle_eq x (some h)) mine))
      (find_vmi-Before h ss k (ground (arith, e)))

pub find_vmi-Before_all :
    (h : ℕ) (ss : List Slot)
    → find_vmi (some h) ss ≡ none
    → Before (λ s. s.vmi ≢ some h) (length ss) ss
find_vmi-Before_all h ss none_there =
    Before-length _ ss (λ n s e. find_vmi-none (some h) ss n s none_there e)

pub find_unlocked-Before :
    (ss : List Slot) (k : ℕ) → find_unlocked ss ≡ some k → Before (λ s. s.l ≡ true) k ss
unfolding find_unlocked
find_unlocked-Before [] k e = cc
find_unlocked-Before (s ∷ ss) zero e = λ n lt. absurd (omega arith)
find_unlocked-Before (s ∷ ss) (suc k) e =
    Before-cons _ k s ss (ground (arith, e)) (find_unlocked-Before ss k (ground (arith, e)))

pub find_unlocked-Before_all :
    (ss : List Slot) → find_unlocked ss ≡ none → Before (λ s. s.l ≡ true) (length ss) ss
find_unlocked-Before_all ss full = Before-length _ ss (λ n s e. find_unlocked-none ss n s full e)

module _ (s : Threads) (i h : ℕ) (m : Shared) where
  pub search_to :
      (k : ℕ)
      → Before (λ t. t.vmi ≢ some h) k m.slots
      → Goes s i (searching h 0) m
      → Goes s i (searching h k) m
  search_to zero others g = g
  search_to (suc k) others g =
      let (t, there, other) = others k (omega arith) in
      Goes-Move (miss there other) (search_to k (λ n lt. others n (omega arith)) g)

  pub try_to :
      (k : ℕ)
      → Before (λ t. t.l ≡ true) k m.slots
      → Goes s i (trying h 0) m
      → Goes s i (trying h k) m
  try_to zero held g = g
  try_to (suc k) held g =
      let (t, there, locked) = held k (omega arith) in
      Goes-Move (lose there locked) (try_to k (λ n lt. held n (omega arith)) g)
