-- ===== src/Slots/Lru.antt =====
-- The scan for the least recently used slot against its specification: the released slot that
-- has been idle longest.
use hyperagents.Base.{
  ℕ, zero, suc, ◌+◌, ◌≡◌, refl, ◌∙◌, ◌⊎◌, inl, inr, some, List, [], ◌∷◌, ◌&&◌, get_elem?, arith,
  Bool-cases,
}
use hyperagents.Base.Int.{ℤ, pos, ◌≤ℤ◌, ◌<ℤ◌, eqb_ℤ, ltb_ℤ}
use hyperagents.World.{Timeval, Slot}
use hyperagents.Clock.{timeval_diff}
use hyperagents.Slots.{Best, consider, scan_lru}

-- How long the slot has been idle at `c`.
abbrev pub idle : Timeval → Slot → ℤ
idle c s = timeval_diff s.last_used c

-- `r` is the slot at index `k` of `ss`, whose indices start at `i`: it is released.
pub record Picked (c : Timeval) (i : ℕ) (ss : List Slot) (r : Best) (k : ℕ) (s : Slot)
    : Type 0 where
  pub found : get_elem? ss k ≡ some s
  pub released : s.refcount ≡ pos 0
  pub index : r.maxix ≡ i + k
  pub time : r.max ≡ idle c s

-- Nothing was better than `b`, or one slot was picked.
abbrev pub Result : Timeval → ℕ → List Slot → Best → Best → Type 0
Result c i ss b r = (r ≡ b) ⊎ ((k : ℕ) × (s : Slot) × Picked c i ss r k s × (b.max <ℤ r.max))

consider_cases :
    (c : Timeval) (i : ℕ) (s : Slot) (b : Best)
    → (consider c i s b ≡ b)
      ⊎ ((consider c i s b ≡ record { max = idle c s; maxix = i })
          × (s.refcount ≡ pos 0)
          × (b.max <ℤ idle c s))
unfolding consider
consider_cases c i s b = elim (Bool-cases (eqb_ℤ s.refcount (pos 0) && ltb_ℤ b.max (idle c s))) [
  | inl better ↦ inr (rw better, ground arith, ground arith)
  | inr not_better ↦ inl (rw not_better)
]

-- The result for the rest of the table is one for the whole.
Result-shift :
    (c : Timeval) (i : ℕ) (s : Slot) (ss : List Slot) (b b' r : Best)
    → (b' ≡ b)
      ⊎ ((b' ≡ record { max = idle c s; maxix = i }) × (s.refcount ≡ pos 0) × (b.max <ℤ idle c s))
    → Result c (suc i) ss b' r
    → Result c i (s ∷ ss) b r
Result-shift c i s ss b b' r (inl e) (inl same) = inl (same ∙ e)
Result-shift c i s ss b b' r (inl e) (inr (k, t, p, lt)) = inr (
  suc k,
  t,
  record { found = p.found; released = p.released; index = ground (arith, p.index); time = p.time },
  ground arith,
)
Result-shift c i s ss b b' r (inr (e, z, lt)) (inl same) = inr (
  0,
  s,
  record {
    found = refl;
    released = z;
    index = ground (arith, same, e);
    time = ground (arith, same, e);
  },
  ground arith,
)
Result-shift c i s ss b b' r (inr (e, z, lt)) (inr (k, t, p, lt')) = inr (
  suc k,
  t,
  record { found = p.found; released = p.released; index = ground (arith, p.index); time = p.time },
  ground arith,
)

pub scan_lru-Result :
    (c : Timeval) (i : ℕ) (ss : List Slot) (b : Best) → Result c i ss b (scan_lru c i ss b)
unfolding scan_lru
scan_lru-Result c i [] b = inl refl
scan_lru-Result c i (s ∷ ss) b =
    Result-shift c i s ss b (consider c i s b) _ (consider_cases c i s b)
      (scan_lru-Result c (suc i) ss (consider c i s b))

-- It is at least as good as what came in, and as every released slot.
pub scan_lru-ge :
    (c : Timeval) (i : ℕ) (ss : List Slot) (b : Best) → b.max ≤ℤ (scan_lru c i ss b).max
unfolding scan_lru consider
scan_lru-ge c i [] b = omega arith
scan_lru-ge c i (s ∷ ss) b = ground (arith, scan_lru-ge c (suc i) ss (consider c i s b))

pub scan_lru-max :
    (c : Timeval) (i : ℕ) (ss : List Slot) (b : Best) (k : ℕ) (s : Slot)
    → get_elem? ss k ≡ some s
    → s.refcount ≡ pos 0
    → idle c s ≤ℤ (scan_lru c i ss b).max
unfolding scan_lru consider
scan_lru-max c i [] b k s e z = cc
scan_lru-max c i (t ∷ ss) b zero s e z = ground (arith, scan_lru-ge c (suc i) ss (consider c i t b))
scan_lru-max c i (t ∷ ss) b (suc k) s e z = scan_lru-max c (suc i) ss (consider c i t b) k s e z
