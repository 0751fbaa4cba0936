-- ===== src/Slots/Table.antt =====
-- The slot table as a whole: which records are taken, and for whom.
use hyperagents.Base.{
  ℕ, zero, suc, ◌≡◌, ◌≢◌, refl, sym, ap, ◌∙◌, ◌⊎◌, inl, inr, true, false, none, some, List, [], ◌∷◌,
  length, get_elem?, arith, Bool-cases,
}
use hyperagents.Base.Int.{pos, negsuc, ◌≤ℤ◌, ◌<ℤ◌}
use hyperagents.World.{Handle, handle_eq, Slot}
use hyperagents.Slots.{alter, find_vmi, find_unlocked}

-- A record is taken for an instance, and its mutex is held; or it was never taken.
abbrev pub SlotOk : ℕ → Slot → Type 0
SlotOk i s =
    (pos 0 ≤ℤ s.refcount)
    × (((s.l ≡ true) × (s.mountindex ≡ pos i) × (s.vmi ≢ none))
        ⊎ ((s.l ≡ false) × (s.mountindex ≡ negsuc 0) × (s.vmi ≡ none) × (s.refcount ≡ pos 0)))

-- Sixteen records, each in order, and no instance in two of them.
pub record IsTable (ss : List Slot) : Type 0 where
  pub size : length ss ≡ 16
  pub slots_ok : (i : ℕ) (s : Slot) → get_elem? ss i ≡ some s → SlotOk i s
  pub unique :
      (i j h : ℕ) (s t : Slot)
      → get_elem? ss i ≡ some s
      → get_elem? ss j ≡ some t
      → s.vmi ≡ some h
      → t.vmi ≡ some h
      → i ≡ j

abbrev pub Absent : ℕ → List Slot → Type 0
Absent h ss = (i : ℕ) (s : Slot) → get_elem? ss i ≡ some s → s.vmi ≢ some h

-- The record at `i` is taken for `h`, and in use.
abbrev pub Holds : ℕ → ℕ → List Slot → Type 0
Holds h i ss = (s : Slot) × (get_elem? ss i ≡ some s) × (s.vmi ≡ some h) × (pos 0 <ℤ s.refcount)

pub length-alter : (i : ℕ) (f : Slot → Slot) (ss : List Slot) → length (alter i f ss) ≡ length ss
unfolding alter
length-alter i f [] = refl
length-alter zero f (s ∷ ss) = refl
length-alter (suc i) f (s ∷ ss) = ap suc (length-alter i f ss)

pub get_elem?-alter_self :
    (i : ℕ) (f : Slot → Slot) (ss : List Slot) (s : Slot)
    → get_elem? ss i ≡ some s
    → get_elem? (alter i f ss) i ≡ some (f s)
unfolding alter
get_elem?-alter_self i f [] s e = cc
get_elem?-alter_self zero f (t ∷ ss) s e = ground (arith, e)
get_elem?-alter_self (suc i) f (t ∷ ss) s e = get_elem?-alter_self i f ss s e

-- What stands in the altered table stood in the old one, or is the altered record.
pub get_elem?-alter_cases :
    (i j : ℕ) (f : Slot → Slot) (ss : List Slot) (t : Slot)
    → get_elem? (alter i f ss) j ≡ some t
    → ((s : Slot) × (i ≡ j) × (get_elem? ss i ≡ some s) × (t ≡ f s))
      ⊎ ((i ≢ j) × (get_elem? ss j ≡ some t))
unfolding alter
get_elem?-alter_cases i j f [] t e = cc
get_elem?-alter_cases zero zero f (s ∷ ss) t e = inl (s, refl, refl, ground (arith, e))
get_elem?-alter_cases zero (suc j) f (s ∷ ss) t e = inr (λ z. cc, e)
get_elem?-alter_cases (suc i) zero f (s ∷ ss) t e = inr (λ z. cc, e)
get_elem?-alter_cases (suc i) (suc j) f (s ∷ ss) t e = elim (get_elem?-alter_cases i j f ss t e) [
  | inl (s', same, old, new) ↦ inl (s', ap suc same, old, new)
  | inr (ne, old) ↦ inr (λ z. ne (omega arith), old)
]

-- A change that keeps the record in order and its instance.
pub alter-IsTable :
    (i : ℕ) (f : Slot → Slot) (ss : List Slot)
    → ((s : Slot) → get_elem? ss i ≡ some s → SlotOk i s → SlotOk i (f s) × ((f s).vmi ≡ s.vmi))
    → IsTable ss
    → IsTable (alter i f ss)
alter-IsTable i f ss keep table = record {
  size = length-alter i f ss ∙ table.size;
  slots_ok = λ j t e. elim (get_elem?-alter_cases i j f ss t e) [
    | inl (s, same, old, new) ↦ rw (new, ← same) (keep s old (table.slots_ok i s old)).0
    | inr (ne, old) ↦ table.slots_ok j t old
  ];
  unique = λ j k h s t es et hs ht.
      let (s', os, vs) = origin j s es in
      let (t', ot, vt) = origin k t et in table.unique j k h s' t' os ot (vs ∙ hs) (vt ∙ ht);
}
  where
    origin :
        (j : ℕ) (t : Slot)
        → get_elem? (alter i f ss) j ≡ some t
        → (s : Slot) × (get_elem? ss j ≡ some s) × (s.vmi ≡ t.vmi)
    origin j t e = elim (get_elem?-alter_cases i j f ss t e) [
      | inl (s, same, old, new) ↦
          (s, rw (← same) old, rw new (sym (keep s old (table.slots_ok i s old)).1))
      | inr (ne, old) ↦ (t, old, refl)
    ]

-- A record given to an instance that has none.
pub give-IsTable :
    (i h : ℕ) (f : Slot → Slot) (ss : List Slot)
    → ((s : Slot) → get_elem? ss i ≡ some s → SlotOk i s → SlotOk i (f s) × ((f s).vmi ≡ some h))
    → Absent h ss
    → IsTable ss
    → IsTable (alter i f ss)
give-IsTable i h f ss give absent table = record {
  size = length-alter i f ss ∙ table.size;
  slots_ok = λ j t e. elim (get_elem?-alter_cases i j f ss t e) [
    | inl (s, same, old, new) ↦ rw (new, ← same) (give s old (table.slots_ok i s old)).0
    | inr (ne, old) ↦ table.slots_ok j t old
  ];
  unique = λ j k g s t es et hs ht. elim (get_elem?-alter_cases i j f ss s es) [
    | inl (s', same, os, ns) ↦ elim (get_elem?-alter_cases i k f ss t et) [
      | inl (t', same', ot, nt) ↦ sym same ∙ same'
      | inr (ne', ot) ↦ absurd (absent k t ot (ht ∙ sym hs ∙ given s' s os ns))
    ]
    | inr (ne, os) ↦ elim (get_elem?-alter_cases i k f ss t et) [
      | inl (t', same', ot, nt) ↦ absurd (absent j s os (hs ∙ sym ht ∙ given t' t ot nt))
      | inr (ne', ot) ↦ table.unique j k g s t os ot hs ht
    ]
  ];
}
  where
    given : (s' t : Slot) → get_elem? ss i ≡ some s' → t ≡ f s' → t.vmi ≡ some h
    given s' t old new = rw new (give s' old (table.slots_ok i s' old)).1

-- The scans of request_mount.
handle_eq_iff : (a b : Handle) → handle_eq a b ≡ true → a ≡ b
handle_eq_iff none none e = refl
handle_eq_iff none (some b) e = cc
handle_eq_iff (some a) none e = cc
handle_eq_iff (some a) (some b) e = ap some (ground arith)

pub handle_eq_refl : (a : Handle) → handle_eq a a ≡ true
handle_eq_refl none = refl
handle_eq_refl (some a) = ground arith

pub find_vmi-found :
    (h : Handle) (ss : List Slot) (i : ℕ)
    → find_vmi h ss ≡ some i
    → (s : Slot) × (get_elem? ss i ≡ some s) × (s.vmi ≡ h)
unfolding find_vmi
find_vmi-found h [] i e = cc
find_vmi-found h (s ∷ ss) zero e = elim (Bool-cases (handle_eq s.vmi h)) [
  | inl hit ↦ (s, refl, handle_eq_iff s.vmi h hit)
  | inr miss ↦ absurd (ground (arith, miss))
]
find_vmi-found h (s ∷ ss) (suc i) e =
    let (t, found, eq) = find_vmi-found h ss i (ground (arith, e)) in (t, found, eq)

pub find_vmi-none :
    (h : Handle) (ss : List Slot) (i : ℕ) (s : Slot)
    → find_vmi h ss ≡ none
    → get_elem? ss i ≡ some s
    → s.vmi ≢ h
unfolding find_vmi
find_vmi-none h [] i s e g = cc
find_vmi-none h (t ∷ ss) zero s e g =
    λ eq. ground (arith, e, handle_eq_refl h, ap (λ (x : Handle). handle_eq x h) eq, g)
find_vmi-none h (t ∷ ss) (suc i) s e g = find_vmi-none h ss i s (ground (arith, e)) g

pub find_unlocked-found :
    (ss : List Slot) (i : ℕ)
    → find_unlocked ss ≡ some i
    → (s : Slot) × (get_elem? ss i ≡ some s) × (s.l ≡ false)
unfolding find_unlocked
find_unlocked-found [] i e = cc
find_unlocked-found (s ∷ ss) zero e = (s, refl, ground (arith, e))
find_unlocked-found (s ∷ ss) (suc i) e =
    let (t, found, free) = find_unlocked-found ss i (ground (arith, e)) in (t, found, free)

pub find_unlocked-none :
    (ss : List Slot) (i : ℕ) (s : Slot)
    → find_unlocked ss ≡ none
    → get_elem? ss i ≡ some s
    → s.l ≡ true
unfolding find_unlocked
find_unlocked-none [] i s e g = cc
find_unlocked-none (t ∷ ss) zero s e g = ground (arith, e, g)
find_unlocked-none (t ∷ ss) (suc i) s e g = find_unlocked-none ss i s (ground (arith, e)) g
