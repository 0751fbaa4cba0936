-- ===== src/Slots/View.antt =====
-- What the slot table promises, with its records, mutexes, calls and times forgotten: for each VMI
-- instance, the device it is mounted at and the number of its users.
pub mod Steps
pub mod Serves
pub mod Books
use mathlib.Core.Path.{fun_ext}
use hyperagents.Base.{
  ℕ, ◌≡◌, ◌≢◌, refl, sym, ap, ◌∙◌, ◌⊎◌, inl, inr, Option, none, some, List, get_elem?, Option-cases,
  ◌==◌, if◌then◌else◌, arith,
}
use hyperagents.Base.Int.{ℤ, pos}
use hyperagents.World.{Slot}
use hyperagents.Slots.{find_vmi}
use hyperagents.Slots.Table.{IsTable, Absent, find_vmi-found, find_vmi-none}

abbrev pub Service : Type 0
Service = ℕ → Option (ℕ × ℤ)

unfoldable pub users_at : ℕ → List Slot → Option (ℕ × ℤ)
users_at i ss = elim (get_elem? ss i) [ none ↦ none | some s ↦ some (i, s.refcount) ]

unfoldable pub view : List Slot → Service
view ss h = elim (find_vmi (some h) ss) [ none ↦ none | some i ↦ users_at i ss ]

-- The users of device `d` change; nothing else does.
abbrev pub on_device : ℕ → (ℤ → ℤ) → Option (ℕ × ℤ) → Option (ℕ × ℤ)
on_device d f none = none
on_device d f (some (e, n)) = if e == d then some (e, f n) else some (e, n)

-- Who was at device `d` is not mounted any more.
abbrev pub without : ℕ → Option (ℕ × ℤ) → Option (ℕ × ℤ)
without d none = none
without d (some (e, n)) = if e == d then none else some (e, n)

abbrev pub change : ℕ → (ℤ → ℤ) → Service → Service
change d f m h = on_device d f (m h)

-- Device `d` goes to `h`, with one user.
abbrev pub assign : ℕ → ℕ → Service → Service
assign h d m g = if g == h then some (d, pos 1) else without d (m g)

pub view-Absent : (h : ℕ) (ss : List Slot) → Absent h ss → view ss h ≡ none
unfolding view
view-Absent h ss absent = elim (Option-cases (find_vmi (some h) ss)) [
  | inl miss ↦ rw (miss, view) refl
  | inr (i, hit) ↦
      let (s, found, vmi) = find_vmi-found (some h) ss i hit in absurd (absent i s found vmi)
]

pub view_at :
    (h i : ℕ) (s : Slot) (ss : List Slot)
    → IsTable ss
    → get_elem? ss i ≡ some s
    → s.vmi ≡ some h
    → view ss h ≡ some (i, s.refcount)
unfolding view users_at
view_at h i s ss table found vmi = elim (Option-cases (find_vmi (some h) ss)) [
  | inl miss ↦ absurd (find_vmi-none (some h) ss i s miss found vmi)
  | inr (k, hit) ↦
      let (t, found', vmi') = find_vmi-found (some h) ss k hit in
      let same : k ≡ i = table.unique k i h t s found' found vmi' vmi in
      let here : users_at i ss ≡ some (i, s.refcount) = rw (found, users_at) refl in
      rw (hit, view) (rw same here)
]

-- An instance is mounted nowhere, or in one slot.
pub view_cases :
    (h : ℕ) (ss : List Slot)
    → IsTable ss
    → Absent h ss ⊎ ((i : ℕ) × (s : Slot) × (get_elem? ss i ≡ some s) × (s.vmi ≡ some h))
view_cases h ss table = elim (Option-cases (find_vmi (some h) ss)) [
  | inl miss ↦ inl (λ i s e. find_vmi-none (some h) ss i s miss e)
  | inr (i, hit) ↦ let (s, found, vmi) = find_vmi-found (some h) ss i hit in inr (i, s, found, vmi)
]

-- Where the service has an instance, a slot does.
pub view-some :
    (h d : ℕ) (u : ℤ) (ss : List Slot)
    → IsTable ss
    → view ss h ≡ some (d, u)
    → (s : Slot) × (get_elem? ss d ≡ some s) × (s.vmi ≡ some h)
view-some h d u ss table e = elim (view_cases h ss table) [
  | inl absent ↦ absurd (ground (arith, e, view-Absent h ss absent))
  | inr (i, s, found, vmi) ↦
      let same : i ≡ d = ground (arith, e, view_at h i s ss table found vmi) in
      (s, rw same at found, vmi)
]
