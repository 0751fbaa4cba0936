-- ===== src/Slots/View/Steps.antt =====
-- What a change of one slot is, seen from the service.
use mathlib.Core.Path.{fun_ext}
use hyperagents.Base.{
  ℕ, zero, suc, [], ◌∷◌, Option, ◌==◌, ◌≡◌, ◌≢◌, refl, sym, ap, ◌∙◌, inl, inr, none, some, List,
  get_elem?, ℕ_discrete, eq→==, ne→==, arith, Bool-cases,
}
use hyperagents.Base.Int.{ℤ, pos}
use hyperagents.World.{Timeval, Slot}
use hyperagents.Slots.{alter, stamp}
use hyperagents.Slots.Table.{
  IsTable, Absent, alter-IsTable, get_elem?-alter_self, get_elem?-alter_cases,
}
use hyperagents.Slots.View.{
  on_device, without, view, change, assign, view-Absent, view_at, view_cases,
}

-- A slot that is not the altered one stands in the new table too.
pub get_elem?-alter_ne :
    (i j : ℕ) (f : Slot → Slot) (ss : List Slot) (s : Slot)
    → i ≢ j
    → get_elem? ss j ≡ some s
    → get_elem? (alter i f ss) j ≡ some s
unfolding alter
get_elem?-alter_ne i j f [] s ne e = e
get_elem?-alter_ne zero zero f (t ∷ ss) s ne e = absurd (ne refl)
get_elem?-alter_ne zero (suc j) f (t ∷ ss) s ne e = e
get_elem?-alter_ne (suc i) zero f (t ∷ ss) s ne e = e
get_elem?-alter_ne (suc i) (suc j) f (t ∷ ss) s ne e =
    get_elem?-alter_ne i j f ss s (λ z. ne (ap suc z)) e

pub on_device_self : (d : ℕ) (r : ℤ → ℤ) (n : ℤ) → on_device d r (some (d, n)) ≡ some (d, r n)
on_device_self d r n = rw (eq→== d d refl) refl

pub on_device_other :
    (d e : ℕ) (r : ℤ → ℤ) (n : ℤ) → d ≢ e → on_device d r (some (e, n)) ≡ some (e, n)
on_device_other d e r n ne = rw (ne→== e d (λ z. ne (sym z))) refl

on_device_id : (d : ℕ) (x : Option (ℕ × ℤ)) → on_device d (λ n. n) x ≡ x
on_device_id d none = refl
on_device_id d (some (e, n)) = elim (Bool-cases (e == d)) [
  | inl same ↦ rw same refl
  | inr other ↦ rw other refl
]

pub without_self : (e d : ℕ) (n : ℤ) → e ≡ d → without d (some (e, n)) ≡ none
without_self e d n same = rw (eq→== e d same) refl

pub without_other : (e d : ℕ) (n : ℤ) → e ≢ d → without d (some (e, n)) ≡ some (e, n)
without_other e d n ne = rw (ne→== e d ne) refl

module _ (i : ℕ) (f : Slot → Slot) (ss : List Slot) (table : IsTable ss)
    (table' : IsTable (alter i f ss)) where
  -- A change that keeps the instance.
  pub view-alter :
      (r : ℤ → ℤ)
      → ((s : Slot) → (f s).vmi ≡ s.vmi)
      → ((s : Slot) → (f s).refcount ≡ r s.refcount)
      → view (alter i f ss) ≡ change i r (view ss)
  view-alter r keeps counts = fun_ext (λ h. elim (view_cases h ss table) [
    | inl absent ↦
        view-Absent h _ (still h absent) ∙ sym (ap (on_device i r) (view-Absent h ss absent))
    | inr (k, s, found, vmi) ↦
        let before : view ss h ≡ some (k, s.refcount) = view_at h k s ss table found vmi in
        elim (ℕ_discrete i k) [
          | yes same ↦
              let here : get_elem? ss i ≡ some s = rw same found in
              let before' : view ss h ≡ some (i, s.refcount) = rw same before in
              view_at h i (f s) _ table' (get_elem?-alter_self i f ss s here) (keeps s ∙ vmi)
              ∙ ap (λ (n : ℤ). some (i, n)) (counts s)
              ∙ sym (on_device_self i r s.refcount)
              ∙ sym (ap (on_device i r) before')
          | no ne ↦
              view_at h k s _ table' (get_elem?-alter_ne i k f ss s ne found) vmi
              ∙ sym (on_device_other i k r s.refcount ne)
              ∙ sym (ap (on_device i r) before)
        ]
  ])
    where
      still : (h : ℕ) → Absent h ss → Absent h (alter i f ss)
      still h absent j t e = elim (get_elem?-alter_cases i j f ss t e) [
        | inl (s, same, old, new) ↦
            λ vmi. absent i s old (sym (keeps s) ∙ sym (ap (λ x. x.vmi) new) ∙ vmi)
        | inr (ne, old) ↦ absent j t old
      ]

  -- A change that gives the slot to an instance that has none.
  pub view-give :
      (h : ℕ)
      → ((s : Slot) → ((f s).vmi ≡ some h) × ((f s).refcount ≡ pos 1))
      → (s : Slot) → get_elem? ss i ≡ some s
      → Absent h ss
      → view (alter i f ss) ≡ assign h i (view ss)
  view-give h gives s found absent = fun_ext (λ g. elim (ℕ_discrete g h) [
    | yes same ↦ rw (eq→== g h same) (
        view_at g i (f s) _ table' (get_elem?-alter_self i f ss s found)
          ((gives s).0 ∙ ap some (sym same))
        ∙ ap (λ (n : ℤ). some (i, n)) (gives s).1)
    | no ne ↦ rw (ne→== g h ne) (others g ne)
  ])
    where
      gone : (g : ℕ) → g ≢ h → Absent g ss → Absent g (alter i f ss)
      gone g ne absent' j t e = elim (get_elem?-alter_cases i j f ss t e) [
        | inl (s', same, old, new) ↦
            λ vmi. ne (ground (arith, vmi, ap (λ (x : Slot). x.vmi) new, (gives s').0))
        | inr (ne', old) ↦ absent' j t old
      ]

      evicted :
          (g : ℕ) (t : Slot)
          → g ≢ h
          → get_elem? ss i ≡ some t
          → t.vmi ≡ some g
          → Absent g (alter i f ss)
      evicted g t ne here vmi j t' e = elim (get_elem?-alter_cases i j f ss t' e) [
        | inl (s', same, old, new) ↦
            λ vmi'. ne (ground (arith, vmi', ap (λ (x : Slot). x.vmi) new, (gives s').0))
        | inr (ne', old) ↦ λ vmi'. ne' (table.unique i j g t t' here old vmi vmi')
      ]

      others : (g : ℕ) → g ≢ h → view (alter i f ss) g ≡ without i (view ss g)
      others g ne = elim (view_cases g ss table) [
        | inl absent' ↦
            view-Absent g _ (gone g ne absent') ∙ sym (ap (without i) (view-Absent g ss absent'))
        | inr (k, t, there, vmi) ↦
            let before : view ss g ≡ some (k, t.refcount) = view_at g k t ss table there vmi in
            elim (ℕ_discrete k i) [
              | yes same ↦
                  view-Absent g _ (evicted g t ne (rw (← same) there) vmi)
                  ∙ sym (without_self k i t.refcount same)
                  ∙ sym (ap (without i) before)
              | no ne' ↦
                  view_at g k t _ table' (get_elem?-alter_ne i k f ss t (λ z. ne' (sym z)) there)
                    vmi
                  ∙ sym (without_other k i t.refcount ne')
                  ∙ sym (ap (without i) before)
            ]
      ]

-- The time of a use is nothing to the service.
pub view-stamp :
    (i : ℕ) (t : Timeval) (ss : List Slot) → IsTable ss → view (alter i (stamp t) ss) ≡ view ss
view-stamp i t ss table =
    view-alter i (stamp t) ss table (alter-IsTable i (stamp t) ss (λ s e ok. (ok, refl)) table)
      (λ n. n) (λ s. refl) (λ s. refl)
    ∙ fun_ext (λ h. on_device_id i (view ss h))
