-- ===== src/Slots/View/Serves.antt =====
-- What the updates of request_mount (libhyperagent/syncmount.cc) are to the mount service, `view` of the
-- slot table.
use hyperagents.Base.{
  ℕ, ◌≡◌, ◌≢◌, refl, ap, ◌∙◌, inl, inr, true, false, none, some, List, get_elem?, arith,
  Option-cases,
}
use hyperagents.Base.Int.{ℤ, pos, ◌+ℤ◌}
use hyperagents.World.{Timeval, Slot}
use hyperagents.Slots.{alter, claim, steal, reuse, stamp}
use hyperagents.Slots.Table.{IsTable, Absent}
use hyperagents.Slots.Grants.{reuse-Granted, claim-Granted, steal-Granted}
use hyperagents.Slots.View.{Service, view, change, assign, view-Absent, view_at, view-some}
use hyperagents.Slots.View.Steps.{view-alter, view-give, view-stamp}

-- A request of `h` that is given device `d`: it uses its device once more, or gets one that nobody
-- has, or one whose instance `g` has no users left.
pub data Serves (h d : ℕ) (m : Service) : Service → Type 0 where
  again : (u : ℤ) → m h ≡ some (d, u) → Serves h d m (change d (λ n. n +ℤ pos 1) m)
  fresh : m h ≡ none → ((g e : ℕ) (u : ℤ) → m g ≡ some (e, u) → e ≢ d) → Serves h d m (assign h d m)
  evict : (g : ℕ) → m h ≡ none → m g ≡ some (d, pos 0) → Serves h d m (assign h d m)

module _ (h i : ℕ) (ss : List Slot) (table : IsTable ss) where
  pub reuse-Serves :
      (t : Timeval) (s : Slot)
      → get_elem? ss i ≡ some s
      → s.vmi ≡ some h
      → Serves h i (view ss) (view (alter i (stamp t) (alter i reuse ss)))
  reuse-Serves t s found vmi =
      let table' = (reuse-Granted h i ss table s found vmi).0 in
      rw
        (
          view-stamp i t (alter i reuse ss) table',
          view-alter i reuse ss table table' (λ n. n +ℤ pos 1) (λ s. refl) (λ s. refl),
        )
        (again s.refcount (view_at h i s ss table found vmi))

  pub claim-Serves :
      (t : Timeval) (s : Slot)
      → get_elem? ss i ≡ some s
      → s.l ≡ false
      → Absent h ss
      → Serves h i (view ss) (view (alter i (stamp t) (alter i (claim i (some h)) ss)))
  claim-Serves t s found free absent =
      let table' = (claim-Granted h i ss table s found absent).0 in
      rw
        (
          view-stamp i t (alter i (claim i (some h)) ss) table',
          view-give i (claim i (some h)) ss table table' h (λ s'. (refl, refl)) s found absent,
        )
        (fresh (view-Absent h ss absent) unused)
    where
      unused : (g e : ℕ) (u : ℤ) → view ss g ≡ some (e, u) → e ≢ i
      unused g e u at_e same =
          let (s', found', vmi) = view-some g e u ss table at_e in
          let there : get_elem? ss i ≡ some s' = rw (← same) found' in
          elim (table.slots_ok i s found).1 [
            | inl (held, _, _) ↦ absurd (ground (arith, held, free))
            | inr (_, _, untaken, _) ↦ absurd (ground (arith, found, there, vmi, untaken))
          ]

  pub steal-Serves :
      (t : Timeval) (s : Slot)
      → get_elem? ss i ≡ some s
      → s.l ≡ true
      → s.refcount ≡ pos 0
      → Absent h ss
      → Serves h i (view ss) (view (alter i (stamp t) (alter i (steal i (some h)) ss)))
  steal-Serves t s found held released absent =
      let table' = (steal-Granted h i ss table s found held absent).0 in
      rw
        (
          view-stamp i t (alter i (steal i (some h)) ss) table',
          view-give i (steal i (some h)) ss table table' h (λ s'. (refl, refl)) s found absent,
        )
        (elim (Option-cases s.vmi) [
          | inr (g, vmi) ↦
              evict g (view-Absent h ss absent)
                (view_at g i s ss table found vmi ∙ ap (λ (n : ℤ). some (i, n)) released)
          | inl untaken ↦ elim (table.slots_ok i s found).1 [
            | inl (_, _, taken) ↦ absurd (taken untaken)
            | inr (free, _, _, _) ↦ absurd (ground (arith, held, free))
          ]
        ])
