-- ===== src/Slots/Grants.antt =====
-- The updates of request_mount (libhyperagent/syncmount.cc) that give a slot to an instance, on the
-- whole table.
use hyperagents.Base.{ℕ, ◌≡◌, refl, inl, inr, true, some, List, get_elem?, arith}
use hyperagents.Base.Int.{◌+ℤ◌}
use hyperagents.World.{Timeval, Slot}
use hyperagents.Slots.{alter, reuse, claim, steal, stamp}
use hyperagents.Slots.Table.{
  IsTable, Absent, Holds, alter-IsTable, give-IsTable, get_elem?-alter_self,
}

-- The updates of one record, on the table.
module _ (h i : ℕ) (ss : List Slot) (table : IsTable ss) where
  pub stamp-Granted :
      (t : Timeval)
      → Holds h i ss
      → IsTable (alter i (stamp t) ss) × Holds h i (alter i (stamp t) ss)
  stamp-Granted t (s, found, vmi, used) = (
    alter-IsTable i (stamp t) ss (λ s e ok. (ok, refl)) table,
    (stamp t s, get_elem?-alter_self i (stamp t) ss s found, vmi, used),
  )

  pub reuse-Granted :
      (s : Slot)
      → get_elem? ss i ≡ some s
      → s.vmi ≡ some h
      → IsTable (alter i reuse ss) × Holds h i (alter i reuse ss)
  unfolding ◌+ℤ◌
  reuse-Granted s found vmi = (
    alter-IsTable i reuse ss
        (λ s' e ok. elim ok.1 [
          | inl taken ↦ ((ground (arith, ok.0), inl taken), refl)
          | inr (_, _, untaken, _) ↦ absurd (ground (arith, found, e, vmi, untaken))
        ])
        table,
    (
      reuse s,
      get_elem?-alter_self i reuse ss s found,
      vmi,
      ground (arith, (table.slots_ok i s found).0),
    ),
  )

  pub claim-Granted :
      (s : Slot)
      → get_elem? ss i ≡ some s
      → Absent h ss
      → IsTable (alter i (claim i (some h)) ss) × Holds h i (alter i (claim i (some h)) ss)
  claim-Granted s found absent = (
    give-IsTable i h (claim i (some h)) ss
        (λ s' e ok. ((omega arith, inl (refl, refl, λ z. cc)), refl)) absent table,
    (claim i (some h) s, get_elem?-alter_self i _ ss s found, refl, omega arith),
  )

  -- The slot is taken: every mutex was found held.
  pub steal-Granted :
      (s : Slot)
      → get_elem? ss i ≡ some s
      → s.l ≡ true
      → Absent h ss
      → IsTable (alter i (steal i (some h)) ss) × Holds h i (alter i (steal i (some h)) ss)
  steal-Granted s found held absent = (
    give-IsTable i h (steal i (some h)) ss
        (λ s' e ok. ((omega arith, inl (ground (arith, found, e, held), refl, λ z. cc)), refl))
        absent table,
    (steal i (some h) s, get_elem?-alter_self i _ ss s found, refl, omega arith),
  )
