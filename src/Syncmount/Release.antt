-- ===== src/Syncmount/Release.antt =====
-- What syncmount::release_mount (libhyperagent/syncmount.cc) does, alone and behind a remount.
use hyperagents.Base.{
  ℕ, ◌+◌, List, ◌≡◌, refl, ap, ◌∙◌, Option-cases, some, false, inl, inr, arith, get_elem?,
}
use hyperagents.Base.Int.{pos, ◌<ℤ◌, ◌-ℤ◌, ◌+ℤ◌}
use hyperagents.Base.Text.{Bytes}
use hyperagents.World.{Timeval, Handle, Slot, Env, World}
use hyperagents.Effect.{◌>>=◌, and_then, lock_vmi, gettimeofday}
use hyperagents.Effect.Rules.{Returns, Returns-mono}
use hyperagents.Slots.{alter, find_vmi, drop_ref, reuse, stamp}
use hyperagents.Slots.Table.{IsTable, alter-IsTable, get_elem?-alter_self, find_vmi-found}
use hyperagents.Syncmount.{slot_at, set_slots, remount, request_mount, release_mount}
use hyperagents.Syncmount.Request.{request_mount_hit, remount-Granted}

module _ {Guest : Type 0} where
  -- What release_mount leaves, and what request_mount with release_mount leaves.
  abbrev pub Released : ℕ → Slot → World Guest → ℕ → World Guest → Type 0
  Released dev s w r w' =
      (r ≡ 0)
      × (w'.vmi_lock ≡ false)
      × (w'.log ≡ w.log)
      × IsTable w'.slots
      × (get_elem? w'.slots dev ≡ some (drop_ref s))

  abbrev pub Cycled : ℕ → ℕ → Slot → World Guest → ℕ → World Guest → Type 0
  Cycled h i s w r w' =
      (r ≡ 0)
      × (w'.vmi_lock ≡ false)
      × (w'.log ≡ w.log)
      × IsTable w'.slots
      × (t : Slot) × (get_elem? w'.slots i ≡ some t)
      × (t.vmi ≡ some h)
      × (t.refcount ≡ s.refcount)

module _ {Guest : Type 0} (env : Env Guest) where
  pub drop_ref-IsTable :
      (dev : ℕ) (s : Slot) (ss : List Slot)
      → IsTable ss
      → get_elem? ss dev ≡ some s
      → pos 0 <ℤ s.refcount
      → IsTable (alter dev drop_ref ss)
  unfolding ◌-ℤ◌
  drop_ref-IsTable dev s ss table found used =
      alter-IsTable dev drop_ref ss
        (λ s' e ok. elim ok.1 [
          | inl taken ↦ ((ground (arith, found, e, used), inl taken), refl)
          | inr (unheld, _, _, zero_refs) ↦ absurd (ground (arith, found, e, used, zero_refs))
        ])
        table

  pub in_use_lem :
      (dev : ℕ) (s : Slot) (ss : List Slot)
      → IsTable ss
      → get_elem? ss dev ≡ some s
      → pos 0 <ℤ s.refcount
      → (g : ℕ) × (s.vmi ≡ some g)
  in_use_lem dev s ss table found used = elim (Option-cases s.vmi) [
    | inr (g, e) ↦ (g, e)
    | inl e ↦ elim (table.slots_ok dev s found).1 [
      | inl (_, _, given) ↦ absurd (given e)
      | inr (_, _, _, zero_refs) ↦ absurd (ground (arith, used, zero_refs))
    ]
  ]

  -- release_mount of a slot that is in use, with vmi_global_lock free, returns 0 and gives the lock
  -- back: the slot has one reference less and nothing else of it changes, the table stays in order,
  -- no command is run. The table was in order before.
  pub release_mount-Returns :
      (vmi : Handle) (dev : ℕ) (s : Slot) (w : World Guest)
      → IsTable w.slots
      → get_elem? w.slots dev ≡ some s
      → pos 0 <ℤ s.refcount
      → w.vmi_lock ≡ false
      → Returns (Released dev s w) (release_mount env vmi dev w)
  unfolding release_mount slot_at set_slots lock_vmi
  release_mount-Returns vmi dev s w table found used free =
      let (g, holder) = in_use_lem dev s w.slots table found used in
      rw (found, and_then, free, and_then, holder)
        (
          refl,
          refl,
          refl,
          drop_ref-IsTable dev s w.slots table found used,
          get_elem?-alter_self dev drop_ref w.slots s found
              ∙ ap (λ (v : Handle). some (record (drop_ref s) { vmi = v })) holder,
        )

  -- For an instance that has a slot, request_mount and then release_mount of the slot it returned
  -- give 0, with vmi_global_lock free, no command run, and the table in order; the slot is the
  -- instance's and has as many references as before. The table was in order before and the lock free.
  request_mount-release_mount :
      (h i : ℕ) (s : Slot) (disk : Bytes) (w : World Guest)
      → IsTable w.slots
      → find_vmi (some h) w.slots ≡ some i
      → get_elem? w.slots i ≡ some s
      → w.vmi_lock ≡ false
      → Returns
          (Cycled h i s w)
          ((request_mount env (some h) disk >>= λ ix. release_mount env (some h) ix) w)
  unfolding remount set_slots gettimeofday ◌-ℤ◌ ◌+ℤ◌
  request_mount-release_mount h i s disk w table hit found free =
      let (s', found', vmi) = find_vmi-found (some h) w.slots i hit in
      let same : s' ≡ s = ground (arith, found, found') in
      let (table', held) = remount-Granted env h i w s' table found' vmi in
      let again =
        get_elem?-alter_self i (stamp now) _ (reuse s')
          (get_elem?-alter_self i reuse w.slots s' found') in
      rw (request_mount_hit env h disk w i hit, and_then)
        (Returns-mono {P = Released i (stamp now (reuse s')) later} {Q = Cycled h i s w} _
          (release_mount-Returns (some h) i (stamp now (reuse s')) later table' again
            (ground (arith, (table.slots_ok i s' found').0)) free)
          (λ r w' p. (
            p.0,
            p.1,
            p.2,
            p.3,
            drop_ref (stamp now (reuse s')),
            p.4,
            vmi,
            ground (arith, ap (λ (x : Slot). x.refcount) same),
          )))
    where
      now : Timeval
      now = env.time_of_day w.clock

      later : World Guest
      later = record w { slots = alter i (stamp now) (alter i reuse w.slots); clock = w.clock + 1 }
