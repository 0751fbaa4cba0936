-- ===== src/Syncmount/Start.antt =====
-- The constructor of the class syncmount (libhyperagent/syncmount.cc): the table that it starts with.
use hyperagents.Base.{
  ℕ, zero, suc, ◌+◌, ◌≡◌, refl, sym, ap, inr, false, none, some, List, [], ◌∷◌, length, get_elem?,
  arith,
}
use hyperagents.Base.Int.{pos, negsuc}
use hyperagents.Base.Text.{Bytes}
use hyperagents.World.{Slot, Env, World}
use hyperagents.Effect.{done, and_then, gettimeofday}
use hyperagents.Effect.Rules.{Returns, Returns-and_then}
use hyperagents.Slots.{new_slot, find_vmi}
use hyperagents.Slots.Table.{IsTable}
use hyperagents.Syncmount.{new_slots, construct}

-- A record that was never taken.
pub record Fresh (s : Slot) : Type 0 where
  pub l : s.l ≡ false
  pub mountindex : s.mountindex ≡ negsuc 0
  pub vmi : s.vmi ≡ none
  pub refcount : s.refcount ≡ pos 0

abbrev AllFresh : ℕ → List Slot → Type 0
AllFresh n ss = (length ss ≡ n) × ((i : ℕ) (s : Slot) → get_elem? ss i ≡ some s → Fresh s)

AllFresh-cons :
    (n : ℕ) (s : Slot) (ss : List Slot) → Fresh s → AllFresh n ss → AllFresh (suc n) (s ∷ ss)
AllFresh-cons n s ss first (size, rest) = (ap suc size, each)
  where
    each : (i : ℕ) (t : Slot) → get_elem? (s ∷ ss) i ≡ some t → Fresh t
    each zero t e = let same : s ≡ t = ground (arith, e) in rw (← same) first
    each (suc i) t e = rest i t e

AllFresh-IsTable : (ss : List Slot) → AllFresh 16 ss → IsTable ss
AllFresh-IsTable ss (size, fresh) = record {
  size = size;
  slots_ok = λ i s e.
      let f = fresh i s e in
      (ground (arith, f.refcount), inr (f.l, f.mountindex, f.vmi, f.refcount));
  unique = λ i j h s t es et hs ht. absurd (ground (arith, (fresh i s es).vmi, hs));
}

module _ {Guest : Type 0} (env : Env Guest) where
  new_slots-AllFresh :
      (n : ℕ) (w : World Guest) → Returns (λ ss w'. AllFresh n ss) (new_slots env n w)
  unfolding new_slots gettimeofday new_slot
  new_slots-AllFresh zero w = (refl, λ i s e. cc)
  new_slots-AllFresh (suc n) w =
      Returns-and_then (λ ss w'. AllFresh n ss) (λ ss w'. AllFresh (suc n) ss) _ _
        (new_slots-AllFresh n (record w { clock = w.clock + 1 }))
        (λ ss w' p. AllFresh-cons n (new_slot (env.time_of_day w.clock)) ss fresh p)
    where
      fresh : Fresh (new_slot (env.time_of_day w.clock))
      fresh = record { l = refl; mountindex = refl; vmi = refl; refcount = refl }

  pub construct-Returns :
      (mount_path ghost_image : Bytes) (w : World Guest)
      → Returns
          (λ _ w'.
            IsTable w'.slots
            × (w'.lk ≡ false)
            × (w'.base_mountpoint ≡ mount_path)
            × (w'.ghost_image ≡ ghost_image))
          (construct env mount_path ghost_image w)
  unfolding construct
  construct-Returns mount_path ghost_image w =
      Returns-and_then (λ ss w'. AllFresh 16 ss) _ _ _ (new_slots-AllFresh 16 w)
        (λ ss w' p. (AllFresh-IsTable ss p, refl, refl, refl))

  -- The records that the constructor makes from the k-th reading of the clock on.
  abbrev pub slots_from : ℕ → ℕ → List Slot
  slots_from zero k = []
  slots_from (suc n) k = new_slot (env.time_of_day k) ∷ slots_from n (k + 1)

  new_slots_done :
      (n : ℕ) (w : World Guest)
      → new_slots env n w ≡ done (slots_from n w.clock) (record w { clock = w.clock + n })
  unfolding new_slots gettimeofday
  new_slots_done zero w =
      let same : w.clock + 0 ≡ w.clock = omega arith in
      ap (λ (c : ℕ). done [] (record w { clock = c })) (sym same)
  new_slots_done (suc n) w =
      let later : w.clock + 1 + n ≡ w.clock + suc n = omega arith in
      rw (new_slots_done n (record w { clock = w.clock + 1 }), and_then)
        (ap (λ (c : ℕ). done (slots_from (suc n) w.clock) (record w { clock = c })) later)

  abbrev pub constructed : Bytes → Bytes → World Guest → World Guest
  constructed mount_path ghost_image w = record w {
    slots = slots_from 16 w.clock;
    base_mountpoint = mount_path;
    ghost_image = ghost_image;
    lk = false;
    clock = w.clock + 16;
  }

  pub construct_done :
      (mount_path ghost_image : Bytes) (w : World Guest)
      → construct env mount_path ghost_image w ≡ done tt (constructed mount_path ghost_image w)
  unfolding construct
  construct_done mount_path ghost_image w = rw (new_slots_done 16 w) refl

  -- No instance has one of them, and the first is free.
  pub find_vmi-slots_from : (h n k : ℕ) → find_vmi (some h) (slots_from n k) ≡ none
  unfolding find_vmi new_slot
  find_vmi-slots_from h zero k = refl
  find_vmi-slots_from h (suc n) k = rw (find_vmi-slots_from h n (k + 1)) refl
