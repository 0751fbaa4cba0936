-- ===== src/Syncmount/Status.antt =====
-- What syncmount::print_status (libhyperagent/syncmount.cc) prints, and what it leaves.
use hyperagents.Base.{
  ℕ, zero, suc, ◌+◌, ◌≡◌, ◌↔◌, refl, false, some, List, [], ◌∷◌, length, get_elem?, arith, ap,
}
use hyperagents.World.{Timeval, Slot, Env, World}
use hyperagents.Effect.{and_then, lock_vmi, gettimeofday}
use hyperagents.Effect.Rules.{Returns}
use hyperagents.Syncmount.{StatusLine, status_line, status_lines, print_status}

module _ {Guest : Type 0} (env : Env Guest) where
  length-status_lines :
      (c : Timeval) (w : World Guest) (k : ℕ) (ss : List Slot)
      → length (status_lines env c w k ss) ≡ length ss
  unfolding status_lines
  length-status_lines c w k [] = refl
  length-status_lines c w k (s ∷ ss) = ap suc (length-status_lines c w (suc k) ss)

  get_elem?-status_lines :
      (c : Timeval) (w : World Guest) (k i : ℕ) (ss : List Slot) (s : Slot)
      → get_elem? ss i ≡ some s
      → get_elem? (status_lines env c w k ss) i ≡ some (status_line env c w (k + i) s)
  unfolding status_lines
  get_elem?-status_lines c w k i [] s e = cc
  get_elem?-status_lines c w k zero (t ∷ ss) s e =
      let here : k + 0 ≡ k = omega arith in rw here (ground (arith, e))
  get_elem?-status_lines c w k (suc i) (t ∷ ss) s e =
      let next : k + suc i ≡ suc k + i = omega arith in
      rw next (get_elem?-status_lines c w (suc k) i ss s e)

  get_elem?-status_lines_all :
      (c : Timeval) (w : World Guest) (i : ℕ) (ss : List Slot) (s : Slot)
      → get_elem? ss i ≡ some s
      → get_elem? (status_lines env c w 0 ss) i ≡ some (status_line env c w i s)
  get_elem?-status_lines_all c w i ss s e =
      let start : 0 + i ≡ i = omega arith in rw start at (get_elem?-status_lines c w 0 i ss s e)

  -- The line of slot `i`.
  abbrev pub Shows : ℕ → Slot → StatusLine → Type 0
  Shows i s line =
      (line.index ≡ i)
      × ((line.locked ≡ 1) ↔ (s.l ≡ false))
      × (line.refcount ≡ s.refcount)
      × (line.calls ≡ s.calls)
      × (line.vmi ≡ s.vmi)

  status_line-Shows :
      (c : Timeval) (w : World Guest) (i : ℕ) (s : Slot) → Shows i s (status_line env c w i s)
  unfolding status_line
  status_line-Shows c w i s = (refl, (λ e. ground arith, λ e. ground arith), refl, refl, refl)

  -- print_status, with vmi_global_lock free, returns one line for each slot and reads the clock once;
  -- nothing else of the process's state changes. The line of slot `i` has its index, references,
  -- calls and instance, and 1 for `locked` exactly where the slot's mutex is free.
  pub print_status-Returns :
      (w : World Guest) (i : ℕ) (s : Slot)
      → w.vmi_lock ≡ false
      → get_elem? w.slots i ≡ some s
      → Returns
          (λ lines w'.
            (length lines ≡ length w.slots)
            × (w' ≡ record w { clock = w.clock + 1; vmi_lock = false })
            × (line : StatusLine) × (get_elem? lines i ≡ some line)
            × Shows i s line)
          (print_status env w)
  unfolding print_status gettimeofday lock_vmi
  print_status-Returns w i s free found =
      rw (free, and_then)
        (
          length-status_lines _ _ 0 w.slots,
          refl,
          _,
          get_elem?-status_lines_all _ _ i w.slots s found,
          status_line-Shows _ _ i s,
        )
