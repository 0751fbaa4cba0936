-- ===== src/Syncmount/Spin.antt =====
-- The spin loop of request_mount: which slot it picks, and when it comes to an end. Other threads
-- may change the slots whenever it sleeps.
use hyperagents.Base.{
  ℕ, zero, suc, ◌+◌, ◌≡◌, refl, inl, inr, true, false, some, List, get_elem?, arith, Bool-cases,
  if◌then◌else◌,
}
use hyperagents.Base.Int.{pos, ◌≤ℤ◌, ◌<ℤ◌, ltb_ℤ}
use hyperagents.World.{Timeval, Slot, Env, World}
use hyperagents.Effect.{done, deadlock, running, lock_lk, gettimeofday}
use hyperagents.Effect.Rules.{Ensures, Returns}
use hyperagents.Slots.{Best, scan_lru}
use hyperagents.Slots.Lru.{idle, Result, scan_lru-Result, scan_lru-max}
use hyperagents.Syncmount.{spin, sleep}

-- The slot at `ix` is released, has been idle for ten seconds, and no released slot for longer.
pub record Victim (c : Timeval) (ss : List Slot) (ix : ℕ) : Type 0 where
  pub slot : Slot
  pub found : get_elem? ss ix ≡ some slot
  pub released : slot.refcount ≡ pos 0
  pub long_idle : pos 10000 ≤ℤ idle c slot
  pub longest :
      (k : ℕ) (t : Slot) → get_elem? ss k ≡ some t → t.refcount ≡ pos 0 → idle c t ≤ℤ idle c slot

Picked-Victim :
    (c : Timeval) (ss : List Slot) (b : Best)
    → b.max <ℤ pos 10000
    → pos 10000 ≤ℤ (scan_lru c 0 ss b).max
    → Result c 0 ss b (scan_lru c 0 ss b)
    → Victim c ss (scan_lru c 0 ss b).maxix
Picked-Victim c ss b low high (inl same) = absurd (ground (arith, same))
Picked-Victim c ss b low high (inr (k, s, p, better)) = record {
  slot = s;
  found = let e : (scan_lru c 0 ss b).maxix ≡ k = omega (arith, p.index) in rw e p.found;
  released = p.released;
  long_idle = rw (← p.time) high;
  longest = λ j t e z. rw (← p.time) (scan_lru-max c 0 ss b j t e z);
}

module _ {Guest : Type 0} (env : Env Guest) where
  -- The slots at the n-th scan from now on, with `k` sleeps behind us.
  unfoldable pub slots_after : ℕ → ℕ → List Slot → List Slot
  slots_after zero k ss = ss
  slots_after (suc n) k ss = slots_after n (k + 1) (env.others k ss)

  abbrev pub scanned : Best → World Guest → Best
  scanned b w = scan_lru (env.time_of_day w.clock) 0 w.slots b

  abbrev pub holding : World Guest → World Guest
  holding w = record w { lk = true; clock = w.clock + 1 }

  abbrev pub rested : World Guest → World Guest
  rested w = record w {
    lk = false;
    clock = w.clock + 1;
    slots = env.others w.sleeps w.slots;
    sleeps = w.sleeps + 1;
  }

  -- One round.
  pub spin_round :
      (fuel : ℕ) (b : Best) (w : World Guest)
      → w.lk ≡ false
      → spin env (suc fuel) b w ≡ (
          if ltb_ℤ (scanned b w).max (pos 10000)
          then spin env fuel (scanned b w) (rested w)
          else done (scanned b w).maxix (holding w))
  unfolding spin lock_lk gettimeofday sleep
  spin_round fuel b w free = ground arith

  pub spin_held :
      (fuel : ℕ) (b : Best) (w : World Guest) → w.lk ≡ true → spin env (suc fuel) b w ≡ deadlock
  unfolding spin lock_lk
  spin_held fuel b w held = rw held

  pub spin_zero : (b : Best) (w : World Guest) → spin env 0 b w ≡ running
  unfolding spin
  spin_zero b w = refl

  -- What the loop leaves: `lk` is held, and the slot was the victim at the last reading of the clock.
  abbrev pub Spun : ℕ → World Guest → Type 0
  Spun ix w = (w.lk ≡ true) × (n : ℕ) × (w.clock ≡ n + 1) × Victim (env.time_of_day n) w.slots ix

  spin_picks :
      (fuel : ℕ) (b : Best) (w : World Guest)
      → w.lk ≡ false
      → b.max <ℤ pos 10000
      → ltb_ℤ (scanned b w).max (pos 10000) ≡ false
      → Returns Spun (spin env (suc fuel) b w)
  spin_picks fuel b w free low stop =
      rw (spin_round fuel b w free, stop)
        (
          refl,
          w.clock,
          refl,
          Picked-Victim (env.time_of_day w.clock) w.slots b low (ground (arith, stop))
              (scan_lru-Result (env.time_of_day w.clock) 0 w.slots b),
        )

  -- A property of the table that the other threads keep holds when the loop ends.
  pub spin-Ensures :
      (P : List Slot → Type 0)
      → ((n : ℕ) (ss : List Slot) → P ss → P (env.others n ss))
      → (fuel : ℕ) (b : Best) (w : World Guest) → b.max <ℤ pos 10000
      → P w.slots
      → Ensures (λ ix w'. P w'.slots × Spun ix w') (spin env fuel b w)
  spin-Ensures P keep zero b w low p = rw (spin_zero b w) tt
  spin-Ensures P keep (suc fuel) b w low p = elim (Bool-cases w.lk) [
    | inl held ↦ rw (spin_held fuel b w held) tt
    | inr free ↦ elim (Bool-cases (ltb_ℤ (scanned b w).max (pos 10000))) [
      | inr stop ↦
          rw (spin_round fuel b w free, stop)
            (
              p,
              (
                refl,
                w.clock,
                refl,
                Picked-Victim (env.time_of_day w.clock) w.slots b low (ground (arith, stop))
                    (scan_lru-Result (env.time_of_day w.clock) 0 w.slots b),
              ),
            )
      | inl go ↦
          rw (spin_round fuel b w free, go)
            (spin-Ensures P keep fuel (scanned b w) (rested w) (ground (arith, go))
              (keep w.sleeps w.slots p))
    ]
  ]

  -- If slot `j` is released at the n-th scan from now on and has been idle for ten seconds by the
  -- clock reading of that scan, the loop ends there at the latest. It then holds `lk`, and the slot
  -- that it picked is, at its last clock reading, released, idle for ten seconds, and idle at least
  -- as long as every other released slot. `lk` is free before, and the best so far is below ten
  -- seconds.
  pub spin-Returns :
      (n j : ℕ) (s : Slot) (b : Best) (w : World Guest)
      → w.lk ≡ false
      → b.max <ℤ pos 10000
      → get_elem? (slots_after n w.sleeps w.slots) j ≡ some s
      → s.refcount ≡ pos 0
      → pos 10000 ≤ℤ idle (env.time_of_day (w.clock + n)) s
      → Returns Spun (spin env (suc n) b w)
  unfolding slots_after
  spin-Returns zero j s b w free low e z long =
      let now : w.clock + 0 ≡ w.clock = omega arith in
      let best = scan_lru-max (env.time_of_day w.clock) 0 w.slots b j s e z in
      let long' : pos 10000 ≤ℤ idle (env.time_of_day w.clock) s = rw now at long in
      spin_picks 0 b w free low (ground (arith, best, long'))
  spin-Returns (suc n) j s b w free low e z long =
      elim (Bool-cases (ltb_ℤ (scanned b w).max (pos 10000))) [
        | inr stop ↦ spin_picks (suc n) b w free low stop
        | inl go ↦
            let later : w.clock + suc n ≡ w.clock + 1 + n = omega arith in
            rw (spin_round (suc n) b w free, go)
              (spin-Returns n j s (scanned b w) (rested w) refl (ground (arith, go)) e z
                (rw later at long))
      ]
