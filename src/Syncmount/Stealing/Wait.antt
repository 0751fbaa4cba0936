-- ===== src/Syncmount/Stealing/Wait.antt =====
-- How the loop of request_mount (libhyperagent/syncmount.cc) ends, with what it leaves alone.
use hyperagents.Base.{
  ℕ, zero, suc, ◌+◌, ◌≡◌, refl, ap, ◌∙◌, inl, inr, false, some, get_elem?, Bool-cases, arith,
}
use hyperagents.Base.Int.{pos, ◌≤ℤ◌, ltb_ℤ}
use hyperagents.Base.Text.{Bytes}
use hyperagents.Engine.{Engine}
use hyperagents.World.{Slot, Env, World}
use hyperagents.Effect.{Outcome, done, fault, exited, deadlock, running}
use hyperagents.Effect.Rules.{Ensures, Returns, Returns-mono}
use hyperagents.Slots.{Best}
use hyperagents.Slots.Table.{IsTable}
use hyperagents.Slots.Lru.{idle}
use hyperagents.Syncmount.{spin, no_best}
use hyperagents.Syncmount.Spin.{
  scanned, holding, rested, spin_round, spin_held, spin_zero, Spun, slots_after, spin-Returns,
  spin-Ensures,
}
use hyperagents.Syncmount.Request.{Fair, Waiting, Waiting-others}

-- What returns, and ensures, returns with both.
pub Returns-Ensures :
    {W A : Type 0} (P Q : A → W → Type 0) (o : Outcome W A)
    → Returns P o
    → Ensures Q o
    → Returns (λ a w. P a w × Q a w) o
Returns-Ensures P Q (done a w) p q = (p, q)
Returns-Ensures P Q (fault f) p q = absurd p
Returns-Ensures P Q (exited c w) p q = absurd p
Returns-Ensures P Q deadlock p q = absurd p
Returns-Ensures P Q running p q = absurd p

module _ {Guest : Type 0} where
  -- What do_sync depends on, but for the guest.
  pub record Like (w w' : World Guest) : Type 0 where
    pub engine : w'.engine ≡ w.engine
    pub domain : w'.domain ≡ w.domain
    pub ghost : w'.ghost_image ≡ w.ghost_image
    pub base : w'.base_mountpoint ≡ w.base_mountpoint
    pub listens : w'.listens ≡ w.listens

  Like-refl : (w : World Guest) → Like w w
  Like-refl w = record { engine = refl; domain = refl; ghost = refl; base = refl; listens = refl }

  -- The fields that it is about, as one.
  abbrev pub core : World Guest → Engine × (ℕ → ℕ) × Bytes × Bytes × ℕ
  core w = (w.engine, w.domain, w.ghost_image, w.base_mountpoint, w.listens)

  pub same_fields : (v w w' : World Guest) → Like v w → core w' ≡ core w → Like v w'
  same_fields v w w' like same = record {
    engine = ap (λ x. x.0) same ∙ like.engine;
    domain = ap (λ x. x.1) same ∙ like.domain;
    ghost = ap (λ x. x.2) same ∙ like.ghost;
    base = ap (λ x. x.3) same ∙ like.base;
    listens = ap (λ x. x.4) same ∙ like.listens;
  }

module _ {Guest : Type 0} (env : Env Guest) (h : ℕ) where
  -- The wait changes neither that nor vmi_global_lock.
  spin-Like :
      (fuel : ℕ) (b : Best) (w v : World Guest)
      → Like v w
      → w.vmi_lock ≡ false
      → Ensures (λ ix w'. Like v w' × (w'.vmi_lock ≡ false)) (spin env fuel b w)
  spin-Like zero b w v like free = rw (spin_zero env b w) tt
  spin-Like (suc fuel) b w v like free = elim (Bool-cases w.lk) [
    | inl held ↦ rw (spin_held env fuel b w held) tt
    | inr open_lk ↦ elim (Bool-cases (ltb_ℤ (scanned env b w).max (pos 10000))) [
      | inr stop ↦
          rw (spin_round env fuel b w open_lk, stop)
            (same_fields v w (holding env w) like refl, free)
      | inl go ↦
          rw (spin_round env fuel b w open_lk, go)
            (spin-Like fuel (scanned env b w) (rested env w) v
              (same_fields v w (rested env w) like refl) free)
    ]
  ]

  -- What a wait that ended leaves.
  pub record Chosen (w : World Guest) (ix : ℕ) (w' : World Guest) : Type 0 where
    pub spun : Spun env ix w'
    pub like : Like w w'
    pub free : w'.vmi_lock ≡ false
    pub in_order : IsTable w'.slots

  abbrev Calm : World Guest → ℕ → World Guest → Type 0
  Calm w ix w' = Like w w' × (w'.vmi_lock ≡ false)

  abbrev Waited : ℕ → World Guest → Type 0
  Waited ix w' = Waiting h w'.slots × Spun env ix w'

  pub wait-Chosen :
      (fuel n j : ℕ) (s : Slot) (w : World Guest)
      → fuel ≡ suc n
      → Waiting h w.slots
      → Fair env h
      → w.lk ≡ false
      → w.vmi_lock ≡ false
      → get_elem? (slots_after env n w.sleeps w.slots) j ≡ some s
      → s.refcount ≡ pos 0
      → pos 10000 ≤ℤ idle (env.time_of_day (w.clock + n)) s
      → Returns (Chosen w) (spin env fuel (no_best env) w)
  wait-Chosen fuel n j s w enough waiting fair open_lk free there released long = rw enough (
      Returns-mono {P = λ ix w'. (Spun env ix w' × Calm w ix w') × Waited ix w'} {Q = Chosen w}
        (spin env (suc n) (no_best env) w)
        (Returns-Ensures (λ ix w'. Spun env ix w' × Calm w ix w') Waited _
          (Returns-Ensures (Spun env) (Calm w) _
            (spin-Returns env n j s (no_best env) w open_lk (omega arith) there released long)
            (spin-Like (suc n) (no_best env) w w (Like-refl w) free))
          (spin-Ensures env (Waiting h) (Waiting-others env h fair) (suc n) (no_best env) w
            (omega arith) waiting))
        (λ ix w' p. record {
          spun = p.0.0;
          like = p.0.1.0;
          free = p.0.1.1;
          in_order = p.1.0.in_order;
        }))
