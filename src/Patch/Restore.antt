-- ===== src/Patch/Restore.antt =====
-- Taking the breakpoints out: what `restore` writes back is what `install` found.
use hyperagents.Base.{ℕ, ◌≡◌, ◌≢◌, sym, ap, ◌∙◌, ◌⊎◌, inl, inr, some, ℕ_discrete, arith}
use hyperagents.Vmi.{Vmi, VmiLaws}
use hyperagents.Engine.{Engine, Machine}
use hyperagents.Callback.Sites.{SameSites}
use hyperagents.Patch.{install, restore}
use hyperagents.Patch.Saved.{saved_qworko, saved_dwork, saved_dwork_back, saved_front, saved_back}

-- The two sites in the work function and the two in sys_sync are four addresses.
pub record Apart (e : Engine) : Type 0 where
  pub dwork-dwork_back : e.dwork.addr ≢ e.dwork_back.addr
  pub dwork-front : e.dwork.addr ≢ e.sys_sync_front.addr
  pub dwork-back : e.dwork.addr ≢ e.sys_sync_back.addr
  pub dwork_back-front : e.dwork_back.addr ≢ e.sys_sync_front.addr
  pub dwork_back-back : e.dwork_back.addr ≢ e.sys_sync_back.addr
  pub front-back : e.sys_sync_front.addr ≢ e.sys_sync_back.addr

pub Apart-SameSites : {e e' : Engine} → SameSites e e' → Apart e → Apart e'
Apart-SameSites s h = record {
  dwork-dwork_back = rw (s.dwork, s.dwork_back) h.dwork-dwork_back;
  dwork-front = rw (s.dwork, s.sys_sync_front) h.dwork-front;
  dwork-back = rw (s.dwork, s.sys_sync_back) h.dwork-back;
  dwork_back-front = rw (s.dwork_back, s.sys_sync_front) h.dwork_back-front;
  dwork_back-back = rw (s.dwork_back, s.sys_sync_back) h.dwork_back-back;
  front-back = rw (s.sys_sync_front, s.sys_sync_back) h.front-back;
}

pub record AllResident (Resident : ℕ → Type 0) (e : Engine) : Type 0 where
  pub qworko : Resident e.qworko.addr
  pub dwork : Resident e.dwork.addr
  pub dwork_back : Resident e.dwork_back.addr
  pub front : Resident e.sys_sync_front.addr
  pub back : Resident e.sys_sync_back.addr

-- An address at which do_sync plants a breakpoint.
abbrev pub IsSite : Engine → ℕ → Type 0
IsSite e a =
    (a ≡ e.qworko.addr)
    ⊎ (a ≡ e.dwork.addr)
    ⊎ (a ≡ e.dwork_back.addr)
    ⊎ (a ≡ e.sys_sync_front.addr)
    ⊎ (a ≡ e.sys_sync_back.addr)

module _ {Guest : Type 0} {vmi : Vmi Guest} {Resident : ℕ → Type 0}
    (laws : VmiLaws vmi Resident) where
  module _ (x : Engine) (here : AllResident Resident x) (g : Guest) where
    -- The last write wins, so qworko needs no other site to differ from it.
    put_back_qworko : vmi.read_8_va (restore vmi x g) x.qworko.addr ≡ some x.qworko.byte
    unfolding restore
    put_back_qworko = laws.read-write_self _ _ _ here.qworko

    put_back_back :
        x.qworko.addr ≢ x.sys_sync_back.addr
        → vmi.read_8_va (restore vmi x g) x.sys_sync_back.addr ≡ some x.sys_sync_back.byte
    unfolding restore
    put_back_back nq = laws.read-write_ne _ _ _ _ nq ∙ laws.read-write_self _ _ _ here.back

    put_back_front :
        x.qworko.addr ≢ x.sys_sync_front.addr
        → x.sys_sync_back.addr ≢ x.sys_sync_front.addr
        → vmi.read_8_va (restore vmi x g) x.sys_sync_front.addr ≡ some x.sys_sync_front.byte
    unfolding restore
    put_back_front nq nb =
        laws.read-write_ne _ _ _ _ nq
        ∙ laws.read-write_ne _ _ _ _ nb
        ∙ laws.read-write_self _ _ _ here.front

    put_back_dwork_back :
        x.qworko.addr ≢ x.dwork_back.addr
        → x.sys_sync_back.addr ≢ x.dwork_back.addr
        → x.sys_sync_front.addr ≢ x.dwork_back.addr
        → vmi.read_8_va (restore vmi x g) x.dwork_back.addr ≡ some x.dwork_back.byte
    unfolding restore
    put_back_dwork_back nq nb nf =
        laws.read-write_ne _ _ _ _ nq
        ∙ laws.read-write_ne _ _ _ _ nb
        ∙ laws.read-write_ne _ _ _ _ nf
        ∙ laws.read-write_self _ _ _ here.dwork_back

    put_back_dwork :
        x.qworko.addr ≢ x.dwork.addr
        → x.sys_sync_back.addr ≢ x.dwork.addr
        → x.sys_sync_front.addr ≢ x.dwork.addr
        → x.dwork_back.addr ≢ x.dwork.addr
        → vmi.read_8_va (restore vmi x g) x.dwork.addr ≡ some x.dwork.byte
    unfolding restore
    put_back_dwork nq nb nf nd =
        laws.read-write_ne _ _ _ _ nq
        ∙ laws.read-write_ne _ _ _ _ nb
        ∙ laws.read-write_ne _ _ _ _ nf
        ∙ laws.read-write_ne _ _ _ _ nd
        ∙ laws.read-write_self _ _ _ here.dwork

  restore-SameSites : {e x : Engine} (g : Guest) → SameSites e x → restore vmi x g ≡ restore vmi e g
  unfolding restore
  restore-SameSites g same =
      ground
        (arith, same.qworko, same.dwork, same.dwork_back, same.sys_sync_front, same.sys_sync_back)

  -- The bytes outside the sites stay.
  pub restore-elsewhere :
      (x : Engine) (g : Guest) (a : ℕ)
      → ¬ IsSite x a
      → vmi.read_8_va (restore vmi x g) a ≡ vmi.read_8_va g a
  unfolding restore
  restore-elsewhere x g a away =
      laws.read-write_ne _ _ a _ (λ z. away (inl (sym z)))
      ∙ laws.read-write_ne _ _ a _ (λ z. away (inr (inr (inr (inr (sym z))))))
      ∙ laws.read-write_ne _ _ a _ (λ z. away (inr (inr (inr (inl (sym z))))))
      ∙ laws.read-write_ne _ _ a _ (λ z. away (inr (inr (inl (sym z)))))
      ∙ laws.read-write_ne _ _ a _ (λ z. away (inr (inl (sym z))))

  -- An address is a site or not.
  pub IsSite-cases : (x : Engine) (a : ℕ) → IsSite x a ⊎ (¬ IsSite x a)
  IsSite-cases x a = or_not (ℕ_discrete a x.qworko.addr) (
      or_not (ℕ_discrete a x.dwork.addr) (
        or_not (ℕ_discrete a x.dwork_back.addr) (
          or_not (ℕ_discrete a x.sys_sync_front.addr)
            (decided (ℕ_discrete a x.sys_sync_back.addr)))))
    where
      decided : {P : Type 0} → Dec P → P ⊎ (¬ P)
      decided (yes p) = inl p
      decided (no n) = inr n

      or_not : {P Q : Type 0} → Dec P → Q ⊎ (¬ Q) → (P ⊎ Q) ⊎ (¬ (P ⊎ Q))
      or_not (yes p) q = inl (inl p)
      or_not (no n) (inl q) = inl (inr q)
      or_not (no n) (inr m) = inr (λ z. elim z [ inl p ↦ n p | inr q ↦ m q ])

  module _ (m : Machine Guest) (here : AllResident Resident (install vmi m).engine)
      (apart : Apart (install vmi m).engine) (g : Guest) (b : ℕ) where
    abbrev e : Engine
    e = (install vmi m).engine

    abbrev Restored : ℕ → Type 0
    Restored a = vmi.read_8_va m.guest a ≡ some b → vmi.read_8_va (restore vmi e g) a ≡ some b

    Restored-qworko : Restored e.qworko.addr
    Restored-qworko r = put_back_qworko e here g ∙ ap some (saved_qworko laws m b r)

    Restored-dwork : e.qworko.addr ≢ e.dwork.addr → Restored e.dwork.addr
    Restored-dwork nq r =
        put_back_dwork e here g nq (λ h. apart.dwork-back (sym h)) (λ h. apart.dwork-front (sym h))
          (λ h. apart.dwork-dwork_back (sym h))
        ∙ ap some (saved_dwork laws m b nq r)

    Restored-dwork_back : e.qworko.addr ≢ e.dwork_back.addr → Restored e.dwork_back.addr
    Restored-dwork_back nq r =
        put_back_dwork_back e here g nq (λ h. apart.dwork_back-back (sym h))
          (λ h. apart.dwork_back-front (sym h))
        ∙ ap some (saved_dwork_back laws m b nq apart.dwork-dwork_back r)

    Restored-front : e.qworko.addr ≢ e.sys_sync_front.addr → Restored e.sys_sync_front.addr
    Restored-front nq r =
        put_back_front e here g nq (λ h. apart.front-back (sym h))
        ∙ ap some (saved_front laws m b nq apart.dwork-front apart.dwork_back-front r)

    Restored-back : e.qworko.addr ≢ e.sys_sync_back.addr → Restored e.sys_sync_back.addr
    Restored-back nq r =
        put_back_back e here g nq
        ∙ ap some (saved_back laws m b nq apart.dwork-back apart.dwork_back-back apart.front-back r)

    -- A site that shares its address with queue_work_on is put back by the last write.
    or_qworko : (a : ℕ) → (e.qworko.addr ≢ a → Restored a) → Restored a
    or_qworko a other r = elim (ℕ_discrete e.qworko.addr a) [
      | yes eq ↦ rw (← eq) (Restored-qworko (rw eq r))
      | no ne ↦ other ne r
    ]

    restored : (a : ℕ) → IsSite e a → Restored a
    restored a (inl eq) r = rw eq (Restored-qworko (rw (← eq) r))
    restored a (inr (inl eq)) r = rw eq (or_qworko _ Restored-dwork (rw (← eq) r))
    restored a (inr (inr (inl eq))) r = rw eq (or_qworko _ Restored-dwork_back (rw (← eq) r))
    restored a (inr (inr (inr (inl eq)))) r = rw eq (or_qworko _ Restored-front (rw (← eq) r))
    restored a (inr (inr (inr (inr eq)))) r = rw eq (or_qworko _ Restored-back (rw (← eq) r))

    -- Whatever happened in between, the bytes at the sites are those from before `install`.
    pub restore-install :
        (a : ℕ) (x : Engine)
        → SameSites e x
        → IsSite e a
        → vmi.read_8_va m.guest a ≡ some b
        → vmi.read_8_va (restore vmi x g) a ≡ some b
    restore-install a x same s r = rw (restore-SameSites g same) (restored a s r)
