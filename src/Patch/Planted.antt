-- ===== src/Patch/Planted.antt =====
-- What the guest's memory holds once the breakpoints are in.
use hyperagents.Base.{ℕ, ◌≡◌, ◌⊎◌, inl, inr, some, sym, ◌∙◌, ℕ_discrete}
use hyperagents.Vmi.{Vmi, VmiLaws}
use hyperagents.Engine.{breakpoint_byte, Engine, Machine}
use hyperagents.Patch.{
  install, install_qworko, install_dwork, install_dwork_back, install_sys_sync_front,
  install_sys_sync_back,
}
use hyperagents.Patch.Restore.{IsSite}

module _ {Guest : Type 0} {vmi : Vmi Guest} {Resident : ℕ → Type 0}
    (laws : VmiLaws vmi Resident) where
  abbrev Trapped : ℕ → Guest → Type 0
  Trapped a g = vmi.read_8_va g a ≡ some breakpoint_byte

  -- A breakpoint stays where another one is written.
  write-Trapped :
      (g : Guest) (a c : ℕ)
      → Resident a
      → (a ≡ c) ⊎ Trapped a g
      → Trapped a (vmi.write_8_va g c breakpoint_byte)
  write-Trapped g a c here (inl e) = rw (← e) (laws.read-write_self g a breakpoint_byte here)
  write-Trapped g a c here (inr t) = elim (ℕ_discrete a c) [
    | yes e ↦ rw (← e) (laws.read-write_self g a breakpoint_byte here)
    | no ne ↦ laws.read-write_ne g c a breakpoint_byte (λ z. ne (sym z)) ∙ t
  ]

  module _ (m : Machine Guest) where
    abbrev e : Engine
    e = (install vmi m).engine

    pub site-Trapped : (a : ℕ) → Resident a → IsSite e a → Trapped a (install vmi m).guest
    unfolding install install_qworko install_dwork install_dwork_back install_sys_sync_front
        install_sys_sync_back
    site-Trapped a here site = elim site [
      | inl s ↦ kept (kept (kept (kept (fresh s))))
      | inr (inl s) ↦ kept (kept (kept (fresh s)))
      | inr (inr (inl s)) ↦ kept (kept (fresh s))
      | inr (inr (inr (inl s))) ↦ kept (fresh s)
      | inr (inr (inr (inr s))) ↦ fresh s
    ]
      where
        fresh : {g : Guest} {c : ℕ} → a ≡ c → Trapped a (vmi.write_8_va g c breakpoint_byte)
        fresh s = write-Trapped _ a _ here (inl s)

        kept : {g : Guest} {c : ℕ} → Trapped a g → Trapped a (vmi.write_8_va g c breakpoint_byte)
        kept t = write-Trapped _ a _ here (inr t)

    pub elsewhere_same :
        (a : ℕ) → ¬ IsSite e a → vmi.read_8_va (install vmi m).guest a ≡ vmi.read_8_va m.guest a
    unfolding install install_qworko install_dwork install_dwork_back install_sys_sync_front
        install_sys_sync_back
    elsewhere_same a away =
        laws.read-write_ne _ _ a _ (λ z. away (inr (inr (inr (inr (sym z))))))
        ∙ laws.read-write_ne _ _ a _ (λ z. away (inr (inr (inr (inl (sym z))))))
        ∙ laws.read-write_ne _ _ a _ (λ z. away (inr (inr (inl (sym z)))))
        ∙ laws.read-write_ne _ _ a _ (λ z. away (inr (inl (sym z))))
        ∙ laws.read-write_ne _ _ a _ (λ z. away (inl (sym z)))
        ∙ laws.read-pause m.guest a

    -- After `install` a breakpoint byte stands at every breakpoint site that is resident, and the
    -- byte at every address that is no breakpoint site is the one from before. The assumptions on
    -- LibVMI hold.
    pub install-Trapped :
        (a c : ℕ)
        → Resident a
        → IsSite e a
        → ¬ IsSite e c
        → (vmi.read_8_va (install vmi m).guest a ≡ some breakpoint_byte)
          × (vmi.read_8_va (install vmi m).guest c ≡ vmi.read_8_va m.guest c)
    install-Trapped a c here site away = (site-Trapped a here site, elsewhere_same c away)
