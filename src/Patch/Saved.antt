-- ===== src/Patch/Saved.antt =====
-- Putting the breakpoints in: the byte that `install` saves for a site is the one that stood there.
use hyperagents.Base.{ℕ, ◌≡◌, ◌≢◌, some, ◌∙◌}
use hyperagents.Vmi.{Vmi, VmiLaws}
use hyperagents.Engine.{Engine, Machine}
use hyperagents.Patch.{
  install, install_qworko, install_dwork, install_dwork_back, install_sys_sync_front,
}

module _ {Guest : Type 0} {vmi : Vmi Guest} {Resident : ℕ → Type 0}
    (laws : VmiLaws vmi Resident) where
  -- Each step writes at its own site alone.
  read-install_qworko :
      (m : Machine Guest) (c : ℕ)
      → (install_qworko vmi m).engine.qworko.addr ≢ c
      → vmi.read_8_va (install_qworko vmi m).guest c ≡ vmi.read_8_va m.guest c
  unfolding install_qworko
  read-install_qworko m c h = laws.read-write_ne _ _ c _ h

  read-install_dwork :
      (m : Machine Guest) (c : ℕ)
      → (install_dwork vmi m).engine.dwork.addr ≢ c
      → vmi.read_8_va (install_dwork vmi m).guest c ≡ vmi.read_8_va m.guest c
  unfolding install_dwork
  read-install_dwork m c h = laws.read-write_ne _ _ c _ h

  read-install_dwork_back :
      (m : Machine Guest) (c : ℕ)
      → (install_dwork_back vmi m).engine.dwork_back.addr ≢ c
      → vmi.read_8_va (install_dwork_back vmi m).guest c ≡ vmi.read_8_va m.guest c
  unfolding install_dwork_back
  read-install_dwork_back m c h = laws.read-write_ne _ _ c _ h

  read-install_sys_sync_front :
      (m : Machine Guest) (c : ℕ)
      → (install_sys_sync_front vmi m).engine.sys_sync_front.addr ≢ c
      → vmi.read_8_va (install_sys_sync_front vmi m).guest c ≡ vmi.read_8_va m.guest c
  unfolding install_sys_sync_front
  read-install_sys_sync_front m c h = laws.read-write_ne _ _ c _ h

  module _ (m : Machine Guest) where
    abbrev pub e : Engine
    e = (install vmi m).engine

    abbrev m0 : Machine Guest
    m0 = record m { guest = vmi.pause_vm m.guest }

    abbrev m1 : Machine Guest
    m1 = install_qworko vmi m0

    abbrev m2 : Machine Guest
    m2 = install_dwork vmi m1

    abbrev m3 : Machine Guest
    m3 = install_dwork_back vmi m2

    abbrev m4 : Machine Guest
    m4 = install_sys_sync_front vmi m3

    -- The byte saved for a site is the one that stood there, if no earlier site has its address.
    pub saved_qworko : (b : ℕ) → vmi.read_8_va m.guest e.qworko.addr ≡ some b → e.qworko.byte ≡ b
    unfolding install
    saved_qworko b r = rw (laws.read-pause m.guest _ ∙ r)

    -- What has not been written yet by the time that a site is saved.
    read-m1 : (c : ℕ) → e.qworko.addr ≢ c → vmi.read_8_va m1.guest c ≡ vmi.read_8_va m.guest c
    unfolding install
    read-m1 c nq = read-install_qworko m0 c nq ∙ laws.read-pause m.guest c

    read-m2 :
        (c : ℕ)
        → e.qworko.addr ≢ c
        → e.dwork.addr ≢ c
        → vmi.read_8_va m2.guest c ≡ vmi.read_8_va m.guest c
    unfolding install
    read-m2 c nq nd = read-install_dwork m1 c nd ∙ read-m1 c nq

    read-m3 :
        (c : ℕ)
        → e.qworko.addr ≢ c
        → e.dwork.addr ≢ c
        → e.dwork_back.addr ≢ c
        → vmi.read_8_va m3.guest c ≡ vmi.read_8_va m.guest c
    unfolding install
    read-m3 c nq nd nb = read-install_dwork_back m2 c nb ∙ read-m2 c nq nd

    read-m4 :
        (c : ℕ)
        → e.qworko.addr ≢ c
        → e.dwork.addr ≢ c
        → e.dwork_back.addr ≢ c
        → e.sys_sync_front.addr ≢ c
        → vmi.read_8_va m4.guest c ≡ vmi.read_8_va m.guest c
    unfolding install
    read-m4 c nq nd nb nf = read-install_sys_sync_front m3 c nf ∙ read-m3 c nq nd nb

    pub saved_dwork :
        (b : ℕ)
        → e.qworko.addr ≢ e.dwork.addr
        → vmi.read_8_va m.guest e.dwork.addr ≡ some b
        → e.dwork.byte ≡ b
    unfolding install
    saved_dwork b nq r = rw (read-m1 _ nq ∙ r)

    pub saved_dwork_back :
        (b : ℕ)
        → e.qworko.addr ≢ e.dwork_back.addr
        → e.dwork.addr ≢ e.dwork_back.addr
        → vmi.read_8_va m.guest e.dwork_back.addr ≡ some b
        → e.dwork_back.byte ≡ b
    unfolding install
    saved_dwork_back b nq nd r = rw (read-m2 _ nq nd ∙ r)

    pub saved_front :
        (b : ℕ)
        → e.qworko.addr ≢ e.sys_sync_front.addr
        → e.dwork.addr ≢ e.sys_sync_front.addr
        → e.dwork_back.addr ≢ e.sys_sync_front.addr
        → vmi.read_8_va m.guest e.sys_sync_front.addr ≡ some b
        → e.sys_sync_front.byte ≡ b
    unfolding install
    saved_front b nq nd nb r = rw (read-m3 _ nq nd nb ∙ r)

    pub saved_back :
        (b : ℕ)
        → e.qworko.addr ≢ e.sys_sync_back.addr
        → e.dwork.addr ≢ e.sys_sync_back.addr
        → e.dwork_back.addr ≢ e.sys_sync_back.addr
        → e.sys_sync_front.addr ≢ e.sys_sync_back.addr
        → vmi.read_8_va m.guest e.sys_sync_back.addr ≡ some b
        → e.sys_sync_back.byte ≡ b
    unfolding install
    saved_back b nq nd nb nf r = rw (read-m4 _ nq nd nb nf ∙ r)
