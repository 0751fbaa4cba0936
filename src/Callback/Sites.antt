-- ===== src/Callback/Sites.antt =====
-- What int_cb_front and step_cb_front leave alone: where the breakpoints are, and the bytes that
-- were saved for them.
use hyperagents.Base.{◌≡◌, refl, arith}
use hyperagents.Vmi.{Event, Vmi}
use hyperagents.Engine.{Engine, Machine}
use hyperagents.Callback.{int_cb_front, step_cb_front}

pub record SameSites (e e' : Engine) : Type 0 where
  pub qworko : e'.qworko ≡ e.qworko
  pub dwork : e'.dwork ≡ e.dwork
  pub dwork_back : e'.dwork_back ≡ e.dwork_back
  pub sys_sync_front : e'.sys_sync_front ≡ e.sys_sync_front
  pub sys_sync_back : e'.sys_sync_back ≡ e.sys_sync_back
  pub target : e'.target_work_fn ≡ e.target_work_fn

pub SameSites-refl : (e : Engine) → SameSites e e
SameSites-refl e = record {
  qworko = refl;
  dwork = refl;
  dwork_back = refl;
  sys_sync_front = refl;
  sys_sync_back = refl;
  target = refl;
}

pub SameSites-trans : {e f g : Engine} → SameSites e f → SameSites f g → SameSites e g
SameSites-trans h k = ground arith

module _ {Guest : Type 0} (vmi : Vmi Guest) (m : Machine Guest) (ev : Event) where
  pub int_cb_front-SameSites : SameSites m.engine (int_cb_front vmi m ev).machine.engine
  unfolding int_cb_front
  int_cb_front-SameSites = ground arith

  pub step_cb_front-SameSites : SameSites m.engine (step_cb_front vmi m ev).machine.engine
  unfolding step_cb_front
  step_cb_front-SameSites = ground arith
