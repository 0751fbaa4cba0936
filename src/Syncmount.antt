-- ===== src/Syncmount.antt =====
-- The class syncmount of libhyperagent/syncmount.cc: construction, request_mount, release_mount,
-- print_status, destruction. Debug output is left out.
pub mod Spin
pub mod Request
pub mod Refines
pub mod Directory
pub mod Stealing
pub mod Prompt
pub mod Starved
pub mod Release
pub mod Status
pub mod Start
use hyperagents.Base.{ℕ, zero, suc, ◌+◌, false, none, some, List, [], ◌∷◌, if◌then◌else◌, get_elem?}
use hyperagents.Base.Int.{ℤ, pos, ltb_ℤ}
use hyperagents.Base.Text.{Bytes, codes}
use hyperagents.Clock.{timeval_diff}
use hyperagents.Slots.{
  devmax, new_slot, find_vmi, find_unlocked, Best, scan_lru, alter, reuse, claim, steal, stamp,
  drop_ref,
}
use hyperagents.World.{Handle, Timeval, Slot, Env, World, guest_at, set_guest}
use hyperagents.Effect.{
  Outcome, done, out_of_range, running, ◌>>=◌, ◌>>◌, pure, fail, read, modify, lock_vmi, unlock_vmi,
  lock_lk, unlock_lk, deref, gettimeofday,
}
use hyperagents.Mount.{nbd_dev, do_nbd_mount, do_nbd_unmount, drop_all_mounts}

-- One line of print_status.
pub record StatusLine : Type 0 where
  pub index : ℕ
  pub valid : ℕ
  pub locked : ℕ
  pub name : Bytes
  pub calls : ℕ
  pub refcount : ℤ
  pub last_used : ℤ
  pub vmi : Handle

module _ {Guest : Type 0} (env : Env Guest) where
  unfoldable pub set_slots : (List Slot → List Slot) → World Guest → World Guest
  set_slots f w = record w { slots = f w.slots }

  abbrev pub touch : (List Slot → List Slot) → World Guest → Outcome (World Guest) (Unit {0})
  touch f = modify (set_slots f)

  -- `n` records, each with its own reading of the clock.
  unfoldable pub new_slots : ℕ → World Guest → Outcome (World Guest) (List Slot)
  new_slots zero = pure []
  new_slots (suc n) = do t ← gettimeofday env; rest ← new_slots n; pure (new_slot t ∷ rest)

  unfoldable pub construct : Bytes → Bytes → World Guest → Outcome (World Guest) (Unit {0})
  construct mount_path ghost_image = do
    slots ← new_slots devmax
    modify (λ w. record w {
      slots = slots;
      base_mountpoint = mount_path;
      ghost_image = ghost_image;
      lk = false;
    })

  -- The remount: nothing but the record changes.
  unfoldable pub remount : ℕ → World Guest → Outcome (World Guest) ℕ
  remount i = do touch (alter i reuse); t ← gettimeofday env; touch (alter i (stamp t)); pure i

  unfoldable pub mount_free : ℕ → Handle → Bytes → World Guest → Outcome (World Guest) ℕ
  mount_free i vmi disk_path = do
    touch (alter i (claim i vmi))
    r ← do_nbd_mount env (nbd_dev i) vmi disk_path
    t ← gettimeofday env
    touch (alter i (stamp t))
    pure i

  -- sleep_for: other threads go on with the slots.
  unfoldable pub sleep : World Guest → Outcome (World Guest) (Unit {0})
  sleep w = done tt (record w { slots = env.others w.sleeps w.slots; sleeps = w.sleeps + 1 })

  -- `while (keep_spinning == 1)`: `lk` is held when it ends.
  unfoldable pub spin : ℕ → Best → World Guest → Outcome (World Guest) ℕ
  spin zero b = λ w. running
  spin (suc fuel) b = do
    lock_lk
    c ← gettimeofday env
    b' ← read (λ w. scan_lru c 0 w.slots b)
    if ltb_ℤ b'.max (pos 10000) then unlock_lk >> sleep >> spin fuel b' else pure b'.maxix

  abbrev pub no_best : Best
  no_best = record { max = pos 0; maxix = 0 }

  unfoldable pub mount_stolen : ℕ → Handle → Bytes → World Guest → Outcome (World Guest) ℕ
  mount_stolen i vmi disk_path = do
    u ← do_nbd_unmount env (nbd_dev i) vmi
    touch (alter i (steal i vmi))
    r ← do_nbd_mount env (nbd_dev i) vmi disk_path
    t ← gettimeofday env
    touch (alter i (stamp t))
    unlock_lk
    pure i

  unfoldable pub request_mount : Handle → Bytes → World Guest → Outcome (World Guest) ℕ
  request_mount vmi disk_path w = elim (find_vmi vmi w.slots) [
    | some i ↦ remount i w
    | none ↦ elim (find_unlocked w.slots) [
      | some i ↦ mount_free i vmi disk_path w
      | none ↦ (spin env.fuel no_best >>= λ i. mount_stolen i vmi disk_path) w
    ]
  ]

  -- `syncmount_records[dev]`
  unfoldable pub slot_at : ℕ → World Guest → Outcome (World Guest) Slot
  slot_at dev w = elim (get_elem? w.slots dev) [ none ↦ fail out_of_range w | some s ↦ pure s w ]

  -- The parameter `vmi` is not used.
  unfoldable pub release_mount : Handle → ℕ → World Guest → Outcome (World Guest) ℕ
  release_mount vmi dev = do
    s ← slot_at dev
    touch (alter dev drop_ref)
    lock_vmi
    h ← deref s.vmi
    modify (λ w. set_guest w h (env.vmi.resume_vm (guest_at w h)))
    unlock_vmi
    pure 0

  -- try_lock and unlock leave a free mutex free.
  unfoldable pub status_line : Timeval → World Guest → ℕ → Slot → StatusLine
  status_line c w i s = record {
    index = i;
    valid = s.valid;
    locked = if s.l then 0 else 1;
    name = elim s.vmi [ none ↦ codes "UNK" | some h ↦ env.vmi.get_name (guest_at w h) ];
    calls = s.calls;
    refcount = s.refcount;
    last_used = timeval_diff s.last_used c;
    vmi = s.vmi;
  }

  unfoldable pub status_lines : Timeval → World Guest → ℕ → List Slot → List StatusLine
  status_lines c w i [] = []
  status_lines c w i (s ∷ ss) = status_line c w i s ∷ status_lines c w (suc i) ss

  unfoldable pub print_status : World Guest → Outcome (World Guest) (List StatusLine)
  print_status = do
    c ← gettimeofday env
    lock_vmi
    lines ← read (λ w. status_lines c w 0 w.slots)
    unlock_vmi
    pure lines

  unfoldable pub destruct : World Guest → Outcome (World Guest) (Unit {0})
  destruct = drop_all_mounts env
