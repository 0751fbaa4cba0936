-- ===== src/Syncmount/Stealing.antt =====
-- request_mount (libhyperagent/syncmount.cc) where every slot is taken: it waits for a slot that was
-- released long ago, unmounts it, and mounts it anew.
pub mod Wait
use hyperagents.Syncmount.Stealing.Wait.{Returns-Ensures, Like, same_fields, Chosen, wait-Chosen}
use hyperagents.Base.{
  ℕ, zero, suc, ◌+◌, ◌≤◌, ◌<◌, ◌≡◌, ◌≢◌, refl, ap, ◌∙◌, inl, inr, true, false, none, some, length,
  get_elem?, length-append, lt-length-get_elem?, Bool-cases, arith,
}
use hyperagents.Base.Int.{pos, ◌≤ℤ◌, ltb_ℤ}
use hyperagents.Base.Text.{Bytes, length-to_string}
use hyperagents.Engine.{Engine}
use hyperagents.World.{Slot, Env, World, guest_at, set_guest}
use hyperagents.Effect.{
  Outcome, done, fault, exited, deadlock, running, and_then, lock_vmi, gettimeofday,
}
use hyperagents.Effect.Rules.{
  Ensures, Returns, Returns-and_then, Returns-done, Returns-mono, run_in_fits, logged,
}
use hyperagents.Slots.{Best, alter, find_vmi, find_unlocked, steal}
use hyperagents.Slots.Table.{IsTable, find_vmi-none}
use hyperagents.Slots.Lru.{idle}
use hyperagents.Sync.{do_sync}
use hyperagents.Mount.{
  nbd_dev, connect_command, lazy_umount_command, disconnect_command, do_nbd_mount, do_nbd_unmount,
}
use hyperagents.Mount.Whole.{do_nbd_mount-Returns}
use hyperagents.Syncmount.{spin, mount_stolen, set_slots, request_mount, no_best}
use hyperagents.Syncmount.Spin.{
  scanned, holding, rested, spin_round, spin_held, spin_zero, Spun, slots_after, spin-Returns,
  spin-Ensures,
}
use hyperagents.Syncmount.Request.{
  Fair, Waiting, Waiting-others, Grants, request_mount_full, request_mount-Granted,
}

module _ {Guest : Type 0} (env : Env Guest) (h : ℕ) where
  abbrev unmounted : Bytes → World Guest → World Guest
  unmounted dev w =
      let w1 = logged env (lazy_umount_command w.base_mountpoint dev) w in
      logged env (disconnect_command dev)
        (record (set_guest w1 h (env.vmi.resume_vm (guest_at w1 h))) { vmi_lock = false })

  do_nbd_unmount_done :
      (dev : Bytes) (w : World Guest)
      → w.vmi_lock ≡ false
      → length w.base_mountpoint + length dev ≤ 160
      → do_nbd_unmount env dev (some h) w ≡ done 0 (unmounted dev w)
  unfolding do_nbd_unmount lock_vmi
  do_nbd_unmount_done dev w free small =
      let fits : length (lazy_umount_command w.base_mountpoint dev) < 192 =
        simp length-append (omega arith) in
      let fits' : length (disconnect_command dev) < 192 = simp length-append (omega arith) in
      rw (run_in_fits env 192 _ w fits, and_then, free, and_then)
        (rw (run_in_fits env 192 _ _ fits', and_then) refl)

  -- The slot that was chosen is unmounted, and mounted for the caller.
  mount_stolen-Returns :
      (k : ℕ) (disk : Bytes) (v w : World Guest)
      → w.vmi_lock ≡ false
      → Like v w
      → k < 16
      → length disk ≤ 150
      → length v.base_mountpoint ≤ 69
      → ((u : World Guest) → Like v u → Returns (λ r u'. Unit {0}) (do_sync env h u))
      → ((n : ℕ) → env.shell n (connect_command (nbd_dev k) disk) ≢ 256)
      → Returns
          (λ ix w'. (ix ≡ k) × (w'.lk ≡ false) × (w'.vmi_lock ≡ false))
          (mount_stolen env k (some h) disk w)
  unfolding mount_stolen gettimeofday set_slots
  mount_stolen-Returns k disk v w free like in_range fit small syncs ok =
      let name : length (nbd_dev k) ≤ 5 = omega (arith, length-to_string 1 k) in
      let base : length w.base_mountpoint ≤ 69 = rw like.base small in
      let (r, w2, e, u) =
        Returns-done (λ r u'. Unit {0}) _
          (syncs (record taken { vmi_lock = true }) (same_fields v w _ like refl)) in
      let (r', w', e', p) = Returns-done _ (do_nbd_mount env (nbd_dev k) (some h) disk taken) (
        do_nbd_mount-Returns env (nbd_dev k) disk h r taken w2 refl e (omega (arith, name))
          (omega (arith, base, name)) (ok (length w2.log))) in
      rw (do_nbd_unmount_done (nbd_dev k) w free (omega (arith, base, name)), and_then)
        (rw (e', and_then) (refl, refl, p.1))
    where
      taken : World Guest
      taken = set_slots env (alter k (steal k (some h))) (unmounted (nbd_dev k) w)

  -- request_mount for an instance without a slot, where every slot's mutex is held, returns: both
  -- locks are free, the table is in order, and the slot is the caller's and in use. The table was in
  -- order before and both locks free; what other threads do in the sleeps keeps the table in order,
  -- does not mount the caller's instance and frees no mutex; at the n-th scan some slot is released
  -- and has been idle for ten seconds by the scan's clock reading, and the fuel is n + 1; a do_sync
  -- for the caller returns wherever the state of the event callbacks, the domains, the two paths and
  -- the number of calls of vmi_events_listen are as before; the paths of the disk and of the mount
  -- point have at most 150 and 69 bytes; and the connect does not return 256.
  pub request_mount-Returns_full :
      (disk : Bytes) (w : World Guest) (n j : ℕ) (s : Slot)
      → IsTable w.slots
      → Fair env h
      → find_vmi (some h) w.slots ≡ none
      → find_unlocked w.slots ≡ none
      → w.lk ≡ false
      → w.vmi_lock ≡ false
      → env.fuel ≡ suc n
      → get_elem? (slots_after env n w.sleeps w.slots) j ≡ some s
      → s.refcount ≡ pos 0
      → pos 10000 ≤ℤ idle (env.time_of_day (w.clock + n)) s
      → ((u : World Guest) → Like w u → Returns (λ r u'. Unit {0}) (do_sync env h u))
      → length disk ≤ 150
      → length w.base_mountpoint ≤ 69
      → ((m : ℕ) (dev : Bytes) → env.shell m (connect_command dev disk) ≢ 256)
      → Returns
          (λ ix w'. ((w'.lk ≡ false) × (w'.vmi_lock ≡ false)) × Grants env h ix w')
          (request_mount env (some h) disk w)
  request_mount-Returns_full disk w n j s table fair missing full open_lk free fuel there released
        long syncs fit small ok =
      Returns-Ensures (λ ix w'. (w'.lk ≡ false) × (w'.vmi_lock ≡ false)) (Grants env h) _
        (rw (request_mount_full env h disk w missing full) (
          Returns-and_then (Chosen env h w) (λ ix w'. (w'.lk ≡ false) × (w'.vmi_lock ≡ false)) _ _
            (wait-Chosen env h env.fuel n j s w fuel waiting fair open_lk free there released long)
            (λ ix w1 c. stolen ix w1 c)))
        (request_mount-Granted env h disk w table fair)
    where
      waiting : Waiting h w.slots
      waiting = record {
        in_order = table;
        absent = λ i t e. find_vmi-none (some h) w.slots i t missing e;
        locked = full;
      }

      stolen :
          (ix : ℕ) (w1 : World Guest)
          → Chosen env h w ix w1
          → Returns
              (λ ix' w'. (w'.lk ≡ false) × (w'.vmi_lock ≡ false))
              (mount_stolen env ix (some h) disk w1)
      stolen ix w1 c =
          let (held, m, now, v) = c.spun in
          let bound = lt-length-get_elem? w1.slots ix v.found in
          let (ix', w', e, p) =
            Returns-done (λ ix' w'. (ix' ≡ ix) × (w'.lk ≡ false) × (w'.vmi_lock ≡ false)) _
              (mount_stolen-Returns ix disk w w1 c.free c.like
                (omega (arith, bound, c.in_order.size)) fit small syncs (λ m. ok m (nbd_dev ix))) in
          rw e (p.1, p.2)
