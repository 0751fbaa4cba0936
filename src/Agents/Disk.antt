-- ===== src/Agents/Disk.antt =====
-- HAMain::mount_disk and HAMain::unmount_disk (libhyperagent/libhyperagent.cc), for an agent whose
-- disk is mounted in a slot already.
use hyperagents.Base.{
  ℕ, ◌+◌, ◌≡◌, refl, ap, some, false, get_elem?, set, get_elem?-set_self, lt-length-get_elem?,
  arith,
}
use hyperagents.Base.Int.{◌-ℤ◌, ◌+ℤ◌}
use hyperagents.Base.Text.{Bytes}
use hyperagents.World.{Timeval, HaConfig, Slot, Env, World}
use hyperagents.Effect.{done, and_then, gettimeofday}
use hyperagents.Effect.Rules.{Returns, Returns-and_then}
use hyperagents.Slots.{alter, find_vmi, reuse, stamp, drop_ref}
use hyperagents.Slots.Table.{IsTable, get_elem?-alter_self, find_vmi-found}
use hyperagents.Mount.{get_mountpoint}
use hyperagents.Syncmount.{remount, set_slots}
use hyperagents.Syncmount.Request.{request_mount_hit, remount-Granted}
use hyperagents.Syncmount.Release.{Released, release_mount-Returns}
use hyperagents.Agents.{agent, config, set_mountdev, find_agent, mount_disk, unmount_disk}

module _ {Guest : Type 0} (env : Env Guest) where
  -- The table after a remount of slot `i`.
  abbrev pub remounted : ℕ → World Guest → World Guest
  remounted i w = record w {
    slots = alter i (stamp (env.time_of_day w.clock)) (alter i reuse w.slots);
    clock = w.clock + 1;
  }

  abbrev pub recorded : ℕ → ℕ → HaConfig → World Guest → World Guest
  recorded h i c w = record (remounted i w) {
    configs = set w.configs h (record c { mountdev = some i });
  }

  mount_disk_lem :
      (name : Bytes) (h i : ℕ) (c : HaConfig) (w : World Guest)
      → find_agent name w.agents ≡ some h
      → get_elem? w.configs h ≡ some c
      → find_vmi (some h) w.slots ≡ some i
      → mount_disk env name w ≡ done (get_mountpoint w.base_mountpoint i) (recorded h i c w)
  unfolding mount_disk agent config set_mountdev remount set_slots gettimeofday
  mount_disk_lem name h i c w known held hit =
      rw
        (
          known,
          and_then,
          held,
          and_then,
          request_mount_hit env h c.disk_path w i hit,
          and_then,
          held,
        )
        refl

  -- What mount_disk with unmount_disk leaves: slot `i`, which is `s` before, as it was but for its
  -- calls and its time.
  abbrev pub Unmounted : ℕ → ℕ → Slot → World Guest → World Guest → Type 0
  Unmounted h i s w w' =
      (w'.vmi_lock ≡ false)
      × (w'.log ≡ w.log)
      × IsTable w'.slots
      × (t : Slot) × (get_elem? w'.slots i ≡ some t)
      × (t.vmi ≡ some h)
      × (t.refcount ≡ s.refcount)

  -- For an agent whose disk is mounted in a slot, mount_disk returns the mount point of the slot, and
  -- unmount_disk behind it returns: vmi_global_lock is free, no command was run, the table is in
  -- order, and the slot is the agent's and has as many references as before. The table was in order
  -- before and the lock free.
  pub mount_disk-unmount_disk :
      (name : Bytes) (h i : ℕ) (c : HaConfig) (s : Slot) (w : World Guest)
      → IsTable w.slots
      → find_agent name w.agents ≡ some h
      → get_elem? w.configs h ≡ some c
      → find_vmi (some h) w.slots ≡ some i
      → get_elem? w.slots i ≡ some s
      → w.vmi_lock ≡ false
      → Returns
          (λ path w'.
            (path ≡ get_mountpoint w.base_mountpoint i)
            × Returns (λ _ w''. Unmounted h i s w w'') (unmount_disk env name w'))
          (mount_disk env name w)
  unfolding unmount_disk agent config remount set_slots gettimeofday ◌-ℤ◌ ◌+ℤ◌
  mount_disk-unmount_disk name h i c s w table known held hit found free =
      let (s', found', vmi) = find_vmi-found (some h) w.slots i hit in
      let same : s' ≡ s = ground (arith, found, found') in
      let (table', grant) = remount-Granted env h i w s' table found' vmi in
      let again =
        get_elem?-alter_self i (stamp now) _ (reuse s')
          (get_elem?-alter_self i reuse w.slots s' found') in
      let mine =
        get_elem?-set_self w.configs h (record c { mountdev = some i })
          (lt-length-get_elem? w.configs h held) in
      rw (mount_disk_lem name h i c w known held hit) (
        refl,
        rw (known, and_then, mine)
            (Returns-and_then (Released i (stamp now (reuse s')) (recorded h i c w))
              (λ _ w''. Unmounted h i s w w'') _ _
              (release_mount-Returns env (some h) i (stamp now (reuse s')) (recorded h i c w) table'
                again (ground (arith, (table.slots_ok i s' found').0)) free)
              (λ r w' p. (
                p.1,
                p.2,
                p.3,
                drop_ref (stamp now (reuse s')),
                p.4,
                vmi,
                ground (arith, ap (λ (x : Slot). x.refcount) same),
              ))),
      )
    where
      now : Timeval
      now = env.time_of_day w.clock
