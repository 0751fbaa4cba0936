-- ===== src/Agents/Session/Locked.antt =====
-- HAMain::get_vmi_lock (libhyperagent/libhyperagent.cc) around the other calls of the class: they take
-- the same mutex.
use hyperagents.Base.{ℕ, ◌≡◌, ◌≢◌, refl, some}
use hyperagents.Base.Int.{pos}
use hyperagents.Base.Text.{Bytes}
use hyperagents.World.{Env, World}
use hyperagents.Effect.{done, deadlock, and_then, lock_vmi, gettimeofday}
use hyperagents.Effect.Rules.{Returns}
use hyperagents.Slots.View.{view-some}
use hyperagents.Syncmount.{slot_at, set_slots, release_mount, print_status}
use hyperagents.Agents.{
  find_agent, agent, config, ha_config, add_agent, get_vmi_lock, rel_vmi_lock, unmount_disk,
}
use hyperagents.Agents.Session.{IsAlone, Session}
use hyperagents.Agents.Session.Promises.{session-Sound}

module _ {Guest : Type 0} (env : Env Guest) where
  -- In a session get_vmi_lock returns. A client thread that then calls add_agent, get_vmi_lock again,
  -- print_status, or unmount_disk for an agent with open mounts waits for itself for ever; rel_vmi_lock
  -- gives back the state before get_vmi_lock. No other thread changes the slots.
  pub get_vmi_lock-Deadlocks :
      (c : ℕ → ℕ) (name other profile disk : Bytes) (h : ℕ) (w : World Guest)
      → IsAlone env
      → Session env c w
      → find_agent name w.agents ≡ some h
      → c h ≢ 0
      → Returns
          (λ _ w'.
            (add_agent env other profile disk w' ≡ deadlock)
            × (get_vmi_lock env w' ≡ deadlock)
            × (print_status env w' ≡ deadlock)
            × (unmount_disk env name w' ≡ deadlock)
            × (rel_vmi_lock env w' ≡ done tt w))
          (get_vmi_lock env w)
  unfolding add_agent ha_config lock_vmi print_status gettimeofday unmount_disk agent config
      release_mount slot_at set_slots
  get_vmi_lock-Deadlocks c name other profile disk h w alone past known still =
      let sound = session-Sound env alone c w past in
      let m = sound.mounts h still in
      let (s, found, holder) = view-some h m.device (pos (c h)) w.slots sound.in_order m.served in
      rw sound.unlocked (
        refl,
        refl,
        refl,
        rw (known, and_then, m.found, and_then, m.recorded, and_then, found, and_then) refl,
        refl,
      )
