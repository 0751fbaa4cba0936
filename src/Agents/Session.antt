-- ===== src/Agents/Session.antt =====
-- A run of the class HAMain (libhyperagent/libhyperagent.cc) from its constructor on: the calls of
-- one client thread, in any order, with the number of mounts of each agent that are open.
pub mod Sound
pub mod Mounting
pub mod Unmounting
pub mod Promises
pub mod Locked
use hyperagents.Base.{ℕ, ◌≡◌, ◌≢◌, some, true, List}
use hyperagents.Base.Text.{Bytes}
use hyperagents.World.{Slot, Env, World}
use hyperagents.Effect.{done}
use hyperagents.Slots.View.Books.{one_more, one_less}
use hyperagents.Agents.{find_agent, ha_main, add_agent, mount_disk, unmount_disk}

-- No other thread changes the slots.
abbrev pub IsAlone : {Guest : Type 0} → Env Guest → Type 0
IsAlone env = (n : ℕ) (ss : List Slot) → env.others n ss ≡ ss

-- The states after calls that returned. An agent's disk is unmounted only while it has open mounts.
pub data Session {Guest : Type 0} (env : Env Guest) : (ℕ → ℕ) → World Guest → Type 0 where
  begun :
      (mount_path ghost_image : Bytes) (w w' : World Guest)
      → ha_main env mount_path ghost_image w ≡ done tt w'
      → Session env (λ _. 0) w'
  added :
      (c : ℕ → ℕ) (name profile disk : Bytes) (w w' : World Guest)
      → Session env c w
      → add_agent env name profile disk w ≡ done true w'
      → Session env c w'
  mounted :
      (c : ℕ → ℕ) (name path : Bytes) (h : ℕ) (w w' : World Guest)
      → Session env c w
      → find_agent name w.agents ≡ some h
      → mount_disk env name w ≡ done path w'
      → Session env (one_more h c) w'
  unmounted :
      (c : ℕ → ℕ) (name : Bytes) (h : ℕ) (w w' : World Guest)
      → Session env c w
      → find_agent name w.agents ≡ some h
      → c h ≢ 0
      → unmount_disk env name w ≡ done tt w'
      → Session env (one_less h c) w'
