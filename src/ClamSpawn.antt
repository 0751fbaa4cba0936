-- ===== src/ClamSpawn.antt =====
-- clam_spawn/clam_spawn.c: a program that mounts an agent's disk and runs a scanner in it. `HAMain ha`
-- names a constructor without arguments, which HAMain does not have, and the name, the profile and the
-- path of the guest are to be filled in: all five are arguments here. Output is left out, and what
-- setvbuf and fcntl set.
pub mod Forking
pub mod Child
pub mod Parent
use hyperagents.Base.{ℕ, ◌+◌, ◌++◌, Bool, true, false, Option, none, some, if◌then◌else◌}
use hyperagents.Base.Int.{ℤ, pos, negsuc, eqb_ℤ}
use hyperagents.Base.Text.{Bytes, codes}
use hyperagents.World.{Env, World}
use hyperagents.Effect.{Outcome, uninitialised, ◌>>=◌, ◌>>◌, pure, fail, system, deref}
use hyperagents.Agents.{
  ha_main, add_agent, get_vmi, get_vmi_lock, rel_vmi_lock, mount_disk, unmount_disk, destroy_main,
}

-- The macros of sys/wait.h on a status.
pub record WaitMacros : Type 0 where
  pub wifexited : ℕ → Bool
  pub wexitstatus : ℕ → ℕ

unfoldable pub read_waitpid_status : WaitMacros → ℕ → ℕ
read_waitpid_status m status = if m.wifexited status then m.wexitstatus status + 128 else 0

-- How the process ends: by a return of main, or as the program that execvp put in its place, in the
-- directory of its argument.
pub data Ending : Type 0 where
  returned : ℤ → Ending
  replaced : Bytes → Ending

-- What the process does not decide: the result of fork (0 in the child, negative where it fails),
-- whether execvp returns, and the status that waitpid writes for a process.
pub record Forks : Type 0 where
  pub pid : ℤ
  pub execvp_returns : Bool
  pub waitpid : ℤ → Option ℕ
  pub macros : WaitMacros

module _ {Guest : Type 0} (env : Env Guest) (forks : Forks) where
  -- In the child. A return of main destroys `ha`, here too.
  unfoldable pub child : Bytes → World Guest → Outcome (World Guest) Ending
  child mp =
      if forks.execvp_returns
      then destroy_main env >> pure (returned (negsuc 0))
      else pure (replaced mp)

  unfoldable pub parent : Bytes → World Guest → Outcome (World Guest) Ending
  parent vm_name = do
    status ← elim (forks.waitpid forks.pid) [ some s ↦ pure s | none ↦ fail uninitialised ]
    ret ← pure (read_waitpid_status forks.macros status)
    unmount_disk env vm_name
    destroy_main env
    pure (returned (pos 0))

  unfoldable pub clam_spawn :
      Bytes → Bytes → Bytes → Bytes → Bytes → World Guest → Outcome (World Guest) Ending
  clam_spawn mount_path ghost_image vm_name rekall_profile disk_path = do
    ha_main env mount_path ghost_image
    added ← add_agent env vm_name rekall_profile disk_path
    vmi ← get_vmi env vm_name
    get_vmi_lock env
    h ← deref vmi
    rel_vmi_lock env
    mp ← mount_disk env vm_name
    r ← system env (codes "ls -lah " ++ mp)
    if eqb_ℤ forks.pid (pos 0) then child mp else parent vm_name
