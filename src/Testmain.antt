-- ===== src/Testmain.antt =====
-- libhyperagent/testmain.c: the example program, from its arguments to its return. Setting the
-- buffering of stdout and O_NONBLOCK on stdin is left out, with the name of the guest, which is only
-- printed.
pub mod Whole
pub mod Arguments
pub mod Program
pub mod Flushed
use hyperagents.Base.{ℕ, ◌++◌, ◌==◌, if◌then◌else◌, none, some, List, get_elem?, length}
use hyperagents.Base.Text.{Bytes, codes}
use hyperagents.World.{Env, World}
use hyperagents.Effect.{Outcome, null_pointer, out_of_range, ◌>>=◌, ◌>>◌, pure, fail, system, deref}
use hyperagents.Agents.{
  ha_main, add_agent, get_vmi, get_vmi_lock, rel_vmi_lock, mount_disk, unmount_disk, destroy_main,
}

module _ {Guest : Type 0} where
  -- A std::string of `argv[i]`. `argv[argc]` is NULL; behind it the array ends.
  unfoldable pub arg : List Bytes → ℕ → World Guest → Outcome (World Guest) Bytes
  arg argv i = elim (get_elem? argv i) [
    | some a ↦ pure a
    | none ↦ if i == length argv then fail null_pointer else fail out_of_range
  ]

abbrev pub ls_command : Bytes → Bytes
ls_command mp = codes "ls -lah " ++ mp

module _ {Guest : Type 0} (env : Env Guest) where
  -- From the construction of `ha` on; its destructor runs on the return.
  unfoldable pub use_agent :
      Bytes → Bytes → Bytes → Bytes → Bytes → World Guest → Outcome (World Guest) ℕ
  use_agent vm_name rekall_profile disk_path basemount_path ghost_image = do
    ha_main env basemount_path ghost_image
    added ← add_agent env vm_name rekall_profile disk_path
    vmi ← get_vmi env vm_name
    get_vmi_lock env
    h ← deref vmi
    rel_vmi_lock env
    mp ← mount_disk env vm_name
    r ← system env (ls_command mp)
    unmount_disk env vm_name
    destroy_main env
    pure 0

  unfoldable pub testmain : List Bytes → World Guest → Outcome (World Guest) ℕ
  unfolding arg
  testmain argv = do
    vm_name ← arg argv 1
    rekall_profile ← arg argv 2
    disk_path ← arg argv 3
    basemount_path ← arg argv 4
    ghost_image ← arg argv 5
    use_agent vm_name rekall_profile disk_path basemount_path ghost_image
