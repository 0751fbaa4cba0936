-- ===== src/Testmain/Flushed.antt =====
-- testmain.c with the do_sync in it: the guest is synced and put back before its disk is mounted.
use hyperagents.Base.{ℕ, suc, ◌^◌, ◌≤◌, ◌<◌, ◌≡◌, ◌≢◌, some, List, ◌∷◌, length}
use hyperagents.Base.Int.{pos}
use hyperagents.Base.Text.{Bytes}
use hyperagents.Vmi.{VmiLaws}
use hyperagents.Patch.Restore.{Apart, AllResident, IsSite}
use hyperagents.World.{Env, World, guest_at}
use hyperagents.Effect.{done}
use hyperagents.Effect.Rules.{Returns, Returns-done}
use hyperagents.Sync.{do_sync}
use hyperagents.Sync.Loop.{EndsIn}
use hyperagents.Sync.Whole.{installed, vmid, do_sync-Returns}
use hyperagents.Mount.{nbd_dev, connect_command}
use hyperagents.Testmain.{testmain}
use hyperagents.Testmain.Whole.{handle, mounting}
use hyperagents.Testmain.Program.{Ended, testmain-Returns}

module _ {Guest : Type 0} (env : Env Guest) (vm profile disk base ghost : Bytes) (d : ℕ)
    (w : World Guest) where
  -- The process where the do_sync starts, and with the breakpoints in.
  abbrev pub start : World Guest
  start = mounting env vm profile disk base ghost d w

  abbrev agent_handle : ℕ
  agent_handle = handle env vm profile disk base ghost d w

  abbrev pub planted : World Guest
  planted = installed env agent_handle start

  -- At `w1`, the process behind the do_sync, the loop was told to stop and the byte at `a` is `b`.
  abbrev pub Synced : ℕ → ℕ → World Guest → Type 0
  Synced a b w1 =
      (do_sync env agent_handle start ≡ done 0 w1)
      × (w1.engine.interrupted ≢ pos 0)
      × (env.vmi.read_8_va (guest_at w1 agent_handle) a ≡ some b)

  -- With at least five arguments main returns 0, as soon as LibVMI finds the domain, the paths of the
  -- disk and of the mount point have at most 150 and 69 bytes and that of the ghost image at most 78,
  -- the connect does not return 256, and for the do_sync: the assumptions on LibVMI hold, the
  -- breakpoint sites are resident, the two sites in the work function and the two in sys_sync are
  -- four addresses, the work function was found, at most 50 events were counted before, the next
  -- rounds, one less than the fuel, bring the 51st or have one that ends in an error, and the
  -- domain's number has at most 20 digits. The do_sync of the mount then returns, with every breakpoint site holding the byte that
  -- was read there before; main's own commands stand behind those of the do_sync, which are the
  -- connect, map, unmount and mount of slot 0, the listing, and an unmount and a disconnect for each
  -- slot. Slot 0 is the agent's, with no reference, and vmi_global_lock is free.
  pub testmain-Synced :
      (prog : Bytes) (more : List Bytes) (Resident : ℕ → Type 0) (fuel a b : ℕ)
      → env.init_complete vm ≡ some d
      → length disk ≤ 150
      → length base ≤ 69
      → length ghost ≤ 78
      → ((n : ℕ) → env.shell n (connect_command (nbd_dev 0) disk) ≢ 256)
      → VmiLaws env.vmi Resident
      → AllResident Resident planted.engine
      → Apart planted.engine
      → planted.engine.target_work_fn ≢ 0
      → env.fuel ≡ suc fuel
      → w.engine.safety ≤ 50
      → EndsIn env fuel w
      → vmid env agent_handle start < 10 ^ 20
      → IsSite planted.engine a
      → env.vmi.read_8_va (guest_at start agent_handle) a ≡ some b
      → (w1 : World Guest) × Synced a b w1
        × Returns
            (Ended env vm profile disk base ghost d agent_handle w1)
            (testmain env (prog ∷ vm ∷ profile ∷ disk ∷ base ∷ ghost ∷ more) w)
  testmain-Synced prog more Resident fuel a b known fit small short ok laws here apart t f low many
        digits s r =
      let (r1, w1, e, (zero_lem, stop, back)) =
        Returns-done
          (λ r' w'.
            (r' ≡ 0)
            × (w'.engine.interrupted ≢ pos 0)
            × (env.vmi.read_8_va (guest_at w' agent_handle) a ≡ some b))
          _
          (do_sync-Returns env agent_handle Resident start fuel a b laws here apart t f low many
            digits short s r) in
      let e' : do_sync env agent_handle start ≡ done 0 w1 = rw zero_lem at e in
      (
        w1,
        (e', stop, back),
        testmain-Returns env vm profile disk base ghost d prog more w w1 0 known e' fit small
            (ok (length w1.log)),
      )
