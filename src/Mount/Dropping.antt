-- ===== src/Mount/Dropping.antt =====
-- drop_all_mounts (libhyperagent/syncmount.cc): its commands, in order.
use hyperagents.Base.{
  ℕ, zero, suc, ◌+◌, ◌≤◌, ◌<◌, ◌≡◌, refl, sym, ap, ◌∙◌, List, [], ◌∷◌, ◌++◌, length, length-append,
  arith,
}
use hyperagents.Base.Text.{Bytes, length-to_string}
use mathlib.Core.List.{append-nil}
use hyperagents.World.{Env, World}
use hyperagents.Effect.{done, and_then}
use hyperagents.Effect.Rules.{run_in_fits, logged}
use hyperagents.Mount.{nbd_dev, umount_command, disconnect_command, drop_mounts, drop_all_mounts}

-- For each of `n` slots from `i` on: unmount, then disconnect.
abbrev pub drop_commands : Bytes → ℕ → ℕ → List Bytes
drop_commands base zero i = []
drop_commands base (suc n) i =
    umount_command base (nbd_dev i) ∷ disconnect_command (nbd_dev i) ∷ drop_commands base n (suc i)

append-snoc : {A : Type 0} (xs : List A) (x : A) (ys : List A) → (xs ++ x ∷ []) ++ ys ≡ xs ++ x ∷ ys
append-snoc {A = A} [] x ys = refl
append-snoc {A = A} (z ∷ xs) x ys = ap (λ (l : List A). z ∷ l) (append-snoc xs x ys)

module _ {Guest : Type 0} (env : Env Guest) where
  umount_fits :
      (base : Bytes) (i : ℕ)
      → length base ≤ 179
      → i < 100
      → length (umount_command base (nbd_dev i)) < 192
  umount_fits base i b h = simp length-append (omega (arith, length-to_string 1 i h))

  disconnect_fits : (i : ℕ) → i < 100 → length (disconnect_command (nbd_dev i)) < 192
  disconnect_fits i h = simp length-append (omega (arith, length-to_string 1 i h))

  drop_mounts_lem :
      (n i : ℕ) (w : World Guest)
      → length w.base_mountpoint ≤ 179
      → i + n ≤ 100
      → drop_mounts env n i w
        ≡ done tt (record w { log = w.log ++ drop_commands w.base_mountpoint n i })
  unfolding drop_mounts
  drop_mounts_lem zero i w b h =
      ap (λ (l : List Bytes). done tt (record w { log = l })) (sym (append-nil w.log))
  drop_mounts_lem (suc n) i w b h =
      rw (run_in_fits env 192 _ w (umount_fits w.base_mountpoint i b (omega arith)), and_then)
        (rw
          (
            run_in_fits env 192 _ (logged env (umount_command w.base_mountpoint (nbd_dev i)) w)
                (disconnect_fits i (omega arith)),
            and_then,
          )
          (drop_mounts_lem n (suc i) once b (omega arith)
            ∙ ap (λ (l : List Bytes). done tt (record w { log = l }))
                (append-snoc _ _ _ ∙ append-snoc _ _ _)))
    where
      once : World Guest
      once =
          logged env (disconnect_command (nbd_dev i))
            (logged env (umount_command w.base_mountpoint (nbd_dev i)) w)

  -- drop_all_mounts returns after these commands, for the slots from 0 to 15: unmount the mount
  -- point, then disconnect the device. Nothing else of the process's state changes. The path of the
  -- mount points' directory has at most 179 bytes.
  pub drop_all_mounts_lem :
      (w : World Guest)
      → length w.base_mountpoint ≤ 179
      → drop_all_mounts env w
        ≡ done tt (record w { log = w.log ++ drop_commands w.base_mountpoint 16 0 })
  unfolding drop_all_mounts
  drop_all_mounts_lem w b = drop_mounts_lem 16 0 w b (omega arith)
