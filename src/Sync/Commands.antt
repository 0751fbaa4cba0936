-- ===== src/Sync/Commands.antt =====
-- The xl commands of do_sync in their buffer of 128 bytes.
use hyperagents.Base.{ℕ, ◌+◌, ◌^◌, ◌≤◌, ◌<◌, ◌≡◌, ◌++◌, refl, [], ◌∷◌, length, length-append, arith}
use hyperagents.Base.Text.{Bytes, to_string, length-to_string}
use hyperagents.World.{Env, World}
use hyperagents.Effect.{done, and_then, run_in, pure}
use hyperagents.Effect.Rules.{Ensures, Ensures-and_then, run_in_fits, run_in-Ensures, logged}
use hyperagents.Sync.{attach_command, list_command, detach_command, detach}

module _ {Guest : Type 0} (env : Env Guest) where
  pub length-attach_command :
      (vmid : ℕ) (image : Bytes)
      → length (attach_command env vmid image) ≡ 29 + length (to_string vmid) + length image
  length-attach_command vmid image = simp length-append (omega arith)

  pub length-detach_command :
      (vmid : ℕ) → length (detach_command env vmid) ≡ 21 + length (to_string vmid)
  length-detach_command vmid = simp length-append (omega arith)

  -- A guest number has at most 20 digits.
  pub attach_fits :
      (vmid : ℕ) (image : Bytes)
      → vmid < 10 ^ 20
      → length image ≤ 78
      → length (attach_command env vmid image) < 128
  attach_fits vmid image v i =
      omega (arith, length-attach_command vmid image, length-to_string 19 vmid v)

  pub list_fits : (vmid : ℕ) → vmid < 10 ^ 20 → length (list_command env vmid) < 128
  list_fits vmid v = omega (arith, length-to_string 19 vmid v)

  detach_fits : (vmid : ℕ) → vmid < 10 ^ 20 → length (detach_command env vmid) < 128
  detach_fits vmid v = omega (arith, length-detach_command vmid, length-to_string 19 vmid v)

  abbrev pub detached : ℕ → World Guest → World Guest
  detached vmid w = record w {
    log = (w.log ++ detach_command env vmid ∷ []) ++ list_command env vmid ∷ [];
  }

  -- The two commands behind the loop always fit, and are run in this order.
  pub detach_lem :
      (vmid : ℕ) (w : World Guest) → vmid < 10 ^ 20 → detach env vmid w ≡ done tt (detached vmid w)
  unfolding detach
  detach_lem vmid w v =
      rw (run_in_fits env 128 _ w (detach_fits vmid v), and_then)
        (rw (run_in_fits env 128 _ (logged env _ w) (list_fits vmid v)) refl)

  pub detach-Ensures :
      (vmid : ℕ) (w : World Guest) → Ensures (λ _ w'. w' ≡ detached vmid w) (detach env vmid w)
  unfolding detach
  detach-Ensures vmid w =
      Ensures-and_then (λ _ w'. w' ≡ logged env _ w) (λ _ w'. w' ≡ detached vmid w) _ _
        (run_in-Ensures env 128 _ w) (λ r w1 e. rw e second)
    where
      second :
          Ensures
            (λ _ w'. w' ≡ detached vmid w)
            (and_then
              (run_in env 128 (list_command env vmid) (logged env (detach_command env vmid) w))
              (λ _. pure tt))
      second =
          Ensures-and_then (λ _ w'. w' ≡ detached vmid w) (λ _ w'. w' ≡ detached vmid w) _ _
            (run_in-Ensures env 128 _ _) (λ r w2 e. e)
