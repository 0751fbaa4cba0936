-- ===== src/Tests/StealRuns.antt =====
-- request_mount on the test guest where all sixteen slots are taken and released.
use hyperagents.Base.{
  ℕ, zero, suc, ◌+◌, ◌≤◌, ◌≡◌, refl, ap, inl, inr, true, false, some, List, [], ◌∷◌, length,
  get_elem?, arith,
}
use hyperagents.Base.Int.{pos, ◌+ℤ◌, ◌-ℤ◌, ◌*ℤ◌, quot_ℕ}
use hyperagents.Base.Text.{codes}
use hyperagents.Clock.{timeval_diff}
use hyperagents.World.{Slot, World, guest_at}
use hyperagents.Effect.Rules.{Returns, Returns-mono}
use hyperagents.Patch.{install}
use hyperagents.Slots.{find_vmi, find_unlocked}
use hyperagents.Slots.Table.{IsTable}
use hyperagents.Sync.{do_sync}
use hyperagents.Sync.Loop.{traps_from}
use hyperagents.Sync.Whole.{do_sync-Returns}
use hyperagents.Syncmount.{request_mount}
use hyperagents.Syncmount.Spin.{slots_after}
use hyperagents.Syncmount.Request.{Grants}
use hyperagents.Syncmount.Stealing.Wait.{Like}
use hyperagents.Syncmount.Stealing.{request_mount-Returns_full}
use hyperagents.Tests.Guest.{Machine64, guest_laws, Anywhere, test_env, test_world}
use hyperagents.Tests.SlotRuns.{start, nobody_else}

-- Slot `k` was for instance `k + 100`, which has released it.
abbrev released_slot : ℕ → Slot
released_slot k = record {
  valid = 1;
  calls = 1;
  mountindex = pos k;
  refcount = pos 0;
  last_used = start;
  vmi = some (k + 100);
  l = true;
}

abbrev released_from : ℕ → ℕ → List Slot
released_from k zero = []
released_from k (suc n) = released_slot k ∷ released_from (suc k) n

get_elem?-released_from :
    (k n i : ℕ) (s : Slot) → get_elem? (released_from k n) i ≡ some s → s ≡ released_slot (k + i)
get_elem?-released_from k zero i s e = cc
get_elem?-released_from k (suc n) zero s e =
    let here : k ≡ k + 0 = omega arith in rw (← here) (ground (arith, e))
get_elem?-released_from k (suc n) (suc i) s e =
    let next : k + suc i ≡ suc k + i = omega arith in
    rw next (get_elem?-released_from (suc k) n i s e)

released_at : (i : ℕ) (s : Slot) → get_elem? (released_from 0 16) i ≡ some s → s ≡ released_slot i
released_at i s e =
    let start_at : 0 + i ≡ i = omega arith in rw start_at at (get_elem?-released_from 0 16 i s e)

released-IsTable : IsTable (released_from 0 16)
released-IsTable = record {
  size = refl;
  slots_ok = λ i s e. rw (released_at i s e) (omega arith, inl (refl, refl, λ z. cc));
  unique = λ i j h s t es et hs ht.
      let a = ap (λ (x : Slot). x.vmi) (released_at i s es) in
      let b = ap (λ (x : Slot). x.vmi) (released_at j t et) in ground (arith, a, b, hs, ht);
}

abbrev full_world : World Machine64
full_world = record test_world { slots = released_from 0 16 }

syncs :
    (u : World Machine64) → Like full_world u → Returns (λ r u'. Unit {0}) (do_sync test_env 0 u)
unfolding install traps_from
syncs u like =
    Returns-mono {Q = λ r u'. Unit {0}} (do_sync test_env 0 u)
      (do_sync-Returns test_env 0 Anywhere u 1 0x3000 ((guest_at u 0).mem 0x3000) guest_laws
        (record { qworko = tt; dwork = tt; dwork_back = tt; front = tt; back = tt }) (omega arith)
        (omega arith) refl low (inl many) (omega arith) short (inr (inr (inr (inl refl)))) refl)
      (λ r u' p. tt)
  where
    low : u.engine.safety ≤ 50
    low = rw like.engine (omega arith)

    many : 51 ≤ u.engine.safety + traps_from test_env 1 u.listens
    many = omega arith

    short : length u.ghost_image ≤ 78
    short = rw like.ghost (omega arith)

request_mount-Returns_full_example :
    Returns
      (λ ix w'. ((w'.lk ≡ false) × (w'.vmi_lock ≡ false)) × Grants test_env 0 ix w')
      (request_mount test_env (some 0) (codes "/disk.img") full_world)
unfolding slots_after find_vmi find_unlocked timeval_diff ◌-ℤ◌ ◌+ℤ◌ ◌*ℤ◌ quot_ℕ
request_mount-Returns_full_example =
    request_mount-Returns_full test_env 0 (codes "/disk.img") full_world 1 0 (released_slot 0)
      released-IsTable nobody_else refl refl refl refl refl refl refl (omega arith) syncs
      (omega arith) (omega arith) (λ m dev. omega arith)
