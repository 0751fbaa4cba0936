-- ===== src/Sync/Rounds.antt =====
-- The event loop of do_sync, round by round: the machine after a number of calls of
-- vmi_events_listen, and that the loop ends in the round that tells it to.
use hyperagents.Base.{
  ℕ, zero, suc, ◌+◌, ◌≤◌, ◌<◌, ◌≡◌, ◌≢◌, refl, ap, sym, ◌∙◌, inl, inr, ◌++◌, ◌∷◌, Bool, true, List,
  length, arith, eq→==,
}
use hyperagents.Base.Int.{pos}
use hyperagents.Vmi.{interrupt}
use hyperagents.Engine.{Site, Machine}
use hyperagents.Callback.Sites.{SameSites, SameSites-refl, SameSites-trans}
use hyperagents.Patch.Restore.{Apart, Apart-SameSites}
use hyperagents.World.{Env, World, Delivery, machine_at}
use hyperagents.Effect.Rules.{Returns, Returns-and_then}
use hyperagents.Listen.{deliver_all, listen_round}
use hyperagents.Listen.Count.{IsStopped}
use hyperagents.Listen.Finish.{
  steps, IsEnding, Ended, listen_round-IsStopped, listen_round-Ended, listen_round-Finish,
}
use hyperagents.Listen.Hijack.{trap_rip}
use hyperagents.Listen.Sites.{listen_round-SameSites}
use hyperagents.Sync.{listen, attach_command, list_command, event_loop}
use hyperagents.Sync.Loop.{
  OnlyLog, attach_once-Returns, event_loop_stopped, event_loop_goes, interrupted-cases,
}

module _ {Guest : Type 0} (env : Env Guest) where
  -- The machine after `n` rounds, the first of them the `k`-th call of vmi_events_listen.
  abbrev pub machine_after : ℕ → ℕ → Machine Guest → Machine Guest
  machine_after zero k m = m
  machine_after (suc n) k m = machine_after n (k + 1) (listen_round env.vmi m (env.listen k))

  pub machine_at-listen :
      (h : ℕ) (w : World Guest)
      → machine_at (listen env h w) h ≡ listen_round env.vmi (machine_at w h) (env.listen w.listens)
  unfolding listen
  machine_at-listen h w = rw (eq→== (w.domain h) (w.domain h) refl) refl

  machine_after-SameSites :
      (n k : ℕ) (m : Machine Guest) → SameSites m.engine (machine_after n k m).engine
  machine_after-SameSites zero k m = SameSites-refl m.engine
  machine_after-SameSites (suc n) k m =
      SameSites-trans (listen_round-SameSites env.vmi m (env.listen k))
        (machine_after-SameSites n (k + 1) (listen_round env.vmi m (env.listen k)))

  -- The loop returns where a round tells it to stop.
  pub loop-Stops :
      (n fuel h vmid : ℕ) (attached : Bool) (w : World Guest)
      → n ≤ fuel
      → IsStopped (machine_after n w.listens (machine_at w h))
      → length (attach_command env vmid w.ghost_image) < 128
      → length (list_command env vmid) < 128
      → Returns
          (λ _ w'. w'.engine.interrupted ≢ pos 0)
          (event_loop env (suc fuel) h vmid attached w)
  unfolding listen
  loop-Stops zero fuel h vmid attached w low stop fits fits' =
      rw (event_loop_stopped env fuel h vmid attached w stop) stop
  loop-Stops (suc n) zero h vmid attached w low stop fits fits' = absurd (omega arith)
  loop-Stops (suc n) (suc fuel) h vmid attached w low stop fits fits' =
      elim (interrupted-cases env w) [
        | inr now ↦ rw (event_loop_stopped env (suc fuel) h vmid attached w now) now
        | inl go ↦ rw (event_loop_goes env (suc fuel) h vmid attached w go) (
            Returns-and_then (λ _. OnlyLog w') (λ _ w''. w''.engine.interrupted ≢ pos 0) _ _
              (attach_once-Returns env attached vmid w' fits fits')
              (λ _ w1 (l, e). rw e (
                loop-Stops n fuel h vmid true (record w' { log = l }) (omega arith)
                  (rw (machine_at-listen h w) stop) fits fits')))
      ]
    where
      w' : World Guest
      w' = listen env h w

  -- The single steps of `n` rounds.
  unfoldable pub steps_from : ℕ → ℕ → ℕ
  unfolding steps
  steps_from zero k = 0
  steps_from (suc n) k = steps (env.listen k).deliveries + steps_from n (k + 1)

  machine_after-IsStopped :
      (n k : ℕ) (m : Machine Guest) → IsStopped m → IsStopped (machine_after n k m)
  machine_after-IsStopped zero k m h = h
  machine_after-IsStopped (suc n) k m h =
      machine_after-IsStopped n (k + 1) _ (listen_round-IsStopped env.vmi m (env.listen k) h)

  machine_after-Ended :
      (n k : ℕ) (m : Machine Guest) → IsEnding m → Ended (steps_from n k) (machine_after n k m)
  unfolding steps_from
  machine_after-Ended zero k m h = elim h [ inl stopped ↦ inl stopped | inr c ↦ inr (c, refl) ]
  machine_after-Ended (suc n) k m h = elim (listen_round-Ended env.vmi m (env.listen k) h) [
    | inl stopped ↦ inl (machine_after-IsStopped n (k + 1) _ stopped)
    | inr (c, none_yet) ↦ elim (machine_after-Ended n (k + 1) _ (inr c)) [
      | inl stopped ↦ inl stopped
      | inr (c', rest) ↦ inr (c', omega arith)
    ]
  ]

  machine_after-add :
      (p q k : ℕ) (m : Machine Guest)
      → machine_after (p + q) k m ≡ machine_after q (k + p) (machine_after p k m)
  machine_after-add zero q k m =
      let left : 0 + q ≡ q = omega arith in
      let right : k + 0 ≡ k = omega arith in rw (left, right) refl
  machine_after-add (suc p) q k m =
      let left : suc p + q ≡ suc (p + q) = omega arith in
      let right : k + suc p ≡ (k + 1) + p = omega arith in
      rw (left, right) (machine_after-add p q (k + 1) (listen_round env.vmi m (env.listen k)))

  -- The `p`-th round from the `k`-th call on brings the event at the end of the work function, and
  -- behind it, or in one of the next `q` rounds, comes a single step.
  pub rounds_finish :
      (p q k : ℕ) (m : Machine Guest) (pre post : List (Delivery Guest)) (d : Delivery Guest)
      → (env.listen (k + p)).deliveries ≡ pre ++ d ∷ post
      → d.kind ≡ interrupt
      → trap_rip env.vmi (deliver_all env.vmi (machine_after p k m) pre) d
        ≡ m.engine.dwork_back.addr
      → m.engine.qworko.addr ≢ m.engine.dwork_back.addr
      → Apart m.engine
      → 1 ≤ steps post + steps_from q (k + p + 1)
      → IsStopped (machine_after (p + suc q) k m)
  rounds_finish p q k m pre post d split kind at nq apart stepped =
      rw (machine_after-add p (suc q) k m)
        (elim (listen_round-Finish env.vmi m' (env.listen (k + p)) pre post d split kind
          (at ∙ ap (λ (s : Site). s.addr) (sym same.dwork_back))
          (rw (same.qworko, same.dwork_back) nq) (Apart-SameSites same apart)) [
            | inl stopped ↦ machine_after-IsStopped q (k + p + 1) _ stopped
            | inr (c, none_behind) ↦ elim (machine_after-Ended q (k + p + 1) _ (inr c)) [
              | inl stopped ↦ stopped
              | inr (c', none_later) ↦ absurd (omega arith)
            ]
          ])
    where
      m' : Machine Guest
      m' = machine_after p k m

      same : SameSites m.engine m'.engine
      same = machine_after-SameSites p k m
