-- ===== src/Effect/Rules.antt =====
-- Reasoning about outcomes: postconditions that hold where code ends, and where it must end.
use hyperagents.Base.{
  ℕ, ◌≡◌, ◌<◌, ◌≤◌, refl, Bool-cases, inl, inr, ◌++◌, [], ◌∷◌, ltb, lt→ltb, le→ltb, length,
}
use hyperagents.Base.Text.{Bytes}
use hyperagents.World.{Env, World}
use hyperagents.Effect.{
  Outcome, done, fault, exited, deadlock, running, buffer_overflow, and_then, run_in,
}

module _ {W A : Type 0} where
  -- Where it ends normally, `P` holds.
  abbrev pub Ensures : (A → W → Type 0) → Outcome W A → Type 0
  Ensures P (done a w) = P a w
  Ensures P (fault f) = Unit
  Ensures P (exited c w) = Unit
  Ensures P deadlock = Unit
  Ensures P running = Unit

  -- It ends normally, and `P` holds.
  abbrev pub Returns : (A → W → Type 0) → Outcome W A → Type 0
  Returns P (done a w) = P a w
  Returns P (fault f) = ⊥
  Returns P (exited c w) = ⊥
  Returns P deadlock = ⊥
  Returns P running = ⊥

module _ {W A B : Type 0} (P : A → W → Type 0) (Q : B → W → Type 0) where
  pub Ensures-and_then :
      (o : Outcome W A) (k : A → W → Outcome W B)
      → Ensures P o
      → ((a : A) (w : W) → P a w → Ensures Q (k a w))
      → Ensures Q (and_then o k)
  Ensures-and_then (done a w) k h step = step a w h
  Ensures-and_then (fault f) k h step = tt
  Ensures-and_then (exited c w) k h step = tt
  Ensures-and_then deadlock k h step = tt
  Ensures-and_then running k h step = tt

  pub Returns-and_then :
      (o : Outcome W A) (k : A → W → Outcome W B)
      → Returns P o
      → ((a : A) (w : W) → P a w → Returns Q (k a w))
      → Returns Q (and_then o k)
  Returns-and_then (done a w) k h step = step a w h
  Returns-and_then (fault f) k h step = absurd h
  Returns-and_then (exited c w) k h step = absurd h
  Returns-and_then deadlock k h step = absurd h
  Returns-and_then running k h step = absurd h

module _ {W A : Type 0} (P Q : A → W → Type 0) where
  pub Ensures-mono :
      (o : Outcome W A) → ((a : A) (w : W) → P a w → Q a w) → Ensures P o → Ensures Q o
  Ensures-mono (done a w) f h = f a w h
  Ensures-mono (fault f') f h = tt
  Ensures-mono (exited c w) f h = tt
  Ensures-mono deadlock f h = tt
  Ensures-mono running f h = tt

module _ {W A : Type 0} {P Q : A → W → Type 0} where
  pub Returns-mono :
      (o : Outcome W A) → Returns P o → ((a : A) (w : W) → P a w → Q a w) → Returns Q o
  Returns-mono (done a w) h f = f a w h
  Returns-mono (fault f') h f = absurd h
  Returns-mono (exited c w) h f = absurd h
  Returns-mono deadlock h f = absurd h
  Returns-mono running h f = absurd h

module _ {W A : Type 0} (P : A → W → Type 0) where
  pub Returns-done : (o : Outcome W A) → Returns P o → (a : A) × (w : W) × (o ≡ done a w) × P a w
  Returns-done (done a w) h = (a, w, refl, h)
  Returns-done (fault f) h = absurd h
  Returns-done (exited c w) h = absurd h
  Returns-done deadlock h = absurd h
  Returns-done running h = absurd h

  pub Ensures-done : (o : Outcome W A) (a : A) (w : W) → Ensures P o → o ≡ done a w → P a w
  Ensures-done o a w h e = rw e at h

module _ {Guest : Type 0} (env : Env Guest) where
  abbrev pub logged : Bytes → World Guest → World Guest
  logged text w = record w { log = w.log ++ text ∷ [] }

  pub run_in_fits :
      (size : ℕ) (text : Bytes) (w : World Guest)
      → length text < size
      → run_in env size text w ≡ done (env.shell (length w.log) text) (logged text w)
  unfolding run_in
  run_in_fits size text w h = rw (lt→ltb _ _ h)

  pub run_in_overflows :
      (size : ℕ) (text : Bytes) (w : World Guest)
      → size ≤ length text
      → run_in env size text w ≡ fault buffer_overflow
  unfolding run_in
  run_in_overflows size text w h = rw (le→ltb _ _ h)

  -- Running a command changes the log alone.
  pub run_in-Ensures :
      (size : ℕ) (text : Bytes) (w : World Guest)
      → Ensures (λ r w'. w' ≡ logged text w) (run_in env size text w)
  unfolding run_in
  run_in-Ensures size text w = elim (Bool-cases (ltb (length text) size)) [
    | inl fits ↦ rw fits refl
    | inr long ↦ rw long tt
  ]
