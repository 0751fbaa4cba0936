-- ===== src/Effect/Leaves.antt =====
-- Code that leaves a property of the state as it is, and code that makes it hold.
use hyperagents.Base.{ℕ, ◌+◌, ◌≡◌, refl, Bool, true, false, if◌then◌else◌}
use hyperagents.Base.Int.{ℤ}
use hyperagents.Base.Text.{Bytes}
use hyperagents.World.{Env, World}
use hyperagents.Effect.{
  Outcome, done, fault, exited, deadlock, running, ◌>>=◌, pure, read, modify, run_in, unlock_vmi,
  gettimeofday,
}
use hyperagents.Effect.Rules.{
  Ensures, Returns, Returns-mono, Ensures-and_then, Ensures-mono, run_in-Ensures, logged,
}

module _ {W A : Type 0} where
  pub Ensures-anything : (o : Outcome W A) → Ensures (λ _ _. Unit {0}) o
  Ensures-anything (done a w) = tt
  Ensures-anything (fault f) = tt
  Ensures-anything (exited c w) = tt
  Ensures-anything deadlock = tt
  Ensures-anything running = tt

  pub Ensures-both :
      (P Q : A → W → Type 0) (o : Outcome W A)
      → Ensures P o
      → Ensures Q o
      → Ensures (λ a w. P a w × Q a w) o
  Ensures-both P Q (done a w) h k = (h, k)
  Ensures-both P Q (fault f) h k = tt
  Ensures-both P Q (exited c w) h k = tt
  Ensures-both P Q deadlock h k = tt
  Ensures-both P Q running h k = tt

  pub Returns-also :
      (P Q : A → W → Type 0) (o : Outcome W A)
      → Returns P o
      → Ensures Q o
      → Returns (λ a w. P a w × Q a w) o
  Returns-also P Q (done a w) h k = (h, k)
  Returns-also P Q (fault f) h k = absurd h
  Returns-also P Q (exited c w) h k = absurd h
  Returns-also P Q deadlock h k = absurd h
  Returns-also P Q running h k = absurd h

  pub Returns-with :
      (P Q : A → W → Type 0) (o : Outcome W A) → Returns P o → Ensures Q o → Returns Q o
  Returns-with P Q o h k =
      Returns-mono {P = λ a w. P a w × Q a w} {Q = Q} o (Returns-also P Q o h k)
        (λ a w both. both.1)

  pub Returns-Ensures : (P : A → W → Type 0) (o : Outcome W A) → Returns P o → Ensures P o
  Returns-Ensures P (done a w) h = h
  Returns-Ensures P (fault f) h = tt
  Returns-Ensures P (exited c w) h = tt
  Returns-Ensures P deadlock h = tt
  Returns-Ensures P running h = tt

module _ {W : Type 0} (P : W → Type 0) where
  -- Where `P` holds before and `m` ends, `P` holds.
  pub record Leaves {A : Type 0} (m : W → Outcome W A) : Type 0 where
    pub at : (w : W) → P w → Ensures {A = A} (λ _ w'. P w') (m w)

  -- Where `m` ends, `P` holds.
  pub record Makes {A : Type 0} (m : W → Outcome W A) : Type 0 where
    pub at : (w : W) → Ensures {A = A} (λ _ w'. P w') (m w)

  pub Makes-Leaves : {A : Type 0} (m : W → Outcome W A) → Makes m → Leaves m
  Makes-Leaves m h = record { at = λ w p. h.at w }

  pub Leaves-bind :
      {A B : Type 0} {m : W → Outcome W A} {k : A → W → Outcome W B}
      → Leaves m
      → ((a : A) → Leaves (k a))
      → Leaves (m >>= k)
  Leaves-bind {m} {k} first rest = record {
    at = λ w p. Ensures-and_then (λ _. P) (λ _. P) (m w) k (first.at w p) (λ a. (rest a).at);
  }

  -- What comes last counts.
  pub Makes-last :
      {A B : Type 0} (m : W → Outcome W A) {k : A → W → Outcome W B}
      → ((a : A) → Makes (k a))
      → Makes (m >>= k)
  Makes-last m {k} rest = record {
    at = λ w.
        Ensures-and_then (λ _ _. Unit {0}) (λ _. P) (m w) k (Ensures-anything (m w))
          (λ a w1 p. (rest a).at w1);
  }

  pub Makes-first :
      {A B : Type 0} {m : W → Outcome W A} {k : A → W → Outcome W B}
      → Makes m
      → ((a : A) → Leaves (k a))
      → Makes (m >>= k)
  Makes-first {m} {k} first rest = record {
    at = λ w. Ensures-and_then (λ _. P) (λ _. P) (m w) k (first.at w) (λ a. (rest a).at);
  }

  pub Leaves-pure : {A : Type 0} (a : A) → Leaves {A = A} (pure a)
  Leaves-pure a = record { at = λ w p. p }

  pub Leaves-read : {A : Type 0} (f : W → A) → Leaves (read f)
  Leaves-read f = record { at = λ w p. p }

  pub Leaves-modify : (f : W → W) → ((w : W) → P w → P (f w)) → Leaves (modify f)
  Leaves-modify f h = record { at = h }

  pub Makes-if :
      {A : Type 0} (b : Bool) {m n : W → Outcome W A}
      → Makes m
      → Makes n
      → Makes (if b then m else n)
  Makes-if true h k = h
  Makes-if false h k = k

  pub Makes-exited : (A : Type 0) (c : ℤ) → Makes {A = A} (exited c)
  Makes-exited A c = record { at = λ w. tt }

module _ {Guest : Type 0} where
  abbrev pub IsFree : World Guest → Type 0
  IsFree w = w.vmi_lock ≡ false

  pub Makes-unlock_vmi : Makes IsFree unlock_vmi
  Makes-unlock_vmi = record { at = λ w. refl }

module _ {Guest : Type 0} (env : Env Guest) (P : World Guest → Type 0) where
  pub Leaves-run_in :
      (size : ℕ) (text : Bytes)
      → ((w : World Guest) → P w → P (logged env text w))
      → Leaves P (run_in env size text)
  Leaves-run_in size text h = record {
    at = λ w p.
        Ensures-mono (λ _ w'. w' ≡ logged env text w) (λ _. P) _ (λ _ w' e. rw e (h w p))
          (run_in-Ensures env size text w);
  }

  pub Leaves-gettimeofday :
      ((w : World Guest) → P w → P (record w { clock = w.clock + 1 })) → Leaves P (gettimeofday env)
  unfolding gettimeofday
  Leaves-gettimeofday h = record { at = h }

pub ruleset leaving = (
  Makes-first, Makes-last, Makes-if, Makes-exited, Makes-unlock_vmi, Leaves-bind, Leaves-pure,
  Leaves-read,
)
