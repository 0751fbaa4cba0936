-- ===== src/Effect/Frame.antt =====
-- Code that leaves the slot table and the agents alone.
use hyperagents.Base.{
  ℕ, ◌≡◌, ◌∙◌, refl, Option, none, some, true, false, if◌then◌else◌, Bool, Bool-cases, inl, inr,
}
use hyperagents.Base.Text.{Bytes}
use hyperagents.Base.Int.{ℤ}
use hyperagents.Engine.{Machine}
use hyperagents.World.{Env, World, set_guest, set_machine}
use hyperagents.Effect.{
  Outcome, Fault, exited, fail, ◌>>=◌, pure, read, modify, run_in, lock_vmi, unlock_vmi, deref,
}
use hyperagents.Effect.Rules.{Ensures, Ensures-and_then, Ensures-mono, run_in-Ensures, logged}

module _ {Guest : Type 0} where
  pub record SameTable (w w' : World Guest) : Type 0 where
    pub slots : w'.slots ≡ w.slots
    pub lk : w'.lk ≡ w.lk
    pub base : w'.base_mountpoint ≡ w.base_mountpoint
    pub agents : w'.agents ≡ w.agents
    pub configs : w'.configs ≡ w.configs

  pub SameTable-refl : (w : World Guest) → SameTable w w
  SameTable-refl w = record { slots = refl; lk = refl; base = refl; agents = refl; configs = refl }

  pub SameTable-trans : {u v w : World Guest} → SameTable u v → SameTable v w → SameTable u w
  SameTable-trans h k = record {
    slots = k.slots ∙ h.slots;
    lk = k.lk ∙ h.lk;
    base = k.base ∙ h.base;
    agents = k.agents ∙ h.agents;
    configs = k.configs ∙ h.configs;
  }

  -- Where `m` ends, the table is as it was.
  pub record Keeps {A : Type 0} (m : World Guest → Outcome (World Guest) A) : Type 0 where
    pub at : (w : World Guest) → Ensures {A = A} (λ _ w'. SameTable w w') (m w)

  pub Keeps-bind :
      {A B : Type 0} {m : World Guest → Outcome (World Guest) A}
      {k : A → World Guest → Outcome (World Guest) B}
      → Keeps m
      → ((a : A) → Keeps (k a))
      → Keeps (m >>= k)
  Keeps-bind {m} {k} first rest = record {
    at = λ w.
        Ensures-and_then (λ _ w'. SameTable w w') (λ _ w'. SameTable w w') (m w) k (first.at w)
          (λ a w1 same.
            Ensures-mono (λ _ w'. SameTable w1 w') (λ _ w'. SameTable w w') (k a w1)
              (λ _ w2 same'. SameTable-trans same same') ((rest a).at w1));
  }

  pub Keeps-pure : {A : Type 0} (a : A) → Keeps {A = A} (pure a)
  Keeps-pure a = record { at = SameTable-refl }

  pub Keeps-read : {A : Type 0} (f : World Guest → A) → Keeps (read f)
  Keeps-read f = record { at = SameTable-refl }

  pub Keeps-fail : (A : Type 0) (f : Fault) → Keeps {A = A} (fail f)
  Keeps-fail A f = record { at = λ w. tt }

  pub Keeps-exited : (A : Type 0) (c : ℤ) → Keeps {A = A} (exited c)
  Keeps-exited A c = record { at = λ w. tt }

  pub Keeps-lock_vmi : Keeps lock_vmi
  unfolding lock_vmi
  Keeps-lock_vmi = record {
    at = λ w. elim (Bool-cases w.vmi_lock) [
      | inl held ↦ rw held tt
      | inr free ↦
          rw free (record { slots = refl; lk = refl; base = refl; agents = refl; configs = refl })
    ];
  }

  pub Keeps-unlock_vmi : Keeps unlock_vmi
  Keeps-unlock_vmi = record {
    at = λ w. record { slots = refl; lk = refl; base = refl; agents = refl; configs = refl };
  }

  pub Keeps-set_guest :
      (h : ℕ) (f : World Guest → Guest) → Keeps (modify (λ w. set_guest w h (f w)))
  Keeps-set_guest h f = record {
    at = λ w. record { slots = refl; lk = refl; base = refl; agents = refl; configs = refl };
  }

  pub Keeps-set_machine :
      (h : ℕ) (f : World Guest → Machine Guest) → Keeps (modify (λ w. set_machine w h (f w)))
  Keeps-set_machine h f = record {
    at = λ w. record { slots = refl; lk = refl; base = refl; agents = refl; configs = refl };
  }

  pub Keeps-if :
      {A : Type 0} (b : Bool) {m n : World Guest → Outcome (World Guest) A}
      → Keeps m
      → Keeps n
      → Keeps (if b then m else n)
  Keeps-if true h k = h
  Keeps-if false h k = k

  pub Keeps-deref : {A : Type 0} (p : Option A) → Keeps {A = A} (deref p)
  Keeps-deref none = record { at = λ w. tt }
  Keeps-deref (some a) = record { at = SameTable-refl }

module _ {Guest : Type 0} (env : Env Guest) where
  pub Keeps-run_in : (size : ℕ) (text : Bytes) → Keeps (run_in env size text)
  Keeps-run_in size text = record {
    at = λ w.
        Ensures-mono (λ _ w'. w' ≡ logged env text w) (λ _ w'. SameTable w w') _
          (λ _ w' e.
            rw e (record { slots = refl; lk = refl; base = refl; agents = refl; configs = refl }))
          (run_in-Ensures env size text w);
  }

pub ruleset keeping = (
  Keeps-bind, Keeps-pure, Keeps-read, Keeps-exited, Keeps-lock_vmi, Keeps-unlock_vmi,
  Keeps-set_guest, Keeps-set_machine, Keeps-if, Keeps-deref, Keeps-run_in,
)
