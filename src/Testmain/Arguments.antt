-- ===== src/Testmain/Arguments.antt =====
-- How testmain.c reads its command line.
use hyperagents.Base.{◌≤◌, ◌<◌, ◌≡◌, refl, List, [], ◌∷◌, length, arith}
use hyperagents.Base.Text.{Bytes}
use hyperagents.World.{Env, World}
use hyperagents.Effect.{fault, null_pointer}
use hyperagents.Testmain.{testmain, use_agent}

module _ {Guest : Type 0} (env : Env Guest) where
  -- With the program's name and at least five arguments, the rest of main runs on the first five.
  pub testmain_enough :
      (prog vm profile disk base ghost : Bytes) (more : List Bytes) (w : World Guest)
      → testmain env (prog ∷ vm ∷ profile ∷ disk ∷ base ∷ ghost ∷ more) w
        ≡ use_agent env vm profile disk base ghost w
  unfolding testmain
  testmain_enough prog vm profile disk base ghost more w = refl

  -- With the program's name and fewer than five arguments, main makes a std::string of NULL, before
  -- it does anything else.
  pub testmain_short :
      (argv : List Bytes) (w : World Guest)
      → 1 ≤ length argv
      → length argv < 6
      → testmain env argv w ≡ fault null_pointer
  unfolding testmain
  testmain_short (a ∷ []) w one few = refl
  testmain_short (a ∷ b ∷ []) w one few = refl
  testmain_short (a ∷ b ∷ c ∷ []) w one few = refl
  testmain_short (a ∷ b ∷ c ∷ d ∷ []) w one few = refl
  testmain_short (a ∷ b ∷ c ∷ d ∷ e ∷ []) w one few = refl
  testmain_short (a ∷ b ∷ c ∷ d ∷ e ∷ f ∷ rest) w one few = absurd (omega arith)
  testmain_short [] w one few = absurd (omega arith)
