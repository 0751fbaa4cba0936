-- ===== src/Effect.antt =====
-- Code that reads and changes the process's state, and may stop: the outcomes and their chaining,
-- and the calls of the C library and of std::mutex that libhyperagent uses.
pub mod Rules
pub mod Frame
pub mod Leaves
use hyperagents.Base.{
  ℕ, ◌+◌, true, false, Option, none, some, [], ◌∷◌, ◌++◌, ltb, if◌then◌else◌, length,
}
use hyperagents.Base.Int.{ℤ}
use hyperagents.Base.Text.{Bytes}
use hyperagents.World.{Timeval, Env, World}

-- Undefined behaviour that the code can run into.
pub data Fault : Type 0 where
  buffer_overflow null_pointer out_of_range uninitialised division_by_zero : Fault

-- `running`: a loop went on when the fuel was used up. `deadlock`: a thread locks a mutex that it
-- holds already.
pub data Outcome (W A : Type 0) : Type 0 where
  done : A → W → Outcome W A
  fault : Fault → Outcome W A
  exited : ℤ → W → Outcome W A
  deadlock : Outcome W A
  running : Outcome W A

module _ {W A B : Type 0} where
  abbrev pub and_then : Outcome W A → (A → W → Outcome W B) → Outcome W B
  and_then (done a w) k = k a w
  and_then (fault f) k = fault f
  and_then (exited c w) k = exited c w
  and_then deadlock k = deadlock
  and_then running k = running

  infixl 5 ◌>>=◌ ◌>>◌
  abbrev pub ◌>>=◌ : (W → Outcome W A) → (A → W → Outcome W B) → W → Outcome W B
  m >>= k = λ w. and_then (m w) k

  abbrev pub ◌>>◌ : (W → Outcome W A) → (W → Outcome W B) → W → Outcome W B
  m >> n = m >>= λ _. n

module _ {W : Type 0} where
  abbrev pub pure : {A : Type 0} → A → W → Outcome W A
  pure a w = done a w

  abbrev pub fail : {A : Type 0} → Fault → W → Outcome W A
  fail f w = fault f

  abbrev pub read : {A : Type 0} → (W → A) → W → Outcome W A
  read f w = done (f w) w

  abbrev pub modify : (W → W) → W → Outcome W (Unit {0})
  modify f w = done tt (f w)

module _ {Guest : Type 0} where
  -- sprintf into a zeroed buffer of `size` bytes: the text and its final NUL must fit.
  unfoldable pub sprintf : ℕ → Bytes → World Guest → Outcome (World Guest) Bytes
  sprintf size text w = if ltb (length text) size then done text w else fault buffer_overflow

  unfoldable pub lock_vmi : World Guest → Outcome (World Guest) (Unit {0})
  lock_vmi w = if w.vmi_lock then deadlock else done tt (record w { vmi_lock = true })

  abbrev pub unlock_vmi : World Guest → Outcome (World Guest) (Unit {0})
  unlock_vmi w = done tt (record w { vmi_lock = false })

  unfoldable pub lock_lk : World Guest → Outcome (World Guest) (Unit {0})
  lock_lk w = if w.lk then deadlock else done tt (record w { lk = true })

  abbrev pub unlock_lk : World Guest → Outcome (World Guest) (Unit {0})
  unlock_lk w = done tt (record w { lk = false })

  -- `*p` for a pointer that may be NULL.
  abbrev pub deref : {A : Type 0} → Option A → World Guest → Outcome (World Guest) A
  deref none w = fault null_pointer
  deref (some a) w = done a w

module _ {Guest : Type 0} (env : Env Guest) where
  unfoldable pub system : Bytes → World Guest → Outcome (World Guest) ℕ
  system cmd w = done (env.shell (length w.log) cmd) (record w { log = w.log ++ cmd ∷ [] })

  -- memset, sprintf into a buffer of `size` bytes, and system() on the text.
  unfoldable pub run_in : ℕ → Bytes → World Guest → Outcome (World Guest) ℕ
  unfolding sprintf system
  run_in size text = do cmd ← sprintf size text; system cmd

  unfoldable pub gettimeofday : World Guest → Outcome (World Guest) Timeval
  gettimeofday w = done (env.time_of_day w.clock) (record w { clock = w.clock + 1 })
