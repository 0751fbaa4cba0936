-- ===== src/Threads/Runs.antt =====
-- Runs of the threads in request_mount and release_mount (libhyperagent/syncmount.cc).
use hyperagents.Base.{ℕ, ◌≡◌, ◌≢◌, refl, ◌∙◌, eq→==, ne→==}
use hyperagents.World.{update}
use hyperagents.Threads.{Shared, Pc, Move, Threads, Step, pick}

-- Any number of steps.
pub data Later (s : Threads) : Threads → Type 0 where
  now : Later s s
  then : {s' s'' : Threads} → Later s s' → Step s' s'' → Later s s''

pub update_self : (f : ℕ → Pc) (i : ℕ) (p : Pc) → update f i p i ≡ p
update_self f i p = rw (eq→== i i refl) refl

pub update_other : (f : ℕ → Pc) (i j : ℕ) (p : Pc) → i ≢ j → update f i p j ≡ f j
update_other f i j p ne = rw (ne→== i j ne) refl

-- A step of a thread that is known to be at `q`.
pub step_at :
    (s : Threads) (i : ℕ) (q : Pc) {m : Shared} {p : Pc}
    → s.pc i ≡ q
    → Move s.shared q m p
    → Step s (record { shared = m; pc = update s.pc i p })
step_at s i q {m} {p} at_q mv = pick i (rw at_q mv)

-- Steps of thread `i` alone.
pub data Solo (s : Threads) (i : ℕ) : Threads → Type 0 where
  start : Solo s i s
  go_on :
      {s' : Threads} {m : Shared} {p : Pc}
      → Solo s i s'
      → Move s'.shared (s'.pc i) m p
      → Solo s i (record { shared = m; pc = update s'.pc i p })

-- They end with the thread at `q` and the shared state `m`.
abbrev pub Goes : Threads → ℕ → Pc → Shared → Type 0
Goes s i q m = (s' : Threads) × Solo s i s' × (s'.pc i ≡ q) × (s'.shared ≡ m)

pub Goes-Move :
    {s : Threads} {i : ℕ} {q q' : Pc} {m m' : Shared}
    → Move m q m' q'
    → Goes s i q m
    → Goes s i q' m'
Goes-Move {i} {q} {q'} {m'} mv (s', past, at_q, same) = (
  record { shared = m'; pc = update s'.pc i q' },
  go_on past (rw (at_q, same) mv),
  update_self s'.pc i q',
  refl,
)

-- The others stand where they stood.
pub Solo-other :
    {s : Threads} {i : ℕ} {s' : Threads} → Solo s i s' → (j : ℕ) → i ≢ j → s'.pc j ≡ s.pc j
Solo-other start j ne = refl
Solo-other {i} (go_on {s'} {p} run mv) j ne = update_other s'.pc i j p ne ∙ Solo-other run j ne

pub Later-Solo : {s s' : Threads} {i : ℕ} {s'' : Threads} → Later s s' → Solo s' i s'' → Later s s''
Later-Solo past start = past
Later-Solo {i} past (go_on run mv) = then (Later-Solo past run) (pick i mv)
