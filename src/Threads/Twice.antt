-- ===== src/Threads/Twice.antt =====
-- The first loop of request_mount (libhyperagent/syncmount.cc) keeps two threads from mounting one
-- guest's disk twice only where the first has written its record before the second looks.
use hyperagents.Base.{ℕ, ◌≡◌, ◌≢◌, refl, sym, ap, ◌∙◌, none, some, List, length, get_elem?, arith}
use hyperagents.World.{Timeval, Slot}
use hyperagents.Slots.{alter, find_vmi, find_unlocked, claim, stamp}
use hyperagents.Slots.Table.{find_unlocked-found, get_elem?-alter_self}
use hyperagents.Slots.View.Steps.{get_elem?-alter_ne}
use hyperagents.Threads.{
  Shared, Pc, idle, trying, won, using, Threads, call, not_there, win, take, mounted, try_lock,
}
use hyperagents.Threads.Runs.{Later, now, Solo, Goes, Goes-Move, Solo-other, Later-Solo}
use hyperagents.Threads.Scans.{search_to, try_to, find_vmi-Before_all, find_unlocked-Before}

-- The thread has looked at every record, and found none of its instance.
to_trying :
    (s : Threads) (i h : ℕ) (m : Shared)
    → s.pc i ≡ idle
    → s.shared ≡ m
    → find_vmi (some h) m.slots ≡ none
    → Goes s i (trying h 0) m
to_trying s i h m rest same missing = Goes-Move not_there (
    search_to s i h m (length m.slots) (find_vmi-Before_all h m.slots missing)
      (Goes-Move call (s, Solo.start, rest, same)))

abbrev locked_at : ℕ → Shared → Shared
locked_at k m = record m { slots = alter k try_lock m.slots }

-- It wins the first free record.
to_won :
    (s : Threads) (i h k : ℕ) (m : Shared)
    → find_unlocked m.slots ≡ some k
    → Goes s i (trying h 0) m
    → Goes s i (won h k) (locked_at k m)
to_won s i h k m free g =
    let (t, there, open_slot) = find_unlocked-found m.slots k free in
    Goes-Move (win there open_slot) (try_to s i h m k (find_unlocked-Before m.slots k free) g)

abbrev mounted_at : ℕ → ℕ → Timeval → Shared → Shared
mounted_at h k t m = record m { slots = alter k (stamp t) (alter k (claim k (some h)) m.slots) }

to_using :
    (s : Threads) (i h k : ℕ) (t : Timeval) (m : Shared)
    → Goes s i (won h k) m
    → Goes s i (using h k) (mounted_at h k t m)
to_using s i h k t m g = Goes-Move (mounted t) (Goes-Move take g)

-- Record `k` is for the instance `h`.
abbrev pub For : ℕ → ℕ → Shared → Type 0
For h k m = (r : Slot) × (get_elem? m.slots k ≡ some r) × (r.vmi ≡ some h)

-- A mount leaves the records that it does not take, and takes one that is there.
mounted_at-For_other :
    (h g k n : ℕ) (t : Timeval) (m : Shared) → k ≢ n → For g n m → For g n (mounted_at h k t m)
mounted_at-For_other h g k n t m ne (r, there, vmi) = (
  r,
  get_elem?-alter_ne k n (stamp t) _ r ne
      (get_elem?-alter_ne k n (claim k (some h)) m.slots r ne there),
  vmi,
)

mounted_at-For_self :
    (h k : ℕ) (t : Timeval) (m : Shared) (r : Slot)
    → get_elem? m.slots k ≡ some r
    → For h k (mounted_at h k t m)
mounted_at-For_self h k t m r there = (
  stamp t (claim k (some h) r),
  get_elem?-alter_self k (stamp t) _ (claim k (some h) r)
      (get_elem?-alter_self k (claim k (some h)) m.slots r there),
  refl,
)

-- Two records that were free one after the other are two.
two_slots :
    (ss : List Slot) (k k' : ℕ)
    → find_unlocked ss ≡ some k
    → find_unlocked (alter k try_lock ss) ≡ some k'
    → k ≢ k'
two_slots ss k k' free free' same =
    let (r, there, was_free) = find_unlocked-found ss k free in
    let (r', there', is_free) = find_unlocked-found (alter k try_lock ss) k' free' in
    let here : get_elem? (alter k try_lock ss) k' ≡ some (try_lock r) =
      rw (← same) (get_elem?-alter_self k try_lock ss r there) in
    let same_slot : r' ≡ try_lock r = ground (arith, here, there') in
    ground (arith, is_free, ap (λ (x : Slot). x.l) same_slot)

module _ (s : Threads) (i j : ℕ) (ne : i ≢ j) where
  -- The two threads are at `p` and `q`, with the shared state `m`.
  abbrev BothAt : Pc → Pc → Shared → Type 0
  BothAt p q m = (s' : Threads) × Later s s' × (s'.pc i ≡ p) × (s'.pc j ≡ q) × (s'.shared ≡ m)

  first_moves :
      {p q p' : Pc} {m m' : Shared}
      → ((s' : Threads) → s'.pc i ≡ p → s'.shared ≡ m → Goes s' i p' m')
      → BothAt p q m
      → BothAt p' q m'
  first_moves next (s', past, at_i, at_j, same) =
      let (s'', run, at_i', same') = next s' at_i same in
      (s'', Later-Solo past run, at_i', Solo-other run j ne ∙ at_j, same')

  second_moves :
      {p q q' : Pc} {m m' : Shared}
      → ((s' : Threads) → s'.pc j ≡ q → s'.shared ≡ m → Goes s' j q' m')
      → BothAt p q m
      → BothAt p q' m'
  second_moves next (s', past, at_i, at_j, same) =
      let (s'', run, at_j', same') = next s' at_j same in
      (s'', Later-Solo past run, Solo-other run i (λ e. ne (sym e)) ∙ at_i, at_j', same')

  calls-BothAt :
      (h k k' : ℕ) (t : Timeval)
      → s.pc i ≡ idle
      → s.pc j ≡ idle
      → find_vmi (some h) s.shared.slots ≡ none
      → find_unlocked s.shared.slots ≡ some k
      → find_unlocked (alter k try_lock s.shared.slots) ≡ some k'
      → BothAt
          (using h k)
          (using h k')
          (mounted_at h k t (mounted_at h k' t (locked_at k' (locked_at k s.shared))))
  calls-BothAt h k k' t rest_i rest_j missing free free' =
      first_moves (λ s' at_i same. to_using s' i h k t _ (s', Solo.start, at_i, same))
        (second_moves
          (λ s' at_j same.
            to_using s' j h k' t _ (to_won s' j h k' _ free' (s', Solo.start, at_j, same)))
          (first_moves
            (λ s' at_i same.
              to_won s' i h k s.shared free (to_trying s' i h s.shared at_i same missing))
            (second_moves (λ s' at_j same. to_trying s' j h s.shared at_j same missing)
              (s, now, rest_i, rest_j, refl))))

  -- Whatever the state: if threads `i` and `j` are idle, no record is of the instance `h`, and two are
  -- free, then two calls of request_mount for `h`, by these threads, can go on so that they return two
  -- different slots, both mounted for `h`.
  pub mounted_twice :
      (h k k' : ℕ) (t : Timeval)
      → s.pc i ≡ idle
      → s.pc j ≡ idle
      → find_vmi (some h) s.shared.slots ≡ none
      → find_unlocked s.shared.slots ≡ some k
      → find_unlocked (alter k try_lock s.shared.slots) ≡ some k'
      → (s' : Threads) × Later s s'
        × (s'.pc i ≡ using h k)
        × (s'.pc j ≡ using h k')
        × (k ≢ k')
        × For h k s'.shared
        × For h k' s'.shared
  mounted_twice h k k' t rest_i rest_j missing free free' =
      let (s', past, at_i, at_j, same) = calls-BothAt h k k' t rest_i rest_j missing free free' in
      let (r, there, was_free) = find_unlocked-found s.shared.slots k free in
      let (r', there', is_free) = find_unlocked-found (alter k try_lock s.shared.slots) k' free' in
      let two = two_slots s.shared.slots k k' free free' in
      (
        s',
        past,
        at_i,
        at_j,
        two,
        rw same (mounted_at-For_self h k t second (try_lock r) (first r there two)),
        rw same (
            mounted_at-For_other h h k k' t second two (
              mounted_at-For_self h k' t (locked_at k' (locked_at k s.shared)) (try_lock r')
                (get_elem?-alter_self k' try_lock _ r' there'))),
      )
    where
      second : Shared
      second = mounted_at h k' t (locked_at k' (locked_at k s.shared))

      first :
          (r : Slot)
          → get_elem? s.shared.slots k ≡ some r
          → k ≢ k'
          → get_elem? second.slots k ≡ some (try_lock r)
      first r there two =
          let ne' : k' ≢ k = λ e. two (sym e) in
          get_elem?-alter_ne k' k (stamp t) _ _ ne' (
            get_elem?-alter_ne k' k (claim k' (some h)) _ _ ne' (
              get_elem?-alter_ne k' k try_lock _ _ ne'
                (get_elem?-alter_self k try_lock s.shared.slots r there)))
