-- ===== src/Agents/Table.antt =====
-- The map `agents` of HAMain: what a lookup finds after an entry.
use hyperagents.Base.{
  ℕ, ◌≡◌, ◌≢◌, refl, sym, ◌∙◌, inl, inr, true, false, some, List, [], ◌∷◌, arith, Bool-cases,
}
use hyperagents.Base.Text.{Bytes}
use hyperagents.Agents.{bytes_eq, bytes_lt, find_agent, put_agent}

bytes_eq_sound : (a b : Bytes) → bytes_eq a b ≡ true → a ≡ b
bytes_eq_sound [] [] e = refl
bytes_eq_sound [] (y ∷ ys) e = cc
bytes_eq_sound (x ∷ xs) [] e = cc
bytes_eq_sound (x ∷ xs) (y ∷ ys) e =
    let head : x ≡ y = ground (arith, e) in
    let tail : xs ≡ ys = bytes_eq_sound xs ys (ground (arith, e)) in cc

pub bytes_eq_refl : (a : Bytes) → bytes_eq a a ≡ true
bytes_eq_refl [] = refl
bytes_eq_refl (x ∷ xs) = ground (arith, bytes_eq_refl xs)

bytes_eq_ne : (a b : Bytes) → a ≢ b → bytes_eq a b ≡ false
bytes_eq_ne a b ne = elim (Bool-cases (bytes_eq a b)) [
  | inl e ↦ absurd (ne (bytes_eq_sound a b e))
  | inr e ↦ e
]

pub find_agent-put_agent_self :
    (name : Bytes) (h : ℕ) (t : List (Bytes × ℕ)) → find_agent name (put_agent name h t) ≡ some h
unfolding find_agent put_agent
find_agent-put_agent_self name h [] = rw (bytes_eq_refl name) refl
find_agent-put_agent_self name h ((n, i) ∷ rest) = elim (Bool-cases (bytes_eq n name)) [
  | inl same ↦ rw (same, same) refl
  | inr other ↦ elim (Bool-cases (bytes_lt name n)) [
    | inl less ↦ rw (other, less, bytes_eq_refl name) refl
    | inr more ↦ rw (other, more, other) (find_agent-put_agent_self name h rest)
  ]
]

find_agent-put_agent_ne :
    (name other : Bytes) (h : ℕ) (t : List (Bytes × ℕ))
    → name ≢ other
    → find_agent other (put_agent name h t) ≡ find_agent other t
unfolding find_agent put_agent
find_agent-put_agent_ne name other h [] ne = rw (bytes_eq_ne name other ne) refl
find_agent-put_agent_ne name other h ((n, i) ∷ rest) ne = elim (Bool-cases (bytes_eq n name)) [
  | inl same ↦
      let away : bytes_eq n other ≡ false =
        bytes_eq_ne n other (λ z. ne (sym (bytes_eq_sound n name same) ∙ z)) in
      rw (same, away) refl
  | inr differs ↦ elim (Bool-cases (bytes_lt name n)) [
    | inl less ↦ rw (differs, less, bytes_eq_ne name other ne) refl
    | inr more ↦ ground (arith, differs, more, find_agent-put_agent_ne name other h rest ne)
  ]
]

-- After `agents[name] = h` the name is found with `h`, and every other name as before.
pub find_agent-put_agent :
    (name other : Bytes) (h : ℕ) (t : List (Bytes × ℕ))
    → name ≢ other
    → (find_agent name (put_agent name h t) ≡ some h)
      × (find_agent other (put_agent name h t) ≡ find_agent other t)
find_agent-put_agent name other h t ne =
    (find_agent-put_agent_self name h t, find_agent-put_agent_ne name other h t ne)
