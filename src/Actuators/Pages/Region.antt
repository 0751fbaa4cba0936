-- ===== src/Actuators/Pages/Region.antt =====
-- What actuators/15.c prints, and how it leaves the guest.
use hyperagents.Base.{
  ℕ, zero, suc, ◌+◌, ◌-◌, ◌*◌, ◌/◌, ◌^◌, ◌≤◌, ◌<◌, ◌≡◌, ◌⊎◌, inl, inr, refl, ap, ◌∙◌, Option-cases,
  none, some, List, [], ◌∷◌, arith,
}
use hyperagents.Base.Text.{Bytes}
use hyperagents.Engine.{u64}
use hyperagents.Effect.{done, and_then}
use hyperagents.Actuators.{Peek}
use hyperagents.Actuators.Pages.{u32, page_text, page_loop, hash_area, hash_pages}
use hyperagents.Actuators.Pages.Count.{n_pages_done}

module _ {Guest : Type 0} (peek : Peek Guest) (sha256 : Bytes → Bytes) (pid : ℕ) where
  -- The texts of `n` pages from `address` on, page by page.
  abbrev pub texts_from : ℕ → ℕ → Guest → List Bytes
  texts_from address zero g = []
  texts_from address (suc n) g =
      page_text peek sha256 pid address g ∷ texts_from (address + 4096) n g

  page_loop-texts_from :
      (start n q : ℕ) (g : Guest)
      → q + n ≤ 2 ^ 20
      → start + (q + n) * 4096 < 2 ^ 64
      → page_loop peek sha256 pid start n q g ≡ texts_from (start + q * 4096) n g
  unfolding page_loop
  page_loop-texts_from start zero q g few low = refl
  page_loop-texts_from start (suc n) q g few low =
      let here : u64 (start + u32 (q * 4096)) ≡ start + q * 4096 = omega arith in
      let next : start + suc q * 4096 ≡ start + q * 4096 + 4096 = omega arith in
      let rest = page_loop-texts_from start n (suc q) g (omega arith) (omega arith) in
      rw (here, rest, next) refl

  -- The loop counts pages in 32 bits: from round 2^20 on it takes the pages from the start again.
  page_loop_wraps :
      (start n q : ℕ) (g : Guest)
      → page_loop peek sha256 pid start n (q + 2 ^ 20) g ≡ page_loop peek sha256 pid start n q g
  unfolding page_loop
  page_loop_wraps start zero q g = refl
  page_loop_wraps start (suc n) q g =
      let same : u32 ((q + 2 ^ 20) * 4096) ≡ u32 (q * 4096) = omega arith in
      let rest = page_loop_wraps start n (suc q) g in
      rw same (
        ap (λ (l : List Bytes). page_text peek sha256 pid (u64 (start + u32 (q * 4096))) g ∷ l)
          (ap (λ (k : ℕ). page_loop peek sha256 pid start n k g) (omega arith) ∙ rest))

  -- What the three reads of the kernel's structures give.
  pub record Area (g : Guest) (mm_ptr current_vma first last : ℕ) : Type 0 where
    pub vma : peek.read_addr_va g mm_ptr 0 ≡ some current_vma
    pub start : peek.read_addr_va g (u64 (current_vma + 0)) 0 ≡ some first
    pub end : peek.read_addr_va g (u64 (current_vma + 8)) 0 ≡ some last

  -- For an area that starts at an address other than 0, ends below twice that and below 2^64, and has
  -- at most 2^20 full pages: the actuator gives the text of each full page, in order, and the guest
  -- is paused and resumed, with no other change.
  pub hash_pages_done :
      (g : Guest) (mm_ptr current_vma first last : ℕ)
      → Area (peek.pause_vm g) mm_ptr current_vma first last
      → 0 < first
      → first ≤ last
      → last < 2 * first
      → last < 2 ^ 64
      → (last - first) / 4096 ≤ 2 ^ 20
      → hash_pages peek sha256 pid mm_ptr g
        ≡ done
            (some (texts_from first ((last - first) / 4096) (peek.pause_vm g)))
            (peek.resume_vm (peek.pause_vm g))
  unfolding hash_pages hash_area
  hash_pages_done g mm_ptr current_vma first last area pos low high top few =
      let count = n_pages_done (peek.pause_vm g) first last pos low high (omega arith) in
      let texts =
        page_loop-texts_from first ((last - first) / 4096) 0 (peek.pause_vm g) (omega arith)
          (omega arith) in
      let here : first + 0 * 4096 ≡ first = omega arith in
      rw (area.vma, area.start, area.end) (rw (count, and_then) (rw (texts, here) refl))

  -- Where one of the three reads fails, the actuator gives up, and the guest stays paused.
  pub hash_pages_gives_up :
      (g : Guest) (mm_ptr : ℕ)
      → (peek.read_addr_va (peek.pause_vm g) mm_ptr 0 ≡ none)
        ⊎ ((current_vma : ℕ) × (peek.read_addr_va (peek.pause_vm g) mm_ptr 0 ≡ some current_vma)
            × ((peek.read_addr_va (peek.pause_vm g) (u64 (current_vma + 0)) 0 ≡ none)
                ⊎ (peek.read_addr_va (peek.pause_vm g) (u64 (current_vma + 8)) 0 ≡ none)))
      → hash_pages peek sha256 pid mm_ptr g ≡ done none (peek.pause_vm g)
  unfolding hash_pages
  hash_pages_gives_up g mm_ptr (inl e) = rw e refl
  hash_pages_gives_up g mm_ptr (inr (v, e, inl s)) = rw (e, s) refl
  hash_pages_gives_up g mm_ptr (inr (v, e, inr s)) =
      elim (Option-cases (peek.read_addr_va (peek.pause_vm g) (u64 (v + 0)) 0)) [
        | inl missing ↦ rw (e, missing) refl
        | inr (first, found) ↦ rw (e, found, s) refl
      ]
