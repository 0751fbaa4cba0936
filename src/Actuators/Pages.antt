-- ===== src/Actuators/Pages.antt =====
-- actuators/15.c: hashes of the pages in the first memory area of a process. `mm_ptr` and `pid` are
-- not set in the source, and are arguments, with OpenSSL's SHA256. What is printed for each page is
-- the result; `none` is the early `return NULL`.
pub mod Count
pub mod Region
use hyperagents.Base.{
  ℕ, zero, suc, ◌+◌, ◌*◌, ◌/◌, ◌%◌, ◌^◌, ◌++◌, Option, none, some, List, [], ◌∷◌, ◌==◌,
  if◌then◌else◌, length,
}
use hyperagents.Base.Text.{Bytes, codes}
use hyperagents.Engine.{u64}
use hyperagents.Effect.{Outcome, division_by_zero, ◌>>=◌, ◌>>◌, pure, fail, read, modify}
use hyperagents.Actuators.{Peek}
use hyperagents.Actuators.Hex.{hex_byte}

-- `unsigned int` arithmetic.
abbrev pub u32 : ℕ → ℕ
u32 n = n % 2 ^ 32

unfoldable pub hex_text : Bytes → Bytes
hex_text [] = []
hex_text (b ∷ bs) = hex_byte b ++ hex_text bs

module _ {Guest : Type 0} where
  unfoldable pub n_pages : ℕ → ℕ → Guest → Outcome Guest ℕ
  n_pages start end = if start == 0 then fail division_by_zero else pure (u32 (end % start / 4096))

module _ {Guest : Type 0} (peek : Peek Guest) (sha256 : Bytes → Bytes) (pid : ℕ) where
  -- The text for the page at `address`.
  unfoldable pub page_text : ℕ → Guest → Bytes
  page_text address g =
      let pagebuf = peek.read_va g address pid 4096 in
      if length pagebuf / 4096 == 0 then codes " 0 " else hex_text (sha256 pagebuf) ++ codes " "

  -- `n` rounds of the loop, from `q` on.
  unfoldable pub page_loop : ℕ → ℕ → ℕ → Guest → List Bytes
  page_loop start zero q g = []
  page_loop start (suc n) q g =
      page_text (u64 (start + u32 (q * 4096))) g ∷ page_loop start n (suc q) g

  unfoldable pub hash_area : ℕ → ℕ → Guest → Outcome Guest (Option (List Bytes))
  hash_area start end = do
    n ← n_pages start end
    texts ← read (page_loop start n 0)
    modify peek.resume_vm
    pure (some texts)

  unfoldable pub hash_pages : ℕ → Guest → Outcome Guest (Option (List Bytes))
  hash_pages mm_ptr = do
    modify peek.pause_vm
    vma ← read (λ g. peek.read_addr_va g mm_ptr 0)
    elim vma [
      | none ↦ pure none
      | some current_vma ↦ do
        first ← read (λ g. peek.read_addr_va g (u64 (current_vma + 0)) 0)
        elim first [
          | none ↦ pure none
          | some start ↦ do
            last ← read (λ g. peek.read_addr_va g (u64 (current_vma + 8)) 0)
            elim last [ none ↦ pure none | some end ↦ hash_area start end ]
        ]
    ]
