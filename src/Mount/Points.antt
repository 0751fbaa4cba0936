-- ===== src/Mount/Points.antt =====
-- The mount points of the slots.
use hyperagents.Base.{ℕ, ◌≡◌, ◌++◌}
use hyperagents.Base.Text.{Bytes, codes, to_string, to_string-injective}
use mathlib.Core.List.{append_cancel_left, append_cancel_right}
use hyperagents.Mount.{get_mountpoint}

-- Under one base directory, two slots have the same mount point only if they are the same slot.
pub get_mountpoint-injective :
    (base : Bytes) (i j : ℕ) → get_mountpoint base i ≡ get_mountpoint base j → i ≡ j
unfolding get_mountpoint
get_mountpoint-injective base i j e = to_string-injective i j (
    append_cancel_left (base ++ codes "nbd") (to_string i) (to_string j)
      (append_cancel_right _ _ (codes "/") e))
