-- ===== src/Common/Flags.antt =====
-- Flags of a machine word, for masks with a single bit: what arithmetic says of `x & mask` and
-- `x | mask`.
use Prim.Native.Nat.{ℕ, ◌+◌, ◌-◌, ◌/◌, ◌%◌}
use mathlib.Core.Bool.{Bool}
use ot_commissioner.Common.Tests.{◌==◌, if◌then◌else◌}

-- `(x & mask) != 0`
abbrev pub has_flag : ℕ → ℕ → Bool
has_flag x mask = x / mask % 2 == 1

-- `x | mask`
abbrev pub set_flag : ℕ → ℕ → ℕ
set_flag x mask = if has_flag x mask then x else x + mask

-- `x & ~mask`
abbrev pub clear_flag : ℕ → ℕ → ℕ
clear_flag x mask = if has_flag x mask then x - mask else x

-- `x ^ mask`
abbrev pub toggle_flag : ℕ → ℕ → ℕ
toggle_flag x mask = if has_flag x mask then x - mask else x + mask
