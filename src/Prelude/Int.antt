-- ===== src/Prelude/Int.antt =====
-- The signed integers of the wire format, as values: what `u16 as i16` and `u32 as i32` give.
use Prim.Native.Nat.{ℕ, ◌-◌, ◌*◌, ◌<◌}
use mathlib.Core.Path.{◌≡◌}
use native.Mathlib.Omega.{arith}
use pgrust_drop.Prelude.Tests.{ltb, if◌then◌else◌}

-- `negsuc n` is -(n + 1).
pub data ℤ : Type 0 where
  pos : ℕ → ℤ
  negsuc : ℕ → ℤ

-- A word of `2 * half` values read as two's complement.
abbrev pub to_signed : ℕ → ℕ → ℤ
to_signed half w = if ltb w half then pos w else negsuc (2 * half - 1 - w)

-- The word that a signed value is written as.
abbrev pub to_word : ℕ → ℤ → ℕ
to_word half (pos n) = n
to_word half (negsuc n) = 2 * half - 1 - n

-- The values that the word can hold.
abbrev pub FitsWord : ℕ → ℤ → Type 0
FitsWord half (pos n) = n < half
FitsWord half (negsuc n) = n < half

pub to_signed-to_word : (half : ℕ) (z : ℤ) → FitsWord half z → to_signed half (to_word half z) ≡ z
to_signed-to_word half (pos n) h = ground arith
to_signed-to_word half (negsuc n) h = ground arith
