-- ===== src/Target/Version.antt =====
-- crates/rlibpq/src/target.rs: `server_version` in numeric form. Each number is read with the
-- bounds of `u32`; the arithmetic on what was read is that of a build without overflow checks.
use pgrust_drop.Prelude.{
  ℕ, ◌+◌, ◌-◌, ◌*◌, ◌%◌, ◌^◌, Bool, ◌||◌, ◌&&◌, [], ◌∷◌, Option, none, some, ◌==◌, ltb, leb,
  if◌then◌else◌, Bytes,
}

-- `is_ascii_whitespace`, of the Rust library.
abbrev is_ascii_whitespace : ℕ → Bool
is_ascii_whitespace b = b == b' ' || b == b'\t' || b == b'\n' || b == 0x0c || b == b'\r'

abbrev pub is_ascii_digit : ℕ → Bool
is_ascii_digit b = leb b'0' b && leb b b'9'

unfoldable pub skip_whitespace : Bytes → Bytes
skip_whitespace [] = []
skip_whitespace (b ∷ rest) =
    let skipped = skip_whitespace rest in if is_ascii_whitespace b then skipped else b ∷ rest

abbrev pub strip_byte : ℕ → Bytes → Option Bytes
strip_byte b [] = none
strip_byte b (c ∷ rest) = if c == b then some rest else none

abbrev skip_plus : Bytes → Bytes
skip_plus [] = []
skip_plus (c ∷ rest) = if c == b'+' then rest else c ∷ rest

unfoldable pub take_digits : Bytes → Bytes × Bytes
take_digits [] = ([], [])
take_digits (b ∷ rest) =
    let (digits, behind) = take_digits rest in
    if is_ascii_digit b then (b ∷ digits, behind) else ([], b ∷ rest)

-- `parse` to a `u32`: the digits from the left, none on overflow.
unfoldable pub parse_digits : ℕ → Bytes → Option ℕ
parse_digits acc [] = some acc
parse_digits acc (d ∷ digits) =
    let n = acc * 10 + (d - b'0') in
    let rest = parse_digits n digits in if ltb n (2 ^ 32) then rest else none

abbrev scanned : Bytes → Bytes × Bytes → Option ℕ × Bytes
scanned value ([], behind) = (none, value)
scanned value (d ∷ digits, behind) = (parse_digits 0 (d ∷ digits), behind)

-- `scan_int`.
unfoldable pub scan_int : Bytes → Option ℕ × Bytes
scan_int value = scanned value (take_digits (skip_plus (skip_whitespace value)))

abbrev scan_behind_dot : Bytes → Option ℕ × Bytes
scan_behind_dot rest = elim (strip_byte b'.' rest) [
  | none ↦ (none, rest)
  | some behind ↦ scan_int behind
]

abbrev scan_revision : Option ℕ → Bytes → Option ℕ
scan_revision none rest = none
scan_revision (some vmin) rest = elim (strip_byte b'.' rest) [
  | none ↦ none
  | some behind ↦ (scan_int behind).0
]

abbrev numeric : ℕ → Option ℕ → Option ℕ → ℕ
numeric vmaj none vrev = 100 * 100 * vmaj % 2 ^ 32
numeric vmaj (some vmin) (some vrev) = ((100 * vmaj + vmin) * 100 + vrev) % 2 ^ 32
numeric vmaj (some vmin) none =
    if leb 10 vmaj then (100 * 100 * vmaj + vmin) % 2 ^ 32 else (100 * vmaj + vmin) * 100 % 2 ^ 32

abbrev numeric_from : Option ℕ → Bytes → ℕ
numeric_from none rest = 0
numeric_from (some vmaj) rest =
    let (vmin, rest') = scan_behind_dot rest in numeric vmaj vmin (scan_revision vmin rest')

-- `sversion`.
unfoldable pub sversion : Bytes → ℕ
sversion value = let (fields, rest) = scan_int value in numeric_from fields rest
