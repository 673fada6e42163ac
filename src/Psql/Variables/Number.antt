-- ===== src/Psql/Variables/Number.antt =====
-- crates/rpsql/src/variables.rs: `parse_variable_num`.
use pgrust_drop.Prelude.{
  ℕ, zero, suc, ◌+◌, ◌-◌, ◌*◌, ◌^◌, Bool, true, false, ◌&&◌, ◌||◌, [], ◌∷◌, Option, none, some, ltb,
  leb, ◌==◌, if◌then◌else◌, length, drop, is_nil, Bytes,
}
use pgrust_drop.Prelude.Int.{ℤ, pos, negsuc}
use pgrust_drop.Psql.Scan.Chars.{within, peek}
use pgrust_drop.Psql.Variables.Parse.{or_empty}

-- How many bytes of white space stand first: `str::trim_start` over UTF-8.
abbrev white_length : Bytes → ℕ
white_length s =
    let a = peek s 0 in
    let b = peek s 1 in
    let c = peek s 2 in
    if within 9 13 a || a == 32
    then 1
    else if a == 0xc2 && (b == 0x85 || b == 0xa0)
    then 2
    else if (a == 0xe1 && b == 0x9a && c == 0x80)
        || (a == 0xe2 && b == 0x80 && (within 0x80 0x8a c || c == 0xa8 || c == 0xa9 || c == 0xaf))
        || (a == 0xe2 && b == 0x81 && c == 0x9f)
        || (a == 0xe3 && b == 0x80 && c == 0x80)
    then 3
    else 0

-- `skip` bytes of a character are still to be passed.
unfoldable pub trim_from : ℕ → Bytes → Bytes
trim_from skip [] = []
trim_from (suc skip) (c ∷ s) = trim_from skip s
trim_from zero (c ∷ s) =
    let n = white_length (c ∷ s) in
    let behind = trim_from (n - 1) s in if n == 0 then c ∷ s else behind

-- `char::to_digit`.
abbrev digit_value : ℕ → ℕ → Option ℕ
digit_value radix c =
    let v =
      if within b'0' b'9' c
      then c - b'0'
      else if within b'a' b'f' c
      then c - b'a' + 10
      else if within b'A' b'F' c
      then c - b'A' + 10
      else 16 in
    if ltb v radix then some v else none

abbrev more_digits : ℕ → ℕ → Option ℕ → (ℕ → Option ℕ) → Option ℕ
more_digits radix value none next = none
more_digits radix value (some d) next = next (value * radix + d)

unfoldable pub digits_value : ℕ → ℕ → Bytes → Option ℕ
digits_value radix value [] = some value
digits_value radix value (c ∷ cs) =
    more_digits radix value (digit_value radix c) (λ v. digits_value radix v cs)

abbrev signed : Bool → ℕ → ℤ
signed true zero = pos 0
signed true (suc n) = negsuc n
signed false n = pos n

-- What the size of an `i64` admits.
abbrev in_i64 : Bool → Option ℕ → Option ℤ
in_i64 minus none = none
in_i64 minus (some n) =
    if leb n (if minus then 2 ^ 63 else 2 ^ 63 - 1) then some (signed minus n) else none

-- `i64::from_str_radix`, which reads a sign of its own.
unfoldable pub from_str_radix : Bytes → ℕ → Option ℤ
from_str_radix s radix =
    let minus = peek s 0 == b'-' in
    let digits = if minus || peek s 0 == b'+' then drop 1 s else s in
    if is_nil digits then none else in_i64 minus (digits_value radix 0 digits)

abbrev negated : Bool → ℤ → ℤ
negated false z = z
negated true (pos n) = signed true n
negated true (negsuc n) = pos (suc n)

-- `i32::try_from`.
unfoldable pub to_i32 : ℤ → Option ℤ
to_i32 (pos n) = if ltb n (2 ^ 31) then some (pos n) else none
to_i32 (negsuc n) = if ltb n (2 ^ 31) then some (negsuc n) else none

abbrev narrowed : Bool → Option ℤ → Option ℤ
narrowed minus none = none
narrowed minus (some z) = to_i32 (negated minus z)

-- The radix, and the digits behind what says it.
unfoldable pub with_radix : Bytes → Option ℤ
with_radix s =
    if peek s 0 == b'0' && (peek s 1 == b'x' || peek s 1 == b'X')
    then from_str_radix (drop 2 s) 16
    else if ltb 1 (length s) && peek s 0 == b'0'
    then from_str_radix (drop 1 s) 8
    else from_str_radix s 10

-- `parse_variable_num`: the value, or none when it is no `i32` and the result stays. The negation
-- of the least `i64`, which overflows, is no `i32`.
unfoldable pub parse_variable_num : Option Bytes → Option ℤ
parse_variable_num value =
    let s = trim_from 0 (or_empty value) in
    let minus = peek s 0 == b'-' in
    let digits = if minus || peek s 0 == b'+' then drop 1 s else s in
    narrowed minus (with_radix digits)
