-- ===== src/Uri.antt =====
-- crates/rlibpq/src/uri.rs: the percent-decoder of connection URIs, over what is left of the text.
-- Params and Parse have the parsers that call it.
pub mod RoundTrip
pub mod Params
pub mod Parse
use pgrust_drop.Prelude.{
  ℕ, zero, suc, ◌+◌, ◌-◌, ◌*◌, Bool, true, false, ◌||◌, ◌&&◌, List, [], ◌∷◌, Option, none, some,
  ◌==◌, leb, if◌then◌else◌, get_or, Bytes,
}
use pgrust_drop.ConnError.{ConnError, Result, ok, err}
use pgrust_drop.ConnInfo.{at}

-- `hexdigit`.
unfoldable pub hexdigit : ℕ → Option ℕ
hexdigit digit =
    if leb b'0' digit && leb digit b'9'
    then some (digit - b'0')
    else if leb b'A' digit && leb digit b'F'
    then some (digit - b'A' + 10)
    else if leb b'a' digit && leb digit b'f'
    then some (digit - b'a' + 10)
    else none

-- `while at(str, q) == b' '`.
unfoldable pub skip_blanks : Bytes → Bytes
skip_blanks [] = []
skip_blanks (c ∷ rest) = let skipped = skip_blanks rest in if c == b' ' then skipped else c ∷ rest

abbrev with_low : ℕ → Option ℕ → Option ℕ
with_low hi none = none
with_low hi (some lo) = some (hi * 16 + lo)

-- `(hi << 4) | lo` of the two digits behind a percent sign.
unfoldable pub escaped_byte : Bytes → Option ℕ
escaped_byte rest = elim (hexdigit (at rest)) [
  | none ↦ none
  | some hi ↦ with_low hi (hexdigit (get_or rest 1 0))
]

abbrev push_byte : ℕ → Result Bytes → Result Bytes
push_byte c (ok buf) = ok (c ∷ buf)
push_byte c (err e) = err e

-- Behind the loop of `uri_decode`.
unfoldable pub finish : Bytes → Bytes → Result Bytes
finish str rest =
    if at (skip_blanks rest) == 0 then ok [] else err (ConnError.unexpected_spaces str)

-- The loop of `uri_decode`, with the number of bytes that the percent sign before has taken.
unfoldable pub decode_rest : Bytes → ℕ → Bytes → Result Bytes
decode_rest str skip [] = finish str []
decode_rest str (suc skip) (c ∷ rest) = decode_rest str skip rest
decode_rest str zero (c ∷ rest) = elim (c == b'%') [
  | true ↦ elim (escaped_byte rest) [
    | none ↦ err (ConnError.invalid_percent_encoding str)
    | some b ↦ elim (b == 0) [
      | true ↦ err (ConnError.forbidden_nul_in_percent_encoding str)
      | false ↦ push_byte b (decode_rest str 2 rest)
    ]
  ]
  | false ↦ elim (c == b' ' || c == 0) [
    | true ↦ finish str (c ∷ rest)
    | false ↦ push_byte c (decode_rest str 0 rest)
  ]
]

-- `uri_decode`.
unfoldable pub uri_decode : Bytes → Result Bytes
uri_decode str = decode_rest str 0 (skip_blanks str)
