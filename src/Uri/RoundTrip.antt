-- ===== src/Uri/RoundTrip.antt =====
-- Percent-encoding, and the decoder of crates/rlibpq/src/uri.rs on what it gives.
use pgrust_drop.Prelude.{
  ℕ, ◌+◌, ◌-◌, ◌*◌, ◌/◌, ◌%◌, ◌<◌, Bool, true, false, ◌||◌, [], ◌∷◌, some, ◌==◌, ltb, if◌then◌else◌,
  Bytes, All, ◌≡◌, ◌≢◌, refl, ap, ◌∙◌, arith, inl, inr, Bool-cases,
}
use pgrust_drop.ConnError.{ok}
use pgrust_drop.Uri.{
  hexdigit, skip_blanks, escaped_byte, push_byte, finish, decode_rest, uri_decode,
}

abbrev pub hex_of : ℕ → ℕ
hex_of n = if ltb n 10 then b'0' + n else b'A' + (n - 10)

-- Each byte as it stands where `plain` keeps it, and as a percent sign and two digits elsewhere.
unfoldable pub percent_encode : (ℕ → Bool) → Bytes → Bytes
percent_encode plain [] = []
percent_encode plain (c ∷ src) =
    let rest = percent_encode plain src in
    if plain c then c ∷ rest else b'%' ∷ hex_of (c / 16) ∷ hex_of (c % 16) ∷ rest

hexdigit-hex_of : (n : ℕ) → n < 16 → hexdigit (hex_of n) ≡ some n
unfolding hexdigit
hexdigit-hex_of n h = ground arith

escaped_byte_pair :
    (x y : ℕ) (rest : Bytes) {hi lo : ℕ}
    → hexdigit x ≡ some hi
    → hexdigit y ≡ some lo
    → escaped_byte (x ∷ y ∷ rest) ≡ some (hi * 16 + lo)
unfolding escaped_byte
escaped_byte_pair x y rest h l = rw (h, escaped_byte, l) refl

escaped_byte-hex_of :
    (c : ℕ) (rest : Bytes)
    → c < 256
    → escaped_byte (hex_of (c / 16) ∷ hex_of (c % 16) ∷ rest) ≡ some c
escaped_byte-hex_of c rest h =
    let whole : c / 16 * 16 + c % 16 ≡ c = omega arith in
    escaped_byte_pair (hex_of (c / 16)) (hex_of (c % 16)) rest
      (hexdigit-hex_of (c / 16) (omega arith)) (hexdigit-hex_of (c % 16) (omega arith))
    ∙ ap some whole

-- A byte that a text can have, and what may stand for itself.
abbrev pub IsTextByte : ℕ → Type 0
IsTextByte c = (c < 256) × (c ≢ 0)

abbrev pub IsPlain : (ℕ → Bool) → Type 0
IsPlain plain = (c : ℕ) → plain c ≡ true → (c ≢ b'%') × (c ≢ b' ') × (c ≢ 0)

decode_rest-percent_encode :
    (plain : ℕ → Bool) (str src : Bytes)
    → IsPlain plain
    → All IsTextByte src
    → decode_rest str 0 (percent_encode plain src) ≡ ok src
unfolding decode_rest percent_encode
decode_rest-percent_encode plain str [] p t = unfold finish skip_blanks in refl
decode_rest-percent_encode plain str (c ∷ src) p ((small, nonzero), t) =
    elim (Bool-cases (plain c)) [
      | inl e ↦
          let (percent, blank, nul) = p c e in
          let no_percent : (c == b'%') ≡ false = ground arith in
          let goes_on : (c == b' ' || c == 0) ≡ false = ground arith in
          rw (e, decode_rest, no_percent, goes_on)
            (ap (push_byte c) (decode_rest-percent_encode plain str src p t))
      | inr e ↦
          let byte : (c == 0) ≡ false = ground arith in
          rw (e, decode_rest, escaped_byte-hex_of c (percent_encode plain src) small, byte)
            (ap (push_byte c) (decode_rest-percent_encode plain str src p t))
    ]

skip_blanks-percent_encode :
    (plain : ℕ → Bool) (src : Bytes)
    → IsPlain plain
    → skip_blanks (percent_encode plain src) ≡ percent_encode plain src
unfolding skip_blanks percent_encode
skip_blanks-percent_encode plain [] p = refl
skip_blanks-percent_encode plain (c ∷ src) p = elim (Bool-cases (plain c)) [
  | inl e ↦
      let (_, blank, _) = p c e in
      let stays : (c == b' ') ≡ false = ground arith in rw (e, skip_blanks, stays) refl
  | inr e ↦ rw (e, skip_blanks) refl
]

-- A text without NUL is decoded from its percent-encoding, whichever bytes stand for themselves, as
-- long as percent signs and blanks do not.
pub uri_decode-percent_encode :
    (plain : ℕ → Bool) (src : Bytes)
    → IsPlain plain
    → All IsTextByte src
    → uri_decode (percent_encode plain src) ≡ ok src
unfolding uri_decode
uri_decode-percent_encode plain src p t =
    rw (skip_blanks-percent_encode plain src p)
      (decode_rest-percent_encode plain (percent_encode plain src) src p t)
