-- ===== src/Escape/Bytea/RoundTrip.antt =====
-- Reading back escaped binary data, as a literal and then as a bytea.
use pgrust_drop.Prelude.{
  ℕ, ◌+◌, ◌*◌, ◌/◌, ◌%◌, ◌<◌, Bool, true, false, not, [], ◌∷◌, ◌++◌, some, ◌≡◌, ◌≢◌, refl, ap, ◌∙◌,
  arith, ◌==◌, Bool-cases, inl, inr, Bytes, IsByte, AreBytes,
}
use pgrust_drop.Encoding.{Encoding}
use pgrust_drop.Encoding.Length.{within}
use pgrust_drop.Escape.{up_to_nul}
use pgrust_drop.Escape.Literal.{Literal, Place, read_literal}
use pgrust_drop.Escape.Safety.{starts_with_quote}
use pgrust_drop.Escape.Bytea.{
  hextbl, put_hex, escape_bytea, get_hex, unhex, unescape_from, unescape_text, unescape_bytea,
}
use pgrust_drop.Escape.Bytea.Reading.{text_byte, text_bytes, text_of, read_escape_bytea}

get_hex-hextbl : (n : ℕ) → n < 16 → get_hex (hextbl n) ≡ some n
unfolding get_hex
get_hex-hextbl n l = ground arith

hextbl_nonzero : (n : ℕ) → n < 16 → (hextbl n == 0) ≡ false
hextbl_nonzero n l = ground arith

unhex-text_bytes : (from : Bytes) → AreBytes from → unhex (up_to_nul (text_bytes true from)) ≡ from
unfolding unhex text_bytes put_hex up_to_nul
unhex-text_bytes [] h = refl
unhex-text_bytes (c ∷ from) h =
    let hi : c / 16 < 16 = omega (arith, h.0) in
    let lo : c % 16 < 16 = omega arith in
    rw
      (
        hextbl_nonzero (c / 16) hi,
        hextbl_nonzero (c % 16) lo,
        get_hex-hextbl (c / 16) hi,
        get_hex-hextbl (c % 16) lo,
        unhex-text_bytes from h.1,
      )
      (ap (λ n. n ∷ from) (omega arith))

-- One byte of the escape format.
unescape_digits :
    (a b d : ℕ) (more : Bytes)
    → a < 4
    → b < 8
    → d < 8
    → unescape_from 0 (up_to_nul (b'\\' ∷ (a + b'0') ∷ (b + b'0') ∷ (d + b'0') ∷ more))
      ≡ (a * 64 + b * 8 + d) ∷ unescape_from 0 (up_to_nul more)
unfolding unescape_from up_to_nul
unescape_digits a b d more p q r =
    let a_nonzero : (a + b'0' == 0) ≡ false = ground arith in
    let b_nonzero : (b + b'0' == 0) ≡ false = ground arith in
    let d_nonzero : (d + b'0' == 0) ≡ false = ground arith in
    let no_slash : (a + b'0' == b'\\') ≡ false = ground arith in
    let a_octal : within b'0' b'3' (a + b'0') ≡ true = ground arith in
    let b_octal : within b'0' b'7' (b + b'0') ≡ true = ground arith in
    let d_octal : within b'0' b'7' (d + b'0') ≡ true = ground arith in
    rw (a_nonzero, b_nonzero, d_nonzero, no_slash, a_octal, b_octal, d_octal)
      (ap (λ n. n ∷ unescape_from 0 (up_to_nul more)) (omega arith))

unescape_octal :
    (c : ℕ) (more : Bytes)
    → IsByte c
    → unescape_from 0
        (up_to_nul (b'\\' ∷ (c / 64 + b'0') ∷ (c / 8 % 8 + b'0') ∷ (c % 8 + b'0') ∷ more))
      ≡ c ∷ unescape_from 0 (up_to_nul more)
unescape_octal c more l =
    unescape_digits (c / 64) (c / 8 % 8) (c % 8) more (omega arith) (omega arith) (omega arith)
    ∙ ap (λ n. n ∷ unescape_from 0 (up_to_nul more)) (omega arith)

unescape_plain :
    (c : ℕ) (more : Bytes)
    → c ≢ 0
    → c ≢ b'\\'
    → unescape_from 0 (up_to_nul (c ∷ more)) ≡ c ∷ unescape_from 0 (up_to_nul more)
unfolding unescape_from up_to_nul
unescape_plain c more z b =
    let nonzero : (c == 0) ≡ false = ground arith in
    let other : (c == b'\\') ≡ false = ground arith in rw (nonzero, other) refl

unescape_byte :
    (c : ℕ) (more : Bytes)
    → IsByte c
    → unescape_from 0 (up_to_nul (text_byte false c ++ more)) ≡ c ∷ unescape_from 0 (up_to_nul more)
unescape_byte c more l = elim (Bool-cases (within 0x20 0x7e c)) [
  | inr odd ↦ rw odd (unescape_octal c more l)
  | inl printable ↦ elim (Bool-cases (c == b'\\')) [
    | inl slash ↦
        let same : c ≡ b'\\' = ground arith in
        rw same (unfold unescape_from in unfold up_to_nul in refl)
    | inr plain ↦ rw (printable, plain) (unescape_plain c more (ground arith) (ground arith))
  ]
]

unescape-text_bytes :
    (from : Bytes) → AreBytes from → unescape_from 0 (up_to_nul (text_bytes false from)) ≡ from
unfolding text_bytes
unescape-text_bytes [] h = unfold unescape_from in unfold up_to_nul in refl
unescape-text_bytes (c ∷ from) h =
    unescape_byte c (text_bytes false from) h.0 ∙ ap (λ bs. c ∷ bs) (unescape-text_bytes from h.1)

unescape_text_plain :
    (c : ℕ) (text : Bytes) → c ≢ b'\\' → unescape_text (c ∷ text) ≡ unescape_from 0 (c ∷ text)
unfolding unescape_text
unescape_text_plain c [] h = refl
unescape_text_plain c (d ∷ text) h =
    let plain : (c == b'\\') ≡ false = ground arith in rw plain refl

unescape_text_slash :
    (d : ℕ) (text : Bytes)
    → d ≢ b'x'
    → unescape_text (b'\\' ∷ d ∷ text) ≡ unescape_from 0 (b'\\' ∷ d ∷ text)
unfolding unescape_text
unescape_text_slash d text h = let other : (d == b'x') ≡ false = ground arith in rw other refl

-- The escape format never begins as the hex format does.
no_hex_head :
    (c : ℕ) (more : Bytes)
    → IsByte c
    → unescape_text (up_to_nul (text_byte false c ++ more))
      ≡ unescape_from 0 (up_to_nul (text_byte false c ++ more))
unfolding up_to_nul
no_hex_head c more l = elim (Bool-cases (within 0x20 0x7e c)) [
  | inr odd ↦
      let nonzero : (c / 64 + b'0' == 0) ≡ false = ground arith in
      rw (odd, nonzero) (unescape_text_slash (c / 64 + b'0') _ (omega arith))
  | inl printable ↦ elim (Bool-cases (c == b'\\')) [
    | inl slash ↦
        let same : c ≡ b'\\' = ground arith in rw same (unescape_text_slash b'\\' _ (omega arith))
    | inr plain ↦
        let nonzero : (c == 0) ≡ false = ground arith in
        rw (printable, plain, nonzero) (unescape_text_plain c _ (ground arith))
  ]
]

unescape_bytea-text_of :
    (use_hex : Bool) (from : Bytes) → AreBytes from → unescape_bytea (text_of use_hex from) ≡ from
unfolding unescape_bytea text_bytes
unescape_bytea-text_of true from h = unfold up_to_nul in unhex-text_bytes from h
unescape_bytea-text_of false [] h = unfold up_to_nul in unfold unescape_from in refl
unescape_bytea-text_of false (c ∷ from) h =
    no_hex_head c (text_bytes false from) h.0 ∙ unescape-text_bytes (c ∷ from) h

-- Binary data, escaped in the hex or the escape format for either meaning of a backslash, and put
-- between quotes in front of anything but another quote: the server reads one literal that ends at the
-- closing quote, and the bytea that its text stands for is the data.
pub escape_bytea-unescape_bytea :
    (e : Encoding) (std_strings use_hex : Bool) (from tail : Bytes)
    → AreBytes from
    → starts_with_quote tail ≡ false
    → (text : Bytes) × (read_literal e
          (not std_strings)
          Place.plain
          (escape_bytea from std_strings use_hex ++ b'\'' ∷ tail)
        ≡ Literal.closed text tail)
      × (unescape_bytea text ≡ from)
escape_bytea-unescape_bytea e std_strings use_hex from tail h q = (
  text_of use_hex from,
  read_escape_bytea e std_strings use_hex from tail h q,
  unescape_bytea-text_of use_hex from h,
)
