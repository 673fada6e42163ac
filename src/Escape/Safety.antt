-- ===== src/Escape/Safety.antt =====
-- What a reader of literals makes of an escaped string.
use pgrust_drop.Prelude.{
  ℕ, zero, suc, ◌-◌, ◌≤◌, ◌<◌, Bool, true, false, not, ◌&&◌, [], ◌∷◌, ◌++◌, Option, none, some, ◌≡◌,
  ◌≢◌, if◌then◌else◌, Option-cases, refl, sym, ap, ◌∙◌, arith, ◌==◌, ◌⊎◌, inl, inr, Bool-cases,
  append_assoc, length-take, length, take, drop, Bytes,
}
use pgrust_drop.Encoding.{Encoding, family, max_length}
use pgrust_drop.Encoding.Length.{is_highbit_set, mblen_or_incomplete, mblen, family_mblen}
use pgrust_drop.Encoding.Verify.{verify_char, invalid_sequence, family_verify_char}
use pgrust_drop.Encoding.Laws.{verify_char-mblen, family_mblen_bounds}
use pgrust_drop.Encoding.Local.{family_mblen-take, family_verify_char-append}
use pgrust_drop.Escape.{
  EscapeError, EscapedString, Multibyte, multibyte, multibyte_of, escape_from, escape_string,
  up_to_nul, before, sql_str_double,
}
use pgrust_drop.Escape.Literal.{Literal, Place, read_literal, with_byte}

-- SQL takes a quote right behind the closing one for a part of the literal.
abbrev pub starts_with_quote : Bytes → Bool
starts_with_quote [] = false
starts_with_quote (c ∷ _) = c == b'\''

multibyte-cases :
    (m : Multibyte)
    → ((n : ℕ) × (m ≡ Multibyte.valid n)) ⊎ ((x : EscapeError) × (m ≡ Multibyte.bad x))
multibyte-cases (Multibyte.valid n) = inl (n, refl)
multibyte-cases (Multibyte.bad x) = inr (x, refl)

pub mblen_or_incomplete-some :
    (e : Encoding) (c : ℕ) (rest : Bytes) {n : ℕ}
    → mblen_or_incomplete e (c ∷ rest) ≡ some n
    → n ≡ mblen e c rest
unfolding mblen_or_incomplete
mblen_or_incomplete-some e c rest h = ground arith

multibyte_of-valid :
    (e : Encoding) (c : ℕ) (rest : Bytes) (o : Option ℕ) {n : ℕ}
    → multibyte_of e c rest o ≡ Multibyte.valid n
    → (o ≡ some n) × (n ≤ length (c ∷ rest)) × (verify_char e c (take (n - 1) rest) ≢ none)
unfolding multibyte_of
multibyte_of-valid e c rest none h = cc
multibyte_of-valid e c rest (some m) h = ground arith

-- A character that the slow path copies verifies, and is all there.
valid_verifies :
    (e : Encoding) (c : ℕ) (rest : Bytes) {n : ℕ}
    → multibyte e c rest ≡ Multibyte.valid n
    → (verify_char e c (take (n - 1) rest) ≡ some n) × (1 ≤ n) × (n ≤ length (c ∷ rest))
unfolding multibyte
valid_verifies e c rest h =
    let (o, l, v) = multibyte_of-valid e c rest (mblen_or_incomplete e (c ∷ rest)) h in
    let n_is = mblen_or_incomplete-some e c rest o in
    elim (Option-cases (verify_char e c (take (mblen e c rest - 1) rest))) [
      | inl w ↦ absurd (v (rw n_is w))
      | inr (m, w) ↦
          let same = (verify_char-mblen e c (take (mblen e c rest - 1) rest) w).0 in
          let keeps = family_mblen-take (family e) c rest in
          let bounds = family_mblen_bounds (family e) c rest in
          rw n_is (w ∙ ap some (sym same ∙ keeps), bounds.0, rw n_is at l)
    ]

-- Where the slow path finds a fault, the encoding has characters of several bytes.
bad_multibyte :
    (e : Encoding) (c : ℕ) (rest : Bytes) {x : EscapeError}
    → multibyte e c rest ≡ Multibyte.bad x
    → 1 < max_length e
unfolding multibyte multibyte_of max_length mblen_or_incomplete family family_mblen
    family_verify_char
bad_multibyte Encoding.utf8 c rest h = ground arith
bad_multibyte _ c rest h = ground arith

invalid_refused :
    (e : Encoding) (escapes : Bool) (n : ℕ) (rest : Bytes)
    → 1 < max_length e
    → read_literal e escapes (Place.inside 0) (invalid_sequence e ++ rest) ≡ Literal.refused
unfolding max_length family invalid_sequence read_literal family_verify_char family_mblen
invalid_refused Encoding.utf8 escapes n rest h = ground arith
invalid_refused _ escapes n rest h = ground arith

-- What a reader is to make of an escaped string in front of a closing quote.
abbrev pub outcome : Option EscapeError → Bytes → Bytes → Literal
outcome none src tail = Literal.closed src tail
outcome (some x) src tail = Literal.refused

module _ (e : Encoding) (std_strings : Bool) where
  abbrev escape : ℕ → Bytes → EscapedString
  escape = escape_from e std_strings

  escape_valid :
      (c n : ℕ) (rest : Bytes)
      → is_highbit_set c ≡ true
      → multibyte e c rest ≡ Multibyte.valid n
      → escape 0 (c ∷ rest) ≡ before (c ∷ []) (escape (n - 1) rest)
  unfolding escape_from
  escape_valid c n rest h m = rw (h, m) refl

  escape_bad :
      (c : ℕ) (rest : Bytes) (x : EscapeError)
      → is_highbit_set c ≡ true
      → multibyte e c rest ≡ Multibyte.bad x
      → escape 0 (c ∷ rest)
        ≡ record (before (invalid_sequence e) (escape 0 rest)) { error = some x }
  unfolding escape_from
  escape_bad c rest x h m = rw (h, m) refl

  -- The bytes under way are copied as they stand.
  escape_copies :
      (copying : ℕ) (src : Bytes)
      → copying ≤ length src
      → (escape copying src).bytes ≡ take copying src ++ (escape 0 (drop copying src)).bytes
  unfolding escape_from
  escape_copies zero src h = refl
  escape_copies (suc n) [] h = absurd (omega arith)
  escape_copies (suc n) (c ∷ src) h = ap (λ bs. c ∷ bs) (escape_copies n src (omega arith))

  with_byte-outcome :
      (o : Option EscapeError) (c : ℕ) (src tail : Bytes)
      → with_byte c (outcome o src tail) ≡ outcome o (c ∷ src) tail
  with_byte-outcome none c src tail = refl
  with_byte-outcome (some x) c src tail = refl

  abbrev reading : ℕ → Bytes → Literal
  reading n = read_literal e (not std_strings) (Place.inside n)

  plain_is_inside : (bs : Bytes) → read_literal e (not std_strings) Place.plain bs ≡ reading 0 bs
  unfolding read_literal
  plain_is_inside [] = refl
  plain_is_inside (c ∷ bs) = refl

  read_character :
      (c n : ℕ) (rest more : Bytes)
      → is_highbit_set c ≡ true
      → verify_char e c (take (n - 1) rest) ≡ some n
      → 1 ≤ n
      → n ≤ length (c ∷ rest)
      → reading 0 (c ∷ (take (n - 1) rest ++ more))
        ≡ with_byte c (reading (n - 1) (take (n - 1) rest ++ more))
  unfolding read_literal
  read_character c n rest more h v one l =
      let len = length-take (n - 1) rest (omega arith) in
      let whole =
        family_verify_char-append (family e) c (take (n - 1) rest) more
          (v ∙ ap some (omega (arith, len))) in
      let read : verify_char e c (take (n - 1) rest ++ more) ≡ some n =
        whole ∙ ap some (omega (arith, len)) in
      rw (h, read) refl

  escape_ascii :
      (c : ℕ) (src : Bytes)
      → is_highbit_set c ≡ false
      → escape 0 (c ∷ src)
        ≡ before (if sql_str_double c (not std_strings) then c ∷ c ∷ [] else c ∷ []) (escape 0 src)
  unfolding escape_from
  escape_ascii c src h = rw h refl

  pub quote_ends :
      (tail : Bytes)
      → starts_with_quote tail ≡ false
      → read_literal e (not std_strings) Place.behind_quote tail ≡ Literal.closed [] tail
  unfolding read_literal
  quote_ends [] h = refl
  quote_ends (c ∷ tail) h = rw h refl

  read_ascii :
      (c : ℕ) (more : Bytes)
      → is_highbit_set c ≡ false
      → reading 0 ((if sql_str_double c (not std_strings) then c ∷ c ∷ [] else c ∷ []) ++ more)
        ≡ with_byte c (reading 0 more)
  unfolding read_literal
  read_ascii c more h = elim (Bool-cases (c == b'\'')) [
    | inl quote ↦ rw (quote, h, quote) (ap (with_byte c) (plain_is_inside more))
    | inr other ↦ elim (Bool-cases (c == b'\\' && not std_strings)) [
      | inl backslash ↦
          let same : (c == b'\\') ≡ true = ground arith in
          rw (other, backslash, h, other, backslash, same) (ap (with_byte c) (plain_is_inside more))
      | inr plain ↦ rw (other, plain, h, other, plain) (ap (with_byte c) (plain_is_inside more))
    ]
  ]

  module _ (tail : Bytes) (h : starts_with_quote tail ≡ false) where
    -- The reader takes what `escape_string` wrote, from a place inside a character.
    abbrev Reads : ℕ → Bytes → Type 0
    Reads copying src =
        reading copying ((escape copying src).bytes ++ b'\'' ∷ tail)
        ≡ outcome (escape copying src).error src tail

    closing_quote : Reads 0 []
    unfolding escape_from read_literal
    closing_quote = quote_ends tail h

    copied-Reads : (n c : ℕ) (src : Bytes) → Reads n src → Reads (suc n) (c ∷ src)
    unfolding escape_from read_literal
    copied-Reads n c src r = rw r (with_byte-outcome (escape n src).error c src tail)

    ascii-Reads : (c : ℕ) (src : Bytes) → is_highbit_set c ≡ false → Reads 0 src → Reads 0 (c ∷ src)
    ascii-Reads c src ascii r = rw (escape_ascii c src ascii) (
        ap (reading 0) (
          append_assoc (if sql_str_double c (not std_strings) then c ∷ c ∷ [] else c ∷ [])
            (escape 0 src).bytes (b'\'' ∷ tail))
        ∙ read_ascii c ((escape 0 src).bytes ++ b'\'' ∷ tail) ascii
        ∙ ap (with_byte c) r
        ∙ with_byte-outcome (escape 0 src).error c src tail)

    valid-Reads :
        (c n : ℕ) (src : Bytes)
        → is_highbit_set c ≡ true
        → multibyte e c src ≡ Multibyte.valid n
        → Reads (n - 1) src
        → Reads 0 (c ∷ src)
    valid-Reads c n src high m r =
        let (v, one, l) = valid_verifies e c src m in
        let more = (escape 0 (drop (n - 1) src)).bytes ++ b'\'' ∷ tail in
        let copies : (escape (n - 1) src).bytes ++ b'\'' ∷ tail ≡ take (n - 1) src ++ more =
          ap (λ bs. bs ++ b'\'' ∷ tail) (escape_copies (n - 1) src (omega arith))
          ∙ append_assoc (take (n - 1) src) _ _ in
        rw (escape_valid c n src high m) (
          ap (λ bs. reading 0 (c ∷ bs)) copies
          ∙ read_character c n src more high v one l
          ∙ ap (with_byte c) (ap (reading (n - 1)) (sym copies) ∙ r)
          ∙ with_byte-outcome (escape (n - 1) src).error c src tail)

    bad-Reads :
        (c : ℕ) (src : Bytes) (x : EscapeError)
        → is_highbit_set c ≡ true
        → multibyte e c src ≡ Multibyte.bad x
        → Reads 0 (c ∷ src)
    bad-Reads c src x high m = rw (escape_bad c src x high m) (
        ap (reading 0) (append_assoc (invalid_sequence e) (escape 0 src).bytes (b'\'' ∷ tail))
        ∙ invalid_refused e (not std_strings) 0 _ (bad_multibyte e c src m))

    escape-Reads : (copying : ℕ) (src : Bytes) → copying ≤ length src → Reads copying src
    escape-Reads zero [] l = closing_quote
    escape-Reads (suc n) [] l = absurd (omega arith)
    escape-Reads (suc n) (c ∷ src) l = copied-Reads n c src (escape-Reads n src (omega arith))
    escape-Reads zero (c ∷ src) l = elim (Bool-cases (is_highbit_set c)) [
      | inl high ↦ elim (multibyte-cases (multibyte e c src)) [
        | inl (n, m) ↦
            let (_, _, fits) = valid_verifies e c src m in
            valid-Reads c n src high m (escape-Reads (n - 1) src (omega arith))
        | inr (x, m) ↦ bad-Reads c src x high m
      ]
      | inr ascii ↦ ascii-Reads c src ascii (escape-Reads 0 src (omega arith))
    ]

-- An escaped string, between quotes in front of anything but another quote, is read as one literal:
-- where no error was reported, its text is the input up to the first NUL and the reader stops at the
-- closing quote; where one was, the reader refuses it. So no input ends its literal early.
pub escape_string_lem :
    (from tail : Bytes) (e : Encoding) (std_strings : Bool)
    → starts_with_quote tail ≡ false
    → (let escaped = escape_string from e std_strings in
        read_literal e (not std_strings) Place.plain (escaped.bytes ++ b'\'' ∷ tail)
        ≡ outcome escaped.error (up_to_nul from) tail)
unfolding escape_string
escape_string_lem from tail e std_strings h =
    plain_is_inside e std_strings _
    ∙ escape-Reads e std_strings tail h 0 (up_to_nul from) (omega arith)
