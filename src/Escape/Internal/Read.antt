-- ===== src/Escape/Internal/Read.antt =====
-- What a server reads of the text that `escape_internal` writes for a literal.
use pgrust_drop.Prelude.{
  ℕ, Bool, true, false, not, ◌&&◌, ◌||◌, [], ◌∷◌, ◌++◌, none, ◌==◌, ltb, if◌then◌else◌, Bytes, ◌≡◌,
  refl, sym, ap, ◌∙◌, arith, Bool-cases, inl, inr, append_assoc,
}
use mathlib.Core.Path.{fun_ext}
use pgrust_drop.Encoding.{Encoding}
use pgrust_drop.Encoding.Length.{is_highbit_set}
use pgrust_drop.Escape.{escape_string, up_to_nul, sql_str_double}
use pgrust_drop.Escape.Literal.{Literal, Place, read_literal}
use pgrust_drop.Escape.Safety.{starts_with_quote, escape_string_lem}
use pgrust_drop.Escape.Internal.{
  Counts, scan_input, write, Quoted, doubled_in, body, prefix, escape_internal,
}
use pgrust_drop.Escape.Internal.Valid.{scan_verified}
use pgrust_drop.Escape.Internal.Copy.{
  Counts-cases, written-injective, write_agrees, write-none, escape_from-write,
}

-- A string constant: blanks, then `'…'`, in which backslashes escape unless
-- `standard_conforming_strings` is on, or `E'…'`, in which they always do.
opened : Encoding → Bool → Bytes → Literal
opened e escapes [] = Literal.unterminated
opened e escapes (c ∷ rest) =
    if c == b'\'' then read_literal e escapes Place.plain rest else Literal.unterminated

unfoldable pub read_constant : Encoding → Bool → Bytes → Literal
unfolding opened
read_constant e std_strings [] = Literal.unterminated
read_constant e std_strings (c ∷ rest) =
    let more = read_constant e std_strings rest in
    if c == b' '
    then more
    else if c == b'E'
    then opened e true rest
    else opened e (not std_strings) (c ∷ rest)

doubled_high : (c : ℕ) → is_highbit_set c ≡ true → doubled_in false c ≡ false
doubled_high c h = grind (arith, h)

sql_high : (std : Bool) (c : ℕ) → is_highbit_set c ≡ true → sql_str_double c (not std) ≡ false
sql_high std c h = grind (arith, h)

double_all :
    (s : Bytes) (e : Encoding)
    → write e (doubled_in false) 0 s ≡ write e (λ c. sql_str_double c true) 0 s
double_all s e = ap (λ d. write e d 0 s) (fun_ext (λ c. grind arith))

module _ (from : Bytes) (e : Encoding) (a b : ℕ)
    (counts : scan_input e b'\'' false 0 (up_to_nul from) ≡ Counts.counted a b) where
  abbrev input : Bytes
  input = up_to_nul from

  body-write : body e false a b input ≡ write e (doubled_in false) 0 input
  body-write = elim (Bool-cases (a == 0 && (b == 0 || false))) [
    | inl h ↦ rw h (
        sym (
          write_agrees e b'\'' refl refl true true (doubled_in false) (λ c. false) doubled_high
            (λ c h. refl) (λ c q w. grind (arith, q refl, w refl)) false 0 input counts
            (λ _. grind (arith, h)) (λ _. grind (arith, h))
          ∙ write-none e 0 input))
    | inr h ↦ rw h refl
  ]

  -- Doubling as `escape_string` does for either setting.
  write-plain :
      (std_strings : Bool)
      → b ≡ 0
      → write e (doubled_in false) 0 input
        ≡ write e (λ c. sql_str_double c (not std_strings)) 0 input
  write-plain std_strings z =
      write_agrees e b'\'' refl refl false true (doubled_in false)
        (λ c. sql_str_double c (not std_strings)) doubled_high (sql_high std_strings)
        (λ c q w. grind (arith, w refl)) false 0 input counts (λ h. absurd (grind (arith, h)))
        (λ _. z)

  escaped :
      (std_strings : Bool)
      → escape_string from e std_strings
        ≡ record { bytes = write e (λ c. sql_str_double c (not std_strings)) 0 input; error = none }
  unfolding escape_string
  escaped std_strings =
      escape_from-write e std_strings 0 input (scan_verified e b'\'' refl from (rw counts refl))

  module _ (tail : Bytes) (h : starts_with_quote tail ≡ false) where
    reads :
        (std_strings : Bool)
        → read_literal e
            (not std_strings)
            Place.plain
            (write e (λ c. sql_str_double c (not std_strings)) 0 input ++ b'\'' ∷ tail)
          ≡ Literal.closed input tail
    reads std_strings = rw (escaped std_strings) at (escape_string_lem from tail e std_strings h)

    quoted_text-reads :
        (std_strings : Bool)
        → write e (doubled_in false) 0 input
          ≡ write e (λ c. sql_str_double c (not std_strings)) 0 input
        → read_literal e
            (not std_strings)
            Place.plain
            ((body e false a b input ++ b'\'' ∷ []) ++ tail)
          ≡ Literal.closed input tail
    quoted_text-reads std_strings same =
        ap (read_literal e (not std_strings) Place.plain) (
          append_assoc (body e false a b input) (b'\'' ∷ []) tail
          ∙ ap (λ bs. bs ++ b'\'' ∷ tail) (body-write ∙ same))
        ∙ reads std_strings

    constant-reads :
        (std_strings : Bool)
        → read_constant e std_strings
            ((prefix false b ++ (b'\'' ∷ (body e false a b input ++ b'\'' ∷ []))) ++ tail)
          ≡ Literal.closed input tail
    unfolding read_constant
    constant-reads std_strings = elim (Bool-cases (ltb 0 b)) [
      | inl p ↦ rw p (quoted_text-reads false (double_all input e))
      | inr p ↦ rw p (quoted_text-reads std_strings (write-plain std_strings (grind (arith, p))))
    ]

-- A literal that `escape_internal` writes is read as its input, up to the first NUL, under either
-- setting of `standard_conforming_strings`, in front of anything but another quote; the reader stops
-- at the closing quote.
pub escape_internal-read_constant :
    (from tail : Bytes) (e : Encoding) (std_strings : Bool) {text : Bytes}
    → escape_internal from e false ≡ Quoted.written text
    → starts_with_quote tail ≡ false
    → read_constant e std_strings (text ++ tail) ≡ Literal.closed (up_to_nul from) tail
unfolding escape_internal
escape_internal-read_constant from tail e std_strings h q =
    elim (Counts-cases (scan_input e b'\'' false 0 (up_to_nul from))) [
      | inl (a, b, c) ↦
          let text_is = written-injective (rw c at h) in
          rw (sym text_is) (constant-reads from e a b c tail q std_strings)
      | inr (x, c) ↦ absurd (grind (arith, (rw c at h)))
    ]
