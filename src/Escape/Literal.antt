-- ===== src/Escape/Literal.antt =====
-- What a server reads behind the opening quote of a string literal: characters of the encoding, a
-- doubled quote for a quote, and, where backslashes escape, a doubled backslash for a backslash.
use pgrust_drop.Prelude.{ℕ, suc, ◌-◌, Bool, ◌&&◌, [], ◌∷◌, none, some, ◌==◌, if◌then◌else◌, Bytes}
use pgrust_drop.Encoding.{Encoding}
use pgrust_drop.Encoding.Length.{is_highbit_set}
use pgrust_drop.Encoding.Verify.{verify_char}

-- A literal is read whole, with what stands behind it; or its text is refused, since bytes in it are
-- no character; or a backslash sequence stands in it that is no doubled backslash; or it has no end.
pub data Literal : Type 0 where
  closed : Bytes → Bytes → Literal
  refused other_escape unterminated : Literal

abbrev pub with_byte : ℕ → Literal → Literal
with_byte c (Literal.closed text tail) = Literal.closed (c ∷ text) tail
with_byte c l = l

-- The reader, at a plain byte, behind a quote, behind a backslash, or with bytes of a character left
-- to read.
pub data Place : Type 0 where
  plain behind_quote behind_backslash : Place
  inside : ℕ → Place

unfoldable pub read_literal : Encoding → Bool → Place → Bytes → Literal
read_literal e escapes Place.behind_quote [] = Literal.closed [] []
read_literal e escapes place [] = Literal.unterminated
read_literal e escapes Place.behind_quote (c ∷ rest) =
    let more = read_literal e escapes Place.plain rest in
    if c == b'\'' then with_byte c more else Literal.closed [] (c ∷ rest)
read_literal e escapes Place.behind_backslash (c ∷ rest) =
    let more = read_literal e escapes Place.plain rest in
    if c == b'\\' then with_byte c more else Literal.other_escape
read_literal e escapes (Place.inside (suc n)) (c ∷ rest) =
    with_byte c (read_literal e escapes (Place.inside n) rest)
read_literal e escapes _ (c ∷ rest) =
    let next = λ (place : Place). read_literal e escapes place rest in
    if is_highbit_set c
    then elim (verify_char e c rest) [
      | some n ↦ with_byte c (next (Place.inside (n - 1)))
      | none ↦ Literal.refused
    ]
    else if c == b'\''
    then next Place.behind_quote
    else if c == b'\\' && escapes
    then next Place.behind_backslash
    else with_byte c (next Place.plain)
