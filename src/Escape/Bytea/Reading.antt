-- ===== src/Escape/Bytea/Reading.antt =====
-- What a server reads in a literal that holds escaped binary data.
use pgrust_drop.Prelude.{
  ℕ, ◌+◌, ◌/◌, ◌%◌, ◌<◌, Bool, true, false, not, [], ◌∷◌, ◌++◌, ◌≡◌, ◌≢◌, refl, ap, ◌∙◌, arith,
  ◌==◌, if◌then◌else◌, append_assoc, append-nil, Bool-cases, inl, inr, Bytes, IsByte, AreBytes,
}
use pgrust_drop.Encoding.{Encoding}
use pgrust_drop.Encoding.Length.{within, is_highbit_set}
use pgrust_drop.Escape.Literal.{Literal, Place, read_literal, with_byte}
use pgrust_drop.Escape.Safety.{starts_with_quote, quote_ends}
use pgrust_drop.Escape.Bytea.{hextbl, backslash, put_hex, put_escaped, put_bytes, escape_bytea}

-- The text of a bytea that an escaped one stands for, once it is read as a literal.
abbrev pub text_byte : Bool → ℕ → Bytes
text_byte use_hex c =
    if use_hex
    then put_hex c
    else if not (within 0x20 0x7e c)
    then b'\\' ∷ (c / 64 + b'0') ∷ (c / 8 % 8 + b'0') ∷ (c % 8 + b'0') ∷ []
    else if c == b'\\'
    then b'\\' ∷ b'\\' ∷ []
    else c ∷ []

unfoldable pub text_bytes : Bool → Bytes → Bytes
text_bytes use_hex [] = []
text_bytes use_hex (c ∷ cs) = text_byte use_hex c ++ text_bytes use_hex cs

abbrev pub text_of : Bool → Bytes → Bytes
text_of use_hex from = (if use_hex then b'\\' ∷ b'x' ∷ [] else []) ++ text_bytes use_hex from

abbrev with_bytes : Bytes → Literal → Literal
with_bytes [] l = l
with_bytes (c ∷ cs) l = with_byte c (with_bytes cs l)

with_bytes-closed :
    (bs text tail : Bytes)
    → with_bytes bs (Literal.closed text tail) ≡ Literal.closed (bs ++ text) tail
with_bytes-closed [] text tail = refl
with_bytes-closed (c ∷ bs) text tail = rw (with_bytes-closed bs text tail)

module _ (e : Encoding) (std_strings : Bool) where
  abbrev reading : Bytes → Literal
  reading = read_literal e (not std_strings) Place.plain

  read_plain :
      (c : ℕ) (more : Bytes)
      → c < 128
      → c ≢ b'\''
      → c ≢ b'\\'
      → reading (c ∷ more) ≡ with_byte c (reading more)
  unfolding read_literal
  read_plain c more l q b =
      let low : is_highbit_set c ≡ false = ground arith in
      let quote : (c == b'\'') ≡ false = ground arith in
      let slash : (c == b'\\') ≡ false = ground arith in rw (low, quote, slash) refl

  read_backslash :
      (more : Bytes) → reading (backslash std_strings ++ more) ≡ with_byte b'\\' (reading more)
  unfolding read_literal
  read_backslash more =
      elim std_strings
        as (λ s.
          read_literal e (not s) Place.plain (backslash s ++ more)
          ≡ with_byte b'\\' (read_literal e (not s) Place.plain more)) [
            | true ↦ refl
            | false ↦ refl
          ]

  read_quote : (more : Bytes) → reading (b'\'' ∷ b'\'' ∷ more) ≡ with_byte b'\'' (reading more)
  unfolding read_literal
  read_quote more = refl

  hextbl_plain : (n : ℕ) → n < 16 → (hextbl n < 128) × (hextbl n ≢ b'\'') × (hextbl n ≢ b'\\')
  hextbl_plain n l = ground arith

  read_hex :
      (c : ℕ) (more : Bytes)
      → IsByte c
      → reading (put_hex c ++ more) ≡ with_bytes (put_hex c) (reading more)
  unfolding put_hex
  read_hex c more l =
      let (l1, q1, b1) = hextbl_plain (c / 16) (omega arith) in
      let (l2, q2, b2) = hextbl_plain (c % 16) (omega arith) in
      read_plain _ _ l1 q1 b1 ∙ ap (with_byte _) (read_plain _ _ l2 q2 b2)

  read_octal :
      (c : ℕ) (more : Bytes)
      → IsByte c
      → reading (
          (backslash std_strings ++ ((c / 64 + b'0') ∷ (c / 8 % 8 + b'0') ∷ (c % 8 + b'0') ∷ []))
          ++ more)
        ≡ with_bytes
            (b'\\' ∷ (c / 64 + b'0') ∷ (c / 8 % 8 + b'0') ∷ (c % 8 + b'0') ∷ [])
            (reading more)
  read_octal c more l =
      ap reading (append_assoc (backslash std_strings) _ more)
      ∙ read_backslash _
      ∙ ap (with_byte b'\\') (
          read_plain _ _ (omega arith) (omega arith) (omega arith)
          ∙ ap (with_byte _) (
              read_plain _ _ (omega arith) (omega arith) (omega arith)
              ∙ ap (with_byte _) (read_plain _ more (omega arith) (omega arith) (omega arith))))

  read_escaped :
      (c : ℕ) (more : Bytes)
      → IsByte c
      → reading (put_escaped std_strings c ++ more) ≡ with_bytes (text_byte false c) (reading more)
  unfolding put_escaped
  read_escaped c more l = elim (Bool-cases (within 0x20 0x7e c)) [
    | inr odd ↦ rw odd (read_octal c more l)
    | inl printable ↦ elim (Bool-cases (c == b'\'')) [
      | inl quote ↦ let same : c ≡ b'\'' = ground arith in rw same (read_quote more)
      | inr other ↦ elim (Bool-cases (c == b'\\')) [
        | inl slash ↦
            let same : c ≡ b'\\' = ground arith in
            rw same (
              ap reading (append_assoc (backslash std_strings) (backslash std_strings) more)
              ∙ read_backslash _
              ∙ ap (with_byte b'\\') (read_backslash more))
        | inr plain ↦
            rw (printable, other, plain)
              (read_plain c more (ground arith) (ground arith) (ground arith))
      ]
    ]
  ]

  read_byte :
      (use_hex : Bool) (c : ℕ) (more : Bytes)
      → IsByte c
      → reading ((if use_hex then put_hex c else put_escaped std_strings c) ++ more)
        ≡ with_bytes (text_byte use_hex c) (reading more)
  read_byte true c more l = read_hex c more l
  read_byte false c more l = read_escaped c more l

  with_bytes-append :
      (xs ys : Bytes) (l : Literal) → with_bytes xs (with_bytes ys l) ≡ with_bytes (xs ++ ys) l
  with_bytes-append [] ys l = refl
  with_bytes-append (x ∷ xs) ys l = ap (with_byte x) (with_bytes-append xs ys l)

  read_bytes :
      (use_hex : Bool) (from more : Bytes)
      → AreBytes from
      → reading (put_bytes std_strings use_hex from ++ more)
        ≡ with_bytes (text_bytes use_hex from) (reading more)
  unfolding put_bytes text_bytes
  read_bytes use_hex [] more h = refl
  read_bytes use_hex (c ∷ from) more h =
      let here = if use_hex then put_hex c else put_escaped std_strings c in
      ap reading (append_assoc here (put_bytes std_strings use_hex from) more)
      ∙ read_byte use_hex c _ h.0
      ∙ ap (with_bytes (text_byte use_hex c)) (read_bytes use_hex from more h.1)
      ∙ with_bytes-append (text_byte use_hex c) (text_bytes use_hex from) _

  read_head :
      (use_hex : Bool) (more : Bytes)
      → reading ((if use_hex then backslash std_strings ++ b'x' ∷ [] else []) ++ more)
        ≡ with_bytes (if use_hex then b'\\' ∷ b'x' ∷ [] else []) (reading more)
  read_head false more = refl
  read_head true more =
      ap reading (append_assoc (backslash std_strings) (b'x' ∷ []) more)
      ∙ read_backslash _
      ∙ ap (with_byte b'\\') (read_plain b'x' more (omega arith) (omega arith) (omega arith))

  closing :
      (tail : Bytes)
      → starts_with_quote tail ≡ false
      → reading (b'\'' ∷ tail) ≡ Literal.closed [] tail
  unfolding read_literal
  closing tail h = quote_ends e std_strings tail h

  pub read_escape_bytea :
      (use_hex : Bool) (from tail : Bytes)
      → AreBytes from
      → starts_with_quote tail ≡ false
      → reading (escape_bytea from std_strings use_hex ++ b'\'' ∷ tail)
        ≡ Literal.closed (text_of use_hex from) tail
  unfolding escape_bytea
  read_escape_bytea use_hex from tail h q =
      let front = if use_hex then backslash std_strings ++ b'x' ∷ [] else [] in
      ap reading (append_assoc front (put_bytes std_strings use_hex from) (b'\'' ∷ tail))
      ∙ read_head use_hex _
      ∙ ap (with_bytes (if use_hex then b'\\' ∷ b'x' ∷ [] else []))
          (read_bytes use_hex from _ h ∙ ap (with_bytes (text_bytes use_hex from)) (closing tail q))
      ∙ with_bytes-append (if use_hex then b'\\' ∷ b'x' ∷ [] else []) (text_bytes use_hex from)
          (Literal.closed [] tail)
      ∙ with_bytes-closed (text_of use_hex from) [] tail
      ∙ ap (λ bs. Literal.closed bs tail) (append-nil (text_of use_hex from))
