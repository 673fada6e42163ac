-- ===== src/ConnInfo/KeyValue/RoundTrip.antt =====
-- Printing pairs, and the parser of crates/rlibpq/src/conninfo.rs on what is printed.
use pgrust_drop.Prelude.{
  ℕ, zero, suc, ◌<◌, true, false, ◌||◌, List, [], ◌∷◌, ◌++◌, Option, some, ◌==◌, if◌then◌else◌,
  length, length-append, drop, Bytes, All, ◌≡◌, ◌≢◌, refl, ap, ◌∙◌, arith, inl, inr, Bool-cases,
}
use pgrust_drop.ConnError.{ConnError, Result, ok, err}
use pgrust_drop.ConnInfo.{ConnInfo, at, is_space, new, set, Stored, stored, unknown_keyword}
use pgrust_drop.ConnInfo.Laws.{Stored-cases}
use pgrust_drop.ConnInfo.KeyValue.{
  skip_spaces, read_name, push_quoted, read_quoted_value, read_pair_value, parse_pairs,
  parse_keyword_value,
}

-- A backslash before quotes and backslashes.
unfoldable pub quote : Bytes → Bytes
quote [] = []
quote (c ∷ value) =
    let rest = quote value in if c == b'\\' || c == b'\'' then b'\\' ∷ c ∷ rest else c ∷ rest

unfoldable pub print_pairs : List (Bytes × Bytes) → Bytes
print_pairs [] = []
print_pairs ((k, v) ∷ pairs) = k ++ (b'=' ∷ b'\'' ∷ (quote v ++ (b'\'' ∷ b' ' ∷ print_pairs pairs)))

-- Setting the pairs one after the other.
unfoldable pub set_all : List (Bytes × Bytes) → ConnInfo → Result ConnInfo
set_all [] o = ok o
set_all ((k, v) ∷ pairs) o = elim (set o k v) [
  | stored o' ↦ set_all pairs o'
  | unknown_keyword name ↦ err (ConnError.invalid_connection_option name)
]

abbrev IsNameByte : ℕ → Type 0
IsNameByte c = ((c == 0 || c == b'=') ≡ false) × (is_space c ≡ false)

abbrev IsValueByte : ℕ → Type 0
IsValueByte c = c ≢ 0

-- A name is not empty and has no blank, NUL or equals sign; a value has no NUL.
abbrev pub IsPair : Bytes × Bytes → Type 0
IsPair (k, v) = (k ≢ []) × All IsNameByte k × All IsValueByte v

read_name_printed :
    (k rest : Bytes) → All IsNameByte k → read_name (k ++ (b'=' ∷ rest)) ≡ (k, b'=' ∷ rest)
unfolding read_name
read_name_printed [] rest h = refl
read_name_printed (c ∷ k) rest ((e, f), h) = rw (read_name_printed k rest h, read_name, e, f) refl

read_escaped :
    (c : ℕ) (rest : Bytes)
    → (c == 0) ≡ false
    → read_quoted_value false (b'\\' ∷ c ∷ rest) ≡ push_quoted c (read_quoted_value false rest)
unfolding read_quoted_value
read_escaped c rest z = rw (z, read_quoted_value) refl

read_plain :
    (c : ℕ) (rest : Bytes)
    → (c == 0) ≡ false
    → (c == b'\\') ≡ false
    → (c == b'\'') ≡ false
    → read_quoted_value false (c ∷ rest) ≡ push_quoted c (read_quoted_value false rest)
unfolding read_quoted_value
read_plain c rest z b q = rw (z, b, q, read_quoted_value) refl

read_quoted_value-quote :
    (v rest : Bytes)
    → All IsValueByte v
    → read_quoted_value false (quote v ++ (b'\'' ∷ rest)) ≡ some (v, rest)
unfolding read_quoted_value quote
read_quoted_value-quote [] rest h = refl
read_quoted_value-quote (c ∷ v) rest (n, h) =
    let nonzero : (c == 0) ≡ false = ground arith in
    elim (Bool-cases (c == b'\\' || c == b'\'')) [
      | inl e ↦ rw e (
          read_escaped c (quote v ++ (b'\'' ∷ rest)) nonzero
          ∙ ap (push_quoted c) (read_quoted_value-quote v rest h))
      | inr e ↦
          let no_backslash : (c == b'\\') ≡ false = ground arith in
          let no_quote : (c == b'\'') ≡ false = ground arith in
          rw e (
            read_plain c (quote v ++ (b'\'' ∷ rest)) nonzero no_backslash no_quote
            ∙ ap (push_quoted c) (read_quoted_value-quote v rest h))
    ]

-- One pair: what the loop does behind its name and its value.
abbrev after_set : ℕ → Bytes → Stored → Option (Result ConnInfo)
after_set fuel rest (stored o) = parse_pairs fuel rest o
after_set fuel rest (unknown_keyword k) = some (err (ConnError.invalid_connection_option k))

parse_pair :
    (fuel : ℕ) (buf : Bytes) (o : ConnInfo) {name behind value rest : Bytes}
    → (at buf == 0) ≡ false
    → is_space (at buf) ≡ false
    → read_name buf ≡ (name, behind)
    → (at behind == b'=') ≡ true
    → read_pair_value (skip_spaces (drop 1 behind)) ≡ some (value, rest)
    → parse_pairs (suc fuel) buf o ≡ after_set fuel rest (set o name value)
unfolding parse_pairs
parse_pair fuel buf o {name} {behind} {value} {rest} z s n q r =
    rw (z, parse_pairs, s, n, q, n, r, n) refl

parse_pairs-print_pairs :
    (fuel : ℕ) (pairs : List (Bytes × Bytes)) (o : ConnInfo)
    → All IsPair pairs
    → length (print_pairs pairs) < fuel
    → parse_pairs fuel (print_pairs pairs) o ≡ some (set_all pairs o)
unfolding parse_pairs print_pairs set_all is_space
parse_pairs-print_pairs zero pairs o p h = absurd (omega arith)
parse_pairs-print_pairs (suc fuel) [] o p h = refl
parse_pairs-print_pairs (suc zero) ((k, v) ∷ pairs) o p h = absurd (
    omega (arith, length-append k (b'=' ∷ b'\'' ∷ (quote v ++ (b'\'' ∷ b' ' ∷ print_pairs pairs)))))
parse_pairs-print_pairs (suc (suc fuel)) (([], v) ∷ pairs) o ((nonempty, _, _), p) h =
    absurd (nonempty refl)
parse_pairs-print_pairs (suc (suc fuel)) ((c ∷ k, v) ∷ pairs) o ((_, names, values), p) h =
    let z : (c == 0) ≡ false = ground arith in
    let tail = b'\'' ∷ b' ' ∷ print_pairs pairs in
    let value_read : read_pair_value (skip_spaces (b'\'' ∷ (quote v ++ tail)))
        ≡ some (v, b' ' ∷ print_pairs pairs) =
      unfold read_pair_value skip_spaces is_space in
      read_quoted_value-quote v (b' ' ∷ print_pairs pairs) values in
    parse_pair (suc fuel) (print_pairs ((c ∷ k, v) ∷ pairs)) o z names.0.1
      (read_name_printed (c ∷ k) (b'\'' ∷ (quote v ++ (b'\'' ∷ b' ' ∷ print_pairs pairs))) names)
      refl value_read
    ∙ elim (Stored-cases (set o (c ∷ k) v)) [
      | inl (o', e) ↦
          rw (e, set_all)
            (parse_pairs-print_pairs fuel pairs o' p (
              omega (
                arith,
                length-append k (b'=' ∷ b'\'' ∷ (quote v ++ tail)),
                length-append (quote v) tail,
              )))
      | inr (name, e) ↦ rw (e, set_all) refl
    ]

-- Pairs that are printed with their values in quotes are parsed to what setting them one after the
-- other gives, or to the error of the first that the table does not have.
pub parse_keyword_value-print_pairs :
    (pairs : List (Bytes × Bytes))
    → All IsPair pairs
    → parse_keyword_value (print_pairs pairs) ≡ some (set_all pairs new)
unfolding parse_keyword_value
parse_keyword_value-print_pairs pairs p =
    parse_pairs-print_pairs (suc (length (print_pairs pairs))) pairs new p (omega arith)
