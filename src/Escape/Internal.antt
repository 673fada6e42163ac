-- ===== src/Escape/Internal.antt =====
-- crates/rlibpq/src/escape.rs: `escape_internal`, the body of `PQescapeLiteral` and of
-- `PQescapeIdentifier`.
pub mod Valid
pub mod Copy
pub mod Read
pub mod Name
use pgrust_drop.Prelude.{
  ℕ, zero, suc, ◌+◌, ◌-◌, Bool, true, false, not, ◌&&◌, ◌||◌, [], ◌∷◌, ◌++◌, Option, none, some,
  ltb, leb, ◌==◌, if◌then◌else◌, length, Bytes,
}
use pgrust_drop.Encoding.{Encoding}
use pgrust_drop.Encoding.Length.{is_highbit_set, mblen, mblen_or_incomplete}
use pgrust_drop.Encoding.Verify.{verify_str}
use pgrust_drop.Escape.{EscapeError, up_to_nul}

-- What the scan comes to: `num_quotes` and `num_backslashes`, or the error.
pub data Counts : Type 0 where
  counted : ℕ → ℕ → Counts
  failed : EscapeError → Counts

-- One byte more to count.
abbrev pub tally : Bool → Bool → Counts → Counts
tally quote backslash (Counts.counted a b) =
    Counts.counted (if quote then suc a else a) (if backslash then suc b else b)
tally quote backslash (Counts.failed x) = Counts.failed x

-- `charlen`: the length of a character that is all there.
abbrev fitting : ℕ → Option ℕ → Option ℕ
fitting size none = none
fitting size (some n) = if leb n size then some n else none

unfoldable pub charlen : Encoding → ℕ → Bytes → Option ℕ
charlen e c rest = fitting (length (c ∷ rest)) (mblen_or_incomplete e (c ∷ rest))

-- Does the whole remainder verify?
unfoldable pub verifies : Encoding → Bytes → Bool
verifies e rest = verify_str e rest == length rest

-- The byte starts a character of several.
unfoldable pub is_lead : ℕ → ℕ → Bool
is_lead quote_char c = not (c == quote_char) && not (c == b'\\') && is_highbit_set c

-- The scan; `skip` bytes of a character are still to be passed.
unfoldable pub scan_input : Encoding → ℕ → Bool → ℕ → Bytes → Counts
scan_input e quote_char validated_mb skip [] = Counts.counted 0 0
scan_input e quote_char validated_mb (suc skip) (c ∷ rest) =
    scan_input e quote_char validated_mb skip rest
scan_input e quote_char validated_mb zero (c ∷ rest) =
    let next = λ (validated : Bool) (skip : ℕ). scan_input e quote_char validated skip rest in
    elim (is_lead quote_char c) [
      | false ↦ tally (c == quote_char) (not (c == quote_char) && c == b'\\') (next validated_mb 0)
      | true ↦ elim (charlen e c rest) [
        | none ↦ Counts.failed EscapeError.incomplete_multibyte
        | some n ↦ elim (validated_mb || verifies e (c ∷ rest)) [
          | false ↦ Counts.failed EscapeError.invalid_multibyte
          | true ↦ next true (n - 1)
        ]
      ]
    ]

-- The loop of the slow path: the bytes that are doubled, and characters copied whole.
unfoldable pub write : Encoding → (ℕ → Bool) → ℕ → Bytes → Bytes
write e doubles skip [] = []
write e doubles (suc skip) (c ∷ rest) = c ∷ write e doubles skip rest
write e doubles zero (c ∷ rest) =
    let skip = if doubles c || not (is_highbit_set c) then 0 else mblen e c rest - 1 in
    let more = write e doubles skip rest in if doubles c then c ∷ c ∷ more else c ∷ more

abbrev pub quote_of : Bool → ℕ
quote_of as_ident = if as_ident then b'"' else b'\''

abbrev pub doubled_in : Bool → ℕ → Bool
doubled_in as_ident c = c == quote_of as_ident || (not as_ident && c == b'\\')

-- What is put between the quotes: the input, where nothing is to be doubled.
abbrev pub body : Encoding → Bool → ℕ → ℕ → Bytes → Bytes
body e as_ident num_quotes num_backslashes input =
    if num_quotes == 0 && (num_backslashes == 0 || as_ident)
    then input
    else write e (doubled_in as_ident) 0 input

abbrev pub prefix : Bool → ℕ → Bytes
prefix as_ident num_backslashes =
    if not as_ident && ltb 0 num_backslashes then b' ' ∷ b'E' ∷ [] else []

-- The `Result` of `escape_internal`.
pub data Quoted : Type 0 where
  written : Bytes → Quoted
  refused : EscapeError → Quoted

abbrev pub quoted_text : Encoding → Bool → Bytes → Counts → Quoted
quoted_text e as_ident input (Counts.failed x) = Quoted.refused x
quoted_text e as_ident input (Counts.counted a b) =
    let q = quote_of as_ident in
    Quoted.written (prefix as_ident b ++ (q ∷ (body e as_ident a b input ++ q ∷ [])))

-- `escape_internal`.
unfoldable pub escape_internal : Bytes → Encoding → Bool → Quoted
escape_internal from e as_ident =
    let input = up_to_nul from in
    quoted_text e as_ident input (scan_input e (quote_of as_ident) false 0 input)
