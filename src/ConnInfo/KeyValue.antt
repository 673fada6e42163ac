-- ===== src/ConnInfo/KeyValue.antt =====
-- crates/rlibpq/src/conninfo.rs: the parser of `key=value` connection strings, over what is left of
-- the text. Its loop runs on fuel; one round more than the text has bytes is enough. Ends and
-- RoundTrip are its theorems.
pub mod Ends
pub mod RoundTrip
use pgrust_drop.Prelude.{
  ℕ, zero, suc, Bool, true, false, not, ◌&&◌, ◌||◌, List, [], ◌∷◌, Option, none, some, ◌==◌,
  if◌then◌else◌, length, drop, Bytes,
}
use pgrust_drop.ConnError.{ConnError, Result, ok, err}
use pgrust_drop.ConnInfo.{ConnInfo, at, is_space, new, set, Stored, stored, unknown_keyword}

-- `while at(buf, cp) != 0 && is_space(at(buf, cp))`.
unfoldable pub skip_spaces : Bytes → Bytes
skip_spaces [] = []
skip_spaces (c ∷ rest) = let skipped = skip_spaces rest in if is_space c then skipped else c ∷ rest

-- A name, and what is left behind it and its blanks.
unfoldable pub read_name : Bytes → Bytes × Bytes
read_name [] = ([], [])
read_name (c ∷ rest) =
    let (name, behind) = read_name rest in
    if c == 0 || c == b'='
    then ([], c ∷ rest)
    else if is_space c
    then ([], skip_spaces rest)
    else (c ∷ name, behind)

abbrev push_value : ℕ → Bytes × Bytes → Bytes × Bytes
push_value c (value, rest) = (c ∷ value, rest)

-- `read_bare_value`; the flag says that a backslash stands before.
unfoldable pub read_bare_value : Bool → Bytes → Bytes × Bytes
read_bare_value escaped [] = ([], [])
read_bare_value escaped (c ∷ rest) =
    let backslash = not escaped && c == b'\\' in
    let behind = read_bare_value backslash rest in
    if c == 0
    then ([], c ∷ rest)
    else if backslash
    then behind
    else if not escaped && is_space c
    then ([], rest)
    else push_value c behind

abbrev push_quoted : ℕ → Option (Bytes × Bytes) → Option (Bytes × Bytes)
push_quoted c none = none
push_quoted c (some (value, rest)) = some (c ∷ value, rest)

-- `read_quoted_value`, nothing for `UnterminatedQuotedString`.
unfoldable pub read_quoted_value : Bool → Bytes → Option (Bytes × Bytes)
read_quoted_value escaped [] = none
read_quoted_value escaped (c ∷ rest) =
    let backslash = not escaped && c == b'\\' in
    let behind = read_quoted_value backslash rest in
    if c == 0
    then none
    else if backslash
    then behind
    else if not escaped && c == b'\''
    then some ([], rest)
    else push_quoted c behind

unfoldable pub read_pair_value : Bytes → Option (Bytes × Bytes)
read_pair_value start =
    if at start == b'\''
    then read_quoted_value false (drop 1 start)
    else some (read_bare_value false start)

-- The loop of `parse_keyword_value`, nothing when the fuel runs out.
unfoldable pub parse_pairs : ℕ → Bytes → ConnInfo → Option (Result ConnInfo)
parse_pairs zero buf options = none
parse_pairs (suc fuel) buf options = elim (at buf == 0) [
  | true ↦ some (ok options)
  | false ↦ elim (is_space (at buf)) [
    | true ↦ parse_pairs fuel (drop 1 buf) options
    | false ↦
        let (name, behind) = read_name buf in
        elim (at behind == b'=') [
          | false ↦ some (err (ConnError.missing_equals name))
          | true ↦ elim (read_pair_value (skip_spaces (drop 1 behind))) [
            | none ↦ some (err ConnError.unterminated_quoted_string)
            | some (value, rest) ↦ elim (set options name value) [
              | stored o ↦ parse_pairs fuel rest o
              | unknown_keyword k ↦ some (err (ConnError.invalid_connection_option k))
            ]
          ]
        ]
  ]
]

-- `parse_keyword_value`.
unfoldable pub parse_keyword_value : Bytes → Option (Result ConnInfo)
parse_keyword_value conninfo = parse_pairs (suc (length conninfo)) conninfo new
