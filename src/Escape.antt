-- ===== src/Escape.antt =====
-- crates/rlibpq/src/escape.rs: `escape_string`, which makes a string safe to stand between the
-- quotes of a literal, in the client's encoding. Literal is what the server reads there, Safety
-- relates the two; Bytea is the escaping of binary data; Internal is `escape_internal`, which writes
-- the quotes as well, of a literal or of an identifier.
pub mod Literal
pub mod Safety
pub mod Bytea
pub mod Internal
use pgrust_drop.Prelude.{
  is_some, ℕ, zero, suc, ◌-◌, Bool, true, false, not, ◌&&◌, ◌||◌, [], ◌∷◌, ◌++◌, Option, none, some,
  ◌==◌, leb, if◌then◌else◌, length, take, Bytes,
}
use pgrust_drop.Encoding.{Encoding}
use pgrust_drop.Encoding.Length.{is_highbit_set, mblen_or_incomplete}
use pgrust_drop.Encoding.Verify.{verify_char, invalid_sequence}

-- `enum EscapeError`.
pub data EscapeError : Type 0 where
  incomplete_multibyte invalid_multibyte : EscapeError

-- `struct EscapedString`.
pub record EscapedString : Type 0 where
  pub bytes : Bytes
  pub error : Option EscapeError

-- `up_to_nul`.
unfoldable pub up_to_nul : Bytes → Bytes
up_to_nul [] = []
up_to_nul (c ∷ cs) = if c == 0 then [] else c ∷ up_to_nul cs

-- `sql_str_double`.
abbrev pub sql_str_double : ℕ → Bool → Bool
sql_str_double c escape_backslash = c == b'\'' || (c == b'\\' && escape_backslash)

-- What the slow path makes of the bytes `c ∷ rest`: the length of a character that is all there
-- and verifies, or the error.
pub data Multibyte : Type 0 where
  valid : ℕ → Multibyte
  bad : EscapeError → Multibyte

multibyte_of : Encoding → ℕ → Bytes → Option ℕ → Multibyte
multibyte_of e c rest none = Multibyte.bad EscapeError.incomplete_multibyte
multibyte_of e c rest (some n) =
    if not (leb n (length (c ∷ rest)))
    then Multibyte.bad EscapeError.incomplete_multibyte
    else if is_some (verify_char e c (take (n - 1) rest))
    then Multibyte.valid n
    else Multibyte.bad EscapeError.invalid_multibyte

unfoldable pub multibyte : Encoding → ℕ → Bytes → Multibyte
unfolding multibyte_of
multibyte e c rest = multibyte_of e c rest (mblen_or_incomplete e (c ∷ rest))

-- Bytes in front of what the rest of the loop writes.
abbrev pub before : Bytes → EscapedString → EscapedString
before bs s = record s { bytes = bs ++ s.bytes }

-- The loop of `escape_string`; `copying` bytes of a valid character are still to be copied. The
-- error kept is the first one.
unfoldable pub escape_from : Encoding → Bool → ℕ → Bytes → EscapedString
unfolding multibyte
escape_from encoding std_strings copying [] = record { bytes = []; error = none }
escape_from encoding std_strings (suc copying) (c ∷ rest) =
    before (c ∷ []) (escape_from encoding std_strings copying rest)
escape_from encoding std_strings zero (c ∷ rest) =
    let next = λ (copying : ℕ). escape_from encoding std_strings copying rest in
    if not (is_highbit_set c)
    then before (if sql_str_double c (not std_strings) then c ∷ c ∷ [] else c ∷ []) (next 0)
    else elim (multibyte encoding c rest) [
      | Multibyte.valid n ↦ before (c ∷ []) (next (n - 1))
      | Multibyte.bad e ↦ record (before (invalid_sequence encoding) (next 0)) { error = some e }
    ]

-- `escape_string`.
unfoldable pub escape_string : Bytes → Encoding → Bool → EscapedString
escape_string from encoding std_strings = escape_from encoding std_strings 0 (up_to_nul from)
