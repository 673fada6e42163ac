-- ===== src/Tests/Escapes.antt =====
-- The theorems on quoted literals and identifiers at concrete texts.
use pgrust_drop.Prelude.{[], ◌∷◌, ◌++◌, ◌≡◌, refl, true, false, Bytes, codes, length, ◌==◌}
use pgrust_drop.Encoding.{Encoding, family}
use pgrust_drop.Encoding.Length.{mblen_or_incomplete, family_mblen}
use pgrust_drop.Encoding.Verify.{verify_str, verify_from, family_verify_char}
use pgrust_drop.Escape.{up_to_nul}
use pgrust_drop.Escape.Literal.{Literal}
use pgrust_drop.Escape.Internal.{
  Quoted, escape_internal, scan_input, write, charlen, is_lead, verifies,
}
use pgrust_drop.Escape.Internal.Valid.{accepts, escape_internal-verify_str}
use pgrust_drop.Escape.Internal.Name.{read_identifier, escape_internal-read_identifier}
use pgrust_drop.Escape.Internal.Read.{read_constant, escape_internal-read_constant}

-- A backslash, a quote and a character of two bytes.
abbrev a_text : Bytes
a_text = b'\\' ∷ b'\'' ∷ 0xc3 ∷ 0xa9 ∷ []

abbrev a_literal : Bytes
a_literal = b' ' ∷ b'E' ∷ b'\'' ∷ b'\\' ∷ b'\\' ∷ b'\'' ∷ b'\'' ∷ 0xc3 ∷ 0xa9 ∷ b'\'' ∷ []

a_text-escape_internal : escape_internal a_text Encoding.utf8 false ≡ Quoted.written a_literal
unfolding escape_internal scan_input write charlen is_lead verifies up_to_nul verify_str verify_from
    mblen_or_incomplete family family_mblen family_verify_char
a_text-escape_internal = refl

an_identifier_keeps_backslashes :
    escape_internal (codes "a\\b\"c") Encoding.utf8 true ≡ Quoted.written (codes "\"a\\b\"\"c\"")
unfolding escape_internal scan_input write is_lead up_to_nul
an_identifier_keeps_backslashes = refl

escape_internal-read_constant_example :
    read_constant Encoding.utf8 true (a_literal ++ codes ", 1")
    ≡ Literal.closed (up_to_nul a_text) (codes ", 1")
escape_internal-read_constant_example =
    escape_internal-read_constant a_text (codes ", 1") Encoding.utf8 true a_text-escape_internal
      refl

escape_internal-verify_str_example :
    accepts (escape_internal (b'a' ∷ 0xc3 ∷ []) Encoding.utf8 true) ≡ (
      verify_str Encoding.utf8 (up_to_nul (b'a' ∷ 0xc3 ∷ []))
      == length (up_to_nul (b'a' ∷ 0xc3 ∷ [])))
escape_internal-verify_str_example =
    escape_internal-verify_str (b'a' ∷ 0xc3 ∷ []) Encoding.utf8 true

escape_internal-read_identifier_example :
    read_identifier Encoding.utf8 (codes "\"a\\b\"\"c\"" ++ codes " = 1")
    ≡ Literal.closed (up_to_nul (codes "a\\b\"c")) (codes " = 1")
escape_internal-read_identifier_example =
    escape_internal-read_identifier (codes "a\\b\"c") (codes " = 1") Encoding.utf8
      an_identifier_keeps_backslashes refl
