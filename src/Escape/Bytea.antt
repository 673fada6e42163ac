-- ===== src/Escape/Bytea.antt =====
-- crates/rlibpq/src/escape.rs: `escape_bytea` and `unescape_bytea`.
pub mod Reading
pub mod RoundTrip
use pgrust_drop.Prelude.{
  ℕ, zero, suc, ◌+◌, ◌-◌, ◌*◌, ◌/◌, ◌%◌, Bool, true, false, not, ◌&&◌, ◌||◌, [], ◌∷◌, ◌++◌, Option,
  none, some, ltb, leb, ◌==◌, if◌then◌else◌, Bytes,
}
use pgrust_drop.Encoding.Length.{within, byte_at}
use pgrust_drop.Escape.{up_to_nul}

-- `HEXTBL` at an index below 16.
abbrev pub hextbl : ℕ → ℕ
hextbl n = if ltb n 10 then n + b'0' else n - 10 + b'a'

-- The backslash that is doubled where backslashes escape.
abbrev pub backslash : Bool → Bytes
backslash std_strings = if std_strings then b'\\' ∷ [] else b'\\' ∷ b'\\' ∷ []

-- One round of the loop of `escape_bytea`, in the hex and the escape format.
unfoldable pub put_hex : ℕ → Bytes
put_hex c = hextbl (c / 16) ∷ hextbl (c % 16) ∷ []

unfoldable pub put_escaped : Bool → ℕ → Bytes
put_escaped std_strings c =
    if not (within 0x20 0x7e c)
    then backslash std_strings ++ ((c / 64 + b'0') ∷ (c / 8 % 8 + b'0') ∷ (c % 8 + b'0') ∷ [])
    else if c == b'\''
    then b'\'' ∷ b'\'' ∷ []
    else if c == b'\\'
    then backslash std_strings ++ backslash std_strings
    else c ∷ []

unfoldable pub put_bytes : Bool → Bool → Bytes → Bytes
unfolding put_hex put_escaped
put_bytes std_strings use_hex [] = []
put_bytes std_strings use_hex (c ∷ cs) =
    (if use_hex then put_hex c else put_escaped std_strings c) ++ put_bytes std_strings use_hex cs

-- `escape_bytea`.
unfoldable pub escape_bytea : Bytes → Bool → Bool → Bytes
escape_bytea from std_strings use_hex =
    (if use_hex then backslash std_strings ++ b'x' ∷ [] else [])
    ++ put_bytes std_strings use_hex from

-- `get_hex`.
unfoldable pub get_hex : ℕ → Option ℕ
get_hex c =
    if within b'0' b'9' c
    then some (c - b'0')
    else if within b'a' b'f' c
    then some (c - b'a' + 10)
    else if within b'A' b'F' c
    then some (c - b'A' + 10)
    else none

-- The loop over the hex digits: a byte that is no digit is passed over, and so is a digit in front
-- of one; a digit with nothing behind it ends the loop.
pair : Option ℕ → Option ℕ → Bytes → Bytes → Bytes
pair none v2 from_second from_third = from_second
pair (some v1) none from_second from_third = from_third
pair (some v1) (some v2) from_second from_third = (v1 * 16 + v2) ∷ from_third

unfoldable pub unhex : Bytes → Bytes
unfolding pair
unhex [] = []
unhex (c1 ∷ []) = []
unhex (c1 ∷ c2 ∷ s) = pair (get_hex c1) (get_hex c2) (unhex (c2 ∷ s)) (unhex s)

-- The loop over the escape format; `skip` bytes of a sequence are still to be passed.
unfoldable pub unescape_from : ℕ → Bytes → Bytes
unescape_from skip [] = []
unescape_from (suc skip) (c ∷ rest) = unescape_from skip rest
unescape_from zero (c ∷ rest) =
    let next = λ (skip : ℕ). unescape_from skip rest in
    let at = byte_at rest in
    if c == b'\\'
    then if at 0 == b'\\'
      then b'\\' ∷ next 1
      else if within b'0' b'3' (at 0) && within b'0' b'7' (at 1) && within b'0' b'7' (at 2)
      then ((at 0 - b'0') * 64 + (at 1 - b'0') * 8 + (at 2 - b'0')) ∷ next 3
      else next 0
    else c ∷ next 0

unescape_text : Bytes → Bytes
unescape_text (c1 ∷ c2 ∷ hex) =
    if c1 == b'\\' && c2 == b'x' then unhex hex else unescape_from 0 (c1 ∷ c2 ∷ hex)
unescape_text text = unescape_from 0 text

-- `unescape_bytea`.
unfoldable pub unescape_bytea : Bytes → Bytes
unfolding unescape_text
unescape_bytea strtext = unescape_text (up_to_nul strtext)
