-- ===== src/Message/Reader.antt =====
-- crates/rlibpq/src/message.rs: `struct Reader` over one message body. A reader is the message's
-- type byte and what is not yet read of the body, so `buf.len() - pos` is the length of the latter.
pub mod Laws
use pgrust_drop.Prelude.{
  ℕ, zero, suc, ◌+◌, ◌*◌, ◌^◌, List, [], ◌∷◌, ltb, ◌==◌, if◌then◌else◌, length, take, drop, Bytes,
}
use pgrust_drop.Prelude.Int.{ℤ, to_signed}
use pgrust_drop.Message.{ProtocolError, Result, ok, err}

abbrev pub Parse : Type 0 → Type 0
Parse A = ℕ → Bytes → Result (A × Bytes)

infixl 5 ◌>>=◌
abbrev pub ◌>>=◌ : {A B : Type 0} → Parse A → (A → Parse B) → Parse B
◌>>=◌ p f id rest = elim (p id rest) [ ok (a, rest') ↦ f a id rest' | err e ↦ err e ]

abbrev pub pure : {A : Type 0} → A → Parse A
pure a id rest = ok (a, rest)

abbrev pub fail : {A : Type 0} → ProtocolError → Parse A
fail e id rest = err e

-- `Reader::take`.
unfoldable pub take_bytes : ℕ → Parse Bytes
take_bytes n id rest =
    if ltb (length rest) n
    then err (ProtocolError.insufficient_data id)
    else ok (take n rest, drop n rest)

-- `Reader::u8`.
unfoldable pub read_u8 : Parse ℕ
read_u8 id [] = err (ProtocolError.insufficient_data id)
read_u8 id (b ∷ rest) = ok (b, rest)

-- `u16::from_be_bytes` and `u32::from_be_bytes`.
abbrev pub be16 : ℕ → ℕ → ℕ
be16 a b = a * 256 + b

abbrev pub be32 : ℕ → ℕ → ℕ → ℕ → ℕ
be32 a b c d = be16 a b * 65536 + be16 c d

-- `Reader::u32`.
unfoldable pub read_u32 : Parse ℕ
read_u32 id (a ∷ b ∷ c ∷ d ∷ rest) = ok (be32 a b c d, rest)
read_u32 id _ = err (ProtocolError.insufficient_data id)

-- `Reader::i32`.
unfoldable pub read_i32 : Parse ℤ
read_i32 = do w ← read_u32; pure (to_signed (2 ^ 31) w)

-- `Reader::u16`.
unfoldable pub read_u16 : Parse ℕ
read_u16 id (a ∷ b ∷ rest) = ok (be16 a b, rest)
read_u16 id _ = err (ProtocolError.insufficient_data id)

-- `Reader::i16`.
unfoldable pub read_i16 : Parse ℤ
read_i16 = do w ← read_u16; pure (to_signed (2 ^ 15) w)

-- `Reader::cstring`: up to the NUL, which is consumed.
unfoldable pub read_cstring : Parse Bytes
read_cstring id [] = err (ProtocolError.insufficient_data id)
read_cstring id (b ∷ rest) =
    if b == 0
    then ok ([], rest)
    else elim (read_cstring id rest) [ ok (s, rest') ↦ ok (b ∷ s, rest') | err e ↦ err e ]

-- `Reader::rest`, which leaves the reader where it is.
abbrev pub read_rest : Parse Bytes
read_rest id rest = ok (rest, rest)

-- `for _ in 0..n { out.push(item()?) }`.
unfoldable pub repeat : {A : Type 0} → ℕ → Parse A → Parse (List A)
repeat zero item = pure []
repeat (suc n) item = do a ← item; as' ← repeat n item; pure (a ∷ as')
