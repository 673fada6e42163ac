-- ===== src/Base64.antt =====
-- crates/rlibpq/src/base64.rs: base64 without whitespace, as SCRAM sends it. Shifts and masks are
-- products, quotients and remainders; the groups of at most four symbols never fill a `u32`, and the
-- bits that `|=` sets were clear. RoundTrip is encoding and decoding together.
pub mod RoundTrip
pub mod Groups
use pgrust_drop.Prelude.{
  ℕ, zero, suc, ◌+◌, ◌-◌, ◌*◌, ◌/◌, ◌%◌, ◌^◌, Bool, true, false, not, ◌&&◌, ◌||◌, List, [], ◌∷◌,
  ◌++◌, Option, none, some, ◌==◌, ltb, if◌then◌else◌, get_or, length, Bytes, codes,
}

-- `BASE64`.
abbrev pub base64 : Bytes
base64 = codes "ABCDEFGHIJKLMNOPQRSTUVWXYZabcdefghijklmnopqrstuvwxyz0123456789+/"

unfoldable pub symbol : ℕ → ℕ
symbol i = get_or base64 i 0

unfoldable pub index_in : ℕ → Bytes → Option ℕ
index_in c [] = none
index_in c (s ∷ symbols) =
    let behind = index_in c symbols in
    if s == c then some 0 else elim behind [ none ↦ none | some i ↦ some (suc i) ]

-- `b64lookup`, with nothing for -1.
unfoldable pub b64lookup : ℕ → Option ℕ
b64lookup c = index_in c base64

-- `enc_len` and `dec_len`.
unfoldable pub enc_len : ℕ → ℕ
enc_len srclen = (srclen + 2) / 3 * 4

unfoldable pub dec_len : ℕ → ℕ
dec_len srclen = srclen * 3 / 4

-- The end of `encode`, behind its loop.
unfoldable pub padding : ℕ → ℕ → Bytes
padding pos buf =
    if pos == 2
    then []
    else symbol (buf / 2 ^ 18 % 64)
      ∷ symbol (buf / 2 ^ 12 % 64)
      ∷ (if pos == 0 then symbol (buf / 2 ^ 6 % 64) else b'=')
      ∷ b'='
      ∷ []

-- The loop of `encode`.
unfoldable pub encode_from : ℕ → ℕ → Bytes → Bytes
encode_from pos buf [] = padding pos buf
encode_from zero buf (s ∷ src) =
    let buf' = buf + s in
    symbol (buf' / 2 ^ 18 % 64)
    ∷ symbol (buf' / 2 ^ 12 % 64)
    ∷ symbol (buf' / 2 ^ 6 % 64)
    ∷ symbol (buf' % 64)
    ∷ encode_from 2 0 src
encode_from (suc pos) buf (s ∷ src) = encode_from pos (buf + s * 2 ^ (8 * suc pos)) src

-- `encode`.
unfoldable pub base64_encode : Bytes → Bytes
base64_encode src = encode_from 2 0 src

abbrev is_blank : ℕ → Bool
is_blank c = c == b' ' || c == b'\t' || c == b'\n' || c == b'\r'

-- The end sequence, where it fits.
abbrev end_at : ℕ → Option ℕ
end_at pos = if pos == 2 then some 1 else if pos == 3 then some 2 else none

-- The six bits of one character, and where the padding began.
unfoldable pub read_symbol : ℕ → ℕ → ℕ → Option (ℕ × ℕ)
read_symbol c pos end_seq =
    if is_blank c
    then none
    else if c == b'='
    then (if end_seq == 0
        then elim (end_at pos) [ none ↦ none | some e ↦ some (0, e) ]
        else some (0, end_seq))
    else if ltb 0 c && ltb c 127
    then elim (b64lookup c) [ none ↦ none | some b ↦ some (b, end_seq) ]
    else none

-- The bytes of a full group.
unfoldable pub group : ℕ → ℕ → Bytes
group buf end_seq =
    buf / 2 ^ 16 % 256
    ∷ ((if end_seq == 0 || ltb 1 end_seq then buf / 2 ^ 8 % 256 ∷ [] else [])
        ++ (if end_seq == 0 || ltb 2 end_seq then buf % 256 ∷ [] else []))

abbrev pub emit : Bytes → Option Bytes → Option Bytes
emit out none = none
emit out (some rest) = some (out ++ rest)

-- The loop of `decode`.
unfoldable pub decode_from : ℕ → ℕ → ℕ → Bytes → Option Bytes
decode_from buf pos end_seq [] = if pos == 0 then some [] else none
decode_from buf pos end_seq (c ∷ src) = elim (read_symbol c pos end_seq) [
  | none ↦ none
  | some (b, e) ↦
      let buf' = buf * 64 + b in
      let full = pos + 1 == 4 in
      emit (if full then group buf' e else [])
        (decode_from (if full then 0 else buf') (if full then 0 else pos + 1) e src)
]

-- `decode`.
unfoldable pub base64_decode : Bytes → Option Bytes
base64_decode src = decode_from 0 0 0 src
