-- ===== src/Base64/RoundTrip.antt =====
-- Encoding and decoding of crates/rlibpq/src/base64.rs together.
use pgrust_drop.Prelude.{
  ℕ, zero, suc, ◌+◌, ◌*◌, ◌/◌, ◌%◌, if◌then◌else◌, ◌^◌, ◌<◌, Bool, true, false, ◌&&◌, [], ◌∷◌,
  Option, none, some, ◌==◌, length, Bytes, All, IsByte, ◌≡◌, refl, ap, ◌∙◌, arith,
}
use pgrust_drop.Base64.{
  symbol, index_in, b64lookup, enc_len, padding, encode_from, base64_encode, read_symbol, group,
  emit, decode_from, base64_decode,
}

-- A check of every number under a bound, from the greatest down.
abbrev holds_under : (ℕ → Bool) → ℕ → Bool
holds_under check zero = true
holds_under check (suc top) = if check top then holds_under check top else false

checked_under :
    (check : ℕ → Bool) (top i : ℕ) → holds_under check top ≡ true → i < top → check i ≡ true
checked_under check zero i h under = absurd (omega arith)
checked_under check (suc top) i h under = ground (arith, checked_under check top i)

abbrev is_index : ℕ → Option (ℕ × ℕ) → Bool
is_index i none = false
is_index i (some (b, e)) = b == i && e == 0

is_index-some : (i : ℕ) (o : Option (ℕ × ℕ)) → is_index i o ≡ true → o ≡ some (i, 0)
is_index-some i none h = absurd (ground arith)
is_index-some i (some (b, e)) h = ground arith

symbols_read : holds_under (λ i. is_index i (read_symbol (symbol i) 0 0)) 64 ≡ true
unfolding read_symbol symbol b64lookup index_in
symbols_read = refl

-- A symbol reads the same at any place of its group.
read_symbol_anywhere :
    (c pos : ℕ) {b : ℕ} → read_symbol c 0 0 ≡ some (b, 0) → read_symbol c pos 0 ≡ some (b, 0)
unfolding read_symbol
read_symbol_anywhere c pos h = ground arith

read_symbol-symbol : (i pos : ℕ) → i < 64 → read_symbol (symbol i) pos 0 ≡ some (i, 0)
read_symbol-symbol i pos h = read_symbol_anywhere (symbol i) pos (
    is_index-some i (read_symbol (symbol i) 0 0)
      (checked_under (λ i. is_index i (read_symbol (symbol i) 0 0)) 64 i symbols_read h))

emit_nil : (o : Option Bytes) → emit [] o ≡ o
emit_nil none = refl
emit_nil (some bytes) = refl

decode_symbol :
    (buf pos i : ℕ) (src : Bytes)
    → i < 64
    → pos < 3
    → decode_from buf pos 0 (symbol i ∷ src) ≡ decode_from (buf * 64 + i) (pos + 1) 0 src
unfolding decode_from
decode_symbol buf zero i src h few =
    rw (read_symbol-symbol i 0 h, decode_from) (emit_nil (decode_from (buf * 64 + i) 1 0 src))
decode_symbol buf (suc zero) i src h few =
    rw (read_symbol-symbol i 1 h, decode_from) (emit_nil (decode_from (buf * 64 + i) 2 0 src))
decode_symbol buf (suc (suc zero)) i src h few =
    rw (read_symbol-symbol i 2 h, decode_from) (emit_nil (decode_from (buf * 64 + i) 3 0 src))
decode_symbol buf (suc (suc (suc pos))) i src h few = absurd (omega arith)

decode_last :
    (buf i : ℕ) (src : Bytes)
    → i < 64
    → decode_from buf 3 0 (symbol i ∷ src) ≡ emit (group (buf * 64 + i) 0) (decode_from 0 0 0 src)
unfolding decode_from
decode_last buf i src h = rw (read_symbol-symbol i 3 h, decode_from) refl

-- The four sextets of a word of 24 bits, and the word of its three bytes.
sextets :
    (n : ℕ)
    → n < 2 ^ 24
    → (((0 * 64 + n / 2 ^ 18 % 64) * 64 + n / 2 ^ 12 % 64) * 64 + n / 2 ^ 6 % 64) * 64 + n % 64 ≡ n
sextets n h = omega arith

decode_two :
    (n : ℕ) (src : Bytes)
    → n < 2 ^ 24
    → decode_from 0 0 0 (symbol (n / 2 ^ 18 % 64) ∷ symbol (n / 2 ^ 12 % 64) ∷ src)
      ≡ decode_from ((0 * 64 + n / 2 ^ 18 % 64) * 64 + n / 2 ^ 12 % 64) 2 0 src
decode_two n src h =
    decode_symbol 0 0 (n / 2 ^ 18 % 64) (symbol (n / 2 ^ 12 % 64) ∷ src) (omega arith) (omega arith)
    ∙ decode_symbol (0 * 64 + n / 2 ^ 18 % 64) 1 (n / 2 ^ 12 % 64) src (omega arith) (omega arith)

decode_group :
    (n : ℕ) (src : Bytes)
    → n < 2 ^ 24
    → decode_from 0 0 0 (
        symbol (n / 2 ^ 18 % 64)
        ∷ symbol (n / 2 ^ 12 % 64)
        ∷ symbol (n / 2 ^ 6 % 64)
        ∷ symbol (n % 64)
        ∷ src)
      ≡ emit (group n 0) (decode_from 0 0 0 src)
decode_group n src h =
    let three = (0 * 64 + n / 2 ^ 18 % 64) * 64 + n / 2 ^ 12 % 64 in
    decode_two n (symbol (n / 2 ^ 6 % 64) ∷ symbol (n % 64) ∷ src) h
    ∙ decode_symbol three 2 (n / 2 ^ 6 % 64) (symbol (n % 64) ∷ src) (omega arith) (omega arith)
    ∙ decode_last (three * 64 + n / 2 ^ 6 % 64) (n % 64) src (omega arith)
    ∙ ap (λ m. emit (group m 0) (decode_from 0 0 0 src)) (sextets n h)

decode_padding_two :
    (buf : ℕ) → decode_from buf 2 0 (b'=' ∷ b'=' ∷ []) ≡ some (group ((buf * 64 + 0) * 64 + 0) 1)
unfolding decode_from read_symbol group
decode_padding_two buf = refl

decode_padding_one : (buf : ℕ) → decode_from buf 3 0 (b'=' ∷ []) ≡ some (group (buf * 64 + 0) 2)
unfolding decode_from read_symbol group
decode_padding_one buf = refl

group_bytes :
    (a b c : ℕ)
    → a < 256
    → b < 256
    → c < 256
    → group (0 + a * 2 ^ 16 + b * 2 ^ 8 + c) 0 ≡ a ∷ b ∷ c ∷ []
unfolding group
group_bytes a b c ha hb hc =
    let n = 0 + a * 2 ^ 16 + b * 2 ^ 8 + c in
    let first : n / 2 ^ 16 % 256 ≡ a = omega arith in
    let second : n / 2 ^ 8 % 256 ≡ b = omega arith in
    let third : n % 256 ≡ c = omega arith in rw (first, second, third) refl

group_one :
    (a : ℕ)
    → a < 256
    → (let n = 0 + a * 2 ^ 16 in
        group ((((0 * 64 + n / 2 ^ 18 % 64) * 64 + n / 2 ^ 12 % 64) * 64 + 0) * 64 + 0) 1 ≡ a ∷ [])
unfolding group
group_one a ha =
    let n = 0 + a * 2 ^ 16 in
    let first : ((((0 * 64 + n / 2 ^ 18 % 64) * 64 + n / 2 ^ 12 % 64) * 64 + 0) * 64 + 0)
          / 2 ^ 16
          % 256
        ≡ a =
      omega arith in
    ap (λ x. x ∷ []) first

group_two :
    (a b : ℕ)
    → a < 256
    → b < 256
    → (let n = 0 + a * 2 ^ 16 + b * 2 ^ 8 in
        group
          ((((0 * 64 + n / 2 ^ 18 % 64) * 64 + n / 2 ^ 12 % 64) * 64 + n / 2 ^ 6 % 64) * 64 + 0)
          2
        ≡ a ∷ b ∷ [])
unfolding group
group_two a b ha hb =
    let n = 0 + a * 2 ^ 16 + b * 2 ^ 8 in
    let m = (((0 * 64 + n / 2 ^ 18 % 64) * 64 + n / 2 ^ 12 % 64) * 64 + n / 2 ^ 6 % 64) * 64 + 0 in
    let same : m ≡ n = omega arith in
    let first : m / 2 ^ 16 % 256 ≡ a = omega arith in
    let second : m / 2 ^ 8 % 256 ≡ b = omega arith in rw (first, second) refl

-- What is encoded is decoded to the same bytes.
pub base64_decode-base64_encode :
    (src : Bytes) → All IsByte src → base64_decode (base64_encode src) ≡ some src
unfolding base64_encode base64_decode encode_from padding
base64_decode-base64_encode [] h = unfold decode_from in refl
base64_decode-base64_encode (a ∷ []) (ha, h) =
    let n = 0 + a * 2 ^ 16 in
    decode_two n (b'=' ∷ b'=' ∷ []) (omega arith)
    ∙ decode_padding_two ((0 * 64 + n / 2 ^ 18 % 64) * 64 + n / 2 ^ 12 % 64)
    ∙ ap some (group_one a ha)
base64_decode-base64_encode (a ∷ b ∷ []) (ha, (hb, h)) =
    let n = 0 + a * 2 ^ 16 + b * 2 ^ 8 in
    let two = (0 * 64 + n / 2 ^ 18 % 64) * 64 + n / 2 ^ 12 % 64 in
    decode_two n (symbol (n / 2 ^ 6 % 64) ∷ b'=' ∷ []) (omega arith)
    ∙ decode_symbol two 2 (n / 2 ^ 6 % 64) (b'=' ∷ []) (omega arith) (omega arith)
    ∙ decode_padding_one (two * 64 + n / 2 ^ 6 % 64)
    ∙ ap some (group_two a b ha hb)
base64_decode-base64_encode (a ∷ b ∷ c ∷ src) (ha, (hb, (hc, h))) =
    decode_group (0 + a * 2 ^ 16 + b * 2 ^ 8 + c) (encode_from 2 0 src) (omega arith)
    ∙ rw (group_bytes a b c ha hb hc)
        (ap (emit (a ∷ b ∷ c ∷ [])) (base64_decode-base64_encode src h))

-- The encoder fills the length that is set aside for it.
pub length-base64_encode : (src : Bytes) → length (base64_encode src) ≡ enc_len (length src)
unfolding base64_encode encode_from padding enc_len
length-base64_encode [] = refl
length-base64_encode (a ∷ []) = refl
length-base64_encode (a ∷ b ∷ []) = refl
length-base64_encode (a ∷ b ∷ c ∷ src) = omega (arith, length-base64_encode src)
