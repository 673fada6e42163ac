-- ===== src/Message/Reader/Laws.antt =====
-- Each read of a `Reader` gives back what stands there, written in front of anything.
use pgrust_drop.Prelude.{
  ℕ, ◌*◌, ◌^◌, ◌<◌, List, [], ◌∷◌, ◌++◌, ◌≡◌, ◌≢◌, refl, arith, length, length-append, take_append,
  drop_append, All, Bytes,
}
use pgrust_drop.Prelude.Int.{ℤ, pos, negsuc, to_word, FitsWord, to_signed-to_word}
use pgrust_drop.Message.{ok}
use pgrust_drop.Message.Reader.{
  Parse, ◌>>=◌, take_bytes, read_u16, read_i16, read_u32, read_i32, read_cstring, repeat,
}
use pgrust_drop.Message.Frontend.{u16_be, u32_be, i16_be, i32_be}

-- A C string has no NUL of its own.
abbrev pub NoNul : Bytes → Type 0
NoNul = All (λ b. b ≢ 0)

pub read_cstring-append :
    (s : Bytes) (id : ℕ) (rest : Bytes) → NoNul s → read_cstring id (s ++ 0 ∷ rest) ≡ ok (s, rest)
unfolding read_cstring
read_cstring-append [] id rest h = refl
read_cstring-append (b ∷ s) id rest h = ground (arith, read_cstring-append s id rest h.1)

pub read_u16-u16_be :
    (n id : ℕ) (rest : Bytes) → n < 2 ^ 16 → read_u16 id (u16_be n ++ rest) ≡ ok (n, rest)
unfolding read_u16
read_u16-u16_be n id rest h = ground arith

pub read_u32-u32_be :
    (n id : ℕ) (rest : Bytes) → n < 2 ^ 32 → read_u32 id (u32_be n ++ rest) ≡ ok (n, rest)
unfolding read_u32
read_u32-u32_be n id rest h = ground arith

to_word-lt : (half : ℕ) (z : ℤ) → FitsWord half z → to_word half z < 2 * half
to_word-lt half (pos n) h = omega arith
to_word-lt half (negsuc n) h = omega arith

pub read_i16-i16_be :
    (z : ℤ) (id : ℕ) (rest : Bytes)
    → FitsWord (2 ^ 15) z
    → read_i16 id (i16_be z ++ rest) ≡ ok (z, rest)
unfolding read_i16
read_i16-i16_be z id rest h =
    rw (read_u16-u16_be (to_word (2 ^ 15) z) id rest (to_word-lt (2 ^ 15) z h), ◌>>=◌)
      (rw (to_signed-to_word (2 ^ 15) z h))

pub read_i32-i32_be :
    (z : ℤ) (id : ℕ) (rest : Bytes)
    → FitsWord (2 ^ 31) z
    → read_i32 id (i32_be z ++ rest) ≡ ok (z, rest)
unfolding read_i32
read_i32-i32_be z id rest h =
    rw (read_u32-u32_be (to_word (2 ^ 31) z) id rest (to_word-lt (2 ^ 31) z h), ◌>>=◌)
      (rw (to_signed-to_word (2 ^ 31) z h))

pub take_bytes-append :
    (bs : Bytes) (id : ℕ) (rest : Bytes) → take_bytes (length bs) id (bs ++ rest) ≡ ok (bs, rest)
unfolding take_bytes
take_bytes-append bs id rest =
    ground (arith, length-append bs rest, take_append bs rest, drop_append bs rest)

-- A list is read back if each of its items is.
module _ {A : Type 0} (item : Parse A) (onto : A → Bytes → Bytes) (Fits : A → Type 0) where
  abbrev pub list_onto : List A → Bytes → Bytes
  list_onto [] rest = rest
  list_onto (a ∷ as') rest = onto a (list_onto as' rest)

  pub repeat-list_onto :
      ((a : A) (id : ℕ) (rest : Bytes) → Fits a → item id (onto a rest) ≡ ok (a, rest))
      → (as' : List A) (id : ℕ) (rest : Bytes) → All Fits as'
      → repeat (length as') item id (list_onto as' rest) ≡ ok (as', rest)
  unfolding repeat
  repeat-list_onto h [] id rest f = refl
  repeat-list_onto h (a ∷ as') id rest f =
      rw (h a id (list_onto as' rest) f.0, repeat-list_onto h as' id rest f.1, ◌>>=◌)
