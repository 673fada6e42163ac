-- ===== src/Encoding/Length.antt =====
-- crates/rlibpq/src/encoding.rs: how many bytes the character at the front of a slice claims.
-- The functions that index `s[0]` take the first byte and the rest of the slice.
-- `c & 0x80` and the other masks of a byte are written by division and remainder.
use pgrust_drop.Prelude.{
  ℕ, zero, suc, ◌/◌, ◌%◌, Bool, true, false, not, ◌&&◌, ◌||◌, [], ◌∷◌, Option, none, some, ltb, leb,
  ◌==◌, if◌then◌else◌, length, Bytes,
}
use pgrust_drop.Encoding.{Encoding, Family, family}

abbrev pub ss2 : ℕ
ss2 = 0x8e

abbrev pub ss3 : ℕ
ss3 = 0x8f

-- `is_highbit_set`: `c & 0x80 != 0`.
abbrev pub is_highbit_set : ℕ → Bool
is_highbit_set c = not (c / 128 % 2 == 0)

-- `(lo..=hi).contains(&c)`.
abbrev pub within : ℕ → ℕ → ℕ → Bool
within lo hi c = leb lo c && leb c hi

-- `byte_at`: the byte at an index, or the NUL a C string would end in.
abbrev pub byte_at : Bytes → ℕ → ℕ
byte_at [] i = 0
byte_at (c ∷ cs) zero = c
byte_at (c ∷ cs) (suc i) = byte_at cs i

pub euc_mblen : ℕ → ℕ
euc_mblen c = if c == ss2 then 2 else if c == ss3 then 3 else if is_highbit_set c then 2 else 1

pub euccn_mblen : ℕ → ℕ
euccn_mblen c = if c == ss2 || c == ss3 then 3 else if is_highbit_set c then 2 else 1

pub euctw_mblen : ℕ → ℕ
euctw_mblen c = if c == ss2 then 4 else if c == ss3 then 3 else if is_highbit_set c then 2 else 1

-- The masks `0x80`, `0xe0`, `0xf0` and `0xf8` keep the top one, three, four and five bits.
unfoldable pub utf_mblen : ℕ → ℕ
utf_mblen c =
    if c / 128 % 2 == 0
    then 1
    else if c / 32 % 8 == 6
    then 2
    else if c / 16 % 16 == 14
    then 3
    else if c / 8 % 32 == 30
    then 4
    else 1

pub mule_mblen : ℕ → ℕ
mule_mblen c =
    if within 0x81 0x8d c
    then 2
    else if c == 0x9a || c == 0x9b || within 0x90 0x99 c
    then 3
    else if c == 0x9c || c == 0x9d
    then 4
    else 1

-- `Encoding::mblen`, by the family, of the slice `c ∷ rest`.
unfoldable pub family_mblen : Family → ℕ → Bytes → ℕ
unfolding euc_mblen euccn_mblen euctw_mblen utf_mblen mule_mblen
family_mblen Family.ascii c rest = 1
family_mblen Family.latin1 c rest = 1
family_mblen Family.euc_jp c rest = euc_mblen c
family_mblen Family.euc_kr c rest = euc_mblen c
family_mblen Family.johab c rest = euc_mblen c
family_mblen Family.euc_cn c rest = euccn_mblen c
family_mblen Family.euc_tw c rest = euctw_mblen c
family_mblen Family.utf8 c rest = utf_mblen c
family_mblen Family.mule c rest = mule_mblen c
family_mblen Family.sjis c rest = if within 0xa1 0xdf c || not (is_highbit_set c) then 1 else 2
family_mblen Family.big5 c rest = if is_highbit_set c then 2 else 1
family_mblen Family.gbk c rest = if is_highbit_set c then 2 else 1
family_mblen Family.uhc c rest = if is_highbit_set c then 2 else 1
family_mblen Family.gb18030 c rest =
    if not (is_highbit_set c) then 1 else if within 0x30 0x39 (byte_at rest 0) then 4 else 2

abbrev pub mblen : Encoding → ℕ → Bytes → ℕ
mblen e = family_mblen (family e)

-- `self == Encoding::Gb18030`.
unfoldable pub is_gb18030 : Encoding → Bool
is_gb18030 Encoding.gb18030 = true
is_gb18030 _ = false

-- `Encoding::mblen_or_incomplete`.
unfoldable pub mblen_or_incomplete : Encoding → Bytes → Option ℕ
unfolding is_gb18030
mblen_or_incomplete e [] = none
mblen_or_incomplete e (c ∷ rest) =
    if is_gb18030 e && is_highbit_set c && ltb (length (c ∷ rest)) 2
    then none
    else some (mblen e c rest)
