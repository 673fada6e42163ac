-- ===== src/Encoding/Verify.antt =====
-- crates/rlibpq/src/encoding.rs: which bytes are a validly encoded character, or string of them.
-- A slice that must not be empty is its first byte and the rest; `s[i]` behind a length test is
-- `byte_at`, which reads the same byte there.
use pgrust_drop.Prelude.{
  ℕ, zero, suc, ◌-◌, ◌/◌, ◌%◌, Bool, true, false, not, ◌&&◌, ◌||◌, [], ◌∷◌, Option, none, some, ltb,
  leb, ◌==◌, if◌then◌else◌, length, take, Bytes,
}
use pgrust_drop.Encoding.Length.{
  ss2, ss3, is_highbit_set, within, byte_at, euc_mblen, mule_mblen, utf_mblen, family_mblen,
}
use pgrust_drop.Encoding.{Encoding, Family, family}

abbrev is_euc_range_valid : ℕ → Bool
is_euc_range_valid = within 0xa1 0xfe

abbrev is_sjis_head : ℕ → Bool
is_sjis_head c = within 0x81 0x9f c || within 0xe0 0xfc c

abbrev is_sjis_tail : ℕ → Bool
is_sjis_tail c = within 0x40 0x7e c || within 0x80 0xfc c

abbrev pub nonutf8_invalid_byte0 : ℕ
nonutf8_invalid_byte0 = 0x8d

abbrev pub nonutf8_invalid_byte1 : ℕ
nonutf8_invalid_byte1 = b' '

-- `bool::then_some`.
abbrev pub then_some : Bool → ℕ → Option ℕ
then_some b n = if b then some n else none

-- `iter().all(test)`.
abbrev every : (ℕ → Bool) → Bytes → Bool
every test [] = true
every test (c ∷ cs) = test c && every test cs

eucjp_verifychar : ℕ → Bytes → Option ℕ
eucjp_verifychar c rest =
    let len = length (c ∷ rest) in
    let b1 = byte_at rest 0 in
    let b2 = byte_at rest 1 in
    if c == ss2
    then then_some (leb 2 len && within 0xa1 0xdf b1) 2
    else if c == ss3
    then then_some (leb 3 len && is_euc_range_valid b1 && is_euc_range_valid b2) 3
    else if is_highbit_set c
    then then_some (leb 2 len && is_euc_range_valid c && is_euc_range_valid b1) 2
    else some 1

euckr_verifychar : ℕ → Bytes → Option ℕ
euckr_verifychar c rest =
    if is_highbit_set c
    then then_some
        (leb 2 (length (c ∷ rest)) && is_euc_range_valid c && is_euc_range_valid (byte_at rest 0)) 2
    else some 1

euctw_verifychar : ℕ → Bytes → Option ℕ
euctw_verifychar c rest =
    let len = length (c ∷ rest) in
    let b1 = byte_at rest 0 in
    let b2 = byte_at rest 1 in
    let b3 = byte_at rest 2 in
    if c == ss2
    then then_some
        (leb 4 len && within 0xa1 0xa7 b1 && is_euc_range_valid b2 && is_euc_range_valid b3) 4
    else if c == ss3
    then none
    else if is_highbit_set c
    then then_some (leb 2 len && is_euc_range_valid b1) 2
    else some 1

gb18030_verifychar : ℕ → Bytes → Option ℕ
gb18030_verifychar c rest =
    let len = length (c ∷ rest) in
    let lead = within 0x81 0xfe in
    let digit = within 0x30 0x39 in
    let b1 = byte_at rest 0 in
    let b2 = byte_at rest 1 in
    let b3 = byte_at rest 2 in
    if not (is_highbit_set c)
    then some 1
    else if leb 4 len && digit b1
    then then_some (lead c && lead b2 && digit b3) 4
    else if leb 2 len && lead c
    then then_some (within 0x40 0x7e b1 || within 0x80 0xfe b1) 2
    else none

-- The second byte's range in `utf8_islegal`, by the first byte.
utf8_second : ℕ → ℕ → Bool
utf8_second c a =
    if c == 0xe0
    then within 0xa0 0xbf a
    else if c == 0xed
    then within 0x80 0x9f a
    else if c == 0xf0
    then within 0x90 0xbf a
    else if c == 0xf4
    then within 0x80 0x8f a
    else within 0x80 0xbf a

-- `utf8_islegal` of the first `length` bytes of `c ∷ rest`.
utf8_islegal : ℕ → ℕ → Bytes → Bool
unfolding utf8_second
utf8_islegal len c rest =
    let continuation = within 0x80 0xbf in
    if not (within 1 4 len)
    then false
    else if leb 4 len && not (continuation (byte_at rest 2))
    then false
    else if leb 3 len && not (continuation (byte_at rest 1))
    then false
    else if leb 2 len && not (utf8_second c (byte_at rest 0))
    then false
    else not ((leb 0x80 c && ltb c 0xc2) || ltb 0xf4 c)

utf8_verifychar : ℕ → Bytes → Option ℕ
unfolding utf8_islegal
utf8_verifychar c rest =
    let l = utf_mblen c in
    if c / 128 % 2 == 0
    then then_some (not (c == 0)) 1
    else then_some (leb l (length (c ∷ rest)) && utf8_islegal l c rest) l

mule_verifychar : ℕ → Bytes → Option ℕ
mule_verifychar c rest =
    let l = mule_mblen c in
    then_some (leb l (length (c ∷ rest)) && every is_highbit_set (take (l - 1) rest)) l

johab_verifychar : ℕ → Bytes → Option ℕ
johab_verifychar c rest =
    let l = euc_mblen c in
    if ltb (length (c ∷ rest)) l
    then none
    else then_some (not (is_highbit_set c) || every is_euc_range_valid (take (l - 1) rest)) l

sjis_verifychar : ℕ → Bytes → Option ℕ
sjis_verifychar c rest =
    let l = family_mblen Family.sjis c rest in
    if ltb (length (c ∷ rest)) l
    then none
    else if l == 1
    then some 1
    else then_some (is_sjis_head c && is_sjis_tail (byte_at rest 0)) l

-- The shared body of Big5, GBK and UHC, whose `mblen` is the same.
big5_verifychar : ℕ → Bytes → Option ℕ
big5_verifychar c rest =
    let l = family_mblen Family.big5 c rest in
    if ltb (length (c ∷ rest)) l
    then none
    else if l == 2 && c == nonutf8_invalid_byte0 && byte_at rest 0 == nonutf8_invalid_byte1
    then none
    else then_some (every (λ b. not (b == 0)) (take (l - 1) rest)) l

-- `Encoding::verify_char`, by the family, of the slice `c ∷ rest`.
unfoldable pub family_verify_char : Family → ℕ → Bytes → Option ℕ
unfolding eucjp_verifychar euckr_verifychar euctw_verifychar gb18030_verifychar utf8_verifychar
    mule_verifychar johab_verifychar sjis_verifychar big5_verifychar
family_verify_char Family.ascii c rest = some 1
family_verify_char Family.latin1 c rest = some 1
family_verify_char Family.euc_jp c rest = eucjp_verifychar c rest
family_verify_char Family.euc_cn c rest = euckr_verifychar c rest
family_verify_char Family.euc_kr c rest = euckr_verifychar c rest
family_verify_char Family.euc_tw c rest = euctw_verifychar c rest
family_verify_char Family.utf8 c rest = utf8_verifychar c rest
family_verify_char Family.mule c rest = mule_verifychar c rest
family_verify_char Family.johab c rest = johab_verifychar c rest
family_verify_char Family.sjis c rest = sjis_verifychar c rest
family_verify_char Family.big5 c rest = big5_verifychar c rest
family_verify_char Family.gbk c rest = big5_verifychar c rest
family_verify_char Family.uhc c rest = big5_verifychar c rest
family_verify_char Family.gb18030 c rest = gb18030_verifychar c rest

abbrev pub verify_char : Encoding → ℕ → Bytes → Option ℕ
verify_char e = family_verify_char (family e)

-- `Encoding::verify_str`: `skip` bytes of the character under way are still to be passed, and the
-- result counts from the front of the slice.
unfoldable pub verify_from : Encoding → ℕ → Bytes → ℕ
verify_from e skip [] = 0
verify_from e (suc skip) (c ∷ rest) = suc (verify_from e skip rest)
verify_from e zero (c ∷ rest) =
    let next = λ (l : ℕ). suc (verify_from e (l - 1) rest) in
    if is_highbit_set c
    then elim (verify_char e c rest) [ some l ↦ next l | none ↦ 0 ]
    else if c == 0
    then 0
    else next 1

unfoldable pub verify_str : Encoding → Bytes → ℕ
unfolding verify_from
verify_str e = verify_from e 0

-- `Encoding::invalid_sequence`.
unfoldable pub invalid_sequence : Encoding → Bytes
invalid_sequence Encoding.utf8 = 0xc0 ∷ nonutf8_invalid_byte1 ∷ []
invalid_sequence _ = nonutf8_invalid_byte0 ∷ nonutf8_invalid_byte1 ∷ []
