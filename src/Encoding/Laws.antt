-- ===== src/Encoding/Laws.antt =====
-- What the character functions of an encoding owe one another.
use pgrust_drop.Prelude.{ℕ, ◌≤◌, ◌<◌, ◌++◌, ◌≡◌, ◌∷◌, some, arith, length, Bytes}
use pgrust_drop.Encoding.Length.{family_mblen, mblen, mblen_or_incomplete}
use pgrust_drop.Encoding.Verify.{family_verify_char, verify_char, verify_str, invalid_sequence}
use pgrust_drop.Encoding.{Encoding, Family, family, max_length, family_max_length}

pub family_verify_char-mblen :
    (f : Family) (c : ℕ) (rest : Bytes) {n : ℕ}
    → family_verify_char f c rest ≡ some n
    → family_mblen f c rest ≡ n
unfolding family_verify_char family_mblen
family_verify_char-mblen Family.ascii c rest e = ground arith
family_verify_char-mblen _ c rest e = ground arith

pub family_mblen_bounds :
    (f : Family) (c : ℕ) (rest : Bytes)
    → (1 ≤ family_mblen f c rest) × (family_mblen f c rest ≤ family_max_length f)
unfolding family_mblen
family_mblen_bounds Family.ascii c rest = ground arith
family_mblen_bounds _ c rest = ground arith

family_verify_char-le :
    (f : Family) (c : ℕ) (rest : Bytes) {n : ℕ}
    → family_verify_char f c rest ≡ some n
    → n ≤ length (c ∷ rest)
unfolding family_verify_char family_mblen
family_verify_char-le Family.ascii c rest e = ground arith
family_verify_char-le _ c rest e = ground arith

-- In every encoding, a character that verifies has the length that its lead claims; it is at least
-- one byte long, lies in the slice, and is no longer than the encoding's longest.
pub verify_char-mblen :
    (e : Encoding) (c : ℕ) (rest : Bytes) {n : ℕ}
    → verify_char e c rest ≡ some n
    → (mblen e c rest ≡ n) × (1 ≤ n) × (n ≤ length (c ∷ rest)) × (n ≤ max_length e)
unfolding max_length
verify_char-mblen e c rest h =
    let same = family_verify_char-mblen (family e) c rest h in
    let bounds = family_mblen_bounds (family e) c rest in
    (same, rw same at bounds.0, family_verify_char-le (family e) c rest h, rw same at bounds.1)

-- In every encoding with characters of several bytes, the sequence put in place of invalid input is
-- one character of two bytes that never verifies, whatever stands behind it.
pub invalid_sequence_lem :
    (e : Encoding) (rest : Bytes)
    → 1 < max_length e
    → (mblen_or_incomplete e (invalid_sequence e ++ rest) ≡ some 2)
      × (verify_str e (invalid_sequence e ++ rest) ≡ 0)
unfolding max_length mblen_or_incomplete verify_str invalid_sequence family family_verify_char
    family_mblen
invalid_sequence_lem Encoding.utf8 rest h = ground arith
invalid_sequence_lem _ rest h = ground arith
