-- ===== src/Encoding/Local.antt =====
-- Characters of an encoding, and the bytes that stand behind them.
use pgrust_drop.Prelude.{ℕ, ◌-◌, ◌≤◌, [], ◌∷◌, ◌++◌, some, ◌≡◌, refl, arith, length, take, Bytes}
use pgrust_drop.Encoding.{Encoding, Family, family, max_length}
use pgrust_drop.Encoding.Length.{family_mblen}
use pgrust_drop.Encoding.Verify.{family_verify_char, verify_char}
use pgrust_drop.Encoding.Laws.{family_verify_char-mblen, family_mblen_bounds}

-- The bytes behind the lead that a length is read from belong to the character.
pub family_mblen-take :
    (f : Family) (c : ℕ) (rest : Bytes)
    → family_mblen f c (take (family_mblen f c rest - 1) rest) ≡ family_mblen f c rest
unfolding family_mblen
family_mblen-take Family.gb18030 c [] = ground arith
family_mblen-take Family.gb18030 c (a ∷ rest) = ground arith
family_mblen-take Family.sjis c rest = ground arith
family_mblen-take _ c rest = refl

pub four_at_most :
    (f : Family) (c : ℕ) (rest : Bytes) {n : ℕ} → family_verify_char f c rest ≡ some n → n ≤ 4
four_at_most f c rest h =
    let bounds = family_mblen_bounds f c rest in
    let same = family_verify_char-mblen f c rest h in ground arith

verified_1 :
    (f : Family) (c : ℕ) (ys : Bytes)
    → family_verify_char f c ([]) ≡ some 1
    → family_verify_char f c (ys) ≡ some 1
unfolding family_verify_char family_mblen
verified_1 Family.ascii c ys h = ground arith
verified_1 _ c ys h = ground arith

verified_2 :
    (f : Family) (c x : ℕ) (ys : Bytes)
    → family_verify_char f c (x ∷ []) ≡ some 2
    → family_verify_char f c (x ∷ ys) ≡ some 2
unfolding family_verify_char family_mblen
verified_2 Family.ascii c x ys h = ground arith
verified_2 _ c x ys h = ground arith

verified_3 :
    (f : Family) (c x y : ℕ) (ys : Bytes)
    → family_verify_char f c (x ∷ y ∷ []) ≡ some 3
    → family_verify_char f c (x ∷ y ∷ ys) ≡ some 3
unfolding family_verify_char family_mblen
verified_3 Family.ascii c x y ys h = ground arith
verified_3 _ c x y ys h = ground arith

verified_4 :
    (f : Family) (c x y z : ℕ) (ys : Bytes)
    → family_verify_char f c (x ∷ y ∷ z ∷ []) ≡ some 4
    → family_verify_char f c (x ∷ y ∷ z ∷ ys) ≡ some 4
unfolding family_verify_char family_mblen
verified_4 Family.ascii c x y z ys h = ground arith
verified_4 _ c x y z ys h = ground arith

-- A character that takes up its slice verifies in any longer slice.
pub family_verify_char-append :
    (f : Family) (c : ℕ) (xs ys : Bytes)
    → family_verify_char f c xs ≡ some (length (c ∷ xs))
    → family_verify_char f c (xs ++ ys) ≡ some (length (c ∷ xs))
family_verify_char-append f c [] ys h = verified_1 f c ys h
family_verify_char-append f c (x ∷ []) ys h = verified_2 f c x ys h
family_verify_char-append f c (x ∷ y ∷ []) ys h = verified_3 f c x y ys h
family_verify_char-append f c (x ∷ y ∷ z ∷ []) ys h = verified_4 f c x y z ys h
family_verify_char-append f c (x ∷ y ∷ z ∷ w ∷ xs) ys h =
    absurd (let bound = four_at_most f c (x ∷ y ∷ z ∷ w ∷ xs) h in omega arith)

-- Where characters are single bytes, all of them verify.
pub verify_char_single :
    (e : Encoding) (c : ℕ) (rest : Bytes) → max_length e ≤ 1 → verify_char e c rest ≡ some 1
unfolding max_length family_verify_char family
verify_char_single Encoding.utf8 c rest h = ground arith
verify_char_single _ c rest h = ground arith
