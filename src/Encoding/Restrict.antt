-- ===== src/Encoding/Restrict.antt =====
-- A character that verifies does so without the bytes that stand behind it.
use pgrust_drop.Prelude.{ℕ, zero, suc, ◌-◌, [], ◌∷◌, some, take, Bytes, ◌≡◌, arith}
use pgrust_drop.Encoding.{Encoding, Family, family}
use pgrust_drop.Encoding.Length.{family_mblen}
use pgrust_drop.Encoding.Verify.{family_verify_char}
use pgrust_drop.Encoding.Laws.{verify_char-mblen}
use pgrust_drop.Encoding.Local.{four_at_most}

-- What is shown of each family.
abbrev Restricted : Family → ℕ → Bytes → ℕ → Type 0
Restricted f c rest n =
    family_verify_char f c rest ≡ some n → family_verify_char f c (take (n - 1) rest) ≡ some n

utf8_one : (c : ℕ) (rest : Bytes) → Restricted Family.utf8 c rest 1
unfolding family_verify_char family_mblen
utf8_one c rest h = ground arith

utf8_two : (c x : ℕ) (rest : Bytes) → Restricted Family.utf8 c (x ∷ rest) 2
unfolding family_verify_char family_mblen
utf8_two c x rest h = ground arith

utf8_three :
    (c x y : ℕ) (rest : Bytes)
    → family_verify_char Family.utf8 c (x ∷ y ∷ rest) ≡ some 3
    → family_verify_char Family.utf8 c (x ∷ y ∷ []) ≡ some 3
unfolding family_verify_char family_mblen
utf8_three c x y rest h = ground arith

utf8_four : (c x y z : ℕ) (rest : Bytes) → Restricted Family.utf8 c (x ∷ y ∷ z ∷ rest) 4
unfolding family_verify_char family_mblen
utf8_four c x y z rest h = ground arith

utf8_Restricted : (c : ℕ) (rest : Bytes) (n : ℕ) → Restricted Family.utf8 c rest n
unfolding family
utf8_Restricted c rest zero h =
    absurd (let bounds = verify_char-mblen Encoding.utf8 c rest h in omega (arith, bounds.1))
utf8_Restricted c rest (suc zero) h = utf8_one c rest h
utf8_Restricted c (x ∷ rest) (suc (suc zero)) h = utf8_two c x rest h
utf8_Restricted c (x ∷ y ∷ rest) (suc (suc (suc zero))) h = utf8_three c x y rest h
utf8_Restricted c (x ∷ y ∷ z ∷ rest) (suc (suc (suc (suc zero)))) h = utf8_four c x y z rest h
utf8_Restricted c (x ∷ y ∷ z ∷ rest) (suc (suc (suc (suc (suc n))))) h =
    absurd (let bound = four_at_most Family.utf8 c (x ∷ y ∷ z ∷ rest) h in omega arith)
utf8_Restricted c (x ∷ y ∷ []) (suc (suc (suc (suc n)))) h =
    absurd
      (let bounds = verify_char-mblen Encoding.utf8 c (x ∷ y ∷ []) h in omega (arith, bounds.2))
utf8_Restricted c (x ∷ []) (suc (suc (suc n))) h =
    absurd (let bounds = verify_char-mblen Encoding.utf8 c (x ∷ []) h in omega (arith, bounds.2))
utf8_Restricted c [] (suc (suc n)) h =
    absurd (let bounds = verify_char-mblen Encoding.utf8 c [] h in omega (arith, bounds.2))

gb18030_Restricted : (c : ℕ) (rest : Bytes) (n : ℕ) → Restricted Family.gb18030 c rest n
unfolding family_verify_char family_mblen
gb18030_Restricted c [] n h = ground arith
gb18030_Restricted c (x ∷ []) n h = ground arith
gb18030_Restricted c (x ∷ y ∷ []) n h = ground arith
gb18030_Restricted c (x ∷ y ∷ z ∷ rest) n h = ground arith

mule_Restricted : (c : ℕ) (rest : Bytes) (n : ℕ) → Restricted Family.mule c rest n
unfolding family_verify_char family_mblen
mule_Restricted c [] n h = ground arith
mule_Restricted c (x ∷ []) n h = ground arith
mule_Restricted c (x ∷ y ∷ []) n h = ground arith
mule_Restricted c (x ∷ y ∷ z ∷ rest) n h = ground arith

euc_tw_Restricted : (c : ℕ) (rest : Bytes) (n : ℕ) → Restricted Family.euc_tw c rest n
unfolding family_verify_char family_mblen
euc_tw_Restricted c [] n h = ground arith
euc_tw_Restricted c (x ∷ []) n h = ground arith
euc_tw_Restricted c (x ∷ y ∷ []) n h = ground arith
euc_tw_Restricted c (x ∷ y ∷ z ∷ rest) n h = ground arith

euc_jp_Restricted : (c : ℕ) (rest : Bytes) (n : ℕ) → Restricted Family.euc_jp c rest n
unfolding family_verify_char family_mblen
euc_jp_Restricted c [] n h = ground arith
euc_jp_Restricted c (x ∷ []) n h = ground arith
euc_jp_Restricted c (x ∷ y ∷ []) n h = ground arith
euc_jp_Restricted c (x ∷ y ∷ z ∷ rest) n h = ground arith

euc_kr_Restricted : (c : ℕ) (rest : Bytes) (n : ℕ) → Restricted Family.euc_kr c rest n
unfolding family_verify_char family_mblen
euc_kr_Restricted c [] n h = ground arith
euc_kr_Restricted c (x ∷ []) n h = ground arith
euc_kr_Restricted c (x ∷ y ∷ []) n h = ground arith
euc_kr_Restricted c (x ∷ y ∷ z ∷ rest) n h = ground arith

sjis_Restricted : (c : ℕ) (rest : Bytes) (n : ℕ) → Restricted Family.sjis c rest n
unfolding family_verify_char family_mblen
sjis_Restricted c [] n h = ground arith
sjis_Restricted c (x ∷ []) n h = ground arith
sjis_Restricted c (x ∷ y ∷ []) n h = ground arith
sjis_Restricted c (x ∷ y ∷ z ∷ rest) n h = ground arith

big5_Restricted : (c : ℕ) (rest : Bytes) (n : ℕ) → Restricted Family.big5 c rest n
unfolding family_verify_char family_mblen
big5_Restricted c [] n h = ground arith
big5_Restricted c (x ∷ []) n h = ground arith
big5_Restricted c (x ∷ y ∷ []) n h = ground arith
big5_Restricted c (x ∷ y ∷ z ∷ rest) n h = ground arith

johab_Restricted : (c : ℕ) (rest : Bytes) (n : ℕ) → Restricted Family.johab c rest n
unfolding family_verify_char family_mblen
johab_Restricted c [] n h = ground arith
johab_Restricted c (x ∷ []) n h = ground arith
johab_Restricted c (x ∷ y ∷ []) n h = ground arith
johab_Restricted c (x ∷ y ∷ z ∷ rest) n h = ground arith

-- A character that verifies also does without what stands behind it.
pub verify_char-take :
    (f : Family) (c : ℕ) (rest : Bytes) (n : ℕ)
    → family_verify_char f c rest ≡ some n
    → family_verify_char f c (take (n - 1) rest) ≡ some n
unfolding family_verify_char
verify_char-take Family.ascii c rest n h = h
verify_char-take Family.latin1 c rest n h = h
verify_char-take Family.euc_jp c rest n h = euc_jp_Restricted c rest n h
verify_char-take Family.euc_cn c rest n h = euc_kr_Restricted c rest n h
verify_char-take Family.euc_kr c rest n h = euc_kr_Restricted c rest n h
verify_char-take Family.euc_tw c rest n h = euc_tw_Restricted c rest n h
verify_char-take Family.utf8 c rest n h = utf8_Restricted c rest n h
verify_char-take Family.mule c rest n h = mule_Restricted c rest n h
verify_char-take Family.johab c rest n h = johab_Restricted c rest n h
verify_char-take Family.sjis c rest n h = sjis_Restricted c rest n h
verify_char-take Family.big5 c rest n h = big5_Restricted c rest n h
verify_char-take Family.gbk c rest n h = big5_Restricted c rest n h
verify_char-take Family.uhc c rest n h = big5_Restricted c rest n h
verify_char-take Family.gb18030 c rest n h = gb18030_Restricted c rest n h
