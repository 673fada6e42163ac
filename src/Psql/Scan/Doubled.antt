-- ===== src/Psql/Scan/Doubled.antt =====
-- crates/rpsql/src/scan.rs and variables.rs: a text with its quotes doubled, up to the first of them.
use pgrust_drop.Prelude.{
  ℕ, zero, suc, ◌+◌, ◌≤◌, Bool, true, false, not, [], ◌∷◌, ◌++◌, ◌==◌, take, drop, length,
  length-drop, Bytes, ◌≡◌, refl, sym, ap, ◌∙◌, arith, Bool-cases, inl, inr,
}
use pgrust_drop.Psql.Quote.{doubled}
use pgrust_drop.Psql.Scan.Chars.{count_while}

abbrev pub is_text : ℕ → ℕ → Bool
is_text q c = not (c == q)

abbrev no_bytes : Bytes
no_bytes = []

drop_nothing : (n : ℕ) → drop n no_bytes ≡ []
drop_nothing zero = refl
drop_nothing (suc n) = refl

pub drop-drop : (n p : ℕ) (bytes : Bytes) → drop (p + n) bytes ≡ drop n (drop p bytes)
drop-drop n zero bytes = ap (λ k. drop k bytes) (omega arith)
drop-drop n (suc p) [] = drop_nothing (suc p + n) ∙ sym (drop_nothing n)
drop-drop n (suc p) (b ∷ bytes) =
    let succ : suc p + n ≡ suc (p + n) = omega arith in
    ap (λ k. drop k (b ∷ bytes)) succ ∙ drop-drop n p bytes

-- The text up to the first quote is read as it is written.
pub count-doubled :
    (q : ℕ) (v after : Bytes)
    → count_while (is_text q) (doubled q v ++ q ∷ after) ≡ count_while (is_text q) v
unfolding count_while doubled
count-doubled q [] after = ground arith
count-doubled q (c ∷ v) after = ground (arith, count-doubled q v after)

pub doubled-quote :
    (q c : ℕ) (v : Bytes) → (c == q) ≡ true → doubled q (c ∷ v) ≡ q ∷ c ∷ doubled q v
unfolding doubled
doubled-quote q c v e = rw e refl

pub doubled-is_text : (q c : ℕ) (v : Bytes) → (c == q) ≡ false → doubled q (c ∷ v) ≡ c ∷ doubled q v
unfolding doubled
doubled-is_text q c v e = rw e refl

pub some_text :
    (q c : ℕ) (v : Bytes) (m : ℕ)
    → (c == q) ≡ false
    → length (c ∷ v) ≤ suc m
    → length (drop (count_while (is_text q) (c ∷ v)) (c ∷ v)) ≤ m
unfolding count_while
some_text q c v m e l = rw e (omega (arith, l, length-drop (count_while (is_text q) v) v))

pub drop-doubled :
    (q : ℕ) (v x : Bytes)
    → drop (count_while (is_text q) v) (doubled q v ++ x)
      ≡ doubled q (drop (count_while (is_text q) v) v) ++ x
unfolding count_while doubled
drop-doubled q [] x = refl
drop-doubled q (c ∷ v) x = elim (Bool-cases (c == q)) [
  | inl e ↦ rw e (rw e refl)
  | inr e ↦ rw e (drop-doubled q v x)
]

pub take-doubled :
    (q : ℕ) (v x : Bytes)
    → take (count_while (is_text q) v) (doubled q v ++ x)
        ++ doubled q (drop (count_while (is_text q) v) v)
      ≡ doubled q v
unfolding count_while doubled
take-doubled q [] x = refl
take-doubled q (c ∷ v) x = elim (Bool-cases (c == q)) [
  | inl e ↦ rw e (rw e refl)
  | inr e ↦ rw e (ap (◌∷◌ c) (take-doubled q v x))
]
