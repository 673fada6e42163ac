-- ===== src/Psql/Scan/Tokens.antt =====
-- crates/rpsql/src/scan.rs: how far a number and an operator reach into what is left of the buffer.
use pgrust_drop.Prelude.{
  ℕ, zero, suc, ◌+◌, ◌-◌, ◌≤◌, ◌<◌, true, false, not, ◌&&◌, ◌||◌, [], ◌∷◌, Option, none, some, ltb,
  leb, ◌==◌, if◌then◌else◌, length, take, drop, is_nil, Bytes, ◌⊎◌, ◌≡◌, refl, sym, arith,
  Bool-cases, inl, inr, length-take, either, is_some,
}
use mathlib.Core.Path.{subst}
use pgrust_drop.Psql.Scan.Chars.{peek, count_while, find, is_digit, is_ident_cont, is_op_char}
use pgrust_drop.Psql.Scan.Match.{
  digits, is_sign, smaller, radix_of, is_digit_in_radix, any_qualifies, match_radix, with_exponent,
  match_decimal, match_number, drop_signs, comment_stop, operator_length,
}
use pgrust_drop.Psql.Scan.Fits.{
  Fits, split, count_while_within, count_while_behind, peek_inside, Given,
}

-- Either of two characters stands inside the buffer.
either_inside :
    (left : Bytes) (i c d : ℕ)
    → ltb 0 c ≡ true
    → ltb 0 d ≡ true
    → (peek left i == c || peek left i == d) ≡ true
    → i < length left
either_inside left i c d p q h = elim (Bool-cases (peek left i == c)) [
  | inl e ↦ peek_inside left i c p e
  | inr e ↦ peek_inside left i d q (ground arith)
]

with_exponent_within :
    (left : Bytes) (i : ℕ)
    → i ≤ length left
    → (i ≤ with_exponent left i) × (with_exponent left i ≤ length left)
unfolding with_exponent
with_exponent_within left i h =
    let P = λ (n : ℕ). (i ≤ n) × (n ≤ length left) in
    let is_mark = λ (c : ℕ). is_digit c || c == b'_' in
    split P (peek left i == b'e' || peek left i == b'E')
      (λ e.
        split (λ (j : ℕ). P (j + digits (drop j left)))
          (peek left (i + 1) == b'+' || peek left (i + 1) == b'-')
          (λ s. (
            omega arith,
            count_while_behind is_mark (i + 2) left
                (omega (arith, either_inside left (i + 1) b'+' b'-' refl refl s)),
          ))
          (λ s. (
            omega arith,
            count_while_behind is_mark (i + 1) left
                (omega (arith, either_inside left i b'e' b'E' refl refl e)),
          )))
      (λ e. (omega arith, h))

match_radix_within :
    (left : Bytes) (radix : ℕ) → 2 ≤ length left → Fits (match_radix radix left) left
unfolding match_radix
match_radix_within left radix h =
    let run = count_while (λ c. c == b'_' || is_digit_in_radix c radix) (drop 2 left) in
    split (λ (n : ℕ). Fits (2 + n + count_while is_ident_cont (drop (2 + n) left)) left) (run == 0)
      (λ e.
        split (λ (n : ℕ). Fits (2 + n + count_while is_ident_cont (drop (2 + n) left)) left)
          (peek left 2 == b'_')
          (λ u. (
            omega arith,
            count_while_behind is_ident_cont 3 left (omega (arith, peek_inside left 2 b'_' refl u)),
          ))
          (λ u. (omega arith, count_while_behind is_ident_cont 2 left h)))
      (λ e. (
        omega arith,
        count_while_behind is_ident_cont (2 + run) left
            (count_while_behind (λ c. c == b'_' || is_digit_in_radix c radix) 2 left h),
      ))

-- A number starts with a digit, or with a dot and a digit.
number_start :
    (left : Bytes)
    → is_nil left ≡ false
    → (is_digit (peek left 0) || (peek left 0 == b'.' && is_digit (peek left 1))) ≡ true
    → (1 ≤ digits left)
      ⊎ ((digits left ≡ 0) × ((peek left 0 == b'.') ≡ true) × (is_digit (peek left 1) ≡ true))
unfolding count_while is_digit
number_start [] h d = absurd (grind (arith, h))
number_start (c ∷ cs) h d = elim (Bool-cases (is_digit c || c == b'_')) [
  | inl e ↦ inl (ground (arith, e))
  | inr e ↦ inr (ground (arith, e), ground (arith, d, e), ground (arith, d, e))
]

-- Where the digits behind the dot end, when a number starts here.
decimal_end :
    (left : Bytes)
    → (1 ≤ digits left) ⊎ ((peek left (digits left) == b'.') ≡ true)
    → Fits
        (if peek left (digits left) == b'.'
          then digits left + 1 + digits (drop (digits left + 1) left)
          else digits left)
        left
decimal_end left h =
    let is_mark = λ (c : ℕ). is_digit c || c == b'_' in
    split (λ n. Fits n left) (peek left (digits left) == b'.')
      (λ e. (
        omega arith,
        count_while_behind is_mark (digits left + 1) left
            (omega (arith, peek_inside left (digits left) b'.' refl e)),
      ))
      (λ e. (ground (arith, h, e), count_while_within is_mark left))

match_decimal_within :
    (left : Bytes)
    → (1 ≤ digits left) ⊎ ((peek left (digits left) == b'.') ≡ true)
    → ((peek left (digits left) == b'.' && peek left (digits left + 1) == b'.') ≡ true
        → 1 ≤ digits left)
    → Fits (match_decimal left) left
unfolding match_decimal
match_decimal_within left h k =
    let int_end = digits left in
    let is_mark = λ (c : ℕ). is_digit c || c == b'_' in
    let i =
      if peek left int_end == b'.'
      then int_end + 1 + digits (drop (int_end + 1) left)
      else int_end in
    let (some_i, i_in) = decimal_end left h in
    let (later, j_in) = with_exponent_within left i i_in in
    split (λ n. Fits n left) (peek left int_end == b'.' && peek left (int_end + 1) == b'.')
      (λ e. (k e, count_while_within is_mark left))
      (λ e. (
        omega (arith, some_i, later),
        count_while_behind is_ident_cont (with_exponent left i) left j_in,
      ))

no_dots :
    (left : Bytes) (k : ℕ)
    → k ≡ 0
    → is_digit (peek left 1) ≡ true
    → (peek left k == b'.' && peek left (k + 1) == b'.') ≡ true
    → 1 ≤ k
unfolding is_digit
no_dots left zero z d e = absurd (ground (arith, d, e))
no_dots left (suc k) z d e = omega arith

Fits-match_decimal :
    (left : Bytes)
    → (1 ≤ digits left)
      ⊎ ((digits left ≡ 0) × ((peek left 0 == b'.') ≡ true) × (is_digit (peek left 1) ≡ true))
    → Fits (match_decimal left) left
Fits-match_decimal left (inl p) = match_decimal_within left (inl p) (λ e. p)
Fits-match_decimal left (inr d) =
    match_decimal_within left (inr (subst (λ k. (peek left k == b'.') ≡ true) (sym (d.0)) (d.1)))
      (no_dots left (digits left) (d.0) (d.2))

Fits-radix :
    (left : Bytes) (o : Option ℕ)
    → (is_some o ≡ true → 2 ≤ length left)
    → Fits (match_decimal left) left
    → Fits (elim o [ none ↦ match_decimal left | some radix ↦ match_radix radix left ]) left
Fits-radix left none two f = f
Fits-radix left (some radix) two f = match_radix_within left radix (two refl)

radix_inside :
    (left : Bytes)
    → is_some (if peek left 0 == b'0' then radix_of (peek left 1) else none) ≡ true
    → 2 ≤ length left
radix_inside [] h = absurd (grind (arith, h))
radix_inside (c ∷ []) h = absurd (ground (arith, h))
radix_inside (c ∷ d ∷ left) h = omega arith

pub Fits-match_number :
    (left : Bytes)
    → is_nil left ≡ false
    → (is_digit (peek left 0) || (peek left 0 == b'.' && is_digit (peek left 1))) ≡ true
    → Fits (match_number left) left
unfolding match_number
Fits-match_number left h d =
    Fits-radix left (if peek left 0 == b'0' then radix_of (peek left 1) else none)
      (radix_inside left) (Fits-match_decimal left (number_start left h d))

drop_signs_within : (left : Bytes) (n : ℕ) → drop_signs left n ≤ n
unfolding drop_signs
drop_signs_within left zero = omega arith
drop_signs_within left (suc zero) = omega arith
drop_signs_within left (suc (suc n)) = ground (arith, drop_signs_within left (suc n))

find_behind :
    (o : Option ℕ) (m : ℕ)
    → Given (λ n. n ≤ m) o
    → Given (λ n. n ≤ suc m) (elim o [ none ↦ none | some i ↦ some (suc i) ])
find_behind none m g = tt
find_behind (some i) m g = omega (arith, g)

find_within : (a b : ℕ) (run : Bytes) → Given (λ n. n ≤ length run) (find run a b)
unfolding find
find_within a b [] = tt
find_within a b (c ∷ cs) =
    split (Given (λ n. n ≤ length (c ∷ cs))) (c == a && peek cs 0 == b) (λ h. omega arith)
      (λ h. find_behind (find cs a b) (length cs) (find_within a b cs))

stop_within :
    (run : Bytes) (a b : Option ℕ)
    → Given (λ n. n ≤ length run) a
    → Given (λ n. n ≤ length run) b
    → (elim (smaller a b) [ none ↦ length run | some stop ↦ stop ]) ≤ length run
stop_within run none none g h = omega arith
stop_within run none (some b) g h = h
stop_within run (some a) none g h = g
stop_within run (some a) (some b) g h = either (λ n. n ≤ length run) (leb a b) g h

comment_stop_within : (run : Bytes) → comment_stop run ≤ length run
unfolding comment_stop
comment_stop_within run =
    stop_within run (find run b'/' b'*') (find run b'-' b'-') (find_within b'/' b'*' run)
      (find_within b'-' b'-' run)

Fits-kept :
    (left : Bytes) (kept : ℕ)
    → 1 ≤ length left
    → kept ≤ length left
    → Fits (if kept == 0 then 1 else kept) left
Fits-kept left kept h k =
    split (λ n. Fits n left) (kept == 0) (λ e. (omega arith, h)) (λ e. (ground (arith, e), k))

pub Fits-operator_length : (left : Bytes) → is_nil left ≡ false → Fits (operator_length left) left
unfolding operator_length
Fits-operator_length [] h = absurd (grind (arith, h))
Fits-operator_length (c ∷ cs) h =
    let left = c ∷ cs in
    let yyleng = count_while is_op_char left in
    let nchars = comment_stop (take yyleng left) in
    let trims =
      ltb 1 nchars
      && is_sign (peek left (nchars - 1))
      && not (any_qualifies (take (nchars - 1) left)) in
    let bound = count_while_within is_op_char left in
    let fits : nchars ≤ length left =
      omega (arith, comment_stop_within (take yyleng left), length-take yyleng left bound, bound) in
    either (λ kept. Fits (if kept == 0 then 1 else kept) left) trims
      (Fits-kept left (drop_signs left nchars) (omega arith)
        (omega (arith, fits, drop_signs_within left nchars)))
      (Fits-kept left nchars (omega arith) fits)
