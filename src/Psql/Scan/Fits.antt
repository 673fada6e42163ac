-- ===== src/Psql/Scan/Fits.antt =====
-- crates/rpsql/src/scan.rs: how far each rule reaches into what is left of the buffer.
use pgrust_drop.Prelude.{
  ℕ, zero, suc, ◌+◌, ◌≤◌, ◌<◌, Bool, true, false, not, ◌&&◌, ◌||◌, [], ◌∷◌, Option, none, some, ltb,
  ◌==◌, if◌then◌else◌, length, drop, is_nil, Bytes, ◌≡◌, refl, arith, Bool-cases, inl, inr,
  length-drop,
}
use mathlib.Core.Path.{subst}
use pgrust_drop.Psql.Scan.Chars.{
  peek, count_while, is_hexdigit, is_octdigit, is_newline, is_space, is_dolq_start, is_dolq_cont,
}
use pgrust_drop.Psql.Scan.Match.{
  match_xcstop, match_dolqdelim, match_xe_escape, blank_length, quote_length, match_quotecontinue,
  plus,
}
use pgrust_drop.Psql.Scan.Quoted.{begins}

-- A rule reads at least a byte, and none behind the end.
abbrev pub Fits : ℕ → Bytes → Type 0
Fits n left = (1 ≤ n) × (n ≤ length left)

-- What holds of both branches, each under its condition.
pub split {ℓ κ} :
    {A : Type ℓ} (P : A → Type κ) (t : Bool) {x y : A}
    → (t ≡ true → P x)
    → (t ≡ false → P y)
    → P (if t then x else y)
split P true p q = p refl
split P false p q = q refl

pub split_option {ℓ κ} :
    {A : Type ℓ} {B : Type 0} (P : A → Type κ) (o : Option B) {x : A} {f : B → A}
    → (o ≡ none → P x)
    → ((n : B) → o ≡ some n → P (f n))
    → P (elim o [ none ↦ x | some n ↦ f n ])
split_option P none p q = p refl
split_option P (some n) p q = q n refl

pub Fits-1 : (left : Bytes) → is_nil left ≡ false → Fits 1 left
Fits-1 [] h = absurd (grind (arith, h))
Fits-1 (c ∷ left) h = (omega arith, omega arith)

pub count_while_within : (test : ℕ → Bool) (left : Bytes) → count_while test left ≤ length left
unfolding count_while
count_while_within test [] = omega arith
count_while_within test (c ∷ left) = ground (arith, count_while_within test left)

-- Behind an offset inside the buffer.
pub count_while_behind :
    (test : ℕ → Bool) (i : ℕ) (left : Bytes)
    → i ≤ length left
    → i + count_while test (drop i left) ≤ length left
count_while_behind test i left h =
    omega (arith, count_while_within test (drop i left), length-drop i left)

-- A character that is not NUL stands inside the buffer.
pub peek_inside :
    (left : Bytes) (i c : ℕ) → ltb 0 c ≡ true → (peek left i == c) ≡ true → i < length left
peek_inside [] i c p h = absurd (ground arith)
peek_inside (b ∷ left) zero c p h = omega arith
peek_inside (b ∷ left) (suc i) c p h = omega (arith, peek_inside left i c p h)

pub Fits-count_while :
    (test : ℕ → Bool) (left : Bytes)
    → is_nil left ≡ false
    → test (peek left 0) ≡ true
    → Fits (count_while test left) left
unfolding count_while
Fits-count_while test [] h t = absurd (grind (arith, h))
Fits-count_while test (c ∷ left) h t = ground (arith, count_while_within test left)

pub Fits-begins : (left : Bytes) (a b : ℕ) → ltb 0 b ≡ true → begins left a b ≡ true → Fits 2 left
Fits-begins left a b p h = elim (Bool-cases (peek left 1 == b)) [
  | inl e ↦ (omega arith, omega (arith, peek_inside left 1 b p e))
  | inr e ↦ absurd (ground arith)
]

-- What holds of the length, when a rule gives one.
abbrev pub Given : {B : Type 0} → (B → Type 0) → Option B → Type 0
Given P none = Unit
Given P (some n) = P n

pub Given-some : {B : Type 0} (P : B → Type 0) (o : Option B) {n : B} → Given P o → o ≡ some n → P n
Given-some P o g e = subst (Given P) e g

pub Fits-match_xcstop : (left : Bytes) → Given (λ n. Fits n left) (match_xcstop left)
unfolding match_xcstop
Fits-match_xcstop left =
    let stars = count_while (λ c. c == b'*') left in
    split (Given (λ n. Fits n left)) (ltb 0 stars && peek left stars == b'/')
      (λ h. elim (Bool-cases (peek left stars == b'/')) [
        | inl e ↦ (omega arith, omega (arith, peek_inside left stars b'/' refl e))
        | inr e ↦ absurd (ground arith)
      ])
      (λ h. tt)

-- The tag of a dollar quote has both its dollars in the buffer.
unfoldable pub Delimits : Bytes → ℕ → Type 0
Delimits left n = (2 ≤ n) × (n ≤ length left)

pub match_dolqdelim_within : (left : Bytes) → Given (Delimits left) (match_dolqdelim left)
unfolding match_dolqdelim Delimits
match_dolqdelim_within left =
    let tag = 1 + count_while is_dolq_cont (drop 2 left) in
    split (Given (Delimits left)) (not (peek left 0 == b'$')) (λ h. tt)
      (λ h.
        split (Given (Delimits left)) (peek left 1 == b'$')
          (λ e. (omega arith, omega (arith, peek_inside left 1 b'$' refl e)))
          (λ e.
            split (Given (Delimits left))
              (is_dolq_start (peek left 1) && peek left (1 + tag) == b'$')
              (λ f. elim (Bool-cases (peek left (1 + tag) == b'$')) [
                | inl g ↦ (omega arith, omega (arith, peek_inside left (1 + tag) b'$' refl g))
                | inr g ↦ absurd (grind (arith, f, g))
              ])
              (λ f. tt)))

pub Fits-match_xe_escape : (left : Bytes) → is_nil left ≡ false → Fits (match_xe_escape left) left
unfolding match_xe_escape
Fits-match_xe_escape [] h = absurd (grind (arith, h))
Fits-match_xe_escape (c ∷ []) h = (omega arith, omega arith)
Fits-match_xe_escape (c ∷ d ∷ left) h =
    ground (arith, count_while_within is_hexdigit left, count_while_within is_octdigit (d ∷ left))

Given-plus :
    (P Q : ℕ → Type 0) (i : ℕ) (o : Option ℕ)
    → ((n : ℕ) → P n → Q (i + n))
    → Given P o
    → Given Q (plus i o)
Given-plus P Q i none f g = tt
Given-plus P Q i (some n) f g = f n g

quote_length_within : (b : Bool) (left : Bytes) → Given (λ n. Fits n left) (quote_length b left)
unfolding quote_length
quote_length_within b [] = tt
quote_length_within true (c ∷ cs) =
    Given-plus (λ n. Fits n cs) (λ n. Fits n (c ∷ cs)) 1 (quote_length (not (is_newline c)) cs)
      (λ n f. (omega arith, omega (arith, f.1))) (quote_length_within (not (is_newline c)) cs)
quote_length_within false (c ∷ cs) =
    let P = λ (n : ℕ). Fits n (c ∷ cs) in
    let space = is_space c in
    split (Given P) (space || (c == b'-' && peek cs 0 == b'-'))
      (λ t.
        Given-plus (λ n. Fits n cs) P 1 (quote_length (not space) cs)
          (λ n f. (omega arith, omega (arith, f.1))) (quote_length_within (not space) cs))
      (λ t. split (Given P) (c == b'\'') (λ e. (omega arith, omega arith)) (λ e. tt))

pub Fits-match_quotecontinue : (left : Bytes) → Given (λ n. Fits n left) (match_quotecontinue left)
unfolding match_quotecontinue
Fits-match_quotecontinue left =
    let i = blank_length false left in
    split (Given (λ n. Fits n left)) (is_newline (peek left i))
      (λ t.
        Given-plus (λ n. Fits n (drop (suc i) left)) (λ n. Fits n left) (suc i)
          (quote_length false (drop (suc i) left))
          (λ n f. (omega arith, omega (arith, f.0, f.1, length-drop (suc i) left)))
          (quote_length_within false (drop (suc i) left)))
      (λ t. tt)
