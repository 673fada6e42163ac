-- ===== src/ConnInfo/KeyValue/Ends.antt =====
-- The fuel of the loop in the parser of crates/rlibpq/src/conninfo.rs.
use pgrust_drop.Prelude.{
  either, drop_shorter, ℕ, zero, suc, ◌<◌, ◌≤◌, Bool, true, false, not, ◌&&◌, ◌||◌, [], ◌∷◌, Option,
  none, some, ◌==◌, length, drop, Bytes, ◌≡◌, refl, arith, inl, inr, Bool-cases, Option-cases,
  is_some,
}
use pgrust_drop.ConnInfo.{ConnInfo, at, is_space, new, set}
use pgrust_drop.ConnInfo.Laws.{Stored-cases}
use pgrust_drop.ConnInfo.KeyValue.{
  skip_spaces, read_name, push_quoted, read_bare_value, read_quoted_value, read_pair_value,
  parse_pairs, parse_keyword_value,
}

skip_spaces_shorter : (bs : Bytes) → length (skip_spaces bs) ≤ length bs
unfolding skip_spaces
skip_spaces_shorter [] = omega arith
skip_spaces_shorter (c ∷ bs) = elim (Bool-cases (is_space c)) [
  | inl e ↦ rw e (omega (arith, skip_spaces_shorter bs))
  | inr e ↦ rw e (omega arith)
]

read_name_shorter : (bs : Bytes) → length (read_name bs).1 ≤ length bs
unfolding read_name
read_name_shorter [] = omega arith
read_name_shorter (c ∷ bs) = elim (Bool-cases (c == 0 || c == b'=')) [
  | inl e ↦ rw e (omega arith)
  | inr e ↦ elim (Bool-cases (is_space c)) [
    | inl f ↦ rw (e, f) (omega (arith, skip_spaces_shorter bs))
    | inr f ↦ rw (e, f) (omega (arith, read_name_shorter bs))
  ]
]

read_bare_value_shorter :
    (escaped : Bool) (bs : Bytes) → length (read_bare_value escaped bs).1 ≤ length bs
unfolding read_bare_value
read_bare_value_shorter escaped [] = omega arith
read_bare_value_shorter escaped (c ∷ bs) =
    let backslash = not escaped && c == b'\\' in
    let shorter = read_bare_value_shorter backslash bs in
    let Fits : Bytes × Bytes → Type 0 = λ r. length r.1 ≤ suc (length bs) in
    either Fits (c == 0) (omega arith) (
      either Fits backslash (omega arith)
        (either Fits (not escaped && is_space c) (omega arith) (omega arith)))

-- A value leaves no more than it was read from.
abbrev Leaves : ℕ → Option (Bytes × Bytes) → Type 0
Leaves n none = Unit
Leaves n (some (value, rest)) = length rest ≤ n

Leaves-weaken : (m n : ℕ) (o : Option (Bytes × Bytes)) → m ≤ n → Leaves m o → Leaves n o
Leaves-weaken m n none few h = tt
Leaves-weaken m n (some (value, rest)) few h = omega arith

push_quoted-Leaves :
    (n c : ℕ) (o : Option (Bytes × Bytes)) → Leaves n o → Leaves n (push_quoted c o)
push_quoted-Leaves n c none h = tt
push_quoted-Leaves n c (some (value, rest)) h = h

read_quoted_value-Leaves :
    (escaped : Bool) (bs : Bytes) → Leaves (length bs) (read_quoted_value escaped bs)
unfolding read_quoted_value
read_quoted_value-Leaves escaped [] = tt
read_quoted_value-Leaves escaped (c ∷ bs) =
    let backslash = not escaped && c == b'\\' in
    let behind = read_quoted_value backslash bs in
    let shorter =
      Leaves-weaken (length bs) (suc (length bs)) behind (omega arith)
        (read_quoted_value-Leaves backslash bs) in
    let Fits : Option (Bytes × Bytes) → Type 0 = Leaves (suc (length bs)) in
    either Fits (c == 0) tt (
      either Fits backslash shorter (
        either Fits (not escaped && c == b'\'') (omega arith)
          (push_quoted-Leaves (suc (length bs)) c behind shorter)))

Leaves-some :
    (n m : ℕ) (o : Option (Bytes × Bytes)) {value rest : Bytes}
    → m ≤ n
    → Leaves m o
    → o ≡ some (value, rest)
    → length rest ≤ n
Leaves-some n m none few h e = absurd (ground arith)
Leaves-some n m (some (v, r)) {rest = rest} few h e =
    let same : rest ≡ r = ground arith in rw same (omega arith)

read_pair_value_shorter :
    (bs : Bytes) {value rest : Bytes}
    → read_pair_value bs ≡ some (value, rest)
    → length rest ≤ length bs
unfolding read_pair_value
read_pair_value_shorter bs {value} {rest} h =
    Leaves-some (length bs) (length bs) (read_pair_value bs) (omega arith)
      (either (Leaves (length bs)) (at bs == b'\'')
        (Leaves-weaken (length (drop 1 bs)) (length bs) (read_quoted_value false (drop 1 bs))
          (drop_shorter bs) (read_quoted_value-Leaves false (drop 1 bs)))
        (read_bare_value_shorter false bs))
      h

shorter_behind : (bs : Bytes) → (at bs == b'=') ≡ true → suc (length (drop 1 bs)) ≤ length bs
shorter_behind [] h = absurd (ground arith)
shorter_behind (c ∷ bs) h = omega arith

-- The loop of the parser returns within one round more than the text has bytes, whatever the text
-- and the options set before.
pub parse_pairs_ends :
    (fuel : ℕ) (buf : Bytes) (o : ConnInfo)
    → length buf < fuel
    → is_some (parse_pairs fuel buf o) ≡ true
unfolding parse_pairs
parse_pairs_ends zero buf o h = absurd (omega arith)
parse_pairs_ends (suc fuel) [] o h = refl
parse_pairs_ends (suc fuel) (c ∷ bs) o h =
    let (name, behind) = read_name (c ∷ bs) in
    elim (Bool-cases (c == 0)) [
      | inl z ↦ rw (z, parse_pairs) refl
      | inr z ↦ elim (Bool-cases (is_space c)) [
        | inl s ↦ rw (z, parse_pairs, s) (parse_pairs_ends fuel bs o (omega arith))
        | inr s ↦ elim (Bool-cases (at behind == b'=')) [
          | inr q ↦ rw (z, parse_pairs, s, q) refl
          | inl q ↦ elim (Option-cases (read_pair_value (skip_spaces (drop 1 behind)))) [
            | inl e ↦ rw (z, parse_pairs, s, q, e) refl
            | inr ((value, rest), e) ↦ elim (Stored-cases (set o name value)) [
              | inr (k, f) ↦ rw (z, parse_pairs, s, q, e, f) refl
              | inl (o', f) ↦
                  let left = read_pair_value_shorter (skip_spaces (drop 1 behind)) e in
                  rw (z, parse_pairs, s, q, e, f)
                    (parse_pairs_ends fuel rest o' (
                      omega (
                        arith,
                        left,
                        skip_spaces_shorter (drop 1 behind),
                        shorter_behind behind q,
                        read_name_shorter (c ∷ bs),
                      )))
            ]
          ]
        ]
      ]
    ]

-- The parser returns for every text.
pub parse_keyword_value_ends : (conninfo : Bytes) → is_some (parse_keyword_value conninfo) ≡ true
unfolding parse_keyword_value
parse_keyword_value_ends conninfo =
    parse_pairs_ends (suc (length conninfo)) conninfo new (omega arith)
