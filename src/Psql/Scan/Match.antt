-- ===== src/Psql/Scan/Match.antt =====
-- crates/rpsql/src/scan.rs: the rules whose length depends on what follows, each measured at the
-- front of what is left of the buffer.
use pgrust_drop.Prelude.{
  ℕ, zero, suc, ◌+◌, ◌-◌, Bool, true, false, not, ◌&&◌, ◌||◌, [], ◌∷◌, Option, none, some, ltb, leb,
  ◌==◌, if◌then◌else◌, length, take, drop, is_nil, Bytes,
}
use pgrust_drop.Psql.Scan.Chars.{
  peek, count_while, find, is_space, is_non_newline_space, is_newline, is_digit, is_hexdigit,
  is_octdigit, is_ident_cont, is_dolq_start, is_dolq_cont, is_op_char, qualifies_trailing_sign,
}

abbrev pub plus : ℕ → Option ℕ → Option ℕ
plus n none = none
plus n (some m) = some (n + m)

abbrev pub smaller : Option ℕ → Option ℕ → Option ℕ
smaller none b = b
smaller (some a) none = some a
smaller (some a) (some b) = some (if leb a b then a else b)

abbrev at_most : ℕ → ℕ → ℕ
at_most cap n = if leb n cap then n else cap

-- `match_xcstop`: stars and a slash.
unfoldable pub match_xcstop : Bytes → Option ℕ
match_xcstop rest =
    let stars = count_while (λ c. c == b'*') rest in
    if ltb 0 stars && peek rest stars == b'/' then some (stars + 1) else none

-- `match_dolqdelim`: `$$`, or a tag between two dollars.
unfoldable pub match_dolqdelim : Bytes → Option ℕ
match_dolqdelim rest =
    let tag = 1 + count_while is_dolq_cont (drop 2 rest) in
    if not (peek rest 0 == b'$')
    then none
    else if peek rest 1 == b'$'
    then some 2
    else if is_dolq_start (peek rest 1) && peek rest (1 + tag) == b'$'
    then some (2 + tag)
    else none

-- `match_xe_escape`: how far a backslash sequence reaches.
unfoldable pub match_xe_escape : Bytes → ℕ
match_xe_escape rest =
    let next = peek rest 1 in
    let hex = count_while is_hexdigit (drop 2 rest) in
    if is_nil (drop 1 rest)
    then 1
    else if next == b'u'
    then 2 + at_most 4 hex
    else if next == b'U'
    then 2 + at_most 8 hex
    else if next == b'x' && ltb 0 hex
    then 2 + at_most 2 hex
    else if is_octdigit next
    then 1 + at_most 3 (count_while is_octdigit (drop 1 rest))
    else 2

-- The first loop of `match_quotecontinue`: spaces that are no newline, and comments up to their
-- newline.
unfoldable pub blank_length : Bool → Bytes → ℕ
blank_length in_comment [] = 0
blank_length true (c ∷ cs) = let more = blank_length true cs in if is_newline c then 0 else suc more
blank_length false (c ∷ cs) =
    let space = is_non_newline_space c in
    let more = blank_length (not space) cs in
    if space || (c == b'-' && peek cs 0 == b'-') then suc more else 0

-- The second loop with the test behind it: up to and with the quote, over spaces and over comments
-- that end with a newline.
unfoldable pub quote_length : Bool → Bytes → Option ℕ
quote_length in_comment [] = none
quote_length true (c ∷ cs) = plus 1 (quote_length (not (is_newline c)) cs)
quote_length false (c ∷ cs) =
    let space = is_space c in
    let more = quote_length (not space) cs in
    if space || (c == b'-' && peek cs 0 == b'-')
    then plus 1 more
    else if c == b'\''
    then some 1
    else none

-- `match_quotecontinue`.
unfoldable pub match_quotecontinue : Bytes → Option ℕ
match_quotecontinue rest =
    let i = blank_length false rest in
    if is_newline (peek rest i) then plus (suc i) (quote_length false (drop (suc i) rest)) else none

-- The `digits` of `match_number`.
abbrev pub digits : Bytes → ℕ
digits rest = count_while (λ c. is_digit c || c == b'_') rest

unfoldable pub is_digit_in_radix : ℕ → ℕ → Bool
is_digit_in_radix c radix =
    if radix == 16 then is_hexdigit c else ltb c (b'0' + radix) && leb b'0' c

abbrev pub radix_of : ℕ → Option ℕ
radix_of tag =
    if tag == b'x' || tag == b'X'
    then some 16
    else if tag == b'o' || tag == b'O'
    then some 8
    else if tag == b'b' || tag == b'B'
    then some 2
    else none

-- The hexadecimal, octal and binary integers, and what follows of an identifier.
unfoldable pub match_radix : ℕ → Bytes → ℕ
match_radix radix rest =
    let run = count_while (λ c. c == b'_' || is_digit_in_radix c radix) (drop 2 rest) in
    let n = if run == 0 then (if peek rest 2 == b'_' then 1 else 0) else run in
    2 + n + count_while is_ident_cont (drop (2 + n) rest)

-- The length with an exponent, from the length without one.
unfoldable pub with_exponent : Bytes → ℕ → ℕ
with_exponent rest i =
    let sign = peek rest (i + 1) == b'+' || peek rest (i + 1) == b'-' in
    let j = if sign then i + 2 else i + 1 in
    if peek rest i == b'e' || peek rest i == b'E' then j + digits (drop j rest) else i

unfoldable pub match_decimal : Bytes → ℕ
match_decimal rest =
    let int_end = digits rest in
    let i =
      if peek rest int_end == b'.'
      then int_end + 1 + digits (drop (int_end + 1) rest)
      else int_end in
    let j = with_exponent rest i in
    if peek rest int_end == b'.' && peek rest (int_end + 1) == b'.'
    then int_end
    else j + count_while is_ident_cont (drop j rest)

-- `match_number`.
unfoldable pub match_number : Bytes → ℕ
match_number rest = elim (if peek rest 0 == b'0' then radix_of (peek rest 1) else none) [
  | none ↦ match_decimal rest
  | some radix ↦ match_radix radix rest
]

abbrev pub is_sign : ℕ → Bool
is_sign c = c == b'+' || c == b'-'

-- The loop that gives the signs at the end of an operator back.
unfoldable pub drop_signs : Bytes → ℕ → ℕ
drop_signs rest zero = zero
drop_signs rest (suc zero) = suc zero
drop_signs rest (suc (suc n)) =
    let less = drop_signs rest (suc n) in if is_sign (peek rest (suc n)) then less else suc (suc n)

-- `any(qualifies_trailing_sign)`.
unfoldable pub any_qualifies : Bytes → Bool
any_qualifies [] = false
any_qualifies (c ∷ cs) = qualifies_trailing_sign c || any_qualifies cs

-- Where a comment stops the operator.
unfoldable pub comment_stop : Bytes → ℕ
comment_stop run = elim (smaller (find run b'/' b'*') (find run b'-' b'-')) [
  | none ↦ length run
  | some stop ↦ stop
]

-- `Scanner::operator_length`, of what is left.
unfoldable pub operator_length : Bytes → ℕ
operator_length rest =
    let nchars = comment_stop (take (count_while is_op_char rest) rest) in
    let trims =
      ltb 1 nchars
      && is_sign (peek rest (nchars - 1))
      && not (any_qualifies (take (nchars - 1) rest)) in
    let kept = if trims then drop_signs rest nchars else nchars in if kept == 0 then 1 else kept
