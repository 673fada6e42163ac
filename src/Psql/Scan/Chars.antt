-- ===== src/Psql/Scan/Chars.antt =====
-- crates/rpsql/src/scan.rs: the character classes of the lexer, and how far they reach.
use pgrust_drop.Prelude.{
  ℕ, suc, ◌+◌, ◌-◌, Bool, true, false, ◌&&◌, ◌||◌, [], ◌∷◌, Option, none, some, leb, ◌==◌,
  if◌then◌else◌, get_or, Bytes,
}

abbrev pub within : ℕ → ℕ → ℕ → Bool
within lo hi c = leb lo c && leb c hi

-- `rest.get(i)`, where it is compared with a character that is not NUL.
abbrev pub peek : Bytes → ℕ → ℕ
peek rest i = get_or rest i 0

-- `rest.iter().take_while(test).count()`.
unfoldable pub count_while : (ℕ → Bool) → Bytes → ℕ
count_while test [] = 0
count_while test (c ∷ cs) = let more = count_while test cs in if test c then suc more else 0

-- `find`, of two bytes.
unfoldable pub find : Bytes → ℕ → ℕ → Option ℕ
find [] a b = none
find (c ∷ cs) a b =
    let behind = find cs a b in
    if c == a && peek cs 0 == b then some 0 else elim behind [ none ↦ none | some i ↦ some (suc i) ]

unfoldable pub is_space : ℕ → Bool
is_space c = c == b' ' || c == b'\t' || c == b'\n' || c == b'\r' || c == 0x0c || c == 0x0b

unfoldable pub is_non_newline_space : ℕ → Bool
is_non_newline_space c = c == b' ' || c == b'\t' || c == 0x0c || c == 0x0b

unfoldable pub is_newline : ℕ → Bool
is_newline c = c == b'\n' || c == b'\r'

-- `is_ascii_digit`.
unfoldable pub is_digit : ℕ → Bool
is_digit c = within b'0' b'9' c

unfoldable pub is_hexdigit : ℕ → Bool
unfolding is_digit
is_hexdigit c = is_digit c || within b'a' b'f' c || within b'A' b'F' c

unfoldable pub is_octdigit : ℕ → Bool
is_octdigit c = within b'0' b'7' c

unfoldable pub is_ident_start : ℕ → Bool
is_ident_start c = within b'A' b'Z' c || within b'a' b'z' c || c == b'_' || leb 0x80 c

unfoldable pub is_ident_cont : ℕ → Bool
is_ident_cont c = is_ident_start c || is_digit c || c == b'$'

unfoldable pub is_dolq_start : ℕ → Bool
is_dolq_start c = is_ident_start c

unfoldable pub is_dolq_cont : ℕ → Bool
is_dolq_cont c = is_ident_start c || is_digit c

unfoldable pub is_variable_char : ℕ → Bool
is_variable_char c = is_dolq_cont c

unfoldable pub is_self : ℕ → Bool
is_self c =
    c == b','
    || c == b'('
    || c == b')'
    || c == b'['
    || c == b']'
    || c == b'.'
    || c == b';'
    || c == b':'
    || c == b'+'
    || c == b'-'
    || c == b'*'
    || c == b'/'
    || c == b'%'
    || c == b'^'
    || c == b'<'
    || c == b'>'
    || c == b'='

-- The characters that let a trailing sign stay part of an operator.
unfoldable pub qualifies_trailing_sign : ℕ → Bool
qualifies_trailing_sign c =
    c == b'~'
    || c == b'!'
    || c == b'@'
    || c == b'#'
    || c == b'^'
    || c == b'&'
    || c == b'|'
    || c == b'`'
    || c == b'?'
    || c == b'%'

unfoldable pub is_op_char : ℕ → Bool
is_op_char c =
    c == b'~'
    || c == b'!'
    || c == b'@'
    || c == b'#'
    || c == b'^'
    || c == b'&'
    || c == b'|'
    || c == b'`'
    || c == b'?'
    || c == b'+'
    || c == b'-'
    || c == b'*'
    || c == b'/'
    || c == b'%'
    || c == b'<'
    || c == b'>'
    || c == b'='

-- `to_ascii_lowercase` and `to_ascii_uppercase`.
unfoldable pub to_lower : ℕ → ℕ
to_lower c = if within b'A' b'Z' c then c + 32 else c

unfoldable pub to_upper : ℕ → ℕ
to_upper c = if within b'a' b'z' c then c - 32 else c

unfoldable pub eq_ignore_case : Bytes → Bytes → Bool
eq_ignore_case [] [] = true
eq_ignore_case (x ∷ xs) (y ∷ ys) = to_lower x == to_lower y && eq_ignore_case xs ys
eq_ignore_case _ _ = false
