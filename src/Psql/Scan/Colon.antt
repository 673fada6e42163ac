-- ===== src/Psql/Scan/Colon.antt =====
-- crates/rpsql/src/scan.rs: `step_colon`, the variables that are put into a statement.
use pgrust_drop.Prelude.{
  ℕ, ◌+◌, Bool, false, ◌&&◌, ◌||◌, List, [], ◌∷◌, Option, none, some, leb, ◌==◌, if◌then◌else◌,
  take, drop, is_some, Bytes, codes, bytes_eq,
}
use pgrust_drop.Psql.Quote.{escape_literal, escape_identifier}
use pgrust_drop.Psql.Scan.Chars.{peek, count_while, is_variable_char}
use pgrust_drop.Psql.Scan.Match.{operator_length}
use pgrust_drop.Psql.Scan.Work.{QuoteType, VariableSource, Buf, Work, rest, echo, skip, push_out}

-- How long the name at an offset is.
abbrev pub name_length : ℕ → Work → ℕ
name_length i w = count_while is_variable_char (drop i (rest w))

abbrev pub name_at : VariableSource → ℕ → Work → Bytes
name_at vars i w = vars.from_utf8_lossy (take (name_length i w) (drop i (rest w)))

-- `var_is_current_source`, over the stack.
abbrev is_source : Bytes → Buf → Bool
is_source name b = elim b.varname [ none ↦ false | some source ↦ bytes_eq source name ]

unfoldable pub any_source : Bytes → List Buf → Bool
any_source name [] = false
any_source name (b ∷ bs) = is_source name b || any_source name bs

abbrev pub var_is_current_source : Bytes → Work → Bool
var_is_current_source name w = any_source name (w.top ∷ w.below)

abbrev unwrap_or : Option Bytes → Bytes → Bytes
unwrap_or none default = default
unwrap_or (some value) default = value

-- The rule of a quoted name; `delim` is the quote.
unfoldable pub colon_quoted : VariableSource → ℕ → Work → Work
colon_quoted vars delim w =
    let n = name_length 2 w in
    let name = name_at vars 2 w in
    let value =
      if delim == b'\''
      then unwrap_or (vars.get_variable name QuoteType.sql_literal) (escape_literal [])
      else unwrap_or (vars.get_variable name QuoteType.sql_ident) (escape_identifier name) in
    if leb 1 n && peek (rest w) (2 + n) == delim then push_out value (skip (3 + n) w) else echo 1 w

-- The rule of `:{?name}`.
unfoldable pub colon_test : VariableSource → Work → Work
colon_test vars w =
    let n = name_length 3 w in
    let set = is_some (vars.get_variable (name_at vars 3 w) QuoteType.plain) in
    if leb 1 n && peek (rest w) (3 + n) == b'}'
    then push_out (if set then codes "TRUE" else codes "FALSE") (skip (4 + n) w)
    else echo 1 w

-- `self.stack.push`.
abbrev pub push_buf : Buf → Work → Work
push_buf b w = record w { top = b; below = w.top ∷ w.below }

-- The rule of `:name`: the value is what is read next, unless it is being read already.
unfoldable pub colon_name : VariableSource → Work → Work
colon_name vars w =
    let n = name_length 1 w in
    let name = name_at vars 1 w in
    if leb 1 n
    then elim (vars.get_variable name QuoteType.plain) [
      | none ↦ echo (1 + n) w
      | some value ↦
          if var_is_current_source name w
          then echo (1 + n) w
          else push_buf (record { data_ = value; pos = 0; varname = some name }) (skip (1 + n) w)
    ]
    else echo 1 w

-- `step_colon`.
unfoldable pub step_colon : VariableSource → Work → Work
step_colon vars w =
    let next = peek (rest w) 1 in
    if next == b'=' || next == b':'
    then echo (operator_length (rest w)) w
    else if next == b'\'' || next == b'"'
    then colon_quoted vars next w
    else if next == b'{' && peek (rest w) 2 == b'?'
    then colon_test vars w
    else colon_name vars w
