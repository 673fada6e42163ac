-- ===== src/Psql/Scan/Initial.antt =====
-- crates/rpsql/src/scan.rs: `step_initial`, in the order of its rules: white space and comments, the
-- opening quotes, a dollar, what ends a statement, and the other tokens.
use pgrust_drop.Prelude.{
  ℕ, suc, ◌+◌, ◌-◌, Bool, not, ◌&&◌, ◌||◌, [], ◌∷◌, Option, none, some, leb, ◌==◌, if◌then◌else◌,
  take, drop, is_nil,
}
use pgrust_drop.Psql.Scan.Chars.{
  peek, count_while, is_space, is_newline, is_digit, is_ident_start, is_ident_cont, is_dolq_start,
  is_self, is_op_char,
}
use pgrust_drop.Psql.Scan.Match.{match_dolqdelim, match_number, operator_length}
use pgrust_drop.Psql.Scan.Work.{
  LexRes, StartState, VariableSource, Work, rest, echo, skip, enter, push_out,
}
use pgrust_drop.Psql.Scan.Quoted.{begins, set_dolqstart}
use pgrust_drop.Psql.Scan.Track.{track_identifier, count_statement}
use pgrust_drop.Psql.Scan.Colon.{step_colon}

-- What one rule comes to: the work, and the result when the lexer stops there.
abbrev pub Fired : Type 0
Fired = Work × Option LexRes

abbrev pub on : Work → Fired
on w = (w, none)

-- Text that stands in front of a statement is passed over, any other goes to the statement.
abbrev pub suppress : ℕ → Work → Work
suppress n w = if is_nil w.out then skip n w else echo n w

-- The identifiers, the numbers, the operators and the single characters.
unfoldable pub initial_token : Work → Work
initial_token w =
    let c = peek (rest w) 0 in
    let n = 1 + count_while is_ident_cont (drop 1 (rest w)) in
    if is_op_char c
    then echo (operator_length (rest w)) w
    else if is_digit c || (c == b'.' && is_digit (peek (rest w) 1))
    then echo (match_number (rest w)) w
    else if is_ident_start c
    then echo n (record w { state = track_identifier (take n (rest w)) w.state })
    else if is_self c
    then echo 1 w
    else echo 1 w

abbrev set_paren_depth : ℕ → Work → Work
set_paren_depth n w = record w { state = record w.state { paren_depth = n } }

abbrev end_statement : Work → Work
end_statement w = record w { state = count_statement w.state }

abbrev pub at_depth_0 : Work → Bool
at_depth_0 w = w.state.paren_depth == 0 && w.state.begin_depth == 0

-- The rule of `;`.
unfoldable pub initial_semicolon : Work → Fired
initial_semicolon w =
    if at_depth_0 w then (end_statement (echo 1 w), some LexRes.semi) else on (echo 1 w)

-- The rules of a backslash: `\;` and `\:` put the character into the statement, any other starts a
-- backslash command.
unfoldable pub initial_backslash : Work → Fired
initial_backslash w =
    let next = peek (rest w) 1 in
    let forced = push_out (next ∷ []) (skip 2 w) in
    if next == b';' || next == b':'
    then on (if next == b';' && at_depth_0 w then end_statement forced else forced)
    else (skip 1 w, some LexRes.backslash)

-- The rules of psql, and behind them the tokens.
unfoldable pub initial_control : VariableSource → Work → Fired
initial_control vars w =
    let c = peek (rest w) 0 in
    let depth = w.state.paren_depth in
    if c == b'('
    then on (echo 1 (set_paren_depth (suc depth) w))
    else if c == b')'
    then on (echo 1 (set_paren_depth (depth - 1) w))
    else if c == b';'
    then initial_semicolon w
    else if c == b'\\'
    then initial_backslash w
    else if c == b':'
    then on (step_colon vars w)
    else on (initial_token w)

-- The rules of `$`.
unfoldable pub initial_dollar : Work → Work
initial_dollar w =
    let digits = count_while is_digit (drop 1 (rest w)) in
    let junk = count_while is_ident_cont (drop (1 + digits) (rest w)) in
    elim (match_dolqdelim (rest w)) [
      | some n ↦ echo n (enter StartState.xdolq (set_dolqstart (some (take n (rest w))) w))
      | none ↦
          if is_dolq_start (peek (rest w) 1)
          then echo 1 w
          else if leb 1 digits
          then echo (1 + digits + junk) w
          else echo 1 w
    ]

abbrev pub is_letter : ℕ → ℕ → Bool
is_letter lower c = c == lower || c == lower - 32

-- A letter in front of a quote: the condition it opens, and how much of it is read.
unfoldable pub prefix_of : ℕ → Option (Option StartState × ℕ)
prefix_of c =
    if is_letter b'b' c
    then some (some StartState.xb, 2)
    else if is_letter b'x' c
    then some (some StartState.xh, 2)
    else if is_letter b'n' c
    then some (none, 1)
    else if is_letter b'e' c
    then some (some StartState.xe, 2)
    else none

abbrev pub enter_if : Option StartState → Work → Work
enter_if none w = w
enter_if (some s) w = enter s w

-- The rules of `u&`.
unfoldable pub initial_unicode : Work → Work
initial_unicode w =
    if peek (rest w) 2 == b'\''
    then echo 3 (enter StartState.xus w)
    else if peek (rest w) 2 == b'"'
    then echo 3 (enter StartState.xui w)
    else echo 1 w

-- The rules that open a quote, and behind them the others.
unfoldable pub initial_quote : VariableSource → Work → Fired
initial_quote vars w =
    let c = peek (rest w) 0 in
    let next = peek (rest w) 1 in
    elim (if next == b'\'' then prefix_of c else none) [
      | some (opened, n) ↦ on (echo n (enter_if opened w))
      | none ↦
          if is_letter b'u' c && next == b'&'
          then on (initial_unicode w)
          else if c == b'\''
          then on (echo 1 (enter (if w.state.std_strings then StartState.xq else StartState.xe) w))
          else if c == b'"'
          then on (echo 1 (enter StartState.xd w))
          else if c == b'$'
          then on (initial_dollar w)
          else initial_control vars w
    ]

abbrev pub open_comment : Work → Work
open_comment w = record w { state = record w.state { xcdepth = 0; start_state = StartState.xc } }

-- `step_initial`.
unfoldable pub step_initial : VariableSource → Work → Fired
step_initial vars w =
    if is_space (peek (rest w) 0)
    then on (suppress (count_while is_space (rest w)) w)
    else if begins (rest w) b'-' b'-'
    then on (suppress (count_while (λ c. not (is_newline c)) (rest w)) w)
    else if begins (rest w) b'/' b'*'
    then on (echo 2 (open_comment w))
    else initial_quote vars w
