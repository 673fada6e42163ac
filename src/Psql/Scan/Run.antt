-- ===== src/Psql/Scan/Run.antt =====
-- crates/rpsql/src/scan.rs: `step` and the loop of `scan`, and the calls on the state around it.
use pgrust_drop.Prelude.{
  ℕ, zero, suc, Bool, true, false, List, [], ◌∷◌, Option, none, some, leb, if◌then◌else◌, is_nil,
  Bytes,
}
use pgrust_drop.Psql.Scan.Work.{
  LexRes, ScanResult, PromptStatus, StartState, VariableSource, Buf, ScanState, Scanner, Work, rest,
}
use pgrust_drop.Psql.Scan.Quoted.{
  step_xc, step_xb_xh, step_xq, step_xe, step_xqs, step_xdolq, step_xd,
}
use pgrust_drop.Psql.Scan.Track.{count_statement}
use pgrust_drop.Psql.Scan.Initial.{Fired, on, step_initial}

-- The `match` of `step`.
unfoldable pub step_in : StartState → VariableSource → Work → Fired
step_in StartState.xc vars w = on (step_xc w)
step_in StartState.xb vars w = on (step_xb_xh StartState.xb w)
step_in StartState.xh vars w = on (step_xb_xh StartState.xh w)
step_in StartState.xq vars w = on (step_xq w)
step_in StartState.xus vars w = on (step_xq w)
step_in StartState.xe vars w = on (step_xe w)
step_in StartState.xqs vars w = on (step_xqs w)
step_in StartState.xdolq vars w = on (step_xdolq w)
step_in StartState.xd vars w = on (step_xd w)
step_in StartState.xui vars w = on (step_xd w)
step_in StartState.initial vars w = step_initial vars w

-- The rule at the end of the buffer on top.
unfoldable pub pop : List Buf → Work → Fired
pop [] w = (w, some LexRes.eol)
pop (b ∷ bs) w = on (record w { top = b; below = bs })

-- `Scanner::step`.
unfoldable pub step : VariableSource → Work → Fired
step vars w = if is_nil (rest w) then pop w.below w else step_in w.state.start_state vars w

-- The loop of `scan`, on fuel.
unfoldable pub run : ℕ → VariableSource → Work → Option (Work × LexRes)
run zero vars w = none
run (suc fuel) vars w =
    let (w', res) = step vars w in elim res [ none ↦ run fuel vars w' | some r ↦ some (w', r) ]

-- The results at the end of a line, outside quotes and comments.
unfoldable pub at_line_end : ScanState → Bytes → ScanResult × PromptStatus
at_line_end s query_buf =
    if leb 1 s.paren_depth
    then (ScanResult.incomplete, PromptStatus.paren)
    else if leb 1 s.begin_depth
    then (ScanResult.incomplete, PromptStatus.continue)
    else if is_nil query_buf
    then (ScanResult.incomplete, PromptStatus.ready)
    else (ScanResult.eol, PromptStatus.continue)

unfoldable pub decode_eol : StartState → ScanState → Bytes → ScanResult × PromptStatus
decode_eol StartState.initial s query_buf = at_line_end s query_buf
decode_eol StartState.xqs s query_buf = at_line_end s query_buf
decode_eol StartState.xc s query_buf = (ScanResult.incomplete, PromptStatus.comment)
decode_eol StartState.xd s query_buf = (ScanResult.incomplete, PromptStatus.double_quote)
decode_eol StartState.xui s query_buf = (ScanResult.incomplete, PromptStatus.double_quote)
decode_eol StartState.xdolq s query_buf = (ScanResult.incomplete, PromptStatus.dollar_quote)
decode_eol _ s query_buf = (ScanResult.incomplete, PromptStatus.single_quote)

-- The `match` behind the loop.
unfoldable pub decode : LexRes → ScanState → Bytes → ScanResult × PromptStatus
decode LexRes.semi s query_buf = (ScanResult.semicolon, PromptStatus.ready)
decode LexRes.backslash s query_buf = (ScanResult.backslash, PromptStatus.ready)
decode LexRes.eol s query_buf = decode_eol s.start_state s query_buf

-- What `scan` comes to: the scanner, the statement so far, and the result with the prompt. With no
-- buffer, the source panics.
pub data Scanned : Type 0 where
  scanned : Scanner → Bytes → ScanResult × PromptStatus → Scanned
  panicked out_of_fuel : Scanned

abbrev pub conclude : Option (Work × LexRes) → Scanned
conclude none = Scanned.out_of_fuel
conclude (some (w, res)) =
    Scanned.scanned (record { state = w.state; stack = w.top ∷ w.below }) w.out
      (decode res w.state w.out)

-- `Scanner::scan`.
unfoldable pub scan : ℕ → Scanner → Bytes → VariableSource → Scanned
scan fuel s query_buf vars = elim s.stack [
  | [] ↦ Scanned.panicked
  | b ∷ bs ↦
      conclude (run fuel vars (record { state = s.state; top = b; below = bs; out = query_buf }))
]

-- `Scanner::new`, `setup`, `finish` and `reset`.
unfoldable pub new : Scanner
new = record {
  state = record {
    start_state = StartState.initial;
    state_before_str_stop = StartState.initial;
    paren_depth = 0;
    xcdepth = 0;
    dolqstart = none;
    begin_depth = 0;
    copy_stdin_count = 0;
    init_idents_count = 0;
    init_idents = 0 ∷ 0 ∷ 0 ∷ 0 ∷ 0 ∷ 0 ∷ 0 ∷ 0 ∷ [];
    std_strings = true;
  };
  stack = [];
}

unfoldable pub setup : Bytes → Bool → Scanner → Scanner
setup line std_strings s = record {
  state = record s.state { std_strings = std_strings };
  stack = record { data_ = line; pos = 0; varname = none } ∷ [];
}

unfoldable pub finish : Scanner → Scanner
finish s = record s { stack = [] }

unfoldable pub reset : Scanner → Scanner
reset s = record s {
  state = record s.state {
    start_state = StartState.initial;
    paren_depth = 0;
    xcdepth = 0;
    dolqstart = none;
    begin_depth = 0;
    copy_stdin_count = 0;
    init_idents_count = 0;
  };
}

-- `count_copy_from_stdin`: the number, and the state in which the statement is counted.
unfoldable pub count_copy_from_stdin : Scanner → ℕ × Scanner
count_copy_from_stdin s =
    let counted = if leb 1 s.state.init_idents_count then count_statement s.state else s.state in
    (counted.copy_stdin_count, record s { state = counted })

-- `in_quote`.
unfoldable pub in_quote : Scanner → Bool
in_quote s = elim s.state.start_state [ StartState.initial ↦ false | _ ↦ true ]
