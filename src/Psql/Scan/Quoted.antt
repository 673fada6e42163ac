-- ===== src/Psql/Scan/Quoted.antt =====
-- crates/rpsql/src/scan.rs: the rules inside comments and quotes. Each is told what is left of the
-- buffer, which is not empty.
use pgrust_drop.Prelude.{
  ℕ, suc, ◌+◌, ◌-◌, Bool, false, not, ◌&&◌, Bytes, Option, none, some, leb, ◌==◌, if◌then◌else◌,
  take, drop, bytes_eq,
}
use pgrust_drop.Psql.Scan.Chars.{peek, count_while, is_dolq_cont}
use pgrust_drop.Psql.Scan.Match.{
  match_xcstop, match_dolqdelim, match_xe_escape, match_quotecontinue,
}
use pgrust_drop.Psql.Scan.Work.{StartState, Work, rest, echo, enter}

-- `starts_with` of two bytes.
abbrev pub begins : Bytes → ℕ → ℕ → Bool
begins left a b = peek left 0 == a && peek left 1 == b

abbrev set_xcdepth : ℕ → Work → Work
set_xcdepth n w = record w { state = record w.state { xcdepth = n } }

-- The end of a comment: of all of it at depth 0, or of a nested one.
abbrev leave_comment : Work → Work
leave_comment w =
    if w.state.xcdepth == 0 then enter StartState.initial w else set_xcdepth (w.state.xcdepth - 1) w

-- `step_xc`.
unfoldable pub step_xc : Work → Work
step_xc w =
    let inside = count_while (λ c. not (c == b'*') && not (c == b'/')) (rest w) in
    let stars = count_while (λ c. c == b'*') (rest w) in
    if begins (rest w) b'/' b'*'
    then echo 2 (set_xcdepth (suc w.state.xcdepth) w)
    else elim (match_xcstop (rest w)) [
      | some n ↦ echo n (leave_comment w)
      | none ↦ if leb 1 inside then echo inside w else echo (if leb 1 stars then stars else 1) w
    ]

-- The end quote of a string: `state_before_str_stop` is where it is resumed.
abbrev pub quote_stop : StartState → Work → Work
quote_stop here w = record w {
  state = record w.state { state_before_str_stop = here; start_state = StartState.xqs };
}

-- `step_xb_xh`.
unfoldable pub step_xb_xh : StartState → Work → Work
step_xb_xh here w =
    if peek (rest w) 0 == b'\''
    then echo 1 (quote_stop here w)
    else echo (count_while (λ c. not (c == b'\'')) (rest w)) w

-- `step_xq`.
unfoldable pub step_xq : Work → Work
step_xq w =
    if begins (rest w) b'\'' b'\''
    then echo 2 w
    else if peek (rest w) 0 == b'\''
    then echo 1 (quote_stop w.state.start_state w)
    else echo (count_while (λ c. not (c == b'\'')) (rest w)) w

-- `step_xe`.
unfoldable pub step_xe : Work → Work
step_xe w =
    if begins (rest w) b'\'' b'\''
    then echo 2 w
    else if peek (rest w) 0 == b'\''
    then echo 1 (quote_stop StartState.xe w)
    else if peek (rest w) 0 == b'\\'
    then echo (match_xe_escape (rest w)) w
    else echo (count_while (λ c. not (c == b'\\') && not (c == b'\'')) (rest w)) w

-- `step_xqs`.
unfoldable pub step_xqs : Work → Work
step_xqs w = elim (match_quotecontinue (rest w)) [
  | some n ↦ echo n (enter w.state.state_before_str_stop w)
  | none ↦ enter StartState.initial w
]

abbrev pub set_dolqstart : Option Bytes → Work → Work
set_dolqstart tag w = record w { state = record w.state { dolqstart = tag } }

-- `self.state.dolqstart.as_deref() == Some(tag)`.
abbrev is_tag : Option Bytes → Bytes → Bool
is_tag none tag = false
is_tag (some open_tag) tag = bytes_eq open_tag tag

-- `step_xdolq`.
unfoldable pub step_xdolq : Work → Work
step_xdolq w = elim (match_dolqdelim (rest w)) [
  | some n ↦
      if is_tag w.state.dolqstart (take n (rest w))
      then echo n (enter StartState.initial (set_dolqstart none w))
      else echo (n - 1) w
  | none ↦
      if peek (rest w) 0 == b'$'
      then echo (1 + count_while is_dolq_cont (drop 1 (rest w))) w
      else echo (count_while (λ c. not (c == b'$')) (rest w)) w
]

-- `step_xd`.
unfoldable pub step_xd : Work → Work
step_xd w =
    if begins (rest w) b'"' b'"'
    then echo 2 w
    else if peek (rest w) 0 == b'"'
    then echo 1 (enter StartState.initial w)
    else echo (count_while (λ c. not (c == b'"')) (rest w)) w
