-- ===== src/Tests/Statements.antt =====
-- The theorems on the lexer of psql at concrete lines.
use pgrust_drop.Prelude.{
  ℕ, ◌≤◌, [], ◌∷◌, ◌++◌, none, some, ◌≡◌, refl, arith, if◌then◌else◌, Bytes, codes, bytes_eq,
  Bool-cases, inl, inr,
}
use pgrust_drop.Psql.Quote.{escape_literal}
use pgrust_drop.Psql.Scan.Work.{
  ScanResult, PromptStatus, StartState, VariableSource, Buf, Scanner, Work, rest, echo,
}
use pgrust_drop.Psql.Scan.Chars.{count_while, is_space, is_non_newline_space, is_newline}
use pgrust_drop.Psql.Scan.Match.{match_quotecontinue, blank_length, quote_length}
use pgrust_drop.Psql.Scan.Quoted.{step_xq, step_xqs}
use pgrust_drop.Psql.Scan.Track.{is_copy_from_stdin, count_statement}
use pgrust_drop.Psql.Scan.Initial.{
  step_initial, initial_quote, initial_control, initial_semicolon, prefix_of,
}
use pgrust_drop.Psql.Scan.Run.{Scanned, scan, run, step_in, decode, new, step}
use pgrust_drop.Psql.Scan.Measure.{Covers, contains}
use pgrust_drop.Psql.Scan.Halts.{scan-ends}
use pgrust_drop.Psql.Scan.Semicolon.{is_semicolon}
use pgrust_drop.Psql.Scan.Nesting.{ends_in}
use pgrust_drop.Psql.Scan.Statement.{tokens, scan-semicolon}
use pgrust_drop.Psql.Scan.Whole.{ReadsWhole}
use pgrust_drop.Psql.Scan.Literal.{ReadsWhole-escape_literal}
use pgrust_drop.Psql.Scan.Copies.{Copies, step-Copies}

-- One variable, whose value names itself.
abbrev recursive : VariableSource
recursive = record {
  from_utf8_lossy = λ name. name;
  get_variable = λ name quote. if bytes_eq name (codes "a") then some (codes "1 + :a") else none;
}

recursive-Covers : Covers (codes "a" ∷ []) recursive
unfolding Covers contains
recursive-Covers name value h = elim (Bool-cases (bytes_eq name (codes "a"))) [
  | inl e ↦ rw e refl
  | inr e ↦ absurd (grind (arith, h, e))
]

abbrev buffer : Bytes → Buf
buffer line = record { data_ = line; pos = 0; varname = none }

abbrev on_line : Bytes → Scanner
on_line line = record { state = new.state; stack = buffer line ∷ [] }

scan-ends_example :
    (fuel : ℕ) × (s' : Scanner) × (query_buf' : Bytes) × (r : ScanResult × PromptStatus) × ((k : ℕ)
      → fuel ≤ k
      → scan k (on_line (codes "select :a;")) [] recursive ≡ Scanned.scanned s' query_buf' r)
scan-ends_example =
    scan-ends recursive (codes "a" ∷ []) recursive-Covers (on_line (codes "select :a;"))
      (buffer (codes "select :a;")) [] refl []

abbrev in_state : StartState → Bytes → Work
in_state start line = record {
  state = record new.state { start_state = start };
  top = buffer line;
  below = [];
  out = codes "x";
}

step-Copies_example :
    Copies
      (in_state StartState.xq (codes "a;b'"))
      ((step recursive (in_state StartState.xq (codes "a;b'"))).0)
    × ((step recursive (in_state StartState.xq (codes "a;b'"))).1 ≡ none)
unfolding rest
step-Copies_example =
    step-Copies recursive (in_state StartState.xq (codes "a;b'")) (grind arith) (grind arith) refl

abbrev ended : Scanner
ended = record {
  state = record new.state { state_before_str_stop = StartState.xq };
  stack = record { data_ = codes "(';');b"; pos = 6; varname = none } ∷ [];
}

-- The semicolon in quotes and parentheses ends nothing.
ended_line :
    scan 100 (on_line (codes "(';');b")) [] recursive
    ≡ Scanned.scanned ended (codes "(';');") (ScanResult.semicolon, PromptStatus.ready)
unfolding scan run step step_in step_initial initial_quote initial_control initial_semicolon
    prefix_of rest echo new is_space is_copy_from_stdin count_statement step_xq step_xqs count_while
    match_quotecontinue blank_length is_non_newline_space is_newline quote_length decode
ended_line = refl

scan-semicolon_example :
    is_semicolon ScanResult.semicolon
    ≡ ends_in 0 (tokens 100 (on_line (codes "(';');b")) [] recursive)
unfolding new
scan-semicolon_example =
    scan-semicolon 100 (on_line (codes "(';');b")) ended [] (codes "(';');") recursive
      ScanResult.semicolon PromptStatus.ready ended_line

abbrev hostile : Bytes
hostile = codes "it's; -- /* $$"

ReadsWhole-escape_literal_example :
    ReadsWhole recursive
      (λ s. record s { start_state = StartState.xqs; state_before_str_stop = StartState.xq })
      (in_state StartState.initial (escape_literal hostile ++ codes ";"))
      (escape_literal hostile)
      (codes ";")
unfolding rest new
ReadsWhole-escape_literal_example =
    ReadsWhole-escape_literal recursive
      (in_state StartState.initial (escape_literal hostile ++ codes ";")) hostile (codes ";") refl
      refl refl refl
