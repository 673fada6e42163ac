-- ===== src/Psql/Scan/Nesting.antt =====
-- crates/rpsql/src/scan.rs: the tokens that the lexer meets on a line, and a count of the parentheses
-- among them that is not the lexer's.
pub mod Rules
use pgrust_drop.Prelude.{
  ℕ, zero, suc, ◌+◌, ◌-◌, Bool, true, false, not, ◌&&◌, ◌||◌, List, [], ◌∷◌, Option, none, some,
  leb, ◌==◌, if◌then◌else◌, take, drop, is_nil, Bytes, ◌≡◌, refl, sym, ap, ◌∙◌, arith, either,
  Option-cases, inl, inr, Bool-cases,
}
use pgrust_drop.Psql.Scan.Chars.{peek, count_while, is_space, is_newline, is_ident_cont}
use pgrust_drop.Psql.Scan.Match.{match_xcstop, match_dolqdelim, match_quotecontinue}
use pgrust_drop.Psql.Scan.Work.{
  LexRes, StartState, VariableSource, ScanState, Scanner, Buf, QuoteType, Work, rest, echo, skip,
}
use pgrust_drop.Psql.Scan.Quoted.{
  begins, step_xc, step_xb_xh, step_xq, step_xe, step_xqs, step_xdolq, step_xd,
}
use pgrust_drop.Psql.Scan.Track.{
  track_identifier, record_initial_keyword, track_begin, count_statement,
}
use pgrust_drop.Psql.Scan.Colon.{
  step_colon, colon_quoted, colon_test, colon_name, name_length, name_at, var_is_current_source,
}
use pgrust_drop.Psql.Scan.Initial.{
  Fired, on, suppress, is_letter, enter_if, open_comment, at_depth_0, initial_semicolon,
  initial_backslash, initial_control, initial_dollar, initial_token, prefix_of, initial_unicode,
  initial_quote, step_initial,
}
use pgrust_drop.Psql.Scan.Run.{step_in, pop, step}
use pgrust_drop.Psql.Scan.Fits.{split, split_option}

-- The byte a token starts with, when it stands outside quotes and comments.
abbrev pub byte_in : StartState → ℕ → ℕ
byte_in StartState.initial c = c
byte_in _ c = 0

abbrev pub outside : Work → ℕ
outside w = byte_in w.state.start_state (peek (rest w) 0)

-- How a token changes the depth of the parentheses.
abbrev pub nest_at : ℕ → ℕ → ℕ
nest_at d c = if c == b'(' then suc d else if c == b')' then d - 1 else d

abbrev pub nest : ℕ → Work → ℕ
nest d w = nest_at d (outside w)

-- A semicolon outside the parentheses, by that count, and outside the bodies of routines.
abbrev pub ends_at : ℕ → ℕ → ℕ → Bool
ends_at d bodies c = c == b';' && d == 0 && bodies == 0

abbrev pub ends : ℕ → Work → Bool
ends d w = ends_at d w.state.begin_depth (outside w)

-- Is there such a semicolon among the tokens?
unfoldable pub ends_in : ℕ → List Work → Bool
ends_in d [] = false
ends_in d (w ∷ ws) = let later = ends_in (nest d w) ws in ends d w || later

abbrev pub is_semi : Option LexRes → Bool
is_semi (some LexRes.semi) = true
is_semi _ = false

abbrev pub Same : Work → Work → Type 0
Same w w' = w'.state.paren_depth ≡ w.state.paren_depth

module _ (w : Work) where
  pub echo-Same : (n : ℕ) (v : Work) → v.state.paren_depth ≡ w.state.paren_depth → Same w (echo n v)
  unfolding echo
  echo-Same n v same = same

  pub step_xc-Same : Same w (step_xc w)
  unfolding step_xc echo
  step_xc-Same = ground arith

  pub step_xb_xh-Same : (here : StartState) → Same w (step_xb_xh here w)
  unfolding step_xb_xh echo
  step_xb_xh-Same here = ground arith

  pub step_xq-Same : Same w (step_xq w)
  unfolding step_xq echo
  step_xq-Same = ground arith

  pub step_xe-Same : Same w (step_xe w)
  unfolding step_xe echo
  step_xe-Same = ground arith

  pub step_xqs-Same : Same w (step_xqs w)
  unfolding step_xqs echo
  step_xqs-Same = ground arith

  pub step_xdolq-Same : Same w (step_xdolq w)
  unfolding step_xdolq echo
  step_xdolq-Same = ground arith

  pub step_xd-Same : Same w (step_xd w)
  unfolding step_xd echo
  step_xd-Same = ground arith

  pub track_identifier-Same :
      (identifier : Bytes) (s : ScanState)
      → (track_identifier identifier s).paren_depth ≡ s.paren_depth
  unfolding track_identifier record_initial_keyword track_begin
  track_identifier-Same identifier s = ground arith

  pub step_colon-Same : (vars : VariableSource) → Same w (step_colon vars w)
  unfolding step_colon colon_quoted colon_test colon_name echo skip
  step_colon-Same vars = ground arith

  pub initial_dollar-Same : Same w (initial_dollar w)
  unfolding initial_dollar echo
  initial_dollar-Same = ground arith

  pub initial_token-Same : Same w (initial_token w)
  unfolding initial_token echo
  initial_token-Same = ground (
    arith,
    track_identifier-Same (take (1 + count_while is_ident_cont (drop 1 (rest w))) (rest w)) w.state,
  )

  pub initial_unicode-Same : Same w (initial_unicode w)
  unfolding initial_unicode echo
  initial_unicode-Same = ground arith
