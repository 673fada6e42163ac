-- ===== src/Psql/Scan/Semicolon.antt =====
-- crates/rpsql/src/scan.rs: where `scan` says that a statement has ended.
use mathlib.Core.Path.{subst}
use pgrust_drop.Prelude.{
  ℕ, zero, suc, Bool, true, false, not, ◌&&◌, ◌||◌, List, [], ◌∷◌, ◌++◌, Option, none, some, ltb,
  ◌==◌, if◌then◌else◌, take, is_nil, Bytes, ◌≡◌, ◌≢◌, refl, sym, ap, ◌∙◌, arith, either,
  Option-cases, inl, inr,
}
use pgrust_drop.Psql.Scan.Chars.{peek, count_while, is_space, is_newline}
use pgrust_drop.Psql.Scan.Work.{
  LexRes, ScanResult, PromptStatus, StartState, VariableSource, ScanState, Scanner, Buf, Work, rest,
  echo, skip,
}
use pgrust_drop.Psql.Scan.Quoted.{begins}
use pgrust_drop.Psql.Scan.Track.{count_statement}
use pgrust_drop.Psql.Scan.Colon.{step_colon}
use pgrust_drop.Psql.Scan.Initial.{
  Fired, on, suppress, is_letter, enter_if, open_comment, at_depth_0, initial_semicolon,
  initial_backslash, initial_control, initial_dollar, prefix_of, initial_unicode, initial_quote,
  step_initial,
}
use pgrust_drop.Psql.Scan.Run.{
  step_in, pop, step, run, decode, decode_eol, at_line_end, Scanned, conclude, scan,
}
use pgrust_drop.Psql.Scan.Fits.{split, split_option}

-- Outside quotes, parentheses and the body of a routine, with a semicolon put to the statement last,
-- and the words of the next statement still to come.
unfoldable pub IsEnded : ScanState → Bytes → Type 0
IsEnded s out =
    (s.start_state ≡ StartState.initial)
    × (s.paren_depth ≡ 0)
    × (s.begin_depth ≡ 0)
    × (s.init_idents_count ≡ 0)
    × ((text : Bytes) × (out ≡ text ++ b';' ∷ []))

unfoldable pub EndsRight : Fired → Type 0
EndsRight f = f.1 ≡ some LexRes.semi → IsEnded f.0.state f.0.out

goes_on : (f : Fired) → f.1 ≡ none → EndsRight f
unfolding EndsRight
goes_on f n e = absurd (grind (arith, n, e))

stops : (f : Fired) → f.1 ≢ some LexRes.semi → EndsRight f
unfolding EndsRight
stops f n e = absurd (n e)

take_one :
    (left : Bytes) (c : ℕ) → ltb 0 c ≡ true → (peek left 0 == c) ≡ true → take 1 left ≡ c ∷ []
take_one [] c p h = absurd (ground (arith, p, h))
take_one (x ∷ left) c p h = ap (λ y. y ∷ []) (ground (arith, h))

module _ (vars : VariableSource) (w : Work)
    (outside : w.state.start_state ≡ StartState.initial) where
  initial_semicolon-EndsRight : (peek (rest w) 0 == b';') ≡ true → EndsRight (initial_semicolon w)
  unfolding initial_semicolon EndsRight IsEnded count_statement echo
  initial_semicolon-EndsRight h =
      split EndsRight (at_depth_0 w) {y = on (echo 1 w)}
        (λ e q. (
          outside,
          ground (arith, e),
          ground (arith, e),
          refl,
          (w.out, ap (λ t. w.out ++ t) (take_one (rest w) b';' refl h)),
        ))
        (λ e. goes_on (on (echo 1 w)) refl)

  initial_backslash-EndsRight : EndsRight (initial_backslash w)
  unfolding initial_backslash
  initial_backslash-EndsRight =
      either EndsRight (peek (rest w) 1 == b';' || peek (rest w) 1 == b':')
        {y = (skip 1 w, some LexRes.backslash)} (goes_on _ refl) (stops _ (grind arith))

  initial_control-EndsRight : EndsRight (initial_control vars w)
  unfolding initial_control
  initial_control-EndsRight =
      let c = peek (rest w) 0 in
      let E = EndsRight in
      split E (c == b'(') (λ e. goes_on _ refl)
        (λ e.
          split E (c == b')') (λ e. goes_on _ refl)
            (λ e.
              split E (c == b';') (λ e. initial_semicolon-EndsRight e)
                (λ e.
                  split E (c == b'\\') (λ e. initial_backslash-EndsRight)
                    (λ e.
                      either E (c == b':') {x = on (step_colon vars w)} (goes_on _ refl)
                        (goes_on _ refl)))))

  initial_quote-EndsRight : EndsRight (initial_quote vars w)
  unfolding initial_quote
  initial_quote-EndsRight =
      let c = peek (rest w) 0 in
      let next = peek (rest w) 1 in
      let E = EndsRight in
      split_option E (if next == b'\'' then prefix_of c else none)
        {f = λ p. on (echo (p.1) (enter_if (p.0) w))}
        (λ g.
          either E (is_letter b'u' c && next == b'&') {x = on (initial_unicode w)} (goes_on _ refl)
            (split E (c == b'\'') (λ e. goes_on _ refl)
              (λ e.
                split E (c == b'"') (λ e. goes_on _ refl)
                  (λ e.
                    either E (c == b'$') {x = on (initial_dollar w)} (goes_on _ refl)
                      initial_control-EndsRight))))
        (λ p g. goes_on _ refl)

  step_initial-EndsRight : EndsRight (step_initial vars w)
  unfolding step_initial
  step_initial-EndsRight =
      let E = EndsRight in
      either E (is_space (peek (rest w) 0)) {x = on (suppress (count_while is_space (rest w)) w)}
        (goes_on _ refl)
        (either E (begins (rest w) b'-' b'-')
          {x = on (suppress (count_while (λ c. not (is_newline c)) (rest w)) w)} (goes_on _ refl)
          (either E (begins (rest w) b'/' b'*') {x = on (echo 2 (open_comment w))} (goes_on _ refl)
            initial_quote-EndsRight))

step_in-EndsRight :
    (vars : VariableSource) (w : Work) (s : StartState)
    → w.state.start_state ≡ s
    → EndsRight (step_in s vars w)
unfolding step_in
step_in-EndsRight vars w StartState.initial h = step_initial-EndsRight vars w h
step_in-EndsRight vars w s h = goes_on _ refl

pop-EndsRight : (bs : List Buf) (w : Work) → EndsRight (pop bs w)
unfolding pop
pop-EndsRight [] w = stops _ (grind arith)
pop-EndsRight (b ∷ bs) w = goes_on _ refl

step-EndsRight : (vars : VariableSource) (w : Work) → EndsRight (step vars w)
unfolding step
step-EndsRight vars w =
    either EndsRight (is_nil (rest w)) (pop-EndsRight w.below w)
      (step_in-EndsRight vars w w.state.start_state refl)

pub run-next :
    (fuel : ℕ) (vars : VariableSource) (w : Work)
    → (step vars w).1 ≡ none
    → run (suc fuel) vars w ≡ run fuel vars ((step vars w).0)
unfolding run
run-next fuel vars w e = rw (e, run) refl

pub run-stop :
    (fuel : ℕ) (vars : VariableSource) (w : Work) (r : LexRes)
    → (step vars w).1 ≡ some r
    → run (suc fuel) vars w ≡ some ((step vars w).0, r)
unfolding run
run-stop fuel vars w r e = rw (e, run) refl

run-semi :
    (fuel : ℕ) (vars : VariableSource) (w : Work) (x : Work × LexRes)
    → run fuel vars w ≡ some x
    → x.1 ≡ LexRes.semi
    → IsEnded x.0.state x.0.out
unfolding EndsRight run
run-semi zero vars w x h k = absurd (grind (arith, h))
run-semi (suc fuel) vars w x h k = elim (Option-cases ((step vars w).1)) [
  | inl e ↦ run-semi fuel vars ((step vars w).0) x (sym (run-next fuel vars w e) ∙ h) k
  | inr (r, e) ↦
      let got : ((step vars w).0, r) ≡ x =
        ap (λ o. elim o [ none ↦ x | some p ↦ p ]) (sym (run-stop fuel vars w r e) ∙ h) in
      subst (λ (p : Work × LexRes). IsEnded p.0.state p.0.out) got
        (step-EndsRight vars w (e ∙ ap some (ap (λ (p : Work × LexRes). p.1) got ∙ k)))
]

-- Only the result of the lexer that is a semicolon is told as one.
unfoldable pub is_semicolon : ScanResult → Bool
is_semicolon ScanResult.semicolon = true
is_semicolon _ = false

pub at_line_end_no : (s : ScanState) (out : Bytes) → is_semicolon ((at_line_end s out).0) ≡ false
unfolding at_line_end is_semicolon
at_line_end_no s out = ground arith

pub decode_eol_no :
    (start : StartState) (s : ScanState) (out : Bytes)
    → is_semicolon ((decode_eol start s out).0) ≡ false
unfolding decode_eol is_semicolon
decode_eol_no StartState.initial s out = at_line_end_no s out
decode_eol_no StartState.xqs s out = at_line_end_no s out
decode_eol_no start s out = refl

decode_semi :
    (r : LexRes) (s : ScanState) (out : Bytes)
    → is_semicolon ((decode r s out).0) ≡ true
    → r ≡ LexRes.semi
unfolding decode is_semicolon
decode_semi LexRes.semi s out h = refl
decode_semi LexRes.backslash s out h = absurd (grind (arith, h))
decode_semi LexRes.eol s out h = absurd (grind (arith, h, decode_eol_no s.start_state s out))

-- A result that is a semicolon is told of an ended statement.
TellsRight : Scanned → Type 0
TellsRight (Scanned.scanned s out r) = is_semicolon (r.0) ≡ true → IsEnded s.state out
TellsRight _ = Unit

conclude-TellsRight :
    (o : Option (Work × LexRes))
    → ((x : Work × LexRes) → o ≡ some x → x.1 ≡ LexRes.semi → IsEnded x.0.state x.0.out)
    → TellsRight (conclude o)
unfolding TellsRight
conclude-TellsRight none f = tt
conclude-TellsRight (some (w, r)) f = λ q. f (w, r) refl (decode_semi r w.state w.out q)

scan-TellsRight :
    (fuel : ℕ) (state : ScanState) (stack : List Buf) (query_buf : Bytes) (vars : VariableSource)
    → TellsRight (scan fuel (record { state = state; stack = stack }) query_buf vars)
unfolding scan TellsRight
scan-TellsRight fuel state [] query_buf vars = tt
scan-TellsRight fuel state (b ∷ bs) query_buf vars =
    conclude-TellsRight _
      (run-semi fuel vars (record { state = state; top = b; below = bs; out = query_buf }))

-- A statement ends right: when `scan` answers a semicolon, the lexer is outside quotes and comments,
-- at depth 0 of the parentheses and of the bodies of routines, the statement has a semicolon last,
-- and no word of the next one has been counted. This holds of any scanner, line, statement so far and
-- variables.
scan-IsEnded :
    (fuel : ℕ) (s s' : Scanner) (query_buf query_buf' : Bytes) (vars : VariableSource)
    (p : PromptStatus)
    → scan fuel s query_buf vars ≡ Scanned.scanned s' query_buf' (ScanResult.semicolon, p)
    → IsEnded s'.state query_buf'
unfolding TellsRight is_semicolon
scan-IsEnded fuel s s' query_buf query_buf' vars p h =
    subst TellsRight h (scan-TellsRight fuel s.state s.stack query_buf vars) refl
