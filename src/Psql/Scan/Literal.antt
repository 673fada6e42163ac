-- ===== src/Psql/Scan/Literal.antt =====
-- crates/rpsql/src/scan.rs and variables.rs: how the lexer reads what `escape_literal` and
-- `escape_identifier` wrote.
use pgrust_drop.Prelude.{
  true, false, [], ◌∷◌, ◌++◌, none, ◌==◌, take, drop, length, is_nil, Bytes, ◌≡◌, refl, ap, ◌∙◌,
  arith, Bool-cases, inl, inr, append_assoc,
}
use pgrust_drop.Psql.Quote.{doubled, escape_literal, escape_identifier}
use pgrust_drop.Psql.Scan.Chars.{peek, is_space}
use pgrust_drop.Psql.Scan.Work.{StartState, VariableSource, ScanState, Work, rest, echo, enter}
use pgrust_drop.Psql.Scan.Quoted.{step_xq, step_xd}
use pgrust_drop.Psql.Scan.Initial.{prefix_of, initial_quote, step_initial}
use pgrust_drop.Psql.Scan.Run.{step_in, step}
use pgrust_drop.Psql.Scan.Whole.{Steps, quoted, ReadsWhole, rest-echo, read}

abbrev shut_literal : ScanState → ScanState
shut_literal s = record s { start_state = StartState.xqs; state_before_str_stop = s.start_state }

abbrev shut_identifier : ScanState → ScanState
shut_identifier s = record s { start_state = StartState.initial }

step-xq :
    (vars : VariableSource) (w : Work)
    → w.state.start_state ≡ StartState.xq
    → is_nil (rest w) ≡ false
    → step vars w ≡ (quoted b'\'' shut_literal w, none)
unfolding step step_in step_xq
step-xq vars w h n = rw (n, h) refl

step-xd :
    (vars : VariableSource) (w : Work)
    → w.state.start_state ≡ StartState.xd
    → is_nil (rest w) ≡ false
    → step vars w ≡ (quoted b'"' shut_identifier w, none)
unfolding step step_in step_xd
step-xd vars w h n = rw (n, h) refl

step-initial :
    (vars : VariableSource) (w : Work)
    → w.state.start_state ≡ StartState.initial
    → is_nil (rest w) ≡ false
    → step vars w ≡ step_initial vars w
unfolding step step_in
step-initial vars w h n = rw n (ap (λ s. step_in s vars w) h)

-- The quotes that open a string and an identifier.
step-initial_quote :
    (vars : VariableSource) (w : Work) (left : Bytes)
    → w.state.start_state ≡ StartState.initial
    → w.state.std_strings ≡ true
    → rest w ≡ b'\'' ∷ left
    → step vars w ≡ (echo 1 (enter StartState.xq w), none)
unfolding step_initial initial_quote rest prefix_of is_space
step-initial_quote vars w left h u r =
    let opened = step-initial vars w h (ap is_nil r) in
    let c : peek (rest w) 0 ≡ b'\'' = ap (λ l. peek l 0) r in
    elim (Bool-cases (peek (rest w) 1 == b'\'')) [
      | inl e ↦ opened ∙ rw (c, initial_quote, e, c, u) refl
      | inr e ↦ opened ∙ rw (c, initial_quote, e, c, u) refl
    ]

step-initial_identifier :
    (vars : VariableSource) (w : Work) (left : Bytes)
    → w.state.start_state ≡ StartState.initial
    → rest w ≡ b'"' ∷ left
    → step vars w ≡ (echo 1 (enter StartState.xd w), none)
unfolding step_initial initial_quote rest prefix_of is_space
step-initial_identifier vars w left h r =
    let opened = step-initial vars w h (ap is_nil r) in
    let c : peek (rest w) 0 ≡ b'"' = ap (λ l. peek l 0) r in
    elim (Bool-cases (peek (rest w) 1 == b'\'')) [
      | inl e ↦ opened ∙ rw (c, initial_quote, e, c) refl
      | inr e ↦ opened ∙ rw (c, initial_quote, e, c) refl
    ]

-- What is quoted is read as one string: outside quotes and comments, with strings standard, the
-- lexer reads `escape_literal` of any text whole, whatever quotes, semicolons, backslashes or comment
-- starts are in it and whatever follows it but a quote. It ends where a string ends, no statement
-- ends on the way, the depths and all else of the state stay, and the text goes to the statement as
-- it is.
pub ReadsWhole-escape_literal :
    (vars : VariableSource) (w : Work) (value after : Bytes)
    → w.state.start_state ≡ StartState.initial
    → w.state.std_strings ≡ true
    → (peek after 0 == b'\'') ≡ false
    → rest w ≡ escape_literal value ++ after
    → ReadsWhole vars
        (λ s. record s { start_state = StartState.xqs; state_before_str_stop = StartState.xq })
        w
        (escape_literal value)
        after
unfolding ReadsWhole escape_literal echo
ReadsWhole-escape_literal vars w value after h u a r =
    let w1 = echo 1 (enter StartState.xq w) in
    let left : rest w ≡ b'\'' ∷ (doubled b'\'' value ++ b'\'' ∷ after) =
      r ∙ ap (◌∷◌ b'\'') (append_assoc (doubled b'\'' value) (b'\'' ∷ []) after) in
    let opened = step-initial_quote vars w _ h u left in
    let (w', steps, st, b, e, o) =
      read vars b'\'' refl StartState.xq shut_literal (step-xq vars) (length value) value
        (omega arith) w1 after refl a
        (rest-echo 1 w ((enter StartState.xq w).state) ∙ ap (drop 1) left) in
    (
      w',
      Steps.next w w1 w' opened steps,
      st,
      b,
      e,
      o
          ∙ append_assoc w.out (take 1 (rest w)) (doubled b'\'' value ++ b'\'' ∷ [])
          ∙ ap (λ l. w.out ++ (take 1 l ++ (doubled b'\'' value ++ b'\'' ∷ []))) left,
    )

-- The same of `escape_identifier`, behind which the lexer is outside quotes again.
pub ReadsWhole-escape_identifier :
    (vars : VariableSource) (w : Work) (value after : Bytes)
    → w.state.start_state ≡ StartState.initial
    → (peek after 0 == b'"') ≡ false
    → rest w ≡ escape_identifier value ++ after
    → ReadsWhole vars
        (λ s. record s { start_state = StartState.initial })
        w
        (escape_identifier value)
        after
unfolding ReadsWhole escape_identifier echo
ReadsWhole-escape_identifier vars w value after h a r =
    let w1 = echo 1 (enter StartState.xd w) in
    let left : rest w ≡ b'"' ∷ (doubled b'"' value ++ b'"' ∷ after) =
      r ∙ ap (◌∷◌ b'"') (append_assoc (doubled b'"' value) (b'"' ∷ []) after) in
    let opened = step-initial_identifier vars w _ h left in
    let (w', steps, st, b, e, o) =
      read vars b'"' refl StartState.xd shut_identifier (step-xd vars) (length value) value
        (omega arith) w1 after refl a
        (rest-echo 1 w ((enter StartState.xd w).state) ∙ ap (drop 1) left) in
    (
      w',
      Steps.next w w1 w' opened steps,
      st,
      b,
      e,
      o
          ∙ append_assoc w.out (take 1 (rest w)) (doubled b'"' value ++ b'"' ∷ [])
          ∙ ap (λ l. w.out ++ (take 1 l ++ (doubled b'"' value ++ b'"' ∷ []))) left,
    )
