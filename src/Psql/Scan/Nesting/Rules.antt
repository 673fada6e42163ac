-- ===== src/Psql/Scan/Nesting/Rules.antt =====
-- The rules of crates/rpsql/src/scan.rs beside the count of parentheses.
use pgrust_drop.Prelude.{
  ℕ, Bool, true, false, not, ◌&&◌, List, [], ◌∷◌, Option, none, some, ◌==◌, if◌then◌else◌, is_nil,
  Bytes, ◌≡◌, refl, arith, either,
}
use pgrust_drop.Psql.Scan.Chars.{peek, count_while, is_space, is_newline}
use pgrust_drop.Psql.Scan.Work.{StartState, VariableSource, Buf, Work, rest, echo, skip}
use pgrust_drop.Psql.Scan.Quoted.{begins}
use pgrust_drop.Psql.Scan.Track.{count_statement}
use pgrust_drop.Psql.Scan.Colon.{step_colon}
use pgrust_drop.Psql.Scan.Initial.{
  Fired, on, suppress, is_letter, enter_if, open_comment, initial_semicolon, initial_backslash,
  initial_control, initial_dollar, prefix_of, initial_unicode, initial_quote, step_initial,
}
use pgrust_drop.Psql.Scan.Run.{step_in, pop, step}
use pgrust_drop.Psql.Scan.Fits.{split, split_option}
use pgrust_drop.Psql.Scan.Nesting.{
  byte_in, outside, nest_at, ends_at, is_semi, Same, echo-Same, step_xc-Same, step_xb_xh-Same,
  step_xq-Same, step_xe-Same, step_xqs-Same, step_xdolq-Same, step_xd-Same, step_colon-Same,
  initial_dollar-Same, initial_token-Same, initial_unicode-Same,
}

-- What a rule comes to, by the byte it is at.
unfoldable pub Nests : Work → ℕ → Fired → Type 0
Nests w c f =
    (f.0.state.paren_depth ≡ nest_at w.state.paren_depth c)
    × (is_semi f.1 ≡ ends_at w.state.paren_depth w.state.begin_depth c)

-- A byte that is no parenthesis and no semicolon.
abbrev is_plain : ℕ → Bool
is_plain c = not (c == b'(') && not (c == b')') && not (c == b';')

plain-Nests :
    (w : Work) (c : ℕ) (f : Fired)
    → is_plain c ≡ true
    → f.0.state.paren_depth ≡ w.state.paren_depth
    → is_semi f.1 ≡ false
    → Nests w c f
unfolding Nests
plain-Nests w c f h same goes = (ground (arith, same, h), ground (arith, goes, h))

module _ (vars : VariableSource) (w : Work) where
  abbrev byte : ℕ
  byte = peek (rest w) 0

  initial_semicolon-Nests : (byte == b';') ≡ true → Nests w byte (initial_semicolon w)
  unfolding Nests initial_semicolon count_statement echo
  initial_semicolon-Nests h = (ground (arith, h), ground (arith, h))

  initial_backslash-Nests : (byte == b'\\') ≡ true → Nests w byte (initial_backslash w)
  unfolding Nests initial_backslash count_statement echo skip
  initial_backslash-Nests h = (ground (arith, h), ground (arith, h))

  initial_control-Nests : Nests w byte (initial_control vars w)
  unfolding initial_control
  initial_control-Nests =
      let N = Nests w byte in
      split N (byte == b'(') (λ e. unfold Nests echo in (ground (arith, e), ground (arith, e)))
        (λ o.
          split N (byte == b')') (λ e. unfold Nests echo in (ground (arith, e), ground (arith, e)))
            (λ p. split N (byte == b';') initial_semicolon-Nests (λ s.
              let plain : is_plain byte ≡ true = ground (arith, o, p, s) in
              split N (byte == b'\\') initial_backslash-Nests (λ e.
                either N (byte == b':') {x = on (step_colon vars w)}
                  (plain-Nests w byte _ plain (step_colon-Same w vars) refl)
                  (plain-Nests w byte _ plain (initial_token-Same w) refl)))))

  quote_letter_plain :
      (b : Bool) (p : Option StartState × ℕ)
      → (if b then prefix_of byte else none) ≡ some p
      → is_plain byte ≡ true
  unfolding prefix_of
  quote_letter_plain b p h = ground arith

  enter_if-Same : (n : ℕ) (opened : Option StartState) → Same w (echo n (enter_if opened w))
  unfolding echo
  enter_if-Same n opened = ground arith

  initial_quote-Nests : Nests w byte (initial_quote vars w)
  unfolding initial_quote
  initial_quote-Nests =
      let next = peek (rest w) 1 in
      let N = Nests w byte in
      split_option N (if next == b'\'' then prefix_of byte else none)
        {f = λ p. on (echo (p.1) (enter_if (p.0) w))}
        (λ g.
          split N (is_letter b'u' byte && next == b'&') {x = on (initial_unicode w)}
            (λ e. plain-Nests w byte _ (ground (arith, e)) (initial_unicode-Same w) refl)
            (λ u.
              split N (byte == b'\'')
                (λ e. plain-Nests w byte _ (ground (arith, e)) (echo-Same w 1 _ refl) refl)
                (λ q.
                  split N (byte == b'"')
                    (λ e. plain-Nests w byte _ (ground (arith, e)) (echo-Same w 1 _ refl) refl)
                    (λ d.
                      split N (byte == b'$') {x = on (initial_dollar w)}
                        (λ e. plain-Nests w byte _ (ground (arith, e)) (initial_dollar-Same w) refl)
                        (λ e. initial_control-Nests)))))
        (λ p g.
          plain-Nests w byte _ (quote_letter_plain (next == b'\'') p g) (enter_if-Same (p.1) (p.0))
            refl)

  suppress-Same : (n : ℕ) → Same w (suppress n w)
  unfolding echo skip
  suppress-Same n = ground arith

  space_plain : is_space byte ≡ true → is_plain byte ≡ true
  unfolding is_space
  space_plain h = ground (arith, h)

  step_initial-Nests : Nests w byte (step_initial vars w)
  unfolding step_initial
  step_initial-Nests =
      let N = Nests w byte in
      split N (is_space byte) {x = on (suppress (count_while is_space (rest w)) w)}
        (λ e. plain-Nests w byte _ (space_plain e) (suppress-Same _) refl)
        (λ n.
          split N (begins (rest w) b'-' b'-')
            {x = on (suppress (count_while (λ c. not (is_newline c)) (rest w)) w)}
            (λ e. plain-Nests w byte _ (ground (arith, e)) (suppress-Same _) refl)
            (λ m.
              split N (begins (rest w) b'/' b'*') {x = on (echo 2 (open_comment w))}
                (λ e. plain-Nests w byte _ (ground (arith, e)) (echo-Same w 2 _ refl) refl)
                (λ o. initial_quote-Nests)))

step_in-Nests :
    (vars : VariableSource) (w : Work) (s : StartState)
    → Nests w (byte_in s (peek (rest w) 0)) (step_in s vars w)
unfolding step_in
step_in-Nests vars w StartState.initial = step_initial-Nests vars w
step_in-Nests vars w StartState.xc = plain-Nests w 0 _ refl (step_xc-Same w) refl
step_in-Nests vars w StartState.xb = plain-Nests w 0 _ refl (step_xb_xh-Same w _) refl
step_in-Nests vars w StartState.xh = plain-Nests w 0 _ refl (step_xb_xh-Same w _) refl
step_in-Nests vars w StartState.xq = plain-Nests w 0 _ refl (step_xq-Same w) refl
step_in-Nests vars w StartState.xus = plain-Nests w 0 _ refl (step_xq-Same w) refl
step_in-Nests vars w StartState.xe = plain-Nests w 0 _ refl (step_xe-Same w) refl
step_in-Nests vars w StartState.xqs = plain-Nests w 0 _ refl (step_xqs-Same w) refl
step_in-Nests vars w StartState.xdolq = plain-Nests w 0 _ refl (step_xdolq-Same w) refl
step_in-Nests vars w StartState.xd = plain-Nests w 0 _ refl (step_xd-Same w) refl
step_in-Nests vars w StartState.xui = plain-Nests w 0 _ refl (step_xd-Same w) refl

nothing_left : (s : StartState) (left : Bytes) → is_nil left ≡ true → byte_in s (peek left 0) ≡ 0
nothing_left s [] h = ground arith
nothing_left s (x ∷ left) h = absurd (grind (arith, h))

pop-Nests : (bs : List Buf) (w : Work) → Nests w 0 (pop bs w)
unfolding pop
pop-Nests [] w = plain-Nests w 0 _ refl refl refl
pop-Nests (b ∷ bs) w = plain-Nests w 0 _ refl refl refl

-- Every step moves the lexer's depth as the count does, and stops at a semicolon exactly where the
-- count says that the statement ends.
pub step-Nests : (vars : VariableSource) (w : Work) → Nests w (outside w) (step vars w)
unfolding step
step-Nests vars w =
    split (Nests w (outside w)) (is_nil (rest w))
      (λ e. rw (nothing_left w.state.start_state (rest w) e) (pop-Nests w.below w))
      (λ e. step_in-Nests vars w w.state.start_state)
