-- ===== src/Psql/Scan/Moves.antt =====
-- crates/rpsql/src/scan.rs: what a step outside quotes and comments does to the buffers.
use pgrust_drop.Prelude.{
  ℕ, ◌+◌, ◌≤◌, true, false, ◌&&◌, ◌||◌, ◌∷◌, Option, none, some, ltb, leb, ◌==◌, if◌then◌else◌,
  length, take, drop, is_nil, Bytes, ◌≡◌, ◌⊎◌, inl, inr, refl, arith, Bool-cases, either,
}
use pgrust_drop.Psql.Scan.Chars.{
  peek, count_while, is_digit, is_ident_start, is_ident_cont, is_dolq_start, is_self, is_op_char,
  is_variable_char,
}
use pgrust_drop.Psql.Scan.Match.{match_dolqdelim, match_number, operator_length}
use pgrust_drop.Psql.Scan.Work.{
  StartState, ScanState, VariableSource, QuoteType, LexRes, Work, rest, echo, skip, enter, advance,
}
use pgrust_drop.Psql.Scan.Quoted.{set_dolqstart}
use pgrust_drop.Psql.Scan.Colon.{
  name_length, name_at, var_is_current_source, colon_quoted, colon_test, colon_name, push_buf,
  step_colon,
}
use pgrust_drop.Psql.Scan.Initial.{
  Fired, at_depth_0, initial_token, initial_semicolon, initial_backslash, initial_control,
  initial_dollar,
}
use pgrust_drop.Psql.Scan.Fits.{
  Fits, Fits-1, split, split_option, count_while_behind, peek_inside, Given-some, Delimits,
  match_dolqdelim_within,
}
use pgrust_drop.Psql.Scan.Tokens.{Fits-match_number, Fits-operator_length}

-- The step reads bytes of the buffer on top, at least one and none behind its end.
unfoldable pub Reads : Work → Work → Type 0
unfolding rest
Reads w w' = (n : ℕ) × Fits n (rest w) × (w'.top ≡ (advance n w).top) × (w'.below ≡ w.below)

-- The step reads a variable's name, and puts its value on top of what is behind the name. The
-- variable is set, and it is not being read already.
unfoldable pub Expands : VariableSource → Work → Work → Type 0
unfolding rest
Expands vars w w' =
    (n : ℕ) × (name : Bytes) × (value : Bytes) × Fits n (rest w)
    × (w'.top ≡ record { data_ = value; pos = 0; varname = some name })
    × (w'.below ≡ (advance n w).top ∷ w.below)
    × (vars.get_variable name QuoteType.plain ≡ some value)
    × (var_is_current_source name w ≡ false)

unfoldable pub Moves : VariableSource → Work → Work → Type 0
Moves vars w w' = Reads w w' ⊎ Expands vars w w'

unfoldable pub FiredMoves : VariableSource → Work → Fired → Type 0
unfolding Moves
FiredMoves vars w f = Moves vars w (f.0)

module _ (vars : VariableSource) (w : Work) (some_left : is_nil (rest w) ≡ false) where
  -- An `echo`, after any change of the state.
  pub reads :
      (s : ScanState) (n : ℕ) → Fits n (rest w) → Moves vars w (echo n (record w { state = s }))
  unfolding rest echo Reads Moves
  reads s n f = inl (n, f, refl, refl)

  pub plain : (n : ℕ) → Fits n (rest w) → Moves vars w (echo n w)
  plain n f = reads w.state n f

  pub one : (s : ScanState) → Moves vars w (echo 1 (record w { state = s }))
  one s = reads s 1 (Fits-1 (rest w) some_left)

  -- A `skip`, with anything pushed to the statement, before any change of the state.
  pub skips :
      (s : ScanState) (n : ℕ) (o : Bytes)
      → Fits n (rest w)
      → Moves vars w (record (skip n w) { state = s; out = o })
  unfolding rest skip Reads Moves
  skips s n o f = inl (n, f, refl, refl)

  initial_token-Moves : Moves vars w (initial_token w)
  unfolding initial_token
  initial_token-Moves =
      let c = peek (rest w) 0 in
      let M = Moves vars w in
      split M (is_op_char c)
        (λ e. plain (operator_length (rest w)) (Fits-operator_length (rest w) some_left))
        (λ e.
          split M (is_digit c || (c == b'.' && is_digit (peek (rest w) 1)))
            (λ d. plain (match_number (rest w)) (Fits-match_number (rest w) some_left d))
            (λ d.
              split M (is_ident_start c)
                (λ i. reads _ (1 + count_while is_ident_cont (drop 1 (rest w))) (
                  omega arith,
                  count_while_behind is_ident_cont 1 (rest w) ((Fits-1 (rest w) some_left).1),
                ))
                (λ i. split M (is_self c) (λ k. one w.state) (λ k. one w.state))))

  initial_semicolon-Moves : FiredMoves vars w (initial_semicolon w)
  unfolding initial_semicolon FiredMoves Moves Reads rest echo
  initial_semicolon-Moves =
      let f = Fits-1 (rest w) some_left in
      either (FiredMoves vars w) (at_depth_0 w) (inl (1, f, refl, refl)) (inl (1, f, refl, refl))

  -- The character behind a backslash is in the buffer.
  two_left : (peek (rest w) 1 == b';' || peek (rest w) 1 == b':') ≡ true → Fits 2 (rest w)
  two_left e = elim (Bool-cases (peek (rest w) 1 == b';')) [
    | inl g ↦ (omega arith, omega (arith, peek_inside (rest w) 1 b';' refl g))
    | inr g ↦ (omega arith, omega (arith, peek_inside (rest w) 1 b':' refl (ground (arith, e, g))))
  ]

  initial_backslash-Moves : FiredMoves vars w (initial_backslash w)
  unfolding initial_backslash FiredMoves skip
  initial_backslash-Moves =
      let next = peek (rest w) 1 in
      split (FiredMoves vars w) (next == b';' || next == b':')
        {y = (skip 1 w, some LexRes.backslash)}
        (λ e.
          either (Moves vars w) (next == b';' && at_depth_0 w) (skips _ 2 _ (two_left e))
            (skips _ 2 _ (two_left e)))
        (λ e. skips w.state 1 w.out (Fits-1 (rest w) some_left))

  delimited :
      (n : ℕ)
      → Delimits (rest w) n
      → Moves vars w (echo n (enter StartState.xdolq (set_dolqstart (some (take n (rest w))) w)))
  unfolding Delimits
  delimited n d = reads _ n (omega (arith, d.0), d.1)

  pub initial_dollar-Moves : Moves vars w (initial_dollar w)
  unfolding initial_dollar
  initial_dollar-Moves =
      let digits = count_while is_digit (drop 1 (rest w)) in
      let within = count_while_behind is_digit 1 (rest w) ((Fits-1 (rest w) some_left).1) in
      split_option (Moves vars w) (match_dolqdelim (rest w))
        (λ g.
          split (Moves vars w) (is_dolq_start (peek (rest w) 1)) (λ e. one w.state)
            (λ e.
              split (Moves vars w) (leb 1 digits)
                (λ d.
                  plain _
                    (omega arith, count_while_behind is_ident_cont (1 + digits) (rest w) within))
                (λ d. one w.state)))
        (λ n g. delimited n (Given-some (Delimits (rest w)) _ (match_dolqdelim_within (rest w)) g))

  name_within : (i : ℕ) → i ≤ length (rest w) → i + name_length i w ≤ length (rest w)
  name_within i h = count_while_behind is_variable_char i (rest w) h

  colon_quoted-Moves : (delim : ℕ) → ltb 0 delim ≡ true → Moves vars w (colon_quoted vars delim w)
  unfolding colon_quoted skip
  colon_quoted-Moves delim p =
      let n = name_length 2 w in
      split (Moves vars w) (leb 1 n && peek (rest w) (2 + n) == delim)
        (λ e.
          skips w.state (3 + n) _
            (omega arith, omega (arith, peek_inside (rest w) (2 + n) delim p (ground (arith, e)))))
        (λ e. one w.state)

  colon_test-Moves : Moves vars w (colon_test vars w)
  unfolding colon_test skip
  colon_test-Moves =
      let n = name_length 3 w in
      split (Moves vars w) (leb 1 n && peek (rest w) (3 + n) == b'}')
        (λ e.
          skips w.state (4 + n) _ (
            omega arith,
            omega (arith, peek_inside (rest w) (3 + n) b'}' refl (ground (arith, e))),
          ))
        (λ e. one w.state)

  expand :
      {n : ℕ} {name : Bytes} (found : Option Bytes)
      → vars.get_variable name QuoteType.plain ≡ found
      → Fits n (rest w)
      → Moves vars w (elim found [
        | none ↦ echo n w
        | some value ↦
            if var_is_current_source name w
            then echo n w
            else push_buf (record { data_ = value; pos = 0; varname = some name }) (skip n w)
      ])
  unfolding rest skip Moves Expands
  expand none h f = plain _ f
  expand {n = n} {name = name} (some value) h f =
      split (Moves vars w) (var_is_current_source name w) (λ e. plain n f)
        (λ e. inr (n, name, value, f, refl, refl, h, e))

  colon_name-Moves : Moves vars w (colon_name vars w)
  unfolding colon_name
  colon_name-Moves =
      let n = name_length 1 w in
      let f : Fits (1 + n) (rest w) =
        (omega arith, name_within 1 ((Fits-1 (rest w) some_left).1)) in
      split (Moves vars w) (leb 1 n)
        (λ e. expand (vars.get_variable (name_at vars 1 w) QuoteType.plain) refl f)
        (λ e. one w.state)

  step_colon-Moves : Moves vars w (step_colon vars w)
  unfolding step_colon
  step_colon-Moves =
      let next = peek (rest w) 1 in
      let M = Moves vars w in
      split M (next == b'=' || next == b':')
        (λ e. plain _ (Fits-operator_length (rest w) some_left))
        (λ e.
          split M (next == b'\'' || next == b'"') (λ q. colon_quoted-Moves next (ground (arith, q)))
            (λ q.
              split M (next == b'{' && peek (rest w) 2 == b'?') (λ t. colon_test-Moves)
                (λ t. colon_name-Moves)))

  pub initial_control-Moves : FiredMoves vars w (initial_control vars w)
  unfolding initial_control FiredMoves
  initial_control-Moves =
      let c = peek (rest w) 0 in
      let M = FiredMoves vars w in
      split M (c == b'(') (λ e. one _)
        (λ e.
          split M (c == b')') (λ e. one _)
            (λ e.
              split M (c == b';') (λ e. initial_semicolon-Moves)
                (λ e.
                  split M (c == b'\\') (λ e. initial_backslash-Moves)
                    (λ e. split M (c == b':') (λ e. step_colon-Moves) (λ e. initial_token-Moves)))))
