-- ===== src/Psql/Scan/Copies.antt =====
-- crates/rpsql/src/scan.rs: what a step inside a quote or a comment does to the buffer and to the
-- statement.
use mathlib.Core.Path.{subst}
use pgrust_drop.Prelude.{
  ℕ, ◌+◌, ◌-◌, Bool, true, false, not, ◌&&◌, ◌++◌, Option, none, ltb, leb, ◌==◌, if◌then◌else◌,
  take, drop, is_nil, ◌≡◌, ◌≢◌, refl, sym, arith, leb→le,
}
use pgrust_drop.Psql.Scan.Chars.{peek, count_while, is_dolq_cont}
use pgrust_drop.Psql.Scan.Match.{match_xcstop, match_dolqdelim, match_xe_escape}
use pgrust_drop.Psql.Scan.Work.{
  StartState, ScanState, VariableSource, LexRes, Work, rest, echo, enter, advance,
}
use pgrust_drop.Psql.Scan.Quoted.{
  begins, step_xc, step_xb_xh, step_xq, step_xe, step_xdolq, step_xd, quote_stop, set_dolqstart,
}
use pgrust_drop.Psql.Scan.Run.{step_in, step}
use pgrust_drop.Psql.Scan.Fits.{
  Fits, Fits-1, split, split_option, count_while_within, count_while_behind, Fits-count_while,
  Fits-begins, Given-some, Fits-match_xcstop, Delimits, match_dolqdelim_within,
  Fits-match_xe_escape,
}

-- The step reads bytes of the buffer on top, at least one and none behind its end, and appends the
-- same bytes to the statement. The state may change.
unfoldable pub Copies : Work → Work → Type 0
unfolding rest
Copies w w' =
    (n : ℕ) × Fits n (rest w)
    × (w'.top ≡ (advance n w).top)
    × (w'.below ≡ w.below)
    × (w'.out ≡ w.out ++ take n (rest w))

-- An `echo`, after any change of the state.
pub Copies-echo :
    (w : Work) (s : ScanState) (n : ℕ)
    → Fits n (rest w)
    → Copies w (echo n (record w { state = s }))
unfolding rest echo Copies
Copies-echo w s n f = (n, f, refl, refl, refl)

module _ (w : Work) (some_left : is_nil (rest w) ≡ false) where
  plain : (n : ℕ) → Fits n (rest w) → Copies w (echo n w)
  plain n f = Copies-echo w w.state n f

  one : (s : ScanState) → Copies w (echo 1 (record w { state = s }))
  one s = Copies-echo w s 1 (Fits-1 (rest w) some_left)

  -- The bytes up to a character that does not stand first.
  up_to :
      (test : ℕ → Bool)
      → test (peek (rest w) 0) ≡ true
      → Copies w (echo (count_while test (rest w)) w)
  up_to test h = plain (count_while test (rest w)) (Fits-count_while test (rest w) some_left h)

  two :
      (s : ScanState) (a b : ℕ)
      → ltb 0 b ≡ true
      → begins (rest w) a b ≡ true
      → Copies w (echo 2 (record w { state = s }))
  two s a b p h = Copies-echo w s 2 (Fits-begins (rest w) a b p h)

  step_xb_xh-Copies : (here : StartState) → Copies w (step_xb_xh here w)
  unfolding step_xb_xh
  step_xb_xh-Copies here =
      split (Copies w) (peek (rest w) 0 == b'\'') (λ e. one ((quote_stop here w).state))
        (λ e. up_to (λ c. not (c == b'\'')) (ground (arith, e)))

  step_xq-Copies : Copies w (step_xq w)
  unfolding step_xq
  step_xq-Copies =
      split (Copies w) (begins (rest w) b'\'' b'\'') (two w.state b'\'' b'\'' refl) (λ e.
        split (Copies w) (peek (rest w) 0 == b'\'')
          (λ f. one ((quote_stop w.state.start_state w).state))
          (λ f. up_to (λ c. not (c == b'\'')) (ground (arith, f))))

  step_xe-Copies : Copies w (step_xe w)
  unfolding step_xe
  step_xe-Copies =
      split (Copies w) (begins (rest w) b'\'' b'\'') (two w.state b'\'' b'\'' refl) (λ e.
        split (Copies w) (peek (rest w) 0 == b'\'') (λ f. one ((quote_stop StartState.xe w).state))
          (λ f.
            split (Copies w) (peek (rest w) 0 == b'\\')
              (λ g. plain (match_xe_escape (rest w)) (Fits-match_xe_escape (rest w) some_left))
              (λ g. up_to (λ c. not (c == b'\\') && not (c == b'\'')) (ground (arith, f, g)))))

  step_xd-Copies : Copies w (step_xd w)
  unfolding step_xd
  step_xd-Copies = split (Copies w) (begins (rest w) b'"' b'"') (two w.state b'"' b'"' refl) (λ e.
      split (Copies w) (peek (rest w) 0 == b'"') (λ f. one ((enter StartState.initial w).state))
        (λ f. up_to (λ c. not (c == b'"')) (ground (arith, f))))

  step_xc-Copies : Copies w (step_xc w)
  unfolding step_xc
  step_xc-Copies =
      let inside = count_while (λ c. not (c == b'*') && not (c == b'/')) (rest w) in
      let stars = count_while (λ c. c == b'*') (rest w) in
      split (Copies w) (begins (rest w) b'/' b'*') (two _ b'/' b'*' refl) (λ e.
        split_option (Copies w) (match_xcstop (rest w))
          (λ g.
            split (Copies w) (leb 1 inside)
              (λ f. plain inside (
                omega (arith, leb→le 1 inside f),
                count_while_within (λ c. not (c == b'*') && not (c == b'/')) (rest w),
              ))
              (λ f.
                split (λ n. Copies w (echo n w)) (leb 1 stars)
                  (λ k.
                    plain stars (
                      omega (arith, leb→le 1 stars k),
                      count_while_within (λ c. c == b'*') (rest w),
                    ))
                  (λ k. one w.state)))
          (λ n g.
            split (λ v. Copies w (echo n v)) (w.state.xcdepth == 0)
              (λ z.
                Copies-echo w _ n
                  (Given-some (λ n. Fits n (rest w)) _ (Fits-match_xcstop (rest w)) g))
              (λ z.
                Copies-echo w _ n
                  (Given-some (λ n. Fits n (rest w)) _ (Fits-match_xcstop (rest w)) g))))

  -- Behind a delimiter: the end of the quote, or its last dollar is put back.
  Copies-tag :
      (n : ℕ) (t : Bool)
      → Delimits (rest w) n
      → Copies w
          (if t then echo n (enter StartState.initial (set_dolqstart none w)) else echo (n - 1) w)
  unfolding Delimits
  Copies-tag n t d =
      split (Copies w) t (λ e. Copies-echo w _ n (omega (arith, d.0), d.1))
        (λ e. plain (n - 1) (omega (arith, d.0), omega (arith, d.1)))

  step_xdolq-Copies : Copies w (step_xdolq w)
  unfolding step_xdolq
  step_xdolq-Copies =
      split_option (Copies w) (match_dolqdelim (rest w))
        (λ g.
          split (Copies w) (peek (rest w) 0 == b'$')
            (λ e. plain (1 + count_while is_dolq_cont (drop 1 (rest w))) (
              omega arith,
              count_while_behind is_dolq_cont 1 (rest w) ((Fits-1 (rest w) some_left).1),
            ))
            (λ e. up_to (λ c. not (c == b'$')) (ground (arith, e))))
        (λ n g.
          let d = Given-some (Delimits (rest w)) _ (match_dolqdelim_within (rest w)) g in
          Copies-tag n _ d)

  -- `step_in` in a quote or a comment, where the step is no other.
  pub step_in-Copies :
      (s : StartState) (vars : VariableSource)
      → s ≢ StartState.initial
      → s ≢ StartState.xqs
      → Copies w ((step_in s vars w).0) × ((step_in s vars w).1 ≡ none)
  unfolding step_in
  step_in-Copies StartState.xc vars h k = (step_xc-Copies, refl)
  step_in-Copies StartState.xb vars h k = (step_xb_xh-Copies StartState.xb, refl)
  step_in-Copies StartState.xh vars h k = (step_xb_xh-Copies StartState.xh, refl)
  step_in-Copies StartState.xq vars h k = (step_xq-Copies, refl)
  step_in-Copies StartState.xus vars h k = (step_xq-Copies, refl)
  step_in-Copies StartState.xe vars h k = (step_xe-Copies, refl)
  step_in-Copies StartState.xdolq vars h k = (step_xdolq-Copies, refl)
  step_in-Copies StartState.xd vars h k = (step_xd-Copies, refl)
  step_in-Copies StartState.xui vars h k = (step_xd-Copies, refl)
  step_in-Copies StartState.initial vars h k = absurd (h refl)
  step_in-Copies StartState.xqs vars h k = absurd (k refl)

-- Text inside a quote or a comment reaches the statement as it is: wherever the lexer is but outside
-- quotes or behind the end of a string, a step on a buffer that is not read whole reads at least one
-- byte of it and none behind its end, appends just these to the statement, expands no variable and
-- does not end the scan.
pub step-Copies :
    (vars : VariableSource) (w : Work)
    → w.state.start_state ≢ StartState.initial
    → w.state.start_state ≢ StartState.xqs
    → is_nil (rest w) ≡ false
    → Copies w ((step vars w).0) × ((step vars w).1 ≡ none)
unfolding step
step-Copies vars w h k e =
    subst (λ (f : Work × Option LexRes). Copies w (f.0) × (f.1 ≡ none)) (sym (rw e refl))
      (step_in-Copies w e w.state.start_state vars h k)
