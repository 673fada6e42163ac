-- ===== src/Psql/Scan/Statement.antt =====
-- crates/rpsql/src/scan.rs: `scan` answers a semicolon where a count of the parentheses that is not
-- its own says that the statement ends.
use mathlib.Core.Path.{subst}
use pgrust_drop.Prelude.{
  ℕ, zero, suc, Bool, true, false, ◌||◌, List, [], ◌∷◌, Option, none, some, Bytes, ◌≡◌, refl, sym,
  ap, ◌∙◌, arith, Option-cases, inl, inr,
}
use pgrust_drop.Psql.Scan.Work.{
  LexRes, ScanResult, PromptStatus, VariableSource, ScanState, Scanner, Buf, Work,
}
use pgrust_drop.Psql.Scan.Run.{step, run, decode, Scanned, conclude, scan}
use pgrust_drop.Psql.Scan.Nesting.{ends_in, is_semi}
use pgrust_drop.Psql.Scan.Nesting.Rules.{Nests, step-Nests}
use pgrust_drop.Psql.Scan.Semicolon.{run-next, run-stop, is_semicolon, decode_eol_no}

-- The works at which the rules fire, in their order, until the lexer stops.
unfoldable pub trace : ℕ → VariableSource → Work → List Work
trace zero vars w = []
trace (suc fuel) vars w =
    let (w', res) = step vars w in elim res [ none ↦ w ∷ trace fuel vars w' | some r ↦ w ∷ [] ]

unfoldable pub tokens : ℕ → Scanner → Bytes → VariableSource → List Work
unfolding trace
tokens fuel s query_buf vars = elim s.stack [
  | [] ↦ []
  | b ∷ bs ↦ trace fuel vars (record { state = s.state; top = b; below = bs; out = query_buf })
]

trace-next :
    (fuel : ℕ) (vars : VariableSource) (w : Work)
    → (step vars w).1 ≡ none
    → trace (suc fuel) vars w ≡ w ∷ trace fuel vars ((step vars w).0)
unfolding trace
trace-next fuel vars w e = rw (e, trace) refl

trace-stop :
    (fuel : ℕ) (vars : VariableSource) (w : Work) (r : LexRes)
    → (step vars w).1 ≡ some r
    → trace (suc fuel) vars w ≡ w ∷ []
unfolding trace
trace-stop fuel vars w r e = rw (e, trace) refl

no_end : (here later : Bool) → false ≡ here → later ≡ (here || later)
no_end true later h = absurd (grind (arith, h))
no_end false later h = refl

last_end : (here : Bool) → here ≡ (here || false)
last_end true = refl
last_end false = refl

run-ends_in :
    (fuel : ℕ) (vars : VariableSource) (w : Work) (x : Work × LexRes)
    → run fuel vars w ≡ some x
    → is_semi (some (x.1)) ≡ ends_in w.state.paren_depth (trace fuel vars w)
unfolding run ends_in Nests
run-ends_in zero vars w x h = absurd (grind (arith, h))
run-ends_in (suc fuel) vars w x h =
    let (deep, stops) = step-Nests vars w in
    elim (Option-cases ((step vars w).1)) [
      | inl e ↦
          let more = run-ends_in fuel vars ((step vars w).0) x (sym (run-next fuel vars w e) ∙ h) in
          rw (trace-next fuel vars w e) (
            more
            ∙ ap (λ d. ends_in d (trace fuel vars ((step vars w).0))) deep
            ∙ no_end _ _ (sym (ap is_semi e) ∙ stops))
      | inr (r, e) ↦
          let got : ((step vars w).0, r) ≡ x =
            ap (λ o. elim o [ none ↦ x | some p ↦ p ]) (sym (run-stop fuel vars w r e) ∙ h) in
          rw (trace-stop fuel vars w r e) (
            ap (λ (p : Work × LexRes). is_semi (some (p.1))) (sym got)
            ∙ (sym (ap is_semi e) ∙ stops)
            ∙ last_end _)
    ]

decode-is_semi :
    (r : LexRes) (s : ScanState) (out : Bytes)
    → is_semicolon ((decode r s out).0) ≡ is_semi (some r)
unfolding decode is_semicolon
decode-is_semi LexRes.semi s out = refl
decode-is_semi LexRes.backslash s out = refl
decode-is_semi LexRes.eol s out = decode_eol_no s.start_state s out

-- What a scan answers, when it stops.
Agrees : Bool → Scanned → Type 0
Agrees b (Scanned.scanned s out r) = is_semicolon (r.0) ≡ b
Agrees b _ = Unit

conclude-Agrees :
    (b : Bool) (o : Option (Work × LexRes))
    → ((x : Work × LexRes) → o ≡ some x → is_semi (some (x.1)) ≡ b)
    → Agrees b (conclude o)
unfolding Agrees
conclude-Agrees b none f = tt
conclude-Agrees b (some (w, r)) f = decode-is_semi r w.state w.out ∙ f (w, r) refl

scan-Agrees :
    (fuel : ℕ) (state : ScanState) (stack : List Buf) (query_buf : Bytes) (vars : VariableSource)
    → (let s : Scanner = record { state = state; stack = stack } in
        Agrees
          (ends_in state.paren_depth (tokens fuel s query_buf vars))
          (scan fuel s query_buf vars))
unfolding scan tokens Agrees
scan-Agrees fuel state [] query_buf vars = tt
scan-Agrees fuel state (b ∷ bs) query_buf vars =
    let w : Work = record { state = state; top = b; below = bs; out = query_buf } in
    conclude-Agrees _ _ (run-ends_in fuel vars w)

-- `scan` answers a semicolon if and only if one of the tokens it met is a semicolon outside quotes,
-- comments, parentheses and the bodies of routines. The parentheses are counted here, from the depth
-- the scan began at, by the tokens `(` and `)` outside quotes and comments; which token stands in
-- quotes or in a body is the lexer's own account. This holds of any scanner, line, statement so far
-- and variables.
pub scan-semicolon :
    (fuel : ℕ) (s s' : Scanner) (query_buf query_buf' : Bytes) (vars : VariableSource)
    (r : ScanResult) (p : PromptStatus)
    → scan fuel s query_buf vars ≡ Scanned.scanned s' query_buf' (r, p)
    → is_semicolon r ≡ ends_in s.state.paren_depth (tokens fuel s query_buf vars)
unfolding Agrees
scan-semicolon fuel s s' query_buf query_buf' vars r p h =
    subst (Agrees (ends_in s.state.paren_depth (tokens fuel s query_buf vars))) h
      (scan-Agrees fuel s.state s.stack query_buf vars)
