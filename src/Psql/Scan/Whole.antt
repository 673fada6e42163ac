-- ===== src/Psql/Scan/Whole.antt =====
-- crates/rpsql/src/scan.rs and variables.rs: how the lexer reads a quote that is doubled inside
-- itself.
use pgrust_drop.Prelude.{
  ℕ, zero, suc, ◌≤◌, true, false, not, [], ◌∷◌, ◌++◌, none, ltb, ◌==◌, if◌then◌else◌, take, drop,
  length, is_nil, Bytes, ◌≡◌, refl, sym, ap, ◌∙◌, arith, Bool-cases, inl, inr, append_assoc,
}
use pgrust_drop.Psql.Quote.{doubled}
use pgrust_drop.Psql.Scan.Chars.{peek, count_while}
use pgrust_drop.Psql.Scan.Work.{StartState, VariableSource, ScanState, Work, rest, echo}
use pgrust_drop.Psql.Scan.Quoted.{begins}
use pgrust_drop.Psql.Scan.Run.{step}
use pgrust_drop.Psql.Scan.Doubled.{
  is_text, drop-drop, count-doubled, doubled-quote, doubled-is_text, some_text, drop-doubled,
  take-doubled,
}

-- Steps of the lexer, none of which ends the scan.
pub data Steps (vars : VariableSource) : Work → Work → Type 0 where
  done : (w : Work) → Steps vars w w
  next : (w w' w'' : Work) → step vars w ≡ (w', none) → Steps vars w' w'' → Steps vars w w''

-- The rules of a quote that is doubled inside itself; `shut` is what the end does to the state.
abbrev pub quoted : ℕ → (ScanState → ScanState) → Work → Work
quoted q shut w =
    if begins (rest w) q q
    then echo 2 w
    else if peek (rest w) 0 == q
    then echo 1 (record w { state = shut w.state })
    else echo (count_while (λ c. not (c == q)) (rest w)) w

pub rest-echo :
    (n : ℕ) (w : Work) (s : ScanState) → rest (echo n (record w { state = s })) ≡ drop n (rest w)
unfolding rest echo
rest-echo n w s = drop-drop n w.top.pos w.top.data_

-- The quote is read whole: nothing but the end of it changes the state, and the text goes to the
-- statement as it is.
unfoldable pub ReadsWhole : VariableSource → (ScanState → ScanState) → Work → Bytes → Bytes → Type 0
ReadsWhole vars shut w text after =
    (w' : Work) × Steps vars w w'
    × (w'.state ≡ shut w.state)
    × (w'.below ≡ w.below)
    × (rest w' ≡ after)
    × (w'.out ≡ w.out ++ text)

module _ (vars : VariableSource) (q : ℕ) (p : ltb 0 q ≡ true) (s : StartState)
    (shut : ScanState → ScanState)
    (steps : (w : Work)
      → w.state.start_state ≡ s
      → is_nil (rest w) ≡ false
      → step vars w ≡ (quoted q shut w, none)) where
  -- One step, and the rest of the quote behind it.
  behind :
      (w : Work) (n : ℕ) (text more after : Bytes)
      → step vars w ≡ (echo n w, none)
      → take n (rest w) ++ more ≡ text
      → ReadsWhole vars shut (echo n w) more after
      → ReadsWhole vars shut w text after
  unfolding ReadsWhole echo
  behind w n text more after e split (w', steps', st, b, r, o) = (
    w',
    Steps.next w (echo n w) w' e steps',
    st,
    b,
    r,
    o ∙ append_assoc w.out (take n (rest w)) more ∙ ap (λ t. w.out ++ t) split,
  )

  same : (q == q) ≡ true
  same = ground arith

  step_two :
      (w : Work)
      → w.state.start_state ≡ s
      → is_nil (rest w) ≡ false
      → begins (rest w) q q ≡ true
      → step vars w ≡ (echo 2 w, none)
  step_two w h n b = steps w h n ∙ ap (λ x. (x, none)) (rw b refl)

  step_shut :
      (w : Work) (after : Bytes)
      → w.state.start_state ≡ s
      → (peek after 0 == q) ≡ false
      → rest w ≡ q ∷ after
      → step vars w ≡ (echo 1 (record w { state = shut w.state }), none)
  step_shut w after h a r =
      let first : (peek (rest w) 0 == q) ≡ true = ap (λ l. peek l 0 == q) r ∙ same in
      let second : (peek (rest w) 1 == q) ≡ false = ap (λ l. peek l 1 == q) r ∙ a in
      steps w h (ap is_nil r) ∙ ap (λ x. (x, none)) (rw (first, second) refl)

  step_text :
      (w : Work) (c : ℕ) (left : Bytes)
      → w.state.start_state ≡ s
      → (c == q) ≡ false
      → rest w ≡ c ∷ left
      → step vars w ≡ (echo (count_while (is_text q) (rest w)) w, none)
  step_text w c left h a r =
      let first : (peek (rest w) 0 == q) ≡ false = ap (λ l. peek l 0 == q) r ∙ a in
      steps w h (ap is_nil r) ∙ ap (λ x. (x, none)) (rw first refl)

  read_end :
      (w : Work) (after : Bytes)
      → w.state.start_state ≡ s
      → (peek after 0 == q) ≡ false
      → rest w ≡ q ∷ after
      → ReadsWhole vars shut w (q ∷ []) after
  unfolding ReadsWhole echo
  read_end w after h a r =
      let w' = echo 1 (record w { state = shut w.state }) in
      (
        w',
        Steps.next w w' w' (step_shut w after h a r) (Steps.done w'),
        refl,
        refl,
        rest-echo 1 w (shut w.state) ∙ ap (drop 1) r,
        ap (λ l. w.out ++ take 1 l) r,
      )

  read_pair :
      (v : Bytes) (w : Work) (after : Bytes) (c : ℕ)
      → (c == q) ≡ true
      → w.state.start_state ≡ s
      → rest w ≡ doubled q (c ∷ v) ++ q ∷ after
      → (rest (echo 2 w) ≡ doubled q v ++ q ∷ after
          → ReadsWhole vars shut (echo 2 w) (doubled q v ++ q ∷ []) after)
      → ReadsWhole vars shut w (doubled q (c ∷ v) ++ q ∷ []) after
  read_pair v w after c e h r more =
      let two : doubled q (c ∷ v) ≡ q ∷ c ∷ doubled q v = doubled-quote q c v e in
      let r' : rest w ≡ q ∷ c ∷ doubled q v ++ q ∷ after = r ∙ ap (λ t. t ++ q ∷ after) two in
      let b : begins (rest w) q q ≡ true = ap (λ l. begins l q q) r' ∙ rw (same, e) refl in
      behind w 2 _ _ after (step_two w h (ap is_nil r') b)
        (ap (λ l. take 2 l ++ (doubled q v ++ q ∷ [])) r' ∙ sym (ap (λ t. t ++ q ∷ []) two))
        (more (rest-echo 2 w w.state ∙ ap (drop 2) r'))

  read_text :
      (v : Bytes) (w : Work) (after : Bytes) (c : ℕ)
      → (c == q) ≡ false
      → w.state.start_state ≡ s
      → rest w ≡ doubled q (c ∷ v) ++ q ∷ after
      → (rest (echo (count_while (is_text q) (c ∷ v)) w)
            ≡ doubled q (drop (count_while (is_text q) (c ∷ v)) (c ∷ v)) ++ q ∷ after
          → ReadsWhole vars shut
              (echo (count_while (is_text q) (c ∷ v)) w)
              (doubled q (drop (count_while (is_text q) (c ∷ v)) (c ∷ v)) ++ q ∷ [])
              after)
      → ReadsWhole vars shut w (doubled q (c ∷ v) ++ q ∷ []) after
  read_text v w after c e h r more =
      let n = count_while (is_text q) (c ∷ v) in
      let behind_text = doubled q (drop n (c ∷ v)) in
      let r' : rest w ≡ c ∷ doubled q v ++ q ∷ after =
        r ∙ ap (λ t. t ++ q ∷ after) (doubled-is_text q c v e) in
      let counted : count_while (is_text q) (rest w) ≡ n =
        ap (count_while (is_text q)) r ∙ count-doubled q (c ∷ v) after in
      let split : take n (rest w) ++ (behind_text ++ q ∷ []) ≡ doubled q (c ∷ v) ++ q ∷ [] =
        ap (λ l. take n l ++ (behind_text ++ q ∷ [])) r
        ∙ sym (append_assoc (take n (doubled q (c ∷ v) ++ q ∷ after)) behind_text (q ∷ []))
        ∙ ap (λ t. t ++ q ∷ []) (take-doubled q (c ∷ v) (q ∷ after)) in
      behind w n _ _ after
        (step_text w c (doubled q v ++ q ∷ after) h e r' ∙ ap (λ k. (echo k w, none)) counted) split
        (more (rest-echo n w w.state ∙ ap (drop n) r ∙ drop-doubled q (c ∷ v) (q ∷ after)))

  pub read :
      (m : ℕ) (v : Bytes)
      → length v ≤ m
      → (w : Work) (after : Bytes) → w.state.start_state ≡ s
      → (peek after 0 == q) ≡ false
      → rest w ≡ doubled q v ++ q ∷ after
      → ReadsWhole vars shut w (doubled q v ++ q ∷ []) after
  unfolding doubled echo
  read m [] l w after h a r = read_end w after h a r
  read zero (c ∷ v) l w after h a r = absurd (omega arith)
  read (suc m) (c ∷ v) l w after h a r = elim (Bool-cases (c == q)) [
    | inl e ↦ read_pair v w after c e h r (read m v (omega arith) (echo 2 w) after h a)
    | inr e ↦
        let n = count_while (is_text q) (c ∷ v) in
        read_text v w after c e h r
          (read m (drop n (c ∷ v)) (some_text q c v m e l) (echo n w) after h a)
  ]
