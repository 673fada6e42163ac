-- ===== src/Escape/Internal/Name.antt =====
-- What a server reads of the text that `escape_internal` writes for an identifier.
use pgrust_drop.Prelude.{
  ℕ, zero, suc, ◌-◌, ◌≤◌, Bool, true, false, ◌&&◌, ◌||◌, [], ◌∷◌, ◌++◌, some, none, ◌==◌,
  if◌then◌else◌, length, take, drop, Bytes, ◌≡◌, refl, sym, ap, ◌∙◌, arith, Bool-cases,
  Option-cases, inl, inr, append_assoc, length-take,
}
use pgrust_drop.Encoding.{Encoding, family}
use pgrust_drop.Encoding.Length.{is_highbit_set}
use pgrust_drop.Encoding.Verify.{verify_from, verify_char}
use pgrust_drop.Encoding.Laws.{verify_char-mblen}
use pgrust_drop.Encoding.Local.{family_verify_char-append}
use pgrust_drop.Encoding.Restrict.{verify_char-take}
use pgrust_drop.Escape.{up_to_nul}
use pgrust_drop.Escape.Literal.{Literal, with_byte}
use pgrust_drop.Escape.Internal.{
  Counts, scan_input, write, Quoted, doubled_in, body, escape_internal,
}
use pgrust_drop.Escape.Internal.Valid.{scan_verified}
use pgrust_drop.Escape.Internal.Copy.{
  Counts-cases, written-injective, write_agrees, write-none, write_whole, write_single,
}

-- A reader behind the opening quote of an identifier, with bytes of a character left to read, or
-- behind a quote: characters of the encoding, and a doubled quote for a quote.
unfoldable pub read_name : Encoding → Bool → ℕ → Bytes → Literal
read_name e true left [] = Literal.closed [] []
read_name e false left [] = Literal.unterminated
read_name e true left (c ∷ rest) =
    let more = read_name e false 0 rest in
    if c == b'"' then with_byte c more else Literal.closed [] (c ∷ rest)
read_name e false (suc left) (c ∷ rest) = with_byte c (read_name e false left rest)
read_name e false zero (c ∷ rest) =
    let next = λ (behind_quote : Bool) (left : ℕ). read_name e behind_quote left rest in
    if is_highbit_set c
    then elim (verify_char e c rest) [
      | some n ↦ with_byte c (next false (n - 1))
      | none ↦ Literal.refused
    ]
    else if c == b'"'
    then next true 0
    else with_byte c (next false 0)

-- An identifier, from its opening quote on.
unfoldable pub read_identifier : Encoding → Bytes → Literal
read_identifier e [] = Literal.unterminated
read_identifier e (c ∷ rest) = if c == b'"' then read_name e false 0 rest else Literal.unterminated

-- SQL takes a quote right behind the closing one for a part of the identifier.
abbrev pub continues : Bytes → Bool
continues [] = false
continues (c ∷ _) = c == b'"'

write-take :
    (e : Encoding) (d : ℕ → Bool) (k : ℕ) (s : Bytes)
    → k ≤ length s
    → write e d k s ≡ take k s ++ write e d 0 (drop k s)
unfolding write
write-take e d zero s h = refl
write-take e d (suc k) [] h = absurd (omega arith)
write-take e d (suc k) (c ∷ s) h = ap (λ bs. c ∷ bs) (write-take e d k s (omega arith))

-- A character keeps verifying when what stands behind it is rewritten.
verify_char-write :
    (e : Encoding) (d : ℕ → Bool) (c n : ℕ) (rest tail : Bytes)
    → verify_char e c rest ≡ some n
    → verify_char e c (write e d (n - 1) rest ++ tail) ≡ some n
verify_char-write e d c n rest tail h =
    let bounds = verify_char-mblen e c rest h in
    let alone = verify_char-take (family e) c rest n h in
    let whole : length (c ∷ take (n - 1) rest) ≡ n =
      let len = length-take (n - 1) rest (omega (arith, bounds.2)) in
      omega (arith, len, bounds.1) in
    rw
      (
        write-take e d (n - 1) rest (omega (arith, bounds.2)),
        append_assoc (take (n - 1) rest) (write e d 0 (drop (n - 1) rest)) tail,
      )
      (family_verify_char-append (family e) c (take (n - 1) rest) _ (alone ∙ ap some (sym whole))
        ∙ ap some whole)

doubled_high : (c : ℕ) → is_highbit_set c ≡ true → doubled_in true c ≡ false
doubled_high c h = grind (arith, h)

closes :
    (e : Encoding) (tail : Bytes)
    → continues tail ≡ false
    → read_name e true 0 tail ≡ Literal.closed [] tail
unfolding read_name
closes e [] h = refl
closes e (c ∷ tail) h = rw h refl

read_whole :
    (e : Encoding) (c n : ℕ) (more : Bytes)
    → is_highbit_set c ≡ true
    → verify_char e c more ≡ some n
    → read_name e false 0 (c ∷ more) ≡ with_byte c (read_name e false (n - 1) more)
unfolding read_name
read_whole e c n more b h = rw (b, h) refl

-- A single byte, doubled or not.
read_single :
    (e : Encoding) (c : ℕ) (rest more : Bytes)
    → is_highbit_set c ≡ false
    → read_name e false 0 ((if doubled_in true c then c ∷ c ∷ rest else c ∷ rest) ++ more)
      ≡ with_byte c (read_name e false 0 (rest ++ more))
unfolding read_name
read_single e c rest more b = elim (Bool-cases (c == b'"')) [
  | inl q ↦ rw (q, b, q) refl
  | inr q ↦ rw (q, b, q) refl
]

reads_name :
    (e : Encoding) (tail : Bytes)
    → continues tail ≡ false
    → (k : ℕ) (s : Bytes) → k ≤ length s
    → verify_from e k s ≡ length s
    → read_name e false k (write e (doubled_in true) k s ++ b'"' ∷ tail) ≡ Literal.closed s tail
unfolding read_name verify_from write
reads_name e tail ends zero [] l h = closes e tail ends
reads_name e tail ends (suc k) [] l h = absurd (omega arith)
reads_name e tail ends (suc k) (c ∷ rest) l h =
    ap (with_byte c) (reads_name e tail ends k rest (omega arith) (omega arith))
reads_name e tail ends zero (c ∷ rest) l h = elim (Bool-cases (is_highbit_set c)) [
  | inl b ↦ elim (Option-cases (verify_char e c rest)) [
    | inl m ↦ absurd (grind (arith, h, b, m))
    | inr (n, m) ↦
        let verified = rw (b, m) at h in
        let bounds = verify_char-mblen e c rest m in
        ap (λ bs. read_name e false 0 (bs ++ b'"' ∷ tail))
          (write_whole e (doubled_in true) c rest b (doubled_high c b)
            ∙ ap (λ k. c ∷ write e (doubled_in true) (k - 1) rest) bounds.0)
        ∙ read_whole e c n _ b (verify_char-write e (doubled_in true) c n rest (b'"' ∷ tail) m)
        ∙ ap (with_byte c)
            (reads_name e tail ends (n - 1) rest (omega (arith, bounds.2)) (omega arith))
  ]
  | inr b ↦
      ap (λ bs. read_name e false 0 (bs ++ b'"' ∷ tail)) (write_single e (doubled_in true) c rest b)
      ∙ read_single e c (write e (doubled_in true) 0 rest) (b'"' ∷ tail) b
      ∙ ap (with_byte c) (reads_name e tail ends 0 rest (omega arith) (grind (arith, h, b)))
]

body_name :
    (e : Encoding) (a b : ℕ) (s : Bytes)
    → scan_input e b'"' false 0 s ≡ Counts.counted a b
    → body e true a b s ≡ write e (doubled_in true) 0 s
body_name e a b s counts = elim (Bool-cases (a == 0 && (b == 0 || true))) [
  | inl h ↦ rw h (
      sym (
        write_agrees e b'"' refl refl true false (doubled_in true) (λ c. false) doubled_high
          (λ c h. refl) (λ c q w. grind (arith, q refl)) false 0 s counts (λ _. grind (arith, h))
          (λ h. absurd (grind (arith, h)))
        ∙ write-none e 0 s))
  | inr h ↦ rw h refl
]

-- An identifier that `escape_internal` writes is read as its input, up to the first NUL, in front of
-- anything but another quote; the reader stops at the closing quote.
pub escape_internal-read_identifier :
    (from tail : Bytes) (e : Encoding) {text : Bytes}
    → escape_internal from e true ≡ Quoted.written text
    → continues tail ≡ false
    → read_identifier e (text ++ tail) ≡ Literal.closed (up_to_nul from) tail
unfolding escape_internal read_identifier
escape_internal-read_identifier from tail e h ends =
    let s = up_to_nul from in
    elim (Counts-cases (scan_input e b'"' false 0 s)) [
      | inl (a, b, c) ↦
          let text_is = written-injective (rw c at h) in
          let verified = scan_verified e b'"' refl from (rw c refl) in
          rw (sym text_is) (
            ap (read_name e false 0) (
              append_assoc (body e true a b s) (b'"' ∷ []) tail
              ∙ ap (λ bs. bs ++ b'"' ∷ tail) (body_name e a b s c))
            ∙ reads_name e tail ends 0 s (omega arith) verified)
      | inr (x, c) ↦ absurd (grind (arith, (rw c at h)))
    ]
