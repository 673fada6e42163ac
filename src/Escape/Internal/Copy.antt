-- ===== src/Escape/Internal/Copy.antt =====
-- crates/rlibpq/src/escape.rs: what the slow path of `escape_internal` writes, beside the input and
-- beside what `escape_string` writes.
use pgrust_drop.Prelude.{
  ℕ, zero, suc, ◌-◌, Bool, true, false, not, ◌&&◌, ◌||◌, [], ◌∷◌, none, some, ◌==◌, if◌then◌else◌,
  length, Bytes, ◌≡◌, refl, sym, ap, ◌∙◌, arith, Bool-cases, Option-cases, inl, inr, ◌⊎◌,
}
use mathlib.Core.Path.{subst}
use pgrust_drop.Encoding.{Encoding, family}
use pgrust_drop.Encoding.Length.{is_highbit_set, mblen, mblen_or_incomplete}
use pgrust_drop.Encoding.Verify.{verify_from, verify_char}
use pgrust_drop.Encoding.Laws.{verify_char-mblen}
use pgrust_drop.Encoding.Restrict.{verify_char-take}
use pgrust_drop.Escape.{EscapeError, Multibyte, multibyte, escape_from, before, sql_str_double}
use pgrust_drop.Escape.Internal.{
  Counts, Quoted, tally, charlen, is_lead, scan_input, verifies, write,
}
use pgrust_drop.Escape.Internal.Valid.{mblen_or_incomplete-verify_char, not_highbit}

multibyte-verify_char :
    (e : Encoding) (c : ℕ) (rest : Bytes) {n : ℕ}
    → verify_char e c rest ≡ some n
    → multibyte e c rest ≡ Multibyte.valid n
unfolding multibyte
multibyte-verify_char e c rest {n = m} h =
    let told = mblen_or_incomplete-verify_char e c rest h in
    let fits = (verify_char-mblen e c rest h).2 in
    let alone = verify_char-take (family e) c rest m h in rw (told, alone) (ground arith)

module _ (e : Encoding) (std_strings : Bool) where
  abbrev doubles : ℕ → Bool
  doubles c = sql_str_double c (not std_strings)

  high : (c : ℕ) → is_highbit_set c ≡ true → doubles c ≡ false
  high c h = grind (arith, h)

  -- Where the input verifies, `escape_string` finds no fault, and writes what the slow path writes.
  pub escape_from-write :
      (k : ℕ) (s : Bytes)
      → verify_from e k s ≡ length s
      → escape_from e std_strings k s ≡ record { bytes = write e doubles k s; error = none }
  unfolding verify_from escape_from write
  escape_from-write k [] h = refl
  escape_from-write (suc k) (c ∷ rest) h =
      ap (before (c ∷ [])) (escape_from-write k rest (omega arith))
  escape_from-write zero (c ∷ rest) h = elim (Bool-cases (is_highbit_set c)) [
    | inl b ↦ elim (Option-cases (verify_char e c rest)) [
      | inl m ↦ absurd (grind (arith, h, b, m))
      | inr (n, m) ↦
          let verified = rw (b, m) at h in
          let size = (verify_char-mblen e c rest m).0 in
          rw (b, multibyte-verify_char e c rest m, high c b, size)
            (ap (before (c ∷ [])) (escape_from-write (n - 1) rest (omega arith)))
    ]
    | inr b ↦
        let more = escape_from-write 0 rest (grind (arith, h, b)) in
        elim (Bool-cases (doubles c)) [
          | inl d ↦ rw (b, d) (ap (before (c ∷ c ∷ [])) more)
          | inr d ↦ rw (b, d) (ap (before (c ∷ [])) more)
        ]
  ]

lead_highbit : (q c : ℕ) → is_lead q c ≡ true → is_highbit_set c ≡ true
unfolding is_lead
lead_highbit q c h = grind (arith, h)

pub write-none : (e : Encoding) (k : ℕ) (s : Bytes) → write e (λ c. false) k s ≡ s
unfolding write
write-none e k [] = refl
write-none e (suc k) (c ∷ rest) = ap (λ bs. c ∷ bs) (write-none e k rest)
write-none e zero (c ∷ rest) = ap (λ bs. c ∷ bs) (write-none e _ rest)

charlen-mblen :
    (e : Encoding) (c : ℕ) (rest : Bytes) {n : ℕ} → charlen e c rest ≡ some n → n ≡ mblen e c rest
unfolding charlen mblen_or_incomplete
charlen-mblen e c rest h = ground arith

tally-counted :
    (p q : Bool) (r : Counts) {a b : ℕ}
    → tally p q r ≡ Counts.counted a b
    → (m : ℕ) × (n : ℕ) × (r ≡ Counts.counted m n)
      × ((if p then suc m else m) ≡ a)
      × ((if q then suc n else n) ≡ b)
tally-counted p q (Counts.counted m n) h = (m, n, refl, ground arith, ground arith)
tally-counted p q (Counts.failed x) h = absurd (grind (arith, h))

no_count : (p : Bool) (m : ℕ) {a : ℕ} → (if p then suc m else m) ≡ a → a ≡ 0 → (m ≡ 0) × (p ≡ false)
no_count p m h z = ground arith

no_backslash :
    (q c : ℕ) → (q == b'\\') ≡ false → (not (c == q) && c == b'\\') ≡ false → (c == b'\\') ≡ false
no_backslash q c other h = ground arith

pub write_whole :
    (e : Encoding) (d : ℕ → Bool) (c : ℕ) (rest : Bytes)
    → is_highbit_set c ≡ true
    → d c ≡ false
    → write e d 0 (c ∷ rest) ≡ c ∷ write e d (mblen e c rest - 1) rest
unfolding write
write_whole e d c rest b h = rw (b, h) refl

pub write_single :
    (e : Encoding) (d : ℕ → Bool) (c : ℕ) (rest : Bytes)
    → is_highbit_set c ≡ false
    → write e d 0 (c ∷ rest) ≡ (if d c then c ∷ c ∷ write e d 0 rest else c ∷ write e d 0 rest)
unfolding write
write_single e d c rest b = elim (Bool-cases (d c)) [ inl h ↦ rw (h) refl | inr h ↦ rw (h, b) refl ]

-- A character that the scan passes over, and a byte that it looks at.
scan_input-whole :
    (e : Encoding) (q : ℕ) (v : Bool) (c : ℕ) (rest : Bytes) {a b : ℕ}
    → is_lead q c ≡ true
    → scan_input e q v 0 (c ∷ rest) ≡ Counts.counted a b
    → (n : ℕ) × (charlen e c rest ≡ some n)
      × (scan_input e q true (n - 1) rest ≡ Counts.counted a b)
unfolding scan_input
scan_input-whole e q v c rest l h = elim (Option-cases (charlen e c rest)) [
  | inl m ↦ absurd (grind (arith, (rw (l, m, scan_input) at h)))
  | inr (n, m) ↦ elim (Bool-cases (v || verifies e (c ∷ rest))) [
    | inl w ↦ (n, m, rw (l, m, w, scan_input) at h)
    | inr w ↦ absurd (grind (arith, (rw (l, m, w, scan_input) at h)))
  ]
]

scan_input-single :
    (e : Encoding) (q : ℕ) (v : Bool) (c : ℕ) (rest : Bytes)
    → is_lead q c ≡ false
    → scan_input e q v 0 (c ∷ rest)
      ≡ tally (c == q) (not (c == q) && c == b'\\') (scan_input e q v 0 rest)
unfolding scan_input
scan_input-single e q v c rest l = rw (l, scan_input) refl

-- Two ways of doubling that differ at bytes which the scan found none of write the same.
module _ (e : Encoding) (q : ℕ) (ascii : is_highbit_set q ≡ false) (other : (q == b'\\') ≡ false)
    (no_quotes no_backslashes : Bool) (d1 d2 : ℕ → Bool)
    (high1 : (c : ℕ) → is_highbit_set c ≡ true → d1 c ≡ false)
    (high2 : (c : ℕ) → is_highbit_set c ≡ true → d2 c ≡ false)
    (agree : (c : ℕ)
      → (no_quotes ≡ true → (c == q) ≡ false)
      → (no_backslashes ≡ true → (c == b'\\') ≡ false)
      → d1 c ≡ d2 c) where
  pub write_agrees :
      (v : Bool) (k : ℕ) (s : Bytes) {a b : ℕ}
      → scan_input e q v k s ≡ Counts.counted a b
      → (no_quotes ≡ true → a ≡ 0)
      → (no_backslashes ≡ true → b ≡ 0)
      → write e d1 k s ≡ write e d2 k s
  unfolding scan_input write
  write_agrees v k [] h z w = refl
  write_agrees v (suc k) (c ∷ rest) h z w = ap (λ bs. c ∷ bs) (write_agrees v k rest h z w)
  write_agrees v zero (c ∷ rest) h z w = elim (Bool-cases (is_lead q c)) [
    | inl l ↦
        let high = lead_highbit q c l in
        let (n, m, more) = scan_input-whole e q v c rest l h in
        let size = charlen-mblen e c rest m in
        write_whole e d1 c rest high (high1 c high)
        ∙ ap (λ bs. c ∷ bs)
            (subst (λ k. write e d1 (k - 1) rest ≡ write e d2 (k - 1) rest) size
              (write_agrees true (n - 1) rest more z w))
        ∙ sym (write_whole e d2 c rest high (high2 c high))
    | inr l ↦
        let low = not_highbit e q ascii c l in
        let (m, n, more, quotes, backslashes) =
          tally-counted _ _ _ (sym (scan_input-single e q v c rest l) ∙ h) in
        let rests =
          write_agrees v 0 rest more (λ yes. (no_count _ _ quotes (z yes)).0)
            (λ yes. (no_count _ _ backslashes (w yes)).0) in
        let same =
          agree c (λ yes. (no_count _ _ quotes (z yes)).1)
            (λ yes. no_backslash q c other (no_count _ _ backslashes (w yes)).1) in
        write_single e d1 c rest low ∙ rw (same, rests) refl ∙ sym (write_single e d2 c rest low)
  ]

pub Counts-cases :
    (r : Counts)
    → ((a : ℕ) × (b : ℕ) × (r ≡ Counts.counted a b)) ⊎ ((x : EscapeError) × (r ≡ Counts.failed x))
Counts-cases (Counts.counted a b) = inl (a, b, refl)
Counts-cases (Counts.failed x) = inr (x, refl)

pub written-injective : {x y : Bytes} → Quoted.written x ≡ Quoted.written y → x ≡ y
written-injective h = grind (arith, h)
