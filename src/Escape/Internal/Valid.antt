-- ===== src/Escape/Internal/Valid.antt =====
-- crates/rlibpq/src/escape.rs: which input the scan of `escape_internal` lets through.
use pgrust_drop.Prelude.{
  ℕ, zero, suc, ◌-◌, Bool, true, false, [], ◌∷◌, some, ◌==◌, length, Bytes, ◌≡◌, refl, sym, ap, ◌∙◌,
  arith, Bool-cases, Option-cases, inl, inr, eq→==,
}
use pgrust_drop.Encoding.{Encoding, family}
use pgrust_drop.Encoding.Length.{is_highbit_set, mblen_or_incomplete, family_mblen, is_gb18030}
use pgrust_drop.Encoding.Verify.{verify_str, verify_from, verify_char, family_verify_char}
use pgrust_drop.Encoding.Laws.{verify_char-mblen}
use pgrust_drop.Escape.{up_to_nul}
use pgrust_drop.Escape.Internal.{
  Counts, tally, charlen, verifies, is_lead, scan_input, Quoted, quoted_text, quote_of,
  escape_internal,
}

-- A character that verifies has its length told.
pub mblen_or_incomplete-verify_char :
    (e : Encoding) (c : ℕ) (rest : Bytes) {n : ℕ}
    → verify_char e c rest ≡ some n
    → mblen_or_incomplete e (c ∷ rest) ≡ some n
unfolding mblen_or_incomplete is_gb18030 family_verify_char family family_mblen
mblen_or_incomplete-verify_char Encoding.gb18030 c [] h = ground arith
mblen_or_incomplete-verify_char Encoding.gb18030 c (a ∷ rest) h =
    let same = (verify_char-mblen Encoding.gb18030 c (a ∷ rest) h).0 in ground arith
mblen_or_incomplete-verify_char e c rest h =
    let same = (verify_char-mblen e c rest h).0 in ap some same

abbrev pub is_counted : Counts → Bool
is_counted (Counts.counted a b) = true
is_counted (Counts.failed x) = false

is_counted-tally : (p q : Bool) (r : Counts) → is_counted (tally p q r) ≡ is_counted r
is_counted-tally p q (Counts.counted a b) = refl
is_counted-tally p q (Counts.failed x) = refl

charlen-verify_char :
    (e : Encoding) (c : ℕ) (rest : Bytes) {n : ℕ}
    → verify_char e c rest ≡ some n
    → charlen e c rest ≡ some n
unfolding charlen
charlen-verify_char e c rest h =
    let told = mblen_or_incomplete-verify_char e c rest h in
    let fits = (verify_char-mblen e c rest h).2 in rw told (ground arith)

verifies-length : (e : Encoding) (s : Bytes) → verifies e s ≡ true → verify_from e 0 s ≡ length s
unfolding verifies verify_str
verifies-length e s h = ground arith

module _ (e : Encoding) (q : ℕ) (ascii : is_highbit_set q ≡ false) where
  lead : (c : ℕ) → is_highbit_set c ≡ true → is_lead q c ≡ true
  unfolding is_lead
  lead c h = grind (arith, h, ascii)

  no_lead : (c : ℕ) → is_highbit_set c ≡ false → is_lead q c ≡ false
  unfolding is_lead
  no_lead c h = ground arith

  pub not_highbit : (c : ℕ) → is_lead q c ≡ false → is_highbit_set c ≡ false
  unfolding is_lead
  not_highbit c h = grind (arith, h, ascii)

  scan_plain :
      (v : Bool) (c : ℕ) (rest : Bytes)
      → is_lead q c ≡ false
      → is_counted (scan_input e q v 0 (c ∷ rest)) ≡ is_counted (scan_input e q v 0 rest)
  unfolding scan_input
  scan_plain v c rest h = rw (h, is_counted, scan_input) (is_counted-tally _ _ _)

  scan_lead :
      (v : Bool) (c n : ℕ) (rest : Bytes)
      → is_lead q c ≡ true
      → charlen e c rest ≡ some n
      → verifies e (c ∷ rest) ≡ true
      → scan_input e q v 0 (c ∷ rest) ≡ scan_input e q true (n - 1) rest
  unfolding scan_input
  scan_lead true c n rest h l w = rw (h, l, scan_input) refl
  scan_lead false c n rest h l w = rw (h, l, w, scan_input) refl

  -- What verifies is let through.
  is_counted-scan_input :
      (v : Bool) (k : ℕ) (s : Bytes)
      → verify_from e k s ≡ length s
      → is_counted (scan_input e q v k s) ≡ true
  unfolding verify_from scan_input verify_str verifies
  is_counted-scan_input v k [] h = refl
  is_counted-scan_input v (suc k) (c ∷ rest) h = is_counted-scan_input v k rest (omega arith)
  is_counted-scan_input v zero (c ∷ rest) h = elim (Bool-cases (is_highbit_set c)) [
    | inl b ↦ elim (Option-cases (verify_char e c rest)) [
      | inl m ↦ absurd (grind (arith, h, b, m))
      | inr (n, m) ↦
          let verified = rw (b, m) at h in
          rw (scan_lead v c n rest (lead c b) (charlen-verify_char e c rest m) (eq→== _ _ h))
            (is_counted-scan_input true (n - 1) rest (omega arith))
    ]
    | inr b ↦
        scan_plain v c rest (no_lead c b) ∙ is_counted-scan_input v 0 rest (grind (arith, h, b))
  ]

  scan_fails :
      (c : ℕ) (rest : Bytes)
      → is_lead q c ≡ true
      → verifies e (c ∷ rest) ≡ false
      → is_counted (scan_input e q false 0 (c ∷ rest)) ≡ false
  unfolding scan_input
  scan_fails c rest h w = elim (Option-cases (charlen e c rest)) [
    | inl l ↦ rw (h, l, is_counted, scan_input) refl
    | inr (n, l) ↦ rw (h, l, w, is_counted, scan_input) refl
  ]

  -- What is let through verifies.
  pub scan_verified :
      (from : Bytes)
      → is_counted (scan_input e q false 0 (up_to_nul from)) ≡ true
      → verify_from e 0 (up_to_nul from) ≡ length (up_to_nul from)
  unfolding up_to_nul verify_from verifies verify_str
  scan_verified [] h = refl
  scan_verified (c ∷ rest) h = elim (Bool-cases (c == 0)) [
    | inl z ↦ rw z refl
    | inr z ↦
        let s = up_to_nul rest in
        let counted = rw z at h in
        elim (Bool-cases (is_lead q c)) [
          | inl l ↦ elim (Bool-cases (verifies e (c ∷ s))) [
            | inl w ↦ rw z (verifies-length e (c ∷ s) w)
            | inr w ↦ absurd (grind (arith, counted, scan_fails c s l w))
          ]
          | inr l ↦
              let more = scan_verified rest (sym (scan_plain false c s l) ∙ counted) in
              rw (z, not_highbit c l, z) (ap suc more)
        ]
  ]

pub accepts : Quoted → Bool
accepts (Quoted.written bytes) = true
accepts (Quoted.refused x) = false

accepts-quoted_text :
    (e : Encoding) (as_ident : Bool) (s : Bytes) (r : Counts)
    → accepts (quoted_text e as_ident s r) ≡ is_counted r
unfolding accepts
accepts-quoted_text e as_ident s (Counts.counted a b) = refl
accepts-quoted_text e as_ident s (Counts.failed x) = refl

quote_of-ascii : (as_ident : Bool) → is_highbit_set (quote_of as_ident) ≡ false
quote_of-ascii true = refl
quote_of-ascii false = refl

-- `escape_internal` refuses its input exactly when the encoding does: it gives a quoted text if and
-- only if the bytes up to the first NUL verify from end to end.
pub escape_internal-verify_str :
    (from : Bytes) (e : Encoding) (as_ident : Bool)
    → accepts (escape_internal from e as_ident)
      ≡ (verify_str e (up_to_nul from) == length (up_to_nul from))
unfolding escape_internal verify_str verifies
escape_internal-verify_str from e as_ident =
    let q = quote_of as_ident in
    let ascii = quote_of-ascii as_ident in
    let s = up_to_nul from in
    let r = scan_input e q false 0 s in
    accepts-quoted_text e as_ident s r ∙ elim (Bool-cases (is_counted r)) [
      | inl c ↦ c ∙ sym (eq→== _ _ (scan_verified e q ascii from c))
      | inr c ↦ elim (Bool-cases (verify_from e 0 s == length s)) [
        | inl v ↦
            absurd
              (grind (arith, c, is_counted-scan_input e q ascii false 0 s (verifies-length e s v)))
        | inr v ↦ c ∙ sym v
      ]
    ]
