-- ===== src/Base64/Groups.antt =====
-- What `decode` of crates/rlibpq/src/base64.rs refuses.
use pgrust_drop.Prelude.{
  ℕ, ◌+◌, ◌*◌, ◌%◌, ◌<◌, [], ◌∷◌, Option, none, some, ◌==◌, ==_iff, if◌then◌else◌, length, Bytes,
  ◌≡◌, ◌≢◌, refl, sym, ◌∙◌, arith, Bool-cases, Option-cases, inl, inr,
}
use pgrust_drop.Base64.{read_symbol, group, emit, decode_from, base64_decode}

emit-some :
    (out : Bytes) (o : Option Bytes) {r : Bytes} → emit out o ≡ some r → (s : Bytes) × (o ≡ some s)
emit-some out none h = absurd (ground arith)
emit-some out (some s) h = (s, refl)

decode_step :
    (buf pos end_seq c : ℕ) (src : Bytes) {out : Bytes}
    → decode_from buf pos end_seq (c ∷ src) ≡ some out
    → (b : ℕ) × (e : ℕ) × (rest : Bytes) × (read_symbol c pos end_seq ≡ some (b, e))
      × (decode_from
            (if pos + 1 == 4 then 0 else buf * 64 + b)
            (if pos + 1 == 4 then 0 else pos + 1)
            e
            src
          ≡ some rest)
unfolding decode_from
decode_step buf pos end_seq c src {out} h = elim (Option-cases (read_symbol c pos end_seq)) [
  | inl n ↦ absurd (ground arith)
  | inr ((b, e), r) ↦
      let chunk = if pos + 1 == 4 then group (buf * 64 + b) e else [] in
      let behind =
        decode_from (if pos + 1 == 4 then 0 else buf * 64 + b) (if pos + 1 == 4 then 0 else pos + 1)
          e src in
      let opened : decode_from buf pos end_seq (c ∷ src) ≡ emit chunk behind =
        rw (r, decode_from) refl in
      let (rest, f) = emit-some chunk behind (sym opened ∙ h) in (b, e, rest, r, f)
]

decode_from-length :
    (buf pos end_seq : ℕ) (src : Bytes) {out : Bytes}
    → pos < 4
    → decode_from buf pos end_seq src ≡ some out
    → (pos + length src) % 4 ≡ 0
decode_from-length buf pos end_seq [] few h = elim (Bool-cases (pos == 0)) [
  | inl e ↦ let start = (==_iff pos 0).0 e in omega arith
  | inr e ↦ absurd (unfold decode_from in ground arith)
]
decode_from-length buf pos end_seq (c ∷ src) few h =
    let (b, e, rest, _, f) = decode_step buf pos end_seq c src h in
    elim (Bool-cases (pos + 1 == 4)) [
      | inl full ↦
          let behind = decode_from-length 0 0 e src (omega arith) (rw full at f) in
          let last = (==_iff (pos + 1) 4).0 full in omega arith
      | inr partial ↦
          let behind =
            decode_from-length (buf * 64 + b) (pos + 1) e src (ground arith) (rw partial at f) in
          omega arith
    ]

-- Characters are decoded in fours: a text of another length is refused.
pub base64_decode-length : (src : Bytes) → length src % 4 ≢ 0 → base64_decode src ≡ none
unfolding base64_decode
base64_decode-length src odd = elim (Option-cases (decode_from 0 0 0 src)) [
  | inl e ↦ e
  | inr (out, e) ↦
      absurd (let whole = decode_from-length 0 0 0 src (omega arith) e in odd (omega arith))
]
