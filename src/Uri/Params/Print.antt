-- ===== src/Uri/Params/Print.antt =====
-- Printing query parameters, and the parser of crates/rlibpq/src/uri.rs on what is printed.
use pgrust_drop.Prelude.{
  ℕ, zero, suc, ◌/◌, ◌%◌, ◌<◌, Bool, true, false, List, [], ◌∷◌, ◌++◌, some, ◌==◌, if◌then◌else◌,
  length, length-append, Bytes, All, ◌≡◌, ◌≢◌, refl, ap, ◌∙◌, arith, inl, inr,
}
use pgrust_drop.ConnError.{ConnError, Result, ok, err, ◌>>=◌}
use pgrust_drop.ConnInfo.{ConnInfo, at, set, stored, unknown_keyword}
use pgrust_drop.ConnInfo.Laws.{Stored-cases}
use pgrust_drop.Uri.RoundTrip.{
  percent_encode, hex_of, IsPlain, IsTextByte, uri_decode-percent_encode,
}
use pgrust_drop.Uri.Params.{
  found, scan_value, scan_param, jdbc_compatible, decode_pair, parse_params, parse_uri_params,
}
use pgrust_drop.Uri.Params.Ends.{parse_params_round, set_param}

-- Keywords and values percent-encoded, each pair with an ampersand behind it.
unfoldable pub print_params : (ℕ → Bool) → List (Bytes × Bytes) → Bytes
print_params plain [] = []
print_params plain ((k, v) ∷ pairs) =
    percent_encode plain k ++ (b'=' ∷ (percent_encode plain v ++ (b'&' ∷ print_params plain pairs)))

-- Setting the pairs one after the other, under the JDBC spelling.
unfoldable pub set_query : List (Bytes × Bytes) → ConnInfo → Result ConnInfo
set_query [] o = ok o
set_query ((k, v) ∷ pairs) o = elim (set o (jdbc_compatible k v).0 (jdbc_compatible k v).1) [
  | stored o' ↦ set_query pairs o'
  | unknown_keyword name ↦ err (ConnError.invalid_uri_query_parameter name)
]

-- A byte that neither separates nor ends.
abbrev IsFree : ℕ → Type 0
IsFree c = ((c == b'=') ≡ false) × ((c == b'&') ≡ false) × ((c == 0) ≡ false)

-- What may stand for itself in a query.
abbrev pub IsQueryPlain : (ℕ → Bool) → Type 0
IsQueryPlain plain = (c : ℕ) → plain c ≡ true → (c ≢ b'%') × (c ≢ b' ') × IsFree c

query-IsPlain : (plain : ℕ → Bool) → IsQueryPlain plain → IsPlain plain
query-IsPlain plain q c h =
    let (percent, blank, free) = q c h in (percent, blank, λ e. ground arith)

hex_of-IsFree : (n : ℕ) → IsFree (hex_of n)
hex_of-IsFree n = (ground arith, ground arith, ground arith)

All-either :
    (t : Bool) (xs ys : Bytes)
    → (t ≡ true → All IsFree xs)
    → (t ≡ false → All IsFree ys)
    → All IsFree (if t then xs else ys)
All-either true xs ys p q = p refl
All-either false xs ys p q = q refl

percent_encode-IsFree :
    (plain : ℕ → Bool) (src : Bytes) → IsQueryPlain plain → All IsFree (percent_encode plain src)
unfolding percent_encode
percent_encode-IsFree plain [] q = tt
percent_encode-IsFree plain (c ∷ src) q =
    let rest = percent_encode plain src in
    let rest_free = percent_encode-IsFree plain src q in
    All-either (plain c) _ _ (λ e. ((q c e).2, rest_free))
      (λ e. ((refl, refl, refl), (hex_of-IsFree (c / 16), (hex_of-IsFree (c % 16), rest_free))))

scan_value_free :
    (bs rest : Bytes) → All IsFree bs → scan_value (bs ++ (b'&' ∷ rest)) ≡ some (bs, rest)
unfolding scan_value
scan_value_free [] rest h = refl
scan_value_free (c ∷ bs) rest ((e, f, z), h) =
    rw (scan_value_free bs rest h, scan_value, e, f, z) refl

scan_param_free :
    (ks vs rest : Bytes)
    → All IsFree ks
    → All IsFree vs
    → scan_param (ks ++ (b'=' ∷ (vs ++ (b'&' ∷ rest)))) ≡ found ks vs rest
unfolding scan_param
scan_param_free [] vs rest h k = rw (scan_value_free vs rest k) refl
scan_param_free (c ∷ ks) vs rest ((e, f, z), h) k =
    rw (scan_param_free ks vs rest h k, scan_param, e, f, z) refl

at_free : (ks rest : Bytes) → All IsFree ks → (at (ks ++ (b'=' ∷ rest)) == 0) ≡ false
at_free [] rest h = refl
at_free (c ∷ ks) rest ((_, _, z), h) = z

decode_pair_printed :
    (plain : ℕ → Bool) (k v : Bytes)
    → IsQueryPlain plain
    → All IsTextByte k
    → All IsTextByte v
    → decode_pair (percent_encode plain k) (percent_encode plain v) ≡ ok (jdbc_compatible k v)
unfolding decode_pair
decode_pair_printed plain k v q hk hv =
    let p = query-IsPlain plain q in
    rw (uri_decode-percent_encode plain k p hk, uri_decode-percent_encode plain v p hv, ◌>>=◌) refl

abbrev pub IsTextPair : Bytes × Bytes → Type 0
IsTextPair (k, v) = All IsTextByte k × All IsTextByte v

parse_params-print_params :
    (fuel : ℕ) (plain : ℕ → Bool) (pairs : List (Bytes × Bytes)) (o : ConnInfo)
    → IsQueryPlain plain
    → All IsTextPair pairs
    → length (print_params plain pairs) < fuel
    → parse_params fuel (print_params plain pairs) o ≡ some (set_query pairs o)
unfolding print_params set_query parse_params
parse_params-print_params zero plain pairs o q t h = absurd (omega arith)
parse_params-print_params (suc fuel) plain [] o q t h = refl
parse_params-print_params (suc fuel) plain ((k, v) ∷ pairs) o q ((hk, hv), t) h =
    let ks = percent_encode plain k in
    let vs = percent_encode plain v in
    let rest = print_params plain pairs in
    let ks_free = percent_encode-IsFree plain k q in
    let tail = vs ++ (b'&' ∷ rest) in
    parse_params_round fuel (ks ++ (b'=' ∷ tail)) o (at_free ks tail ks_free)
    ∙ ap (set_param fuel o) (scan_param_free ks vs rest ks_free (percent_encode-IsFree plain v q))
    ∙ rw (decode_pair_printed plain k v q hk hv)
        (elim (Stored-cases (set o (jdbc_compatible k v).0 (jdbc_compatible k v).1)) [
          | inl (o', e) ↦
              rw (e, set_query)
                (parse_params-print_params fuel plain pairs o' q t
                  (omega (arith, length-append ks (b'=' ∷ tail), length-append vs (b'&' ∷ rest))))
          | inr (name, e) ↦ rw (e, set_query) refl
        ])

-- Query parameters that are percent-encoded are parsed to what setting them one after the other
-- gives, `ssl=true` as `sslmode=require`, or to the error of the first that the table does not have.
pub parse_uri_params-print_params :
    (plain : ℕ → Bool) (pairs : List (Bytes × Bytes)) (o : ConnInfo)
    → IsQueryPlain plain
    → All IsTextPair pairs
    → parse_uri_params (print_params plain pairs) o ≡ some (set_query pairs o)
unfolding parse_uri_params
parse_uri_params-print_params plain pairs o q t =
    parse_params-print_params (suc (length (print_params plain pairs))) plain pairs o q t
      (omega arith)
