-- ===== src/Uri/Params/Ends.antt =====
-- The fuel of the loop over the query parameters in crates/rlibpq/src/uri.rs.
use pgrust_drop.Prelude.{
  either, ℕ, zero, suc, ◌<◌, ◌≤◌, ◌||◌, true, false, [], ◌∷◌, Option, none, some, ◌==◌, length,
  Bytes, ◌≡◌, refl, arith, inl, inr, Bool-cases, is_some,
}
use pgrust_drop.ConnError.{ConnError, Result, ok, err}
use pgrust_drop.ConnInfo.{ConnInfo, at, set, Stored, stored, unknown_keyword}
use pgrust_drop.ConnInfo.Laws.{Stored-cases}
use pgrust_drop.Uri.Params.{
  Param, extra, missing, found, push_in_value, scan_value, push_in_keyword, separated, scan_param,
  decode_pair, parse_params, parse_uri_params,
}

abbrev ValueWithin : ℕ → Option (Bytes × Bytes) → Type 0
ValueWithin n none = Unit
ValueWithin n (some (value, rest)) = length rest ≤ n

abbrev ParamWithin : ℕ → Param → Type 0
ParamWithin n (extra keyword) = Unit
ParamWithin n (missing param) = Unit
ParamWithin n (found keyword value rest) = length rest < n

push_in_value-ValueWithin :
    (n c : ℕ) (o : Option (Bytes × Bytes))
    → ValueWithin n o
    → ValueWithin (suc n) (push_in_value c o)
push_in_value-ValueWithin n c none h = tt
push_in_value-ValueWithin n c (some (value, rest)) h = omega arith

scan_value-ValueWithin : (bs : Bytes) → ValueWithin (length bs) (scan_value bs)
unfolding scan_value
scan_value-ValueWithin [] = omega arith
scan_value-ValueWithin (c ∷ bs) =
    let Fits : Option (Bytes × Bytes) → Type 0 = ValueWithin (suc (length bs)) in
    either Fits (c == b'=') tt (
      either Fits (c == b'&') (omega arith) (
        either Fits (c == 0) (omega arith)
          (push_in_value-ValueWithin (length bs) c (scan_value bs) (scan_value-ValueWithin bs))))

separated-ParamWithin :
    (n : ℕ) (o : Option (Bytes × Bytes)) → ValueWithin n o → ParamWithin (suc n) (separated o)
separated-ParamWithin n none h = tt
separated-ParamWithin n (some (value, rest)) h = omega arith

push_in_keyword-ParamWithin :
    (n c : ℕ) (p : Param) → ParamWithin n p → ParamWithin (suc n) (push_in_keyword c p)
push_in_keyword-ParamWithin n c (extra keyword) h = tt
push_in_keyword-ParamWithin n c (missing param) h = tt
push_in_keyword-ParamWithin n c (found keyword value rest) h = omega arith

scan_param-ParamWithin : (bs : Bytes) → ParamWithin (length bs) (scan_param bs)
unfolding scan_param
scan_param-ParamWithin [] = tt
scan_param-ParamWithin (c ∷ bs) =
    let Fits : Param → Type 0 = ParamWithin (suc (length bs)) in
    either Fits (c == b'=')
      (separated-ParamWithin (length bs) (scan_value bs) (scan_value-ValueWithin bs))
      (either Fits (c == b'&' || c == 0) tt
        (push_in_keyword-ParamWithin (length bs) c (scan_param bs) (scan_param-ParamWithin bs)))

-- What one round does behind the scan, and behind the setting of an option.
abbrev pub continue : ℕ → Bytes → Stored → Option (Result ConnInfo)
continue fuel rest (stored o) = parse_params fuel rest o
continue fuel rest (unknown_keyword name) = some (err (ConnError.invalid_uri_query_parameter name))

abbrev set_decoded : ℕ → Bytes → ConnInfo → Result (Bytes × Bytes) → Option (Result ConnInfo)
set_decoded fuel rest o (err e) = some (err e)
set_decoded fuel rest o (ok (keyword, value)) = continue fuel rest (set o keyword value)

abbrev pub set_param : ℕ → ConnInfo → Param → Option (Result ConnInfo)
set_param fuel o (extra keyword) = some (err (ConnError.extra_separator keyword))
set_param fuel o (missing param) = some (err (ConnError.missing_separator param))
set_param fuel o (found raw_keyword raw_value rest) =
    set_decoded fuel rest o (decode_pair raw_keyword raw_value)

pub parse_params_round :
    (fuel : ℕ) (params : Bytes) (o : ConnInfo)
    → (at params == 0) ≡ false
    → parse_params (suc fuel) params o ≡ set_param fuel o (scan_param params)
unfolding parse_params
parse_params_round fuel params o z = rw (z, parse_params) refl

-- That the loop ends on every shorter text.
abbrev EndsBelow : ℕ → Type 0
EndsBelow fuel =
    (rest : Bytes) (o : ConnInfo) → length rest < fuel → is_some (parse_params fuel rest o) ≡ true

set_decoded_ends :
    (fuel : ℕ) (rest : Bytes) (o : ConnInfo) (decoded : Result (Bytes × Bytes))
    → EndsBelow fuel
    → length rest < fuel
    → is_some (set_decoded fuel rest o decoded) ≡ true
set_decoded_ends fuel rest o (err e) ends h = refl
set_decoded_ends fuel rest o (ok (keyword, value)) ends h =
    elim (Stored-cases (set o keyword value)) [
      | inl (o', e) ↦ rw e (ends rest o' h)
      | inr (name, e) ↦ rw e refl
    ]

set_param_ends :
    (fuel n : ℕ) (o : ConnInfo) (p : Param)
    → EndsBelow fuel
    → n ≤ fuel
    → ParamWithin n p
    → is_some (set_param fuel o p) ≡ true
set_param_ends fuel n o (extra keyword) ends few h = refl
set_param_ends fuel n o (missing param) ends few h = refl
set_param_ends fuel n o (found raw_keyword raw_value rest) ends few h =
    set_decoded_ends fuel rest o (decode_pair raw_keyword raw_value) ends (omega arith)

parse_params_ends :
    (fuel : ℕ) (params : Bytes) (o : ConnInfo)
    → length params < fuel
    → is_some (parse_params fuel params o) ≡ true
unfolding parse_params
parse_params_ends zero params o h = absurd (omega arith)
parse_params_ends (suc fuel) params o h = elim (Bool-cases (at params == 0)) [
  | inl z ↦ rw (z, parse_params) refl
  | inr z ↦ rw (parse_params_round fuel params o z) (
      set_param_ends fuel (length params) o (scan_param params)
        (λ rest o' few. parse_params_ends fuel rest o' few) (omega arith)
        (scan_param-ParamWithin params))
]

-- The loop over the query parameters returns for every text, whatever was set before.
pub parse_uri_params_ends :
    (params : Bytes) (o : ConnInfo) → is_some (parse_uri_params params o) ≡ true
unfolding parse_uri_params
parse_uri_params_ends params o = parse_params_ends (suc (length params)) params o (omega arith)
