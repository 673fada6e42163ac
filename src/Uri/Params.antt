-- ===== src/Uri/Params.antt =====
-- crates/rlibpq/src/uri.rs: the query parameters of a connection URI, over what is left of the text.
-- The loop runs on fuel; one round more than the text has bytes is enough. Ends and Print are its
-- theorems.
pub mod Ends
pub mod Print
use pgrust_drop.Prelude.{
  ℕ, zero, suc, ◌&&◌, ◌||◌, Bool, true, false, List, [], ◌∷◌, Option, none, some, ◌==◌,
  if◌then◌else◌, length, Bytes, codes, bytes_eq,
}
use pgrust_drop.ConnError.{ConnError, Result, ok, err, ◌>>=◌}
use pgrust_drop.ConnInfo.{ConnInfo, at, set, Stored, stored, unknown_keyword}
use pgrust_drop.Uri.{uri_decode}

-- What the scan of one parameter comes to.
pub data Param : Type 0 where
  extra missing : Bytes → Param
  found : Bytes → Bytes → Bytes → Param

abbrev push_in_value : ℕ → Option (Bytes × Bytes) → Option (Bytes × Bytes)
push_in_value c none = none
push_in_value c (some (value, rest)) = some (c ∷ value, rest)

-- The scan behind the separator, nothing at another one.
unfoldable pub scan_value : Bytes → Option (Bytes × Bytes)
scan_value [] = some ([], [])
scan_value (c ∷ rest) =
    let behind = scan_value rest in
    if c == b'='
    then none
    else if c == b'&'
    then some ([], rest)
    else if c == 0
    then some ([], c ∷ rest)
    else push_in_value c behind

abbrev push_in_keyword : ℕ → Param → Param
push_in_keyword c (extra keyword) = extra (c ∷ keyword)
push_in_keyword c (missing param) = missing (c ∷ param)
push_in_keyword c (found keyword value rest) = found (c ∷ keyword) value rest

abbrev separated : Option (Bytes × Bytes) → Param
separated none = extra []
separated (some (value, rest)) = found [] value rest

-- The scan of one parameter.
unfoldable pub scan_param : Bytes → Param
scan_param [] = missing []
scan_param (c ∷ rest) =
    let behind = scan_param rest in
    if c == b'='
    then separated (scan_value rest)
    else if c == b'&' || c == 0
    then missing []
    else push_in_keyword c behind

-- The spelling that JDBC has for `sslmode=require`.
unfoldable pub jdbc_compatible : Bytes → Bytes → Bytes × Bytes
jdbc_compatible keyword value =
    if bytes_eq keyword (codes "ssl") && bytes_eq value (codes "true")
    then (codes "sslmode", codes "require")
    else (keyword, value)

unfoldable pub decode_pair : Bytes → Bytes → Result (Bytes × Bytes)
decode_pair raw_keyword raw_value = do
  keyword ← uri_decode raw_keyword
  value ← uri_decode raw_value
  ok (jdbc_compatible keyword value)

-- The loop of `parse_uri_params`, nothing when the fuel runs out.
unfoldable pub parse_params : ℕ → Bytes → ConnInfo → Option (Result ConnInfo)
parse_params zero params options = none
parse_params (suc fuel) params options = elim (at params == 0) [
  | true ↦ some (ok options)
  | false ↦ elim (scan_param params) [
    | extra keyword ↦ some (err (ConnError.extra_separator keyword))
    | missing param ↦ some (err (ConnError.missing_separator param))
    | found raw_keyword raw_value rest ↦ elim (decode_pair raw_keyword raw_value) [
      | err e ↦ some (err e)
      | ok (keyword, value) ↦ elim (set options keyword value) [
        | stored o ↦ parse_params fuel rest o
        | unknown_keyword name ↦ some (err (ConnError.invalid_uri_query_parameter name))
      ]
    ]
  ]
]

-- `parse_uri_params`.
unfoldable pub parse_uri_params : Bytes → ConnInfo → Option (Result ConnInfo)
parse_uri_params params options = parse_params (suc (length params)) params options
