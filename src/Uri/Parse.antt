-- ===== src/Uri/Parse.antt =====
-- crates/rlibpq/src/uri.rs: `parse_uri`, over what is left of the text. Nothing is returned where
-- the source would panic or the fuel of a loop run out. Ends has its fuel, Parts and Print what it
-- makes of a URI that is printed.
pub mod Ends
pub mod Parts
pub mod Print
use pgrust_drop.Prelude.{
  ℕ, zero, suc, ◌+◌, ◌-◌, Bool, true, false, not, ◌&&◌, ◌||◌, List, [], ◌∷◌, ◌++◌, Option, none,
  some, ◌==◌, if◌then◌else◌, length, drop, Bytes, codes, is_nil,
}
use pgrust_drop.ConnError.{ConnError, Result, ok, err}
use pgrust_drop.ConnInfo.{ConnInfo, at, new, set, stored, unknown_keyword}
use pgrust_drop.Target.{starts_with}
use pgrust_drop.Uri.{uri_decode}
use pgrust_drop.Uri.Params.{parse_uri_params}

-- A result, or a panic.
abbrev pub Run : Type 0 → Type 0
Run A = Option (Result A)

infixl 5 ◌>>=◌
abbrev pub ◌>>=◌ : {A B : Type 0} → Run A → (A → Run B) → Run B
none >>= next = none
some (err e) >>= next = some (err e)
some (ok a) >>= next = next a

abbrev uri_designator : Bytes
uri_designator = codes "postgresql://"

abbrev short_uri_designator : Bytes
short_uri_designator = codes "postgres://"

-- `uri_prefix_length` of crates/rlibpq/src/conninfo.rs.
unfoldable pub uri_prefix_length : Bytes → ℕ
uri_prefix_length connstr =
    if starts_with connstr uri_designator
    then length uri_designator
    else if starts_with connstr short_uri_designator
    then length short_uri_designator
    else 0

-- The loops `while at(buf, p) != 0 && …`, with the bytes they pass over.
unfoldable pub take_until : (ℕ → Bool) → Bytes → Bytes × Bytes
take_until stops [] = ([], [])
take_until stops (c ∷ rest) =
    let (taken, behind) = take_until stops rest in
    if c == 0 || stops c then ([], c ∷ rest) else (c ∷ taken, behind)

-- `store_builtin`, which panics on a keyword that the table does not have.
unfoldable pub store_builtin : Bytes → Bytes → ConnInfo → Run ConnInfo
store_builtin keyword value o = elim (set o keyword value) [
  | stored o' ↦ some (ok o')
  | unknown_keyword name ↦ none
]

abbrev pub store_decoded : Bytes → Result Bytes → ConnInfo → Run ConnInfo
store_decoded keyword (err e) o = some (err e)
store_decoded keyword (ok value) o = store_builtin keyword value o

-- A part that is decoded and stored unless it is empty.
unfoldable pub store_part : Bytes → Bytes → ConnInfo → Run ConnInfo
store_part keyword part o =
    if is_nil part then some (ok o) else store_decoded keyword (uri_decode part) o

-- The password, up to the `@` that is known to come.
unfoldable pub password : Bytes → ConnInfo → Run (ConnInfo × Bytes)
password behind o =
    if at behind == b':'
    then (let (word, rest) = take_until (λ c. c == b'@') (drop 1 behind) in
        do o' ← store_part (codes "password") word o; some (ok (o', drop 1 rest)))
    else some (ok (o, drop 1 behind))

-- The user credentials, where there are any: the options with them, and the rest.
unfoldable pub credentials : Bytes → ConnInfo → Run (ConnInfo × Bytes)
credentials start o =
    let (_, ahead) = take_until (λ c. c == b'@' || c == b'/') start in
    if at ahead == b'@'
    then (let (user, behind) = take_until (λ c. c == b':' || c == b'@') start in
        do o' ← store_part (codes "user") user o; password behind o')
    else some (ok (o, start))

abbrev ends_port : ℕ → Bool
ends_port c = c == b'/' || c == b'?' || c == b','

abbrev ends_host : ℕ → Bool
ends_host c = c == b':' || ends_port c

-- One host, with what is left behind it.
unfoldable pub read_host : Bytes → Bytes → Result (Bytes × Bytes)
read_host uri rest =
    if at rest == b'['
    then (let (address, behind) = take_until (λ c. c == b']') (drop 1 rest) in
        let after = drop 1 behind in
        if at behind == 0
        then err (ConnError.ipv6_unterminated uri)
        else if is_nil address
        then err (ConnError.ipv6_empty uri)
        else if not (at after == 0) && not (ends_host (at after))
        then err (ConnError.unexpected_character (at after) (length uri - length after + 1) uri)
        else ok (address, after))
    else ok (take_until ends_host rest)

-- The port behind a host, where there is one.
unfoldable pub read_port : Bytes → Bytes × Bytes
read_port behind = if at behind == b':' then take_until ends_port (drop 1 behind) else ([], behind)

-- What `parse_netlocs` leaves: the two buffers and the rest, whose first byte is `prevchar`.
pub record Netlocs : Type 0 where
  pub hostbuf : Bytes
  pub portbuf : Bytes
  pub left : Bytes

-- `parse_netlocs`, on fuel.
unfoldable pub parse_netlocs : ℕ → Bytes → Bytes → Bytes → Bytes → Run Netlocs
parse_netlocs zero uri rest hostbuf portbuf = none
parse_netlocs (suc fuel) uri rest hostbuf portbuf = elim (read_host uri rest) [
  | err e ↦ some (err e)
  | ok (host, behind) ↦
      let (port, left) = read_port behind in
      elim (at left == b',') [
        | true ↦
            parse_netlocs fuel uri (drop 1 left) (hostbuf ++ (host ++ (b',' ∷ [])))
              (portbuf ++ (port ++ (b',' ∷ [])))
        | false ↦
            some (ok (record { hostbuf = hostbuf ++ host; portbuf = portbuf ++ port; left = left }))
      ]
]

-- The database name, where there is one: the options with it, and the rest.
unfoldable pub database : Bytes → ConnInfo → Run (ConnInfo × Bytes)
database left o =
    if not (at left == 0) && not (at left == b'?')
    then (let (dbname, behind) = take_until (λ c. c == b'?') (drop 1 left) in
        do o' ← store_part (codes "dbname") dbname o; some (ok (o', behind)))
    else some (ok (o, left))

unfoldable pub query_part : Bytes → ConnInfo → Run ConnInfo
query_part behind o =
    if not (at behind == 0) then parse_uri_params (drop 1 behind) o else some (ok o)

-- `parse_uri_options`.
unfoldable pub parse_uri_options : ConnInfo → Bytes → Run ConnInfo
parse_uri_options o uri =
    if uri_prefix_length uri == 0 then some (err (ConnError.invalid_uri_propagated uri)) else (do
      (o1, rest) ← credentials (drop (uri_prefix_length uri) uri) o
      netlocs ← parse_netlocs (suc (length rest)) uri rest [] []
      o2 ← store_part (codes "host") netlocs.hostbuf o1
      o3 ← store_part (codes "port") netlocs.portbuf o2
      (o4, behind) ← database netlocs.left o3
      query_part behind o4)

-- `parse_uri`.
unfoldable pub parse_uri : Bytes → Run ConnInfo
parse_uri uri = parse_uri_options new uri
