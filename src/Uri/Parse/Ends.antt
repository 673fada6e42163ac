-- ===== src/Uri/Parse/Ends.antt =====
-- That `parse_uri` of crates/rlibpq/src/uri.rs returns.
use mathlib.Core.Path.{subst}
use pgrust_drop.Prelude.{
  either, drop_shorter, ℕ, zero, suc, ◌<◌, ◌≤◌, Bool, true, false, not, ◌&&◌, ◌||◌, [], ◌∷◌, none,
  some, ◌==◌, if◌then◌else◌, length, drop, Bytes, codes, is_nil, is_some, bytes_eq, ◌≡◌, ◌⊎◌, refl,
  arith, inl, inr, Bool-cases,
}
use pgrust_drop.ConnError.{ConnError, Result, ok, err}
use pgrust_drop.ConnInfo.{ConnInfo, at, new, set, index_of, position, store, rewritten}
use pgrust_drop.ConnInfo.Options.{conninfo_options}
use pgrust_drop.Uri.{uri_decode}
use pgrust_drop.Uri.Params.Ends.{parse_uri_params_ends}
use pgrust_drop.Uri.Parse.{
  Run, ◌>>=◌, take_until, store_builtin, store_decoded, store_part, password, credentials,
  read_host, read_port, parse_netlocs, database, query_part, uri_prefix_length, parse_uri_options,
  parse_uri, ends_host, ends_port,
}

abbrev Returns : {A : Type 0} → Run A → Type 0
Returns m = is_some m ≡ true

next-Returns :
    {A B : Type 0} (m : Run A) (f : A → Run B)
    → Returns m
    → ((a : A) → Returns (f a))
    → Returns (m >>= f)
next-Returns none f h k = absurd (ground arith)
next-Returns (some (err e)) f h k = refl
next-Returns (some (ok a)) f h k = k a

if-Returns :
    {A : Type 0} (t : Bool) (m n : Run A) → Returns m → Returns n → Returns (if t then m else n)
if-Returns true m n h k = h
if-Returns false m n h k = k

-- The keywords that the parser stores by itself are in the table.
abbrev IsBuiltin : Bytes → Type 0
IsBuiltin keyword = (o : ConnInfo) (value : Bytes) → Returns (store_builtin keyword value o)

user-IsBuiltin : IsBuiltin (codes "user")
unfolding store_builtin set rewritten store index_of position conninfo_options bytes_eq
user-IsBuiltin o value = refl

password-IsBuiltin : IsBuiltin (codes "password")
unfolding store_builtin set rewritten store index_of position conninfo_options bytes_eq
password-IsBuiltin o value = refl

host-IsBuiltin : IsBuiltin (codes "host")
unfolding store_builtin set rewritten store index_of position conninfo_options bytes_eq
host-IsBuiltin o value = refl

port-IsBuiltin : IsBuiltin (codes "port")
unfolding store_builtin set rewritten store index_of position conninfo_options bytes_eq
port-IsBuiltin o value = refl

dbname-IsBuiltin : IsBuiltin (codes "dbname")
unfolding store_builtin set rewritten store index_of position conninfo_options bytes_eq
dbname-IsBuiltin o value = refl

store_decoded-Returns :
    (keyword : Bytes) (decoded : Result Bytes) (o : ConnInfo)
    → IsBuiltin keyword
    → Returns (store_decoded keyword decoded o)
store_decoded-Returns keyword (err e) o b = refl
store_decoded-Returns keyword (ok value) o b = b o value

store_part-Returns :
    (keyword part : Bytes) (o : ConnInfo) → IsBuiltin keyword → Returns (store_part keyword part o)
unfolding store_part
store_part-Returns keyword part o b =
    if-Returns (is_nil part) _ _ refl (store_decoded-Returns keyword (uri_decode part) o b)

password-Returns : (behind : Bytes) (o : ConnInfo) → Returns (password behind o)
unfolding password
password-Returns behind o =
    let (word, rest) = take_until (λ c. c == b'@') (drop 1 behind) in
    if-Returns (at behind == b':') _ _
      (next-Returns (store_part (codes "password") word o) _
        (store_part-Returns (codes "password") word o password-IsBuiltin) (λ o'. refl))
      refl

credentials-Returns : (start : Bytes) (o : ConnInfo) → Returns (credentials start o)
unfolding credentials
credentials-Returns start o =
    let (user, behind) = take_until (λ c. c == b':' || c == b'@') start in
    if-Returns (at (take_until (λ c. c == b'@' || c == b'/') start).1 == b'@') _ _
      (next-Returns (store_part (codes "user") user o) _
        (store_part-Returns (codes "user") user o user-IsBuiltin)
        (λ o'. password-Returns behind o'))
      refl

database-Returns : (left : Bytes) (o : ConnInfo) → Returns (database left o)
unfolding database
database-Returns left o =
    let (dbname, behind) = take_until (λ c. c == b'?') (drop 1 left) in
    if-Returns (not (at left == 0) && not (at left == b'?')) _ _
      (next-Returns (store_part (codes "dbname") dbname o) _
        (store_part-Returns (codes "dbname") dbname o dbname-IsBuiltin) (λ o'. refl))
      refl

query_part-Returns : (behind : Bytes) (o : ConnInfo) → Returns (query_part behind o)
unfolding query_part
query_part-Returns behind o =
    if-Returns (not (at behind == 0)) _ _ (parse_uri_params_ends (drop 1 behind) o) refl

take_until_shorter : (stops : ℕ → Bool) (bs : Bytes) → length (take_until stops bs).1 ≤ length bs
unfolding take_until
take_until_shorter stops [] = omega arith
take_until_shorter stops (c ∷ bs) = elim (Bool-cases (c == 0 || stops c)) [
  | inl e ↦ rw e (omega arith)
  | inr e ↦ rw e (omega (arith, take_until_shorter stops bs))
]

abbrev HostWithin : ℕ → Result (Bytes × Bytes) → Type 0
HostWithin n (err e) = Unit
HostWithin n (ok (host, behind)) = length behind ≤ n

read_host-HostWithin : (uri rest : Bytes) → HostWithin (length rest) (read_host uri rest)
unfolding read_host
read_host-HostWithin uri rest =
    let (address, behind) = take_until (λ c. c == b']') (drop 1 rest) in
    let after = drop 1 behind in
    let Fits : Result (Bytes × Bytes) → Type 0 = HostWithin (length rest) in
    let inside = take_until_shorter (λ c. c == b']') (drop 1 rest) in
    either Fits (at rest == b'[')
      (either Fits (at behind == 0) tt (
        either Fits (is_nil address) tt (
          either Fits (not (at after == 0) && not (ends_host (at after))) tt
            (omega (arith, drop_shorter behind, inside, drop_shorter rest)))))
      (take_until_shorter ends_host rest)

read_port_shorter : (behind : Bytes) → length (read_port behind).1 ≤ length behind
unfolding read_port
read_port_shorter behind =
    let Fits : Bytes × Bytes → Type 0 = λ r. length r.1 ≤ length behind in
    either Fits (at behind == b':')
      (omega (arith, take_until_shorter ends_port (drop 1 behind), drop_shorter behind))
      (omega arith)

behind_comma : (left : Bytes) → (at left == b',') ≡ true → length (drop 1 left) < length left
behind_comma [] h = absurd (ground arith)
behind_comma (c ∷ left) h = omega arith

Result-cases :
    (r : Result (Bytes × Bytes))
    → ((e : ConnError) × (r ≡ err e))
      ⊎ ((host : Bytes) × (behind : Bytes) × (r ≡ ok (host, behind)))
Result-cases (err e) = inl (e, refl)
Result-cases (ok (host, behind)) = inr (host, behind, refl)

behind_host :
    (uri rest : Bytes) {host behind : Bytes}
    → read_host uri rest ≡ ok (host, behind)
    → length behind ≤ length rest
behind_host uri rest h = subst (HostWithin (length rest)) h (read_host-HostWithin uri rest)

parse_netlocs-Returns :
    (fuel : ℕ) (uri rest hostbuf portbuf : Bytes)
    → length rest < fuel
    → Returns (parse_netlocs fuel uri rest hostbuf portbuf)
unfolding parse_netlocs
parse_netlocs-Returns zero uri rest hostbuf portbuf h = absurd (omega arith)
parse_netlocs-Returns (suc fuel) uri rest hostbuf portbuf h =
    elim (Result-cases (read_host uri rest)) [
      | inl (e, r) ↦ rw (r, parse_netlocs) refl
      | inr (host, behind, r) ↦
          let (port, left) = read_port behind in
          elim (Bool-cases (at left == b',')) [
            | inl c ↦
                rw (r, parse_netlocs, c)
                  (parse_netlocs-Returns fuel uri (drop 1 left) _ _ (
                    omega (
                      arith,
                      behind_comma left c,
                      read_port_shorter behind,
                      behind_host uri rest r,
                    )))
            | inr c ↦ rw (r, parse_netlocs, c) refl
          ]
    ]

-- The parser of URIs returns for every text: it never runs on, and the options that it stores by
-- itself are never unknown.
pub parse_uri_ends : (uri : Bytes) → is_some (parse_uri uri) ≡ true
unfolding parse_uri parse_uri_options
parse_uri_ends uri = if-Returns (uri_prefix_length uri == 0) _ _ refl (
    next-Returns (credentials (drop (uri_prefix_length uri) uri) new) _
      (credentials-Returns (drop (uri_prefix_length uri) uri) new)
      (λ (o1, rest).
        next-Returns (parse_netlocs (suc (length rest)) uri rest [] []) _
          (parse_netlocs-Returns (suc (length rest)) uri rest [] [] (omega arith))
          (λ netlocs.
            next-Returns (store_part (codes "host") netlocs.hostbuf o1) _
              (store_part-Returns (codes "host") netlocs.hostbuf o1 host-IsBuiltin)
              (λ o2.
                next-Returns (store_part (codes "port") netlocs.portbuf o2) _
                  (store_part-Returns (codes "port") netlocs.portbuf o2 port-IsBuiltin)
                  (λ o3.
                    next-Returns (database netlocs.left o3) _ (database-Returns netlocs.left o3)
                      (λ (o4, behind). query_part-Returns behind o4))))))
