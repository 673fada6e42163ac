-- ===== src/Uri/Parse/Print.antt =====
-- Printing connection URIs, and `parse_uri` of crates/rlibpq/src/uri.rs on what is printed.
use pgrust_drop.Prelude.{
  ℕ, suc, Bool, false, ◌||◌, List, [], ◌∷◌, ◌++◌, append_assoc, some, ◌==◌, length, Bytes, codes,
  All, ◌≡◌, refl, sym, ◌∙◌, arith,
}
use pgrust_drop.ConnError.{ok}
use pgrust_drop.ConnInfo.{ConnInfo, new}
use pgrust_drop.Uri.RoundTrip.{percent_encode, IsTextByte}
use pgrust_drop.Uri.Params.Print.{
  IsTextPair, print_params, set_query, parse_uri_params-print_params,
}
use pgrust_drop.Uri.Parse.{
  Run, ◌>>=◌, take_until, password, credentials, read_host, read_port, parse_netlocs, database,
  query_part, uri_prefix_length, parse_uri_options, parse_uri, ends_host, ends_port,
}
use pgrust_drop.Uri.Parse.Parts.{
  IsPartPlain, part-IsQueryPlain, IsInert, percent_encode-IsInert, All-passed, passed_append,
  take_until_stop, store_given, store_part_printed, next_assoc, next_same,
}

-- The five parts of a URI in front of its parameters.
pub record Parts : Type 0 where
  pub user : Bytes
  pub word : Bytes
  pub host : Bytes
  pub port : Bytes
  pub dbname : Bytes

abbrev pub ArePartsText : Parts → Type 0
ArePartsText ps =
    All IsTextByte ps.user
    × All IsTextByte ps.word
    × All IsTextByte ps.host
    × All IsTextByte ps.port
    × All IsTextByte ps.dbname

abbrev behind_host : (ℕ → Bool) → Parts → Bytes → Bytes
behind_host plain ps query =
    b':'
    ∷ (percent_encode plain ps.port ++ (b'/' ∷ (percent_encode plain ps.dbname ++ (b'?' ∷ query))))

abbrev behind_user : (ℕ → Bool) → Parts → Bytes → Bytes
behind_user plain ps query =
    b':'
    ∷ (percent_encode plain ps.word
        ++ (b'@' ∷ (percent_encode plain ps.host ++ behind_host plain ps query)))

-- A URI with every part, each percent-encoded.
unfoldable pub print_uri : (ℕ → Bool) → Parts → List (Bytes × Bytes) → Bytes
print_uri plain ps pairs =
    codes "postgresql://"
    ++ (percent_encode plain ps.user ++ behind_user plain ps (print_params plain pairs))

-- Storing the parts that are not empty, then the pairs.
unfoldable pub store_parts : Parts → List (Bytes × Bytes) → ConnInfo → Run ConnInfo
store_parts ps pairs o = do
  o1 ← store_given (codes "user") ps.user o
  o2 ← store_given (codes "password") ps.word o1
  o3 ← store_given (codes "host") ps.host o2
  o4 ← store_given (codes "port") ps.port o3
  o5 ← store_given (codes "dbname") ps.dbname o4
  some (set_query pairs o5)

credentials_printed :
    (plain : ℕ → Bool) (ps : Parts) (query : Bytes) (o : ConnInfo)
    → IsPartPlain plain
    → ArePartsText ps
    → credentials (percent_encode plain ps.user ++ behind_user plain ps query) o ≡ (
        store_given (codes "user") ps.user o >>= λ o1.
        store_given (codes "password") ps.word o1 >>= λ o2.
        some (ok (o2, percent_encode plain ps.host ++ behind_host plain ps query)))
unfolding credentials password
credentials_printed plain ps query o p (tu, tw, _, _, _) =
    let user = percent_encode plain ps.user in
    let word = percent_encode plain ps.word in
    let iu = percent_encode-IsInert plain ps.user p tu in
    let iw = percent_encode-IsInert plain ps.word p tw in
    let tail = percent_encode plain ps.host ++ behind_host plain ps query in
    let At : ℕ → Bool = λ c. c == b'@' in
    let colon_or_at : ℕ → Bool = λ c. c == b':' || c == b'@' in
    let at_or_slash : ℕ → Bool = λ c. c == b'@' || c == b'/' in
    let behind = word ++ (b'@' ∷ tail) in
    let passed =
      passed_append at_or_slash user (b':' ∷ word)
        (All-passed at_or_slash user (λ c i. ground arith) iu)
        (refl, All-passed at_or_slash word (λ c i. ground arith) iw) in
    let ahead : take_until at_or_slash (user ++ (b':' ∷ behind))
        ≡ (user ++ (b':' ∷ word), b'@' ∷ tail) =
      rw (sym (append_assoc user (b':' ∷ word) (b'@' ∷ tail)))
        (take_until_stop at_or_slash (user ++ (b':' ∷ word)) tail b'@' passed refl) in
    let cut : take_until colon_or_at (user ++ (b':' ∷ behind)) ≡ (user, b':' ∷ behind) =
      take_until_stop colon_or_at user behind b':'
        (All-passed colon_or_at user (λ c i. ground arith) iu) refl in
    let last : take_until At behind ≡ (word, b'@' ∷ tail) =
      take_until_stop At word tail b'@' (All-passed At word (λ c i. ground arith) iw) refl in
    rw (ahead, cut, store_part_printed plain (codes "user") ps.user o p tu)
      (next_same (store_given (codes "user") ps.user o) _ _
        (λ o1. rw (last, store_part_printed plain (codes "password") ps.word o1 p tw) refl))

read_host_printed :
    (uri host rest : Bytes)
    → All IsInert host
    → read_host uri (host ++ (b':' ∷ rest)) ≡ ok (host, b':' ∷ rest)
unfolding read_host
read_host_printed uri [] rest h = unfold take_until in refl
read_host_printed uri (c ∷ host) rest (i, h) =
    let no_bracket : (c == b'[') ≡ false = ground arith in
    rw
      (
        no_bracket,
        take_until_stop ends_host (c ∷ host) rest b':'
            (All-passed ends_host (c ∷ host) (λ c i. ground arith) (i, h)) refl,
      )
      refl

read_port_printed :
    (port left : Bytes)
    → All IsInert port
    → read_port (b':' ∷ (port ++ (b'/' ∷ left))) ≡ (port, b'/' ∷ left)
unfolding read_port
read_port_printed port left h =
    take_until_stop ends_port port left b'/' (All-passed ends_port port (λ c i. ground arith) h)
      refl

netlocs_printed :
    (fuel : ℕ) (uri : Bytes) (plain : ℕ → Bool) (ps : Parts) (query : Bytes)
    → IsPartPlain plain
    → ArePartsText ps
    → parse_netlocs
        (suc fuel)
        uri
        (percent_encode plain ps.host ++ behind_host plain ps query)
        []
        []
      ≡ some (
          ok (record {
            hostbuf = percent_encode plain ps.host;
            portbuf = percent_encode plain ps.port;
            left = b'/' ∷ (percent_encode plain ps.dbname ++ (b'?' ∷ query));
          }))
unfolding parse_netlocs
netlocs_printed fuel uri plain ps query p (_, _, th, tp, _) =
    let host = percent_encode plain ps.host in
    let port = percent_encode plain ps.port in
    let left = percent_encode plain ps.dbname ++ (b'?' ∷ query) in
    let read =
      read_host_printed uri host (port ++ (b'/' ∷ left))
        (percent_encode-IsInert plain ps.host p th) in
    let cut = read_port_printed port left (percent_encode-IsInert plain ps.port p tp) in
    rw (read, parse_netlocs, cut, cut) refl

database_printed :
    (plain : ℕ → Bool) (dbname query : Bytes) (o : ConnInfo)
    → IsPartPlain plain
    → All IsTextByte dbname
    → database (b'/' ∷ (percent_encode plain dbname ++ (b'?' ∷ query))) o
      ≡ (store_given (codes "dbname") dbname o >>= λ o'. some (ok (o', b'?' ∷ query)))
unfolding database
database_printed plain dbname query o p t =
    let question : ℕ → Bool = λ c. c == b'?' in
    let cut =
      take_until_stop question (percent_encode plain dbname) query b'?'
        (All-passed question (percent_encode plain dbname) (λ c i. ground arith)
          (percent_encode-IsInert plain dbname p t))
        refl in
    rw (cut, store_part_printed plain (codes "dbname") dbname o p t) refl

-- A URI that is printed with every part and parameter percent-encoded is parsed to what storing the
-- parts that are not empty and then setting the pairs comes to.
pub parse_uri-print_uri :
    (plain : ℕ → Bool) (ps : Parts) (pairs : List (Bytes × Bytes))
    → IsPartPlain plain
    → ArePartsText ps
    → All IsTextPair pairs
    → parse_uri (print_uri plain ps pairs) ≡ store_parts ps pairs new
unfolding parse_uri parse_uri_options uri_prefix_length print_uri store_parts query_part
parse_uri-print_uri plain ps pairs p t tp =
    let query = print_params plain pairs in
    let uri = print_uri plain ps pairs in
    let rest = percent_encode plain ps.host ++ behind_host plain ps query in
    let (_, _, th, to, td) = t in
    rw (credentials_printed plain ps query new p t) (
      next_assoc (store_given (codes "user") ps.user new) _ _
      ∙ next_same (store_given (codes "user") ps.user new) _ _ (λ o1.
        next_assoc (store_given (codes "password") ps.word o1) _ _
        ∙ next_same (store_given (codes "password") ps.word o1) _ _ (λ o2.
          rw
            (
              netlocs_printed (length rest) uri plain ps query p t,
              store_part_printed plain (codes "host") ps.host o2 p th,
            )
            (next_same (store_given (codes "host") ps.host o2) _ _ (λ o3.
              rw (store_part_printed plain (codes "port") ps.port o3 p to) (
                next_same (store_given (codes "port") ps.port o3) _ _ (λ o4.
                  rw (database_printed plain ps.dbname query o4 p td) (
                    next_assoc (store_given (codes "dbname") ps.dbname o4) _ _
                    ∙ next_same (store_given (codes "dbname") ps.dbname o4) _ _ (λ o5.
                      parse_uri_params-print_params plain pairs o5 (part-IsQueryPlain plain p)
                        tp)))))))))
