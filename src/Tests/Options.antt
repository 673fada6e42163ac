-- ===== src/Tests/Options.antt =====
-- The theorems on connection strings at concrete options.
use pgrust_drop.Prelude.{
  ◌<◌, ℕ, true, List, [], ◌∷◌, none, some, ◌≡◌, ◌≢◌, refl, arith, All, Bytes, codes, length,
  is_some, ◌≤◌, bytes_eq, ◌==◌, Bool,
}
use pgrust_drop.ConnError.{ok}
use pgrust_drop.ConnInfo.{
  ConnInfo, IsConnInfo, Stored, new, get, set, set_at, rewritten, store, index_of, position, Env,
  add_fallbacks, is_space,
}
use pgrust_drop.ConnInfo.Options.{conninfo_options}
use pgrust_drop.ConnInfo.Laws.{get-set}
use pgrust_drop.ConnInfo.Fallbacks.{get-add_fallbacks_given}
use pgrust_drop.ConnInfo.KeyValue.{
  parse_keyword_value, parse_pairs, read_name, read_pair_value, read_bare_value, skip_spaces,
}
use pgrust_drop.ConnInfo.KeyValue.RoundTrip.{
  print_pairs, set_all, IsPair, parse_keyword_value-print_pairs,
}
use pgrust_drop.ConnInfo.KeyValue.Ends.{parse_keyword_value_ends}
use pgrust_drop.Uri.{uri_decode, decode_rest, finish, skip_blanks}
use pgrust_drop.Uri.Parse.{
  parse_uri, parse_uri_options, uri_prefix_length, credentials, password, parse_netlocs, read_host,
  read_port, database, query_part, store_part, store_builtin, take_until,
}
use pgrust_drop.Uri.Parse.Ends.{parse_uri_ends}
use pgrust_drop.Uri.Params.{
  parse_uri_params, parse_params, scan_param, scan_value, decode_pair, jdbc_compatible,
}
use pgrust_drop.Uri.Params.Print.{IsTextPair}
use pgrust_drop.Uri.Parse.Parts.{IsPartPlain}
use pgrust_drop.Uri.Parse.Print.{Parts, ArePartsText, print_uri, store_parts, parse_uri-print_uri}
use pgrust_drop.Uri.RoundTrip.{IsPlain}
use pgrust_drop.Hosts.{
  HostType, ConnHost, conn_hosts, nconnhost, host_list, port_list, hostaddr_list, vec_of, slots,
  conn_host, classify,
}
use pgrust_drop.Hosts.Split.{comma_separated, count_comma_separated_elems}
use pgrust_drop.Hosts.Laws.{Reachable, conn_hosts-Reachable}

abbrev requiring : ConnInfo
requiring = record { values = set_at 19 (some (codes "require")) new.values }

new-IsConnInfo : IsConnInfo new
unfolding new conninfo_options
new-IsConnInfo = refl

requiring-set : set new (codes "requiressl") (codes "1") ≡ Stored.stored requiring
unfolding set rewritten store index_of position conninfo_options bytes_eq
requiring-set = refl

get-set_example :
    (get requiring ((rewritten (codes "requiressl") (codes "1")).0)
      ≡ some ((rewritten (codes "requiressl") (codes "1")).1))
    × ((k : Bytes)
        → k ≢ (rewritten (codes "requiressl") (codes "1")).0
        → get requiring k ≡ get new k)
    × IsConnInfo requiring
get-set_example = get-set new (codes "requiressl") (codes "1") new-IsConnInfo requiring-set

requiring-IsConnInfo : IsConnInfo requiring
unfolding new set_at conninfo_options
requiring-IsConnInfo = refl

abbrev an_env : Env
an_env name = some name

user_known : index_of (codes "user") ≡ some 1
unfolding index_of position conninfo_options bytes_eq
user_known = refl

requiring_mode : get requiring (codes "sslmode") ≡ some (codes "require")
unfolding get index_of position set_at new conninfo_options bytes_eq
requiring_mode = refl

get-add_fallbacks_given_example :
    get (add_fallbacks an_env requiring) (codes "sslmode") ≡ some (codes "require")
get-add_fallbacks_given_example =
    get-add_fallbacks_given an_env requiring (codes "sslmode") requiring-IsConnInfo requiring_mode

abbrev two_pairs : List (Bytes × Bytes)
two_pairs = (codes "host", codes "/a b") ∷ (codes "user", codes "o'k") ∷ []

two_pairs-IsPair : All IsPair two_pairs
unfolding is_space
two_pairs-IsPair = (
  (
    λ e. cc,
    ((refl, refl), ((refl, refl), ((refl, refl), ((refl, refl), tt)))),
    (omega arith, (omega arith, (omega arith, (omega arith, tt)))),
  ),
  (
    (
      λ e. cc,
      ((refl, refl), ((refl, refl), ((refl, refl), ((refl, refl), tt)))),
      (omega arith, (omega arith, (omega arith, tt))),
    ),
    tt,
  ),
)

parse_keyword_value-print_pairs_example :
    parse_keyword_value (print_pairs two_pairs) ≡ some (set_all two_pairs new)
parse_keyword_value-print_pairs_example = parse_keyword_value-print_pairs two_pairs two_pairs-IsPair

parse_keyword_value_ends_example : is_some (parse_keyword_value (codes "host='a")) ≡ true
parse_keyword_value_ends_example = parse_keyword_value_ends (codes "host='a")

abbrev letter_a : ℕ → Bool
letter_a c = c == b'a'

letter_a-IsPlain : IsPlain letter_a
letter_a-IsPlain c h = (λ e. ground arith, λ e. ground arith, λ e. ground arith)

abbrev two_hosts : ConnInfo
two_hosts = record { values = set_at 7 (some (codes "/tmp,db")) new.values }

abbrev two_entries : List ConnHost
two_entries =
    record { kind = HostType.unix_socket; host = some (codes "/tmp"); hostaddr = none; port = none }
    ∷ record { kind = HostType.host_name; host = some (codes "db"); hostaddr = none; port = none }
    ∷ []

two_hosts_ok : conn_hosts two_hosts ≡ ok two_entries
unfolding conn_hosts nconnhost get host_list port_list hostaddr_list vec_of slots conn_host classify
    comma_separated count_comma_separated_elems index_of position set_at new conninfo_options
    bytes_eq
two_hosts_ok = refl

conn_hosts-Reachable_example :
    (1 ≤ length two_entries)
    × (length two_entries ≡ nconnhost two_hosts)
    × All Reachable two_entries
conn_hosts-Reachable_example = conn_hosts-Reachable two_hosts two_hosts_ok

abbrev a_query : List (Bytes × Bytes)
a_query = (codes "ssl", codes "true") ∷ []

is_text : (c : ℕ) → c < 256 → 0 < c → (c < 256) × (c ≢ 0)
is_text c small positive = (small, λ e. omega arith)

a_query-IsTextPair : All IsTextPair a_query
a_query-IsTextPair = (
  (
    (
      is_text b's' (omega arith) (omega arith),
      (is_text b's' (omega arith) (omega arith), (is_text b'l' (omega arith) (omega arith), tt)),
    ),
    (
      is_text b't' (omega arith) (omega arith),
      (
        is_text b'r' (omega arith) (omega arith),
        (is_text b'u' (omega arith) (omega arith), (is_text b'e' (omega arith) (omega arith), tt)),
      ),
    ),
  ),
  tt,
)

abbrev some_parts : Parts
some_parts = record {
  user = codes "a";
  word = codes "@";
  host = codes "/";
  port = codes "5";
  dbname = [];
}

some_parts-ArePartsText : ArePartsText some_parts
some_parts-ArePartsText = (
  (is_text b'a' (omega arith) (omega arith), tt),
  (is_text b'@' (omega arith) (omega arith), tt),
  (is_text b'/' (omega arith) (omega arith), tt),
  (is_text b'5' (omega arith) (omega arith), tt),
  tt,
)

letter_a-IsPartPlain : IsPartPlain letter_a
letter_a-IsPartPlain c h = ground arith

parse_uri-print_uri_example :
    parse_uri (print_uri letter_a some_parts a_query) ≡ store_parts some_parts a_query new
parse_uri-print_uri_example =
    parse_uri-print_uri letter_a some_parts a_query letter_a-IsPartPlain some_parts-ArePartsText
      a_query-IsTextPair

parse_uri_ends_example : is_some (parse_uri (codes "postgresql://me:[@[::1]:1,b/db?a=%")) ≡ true
parse_uri_ends_example = parse_uri_ends (codes "postgresql://me:[@[::1]:1,b/db?a=%")

-- A URI with every part is read into its options.
a_uri :
    parse_uri (codes "postgresql://me:pw@[::1]:1,b/db?ssl=true")
    ≡ parse_keyword_value (codes "user=me password=pw host=::1,b port=1, dbname=db sslmode=require")
unfolding parse_uri parse_uri_options uri_prefix_length credentials password parse_netlocs read_host
    read_port database query_part store_part store_builtin take_until parse_uri_params parse_params
    scan_param scan_value decode_pair jdbc_compatible uri_decode decode_rest finish skip_blanks
    parse_keyword_value parse_pairs read_name read_pair_value read_bare_value skip_spaces is_space
    set rewritten store index_of position set_at new conninfo_options bytes_eq
a_uri = refl
