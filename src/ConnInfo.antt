-- ===== src/ConnInfo.antt =====
-- crates/rlibpq/src/conninfo.rs: a working copy of the option table. Options is the table, KeyValue
-- the parser of key/value strings, Laws what looking up and setting owe one another.
pub mod Options
pub mod Laws
pub mod Fallbacks
pub mod KeyValue
use Prim.Native.String.{String}
use pgrust_drop.Prelude.{
  ℕ, zero, suc, Bool, true, false, not, ◌&&◌, List, [], ◌∷◌, Option, none, some, map, ◌==◌,
  if◌then◌else◌, get_or, length, ◌≡◌, ◌||◌, is_some, Bytes, codes, bytes_eq, is_nil,
}
use pgrust_drop.ConnInfo.Options.{ConnOptionDef, conninfo_options}

-- `at` of crates/rlibpq/src/cstr.rs, at the front of what is left: NUL past the end.
abbrev pub at : Bytes → ℕ
at bytes = get_or bytes 0 0

-- `is_space` of crates/rlibpq/src/cstr.rs.
unfoldable pub is_space : ℕ → Bool
is_space b = b == b' ' || b == b'\t' || b == b'\n' || b == 0x0b || b == 0x0c || b == b'\r'

-- `struct ConnInfo`.
pub record ConnInfo : Type 0 where
  pub values : List (Option Bytes)

-- The array has a value for each row of the table.
abbrev pub IsConnInfo : ConnInfo → Type 0
IsConnInfo o = length o.values ≡ length conninfo_options

-- `ConnInfo::new`.
unfoldable pub new : ConnInfo
new = record { values = map (λ row. none) conninfo_options }

-- The first row with the keyword.
unfoldable pub position : Bytes → List ConnOptionDef → Option ℕ
position keyword [] = none
position keyword (row ∷ rows) =
    let behind = position keyword rows in
    if bytes_eq row.keyword keyword
    then some 0
    else elim behind [ none ↦ none | some i ↦ some (suc i) ]

-- `ConnInfo::index_of`.
unfoldable pub index_of : Bytes → Option ℕ
index_of keyword = position keyword conninfo_options

-- `ConnInfo::get`.
unfoldable pub get : ConnInfo → Bytes → Option Bytes
get o keyword = elim (index_of keyword) [ none ↦ none | some i ↦ get_or o.values i none ]

-- `self.values[index] = value`.
unfoldable pub set_at : ℕ → Option Bytes → List (Option Bytes) → List (Option Bytes)
set_at i value [] = []
set_at zero value (v ∷ vs) = value ∷ vs
set_at (suc i) value (v ∷ vs) = v ∷ set_at i value vs

-- What `ConnInfo::set` comes to: the copy with the value, or `UnknownKeyword`.
pub data Stored : Type 0 where
  stored : ConnInfo → Stored
  unknown_keyword : Bytes → Stored

-- The rewriting of `requiressl`.
unfoldable pub rewritten : Bytes → Bytes → Bytes × Bytes
rewritten keyword value =
    if bytes_eq keyword (codes "requiressl")
    then if at value == b'1'
      then (codes "sslmode", codes "require")
      else (codes "sslmode", codes "prefer")
    else (keyword, value)

unfoldable pub store : ConnInfo → Bytes → Bytes → Stored
store o keyword value = elim (index_of keyword) [
  | none ↦ unknown_keyword keyword
  | some i ↦ stored (record { values = set_at i (some value) o.values })
]

-- `ConnInfo::set`.
unfoldable pub set : ConnInfo → Bytes → Bytes → Stored
set o keyword value = let (keyword', value') = rewritten keyword value in store o keyword' value'

-- `Env::get`: the environment as a function of the variable's name.
abbrev pub Env : Type 0
Env = Bytes → Option Bytes

-- `Env::named_user` and `Env::effective_user`.
abbrev pub not_empty : Option Bytes → Option Bytes
not_empty none = none
not_empty (some name) = if is_nil name then none else some name

abbrev pub or_else : Option Bytes → Option Bytes → Option Bytes
or_else none b = b
or_else (some a) b = some a

unfoldable pub effective_user : Env → Option Bytes
effective_user env = or_else (not_empty (env (codes "USER"))) (not_empty (env (codes "LOGNAME")))

abbrev from_env : Env → Option Bytes → Option Bytes
from_env env none = none
from_env env (some var) = env var

abbrev begins_with_one : Option Bytes → Bool
begins_with_one none = false
begins_with_one (some v) = at v == b'1'

-- A row with no value, in the loop of `add_fallbacks`.
unfoldable pub fallback : Env → ConnOptionDef → Option Bytes
fallback env row = or_else (from_env env row.envvar) (
    if bytes_eq row.keyword (codes "sslmode") && begins_with_one (env (codes "PGREQUIRESSL"))
    then some (codes "require")
    else or_else row.compiled
        (if bytes_eq row.keyword (codes "user") then effective_user env else none))

unfoldable pub fill_rows : Env → List ConnOptionDef → List (Option Bytes) → List (Option Bytes)
fill_rows env (row ∷ rows) (v ∷ vs) = or_else v (fallback env row) ∷ fill_rows env rows vs
fill_rows env _ vs = vs

-- Does the sslmode row take its compiled default?
unfoldable pub takes_default : Env → ConnInfo → Bool
takes_default env o =
    not (is_some (get o (codes "sslmode")))
    && not (is_some (env (codes "PGSSLMODE")))
    && not (begins_with_one (env (codes "PGREQUIRESSL")))

abbrev pub is_system : Option Bytes → Bool
is_system none = false
is_system (some v) = bytes_eq v (codes "system")

abbrev set_index : Option ℕ → Option Bytes → List (Option Bytes) → List (Option Bytes)
set_index none value vs = vs
set_index (some i) value vs = set_at i value vs

-- `ConnInfo::add_fallbacks`.
unfoldable pub add_fallbacks : Env → ConnInfo → ConnInfo
add_fallbacks env o =
    let filled : ConnInfo = record { values = fill_rows env conninfo_options o.values } in
    if takes_default env o && is_system (get filled (codes "sslrootcert"))
    then record {
      values = set_index (index_of (codes "sslmode")) (some (codes "verify-full")) filled.values;
    }
    else filled
