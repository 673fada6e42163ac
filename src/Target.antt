-- ===== src/Target.antt =====
-- crates/rlibpq/src/target.rs: whether a server that accepted the connection is the kind that
-- `target_session_attrs` asked for. Version is the reading of `server_version`, Laws the check and
-- its answers together.
pub mod Version
pub mod Laws
use pgrust_drop.Prelude.{
  ℕ, Bool, true, false, not, ◌&&◌, ◌||◌, List, [], ◌∷◌, Option, none, some, ◌==◌, ltb,
  if◌then◌else◌, get_or, length, Bytes, codes, bytes_eq, is_nil,
}
use pgrust_drop.QueryResult.{ExecStatus, QueryResult, Row, ntuples}
use pgrust_drop.Hosts.{TargetServerType}
use pgrust_drop.Target.Version.{sversion}

-- `enum PgBool`.
pub data PgBool : Type 0 where
  unknown yes no : PgBool

-- `PgBool::from_parameter`.
unfoldable pub from_parameter : Option Bytes → PgBool
from_parameter none = PgBool.unknown
from_parameter (some value) = if bytes_eq value (codes "on") then PgBool.yes else PgBool.no

-- `struct ServerState`.
pub record ServerState : Type 0 where
  pub default_transaction_read_only : PgBool
  pub in_hot_standby : PgBool
  pub sversion : ℕ

abbrev sversion_of : Option Bytes → ℕ
sversion_of none = 0
sversion_of (some value) = sversion value

-- `ServerState::from_parameters`.
unfoldable pub from_parameters : (Bytes → Option Bytes) → ServerState
from_parameters parameter = record {
  default_transaction_read_only =
      from_parameter (parameter (codes "default_transaction_read_only"));
  in_hot_standby = from_parameter (parameter (codes "in_hot_standby"));
  sversion = sversion_of (parameter (codes "server_version"));
}

-- `enum CheckQuery`.
pub data CheckQuery : Type 0 where
  transaction_read_only is_in_recovery : CheckQuery

-- `CheckQuery::sql`.
unfoldable pub sql : CheckQuery → Bytes
sql CheckQuery.transaction_read_only = codes "SHOW transaction_read_only"
sql CheckQuery.is_in_recovery = codes "SELECT pg_catalog.pg_is_in_recovery()"

-- `enum TargetRejection`.
pub data TargetRejection : Type 0 where
  session_is_read_only session_is_not_read_only in_hot_standby not_in_hot_standby : TargetRejection
  query_failed : CheckQuery → TargetRejection

abbrev value_or_empty : Option Bytes → Bytes
value_or_empty none = []
value_or_empty (some value) = value

abbrev is_tuples_ok : ExecStatus → Bool
is_tuples_ok ExecStatus.tuples_ok = true
is_tuples_ok _ = false

-- The value that `CheckQuery::answer` looks at, of a result with one row of tuples.
unfoldable pub answer_value : Option QueryResult → Option Bytes
answer_value none = none
answer_value (some result) =
    if is_tuples_ok result.status && ntuples result == 1
    then some (value_or_empty (get_or (get_or result.rows 0 []) 0 none))
    else none

-- `starts_with`.
abbrev pub starts_with : Bytes → Bytes → Bool
starts_with _ [] = true
starts_with [] (p ∷ prefix) = false
starts_with (b ∷ bytes) (p ∷ prefix) = b == p && starts_with bytes prefix

abbrev yes_when : Bool → PgBool
yes_when true = PgBool.yes
yes_when false = PgBool.no

abbrev note_answer : CheckQuery → Bytes → ServerState → ServerState
note_answer CheckQuery.transaction_read_only value state =
    let answer = yes_when (starts_with value (codes "on")) in
    record state { default_transaction_read_only = answer; in_hot_standby = answer }
note_answer CheckQuery.is_in_recovery value state = record state {
  in_hot_standby = yes_when (starts_with value (codes "t"));
}

-- `CheckQuery::answer`: the state with the answer in it, or nothing when the query failed, which is
-- `TargetRejection::QueryFailed` of the query.
unfoldable pub answer : CheckQuery → Option QueryResult → ServerState → Option ServerState
answer q result state = elim (answer_value result) [
  | none ↦ none
  | some value ↦ some (note_answer q value state)
]

-- `enum TargetCheck`.
pub data TargetCheck : Type 0 where
  accept : TargetCheck
  ask : CheckQuery → TargetCheck
  reject : TargetRejection → TargetCheck

abbrev is_unknown : PgBool → Bool
is_unknown PgBool.unknown = true
is_unknown _ = false

abbrev pub is_yes : PgBool → Bool
is_yes PgBool.yes = true
is_yes _ = false

abbrev check_read_only : TargetServerType → Bool → TargetCheck
check_read_only TargetServerType.read_write true =
    TargetCheck.reject TargetRejection.session_is_read_only
check_read_only TargetServerType.read_only false =
    TargetCheck.reject TargetRejection.session_is_not_read_only
check_read_only _ _ = TargetCheck.accept

abbrev check_session : TargetServerType → ServerState → TargetCheck
check_session target state =
    if is_unknown state.default_transaction_read_only || is_unknown state.in_hot_standby
    then TargetCheck.ask CheckQuery.transaction_read_only
    else check_read_only target
        (is_yes state.default_transaction_read_only || is_yes state.in_hot_standby)

abbrev check_hot_standby : TargetServerType → PgBool → TargetCheck
check_hot_standby _ PgBool.unknown = TargetCheck.ask CheckQuery.is_in_recovery
check_hot_standby TargetServerType.primary PgBool.yes =
    TargetCheck.reject TargetRejection.in_hot_standby
check_hot_standby TargetServerType.standby PgBool.no =
    TargetCheck.reject TargetRejection.not_in_hot_standby
check_hot_standby TargetServerType.prefer_standby PgBool.no =
    TargetCheck.reject TargetRejection.not_in_hot_standby
check_hot_standby _ _ = TargetCheck.accept

abbrev hot_standby_of : ServerState → PgBool
hot_standby_of state = if ltb state.sversion 90000 then PgBool.no else state.in_hot_standby

-- `check_target`.
unfoldable pub check_target : TargetServerType → Bool → ServerState → TargetCheck
check_target TargetServerType.read_write second_pass state =
    check_session TargetServerType.read_write state
check_target TargetServerType.read_only second_pass state =
    check_session TargetServerType.read_only state
check_target TargetServerType.prefer_standby true state = TargetCheck.accept
check_target TargetServerType.prefer_standby false state =
    check_hot_standby TargetServerType.prefer_standby (hot_standby_of state)
check_target TargetServerType.primary second_pass state =
    check_hot_standby TargetServerType.primary (hot_standby_of state)
check_target TargetServerType.standby second_pass state =
    check_hot_standby TargetServerType.standby (hot_standby_of state)
check_target TargetServerType.any second_pass state = TargetCheck.accept
