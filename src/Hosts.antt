-- ===== src/Hosts.antt =====
-- crates/rlibpq/src/hosts.rs: the servers a connection string names and what kind of server it
-- settles for. Lists are the three comma-separated options, put side by side.
pub mod Split
pub mod Laws
use pgrust_drop.Prelude.{
  ℕ, zero, suc, Bool, true, false, not, ◌||◌, List, [], ◌∷◌, Option, none, some, map, ◌==◌,
  if◌then◌else◌, length, Bytes, codes, bytes_eq, is_nil,
}
use pgrust_drop.ConnError.{ConnError, Result, ok, err, ◌>>=◌}
use pgrust_drop.ConnInfo.{ConnInfo, get, at, not_empty, or_else}
use pgrust_drop.Hosts.Split.{comma_separated, count_comma_separated_elems}

-- `enum HostType`.
pub data HostType : Type 0 where
  host_name host_address unix_socket : HostType

-- `struct ConnHost`.
pub record ConnHost : Type 0 where
  pub kind : HostType
  pub host : Option Bytes
  pub hostaddr : Option Bytes
  pub port : Option Bytes

-- `DEFAULT_PGSOCKET_DIR` of crates/rlibpq/src/pg_config.rs.
abbrev default_pgsocket_dir : Bytes
default_pgsocket_dir = codes "/tmp"

-- `is_unixsock_path` of crates/rlibpq/src/connection.rs.
abbrev pub is_unixsock_path : Bytes → Bool
is_unixsock_path path = at path == b'/' || at path == b'@'

-- `vec![value; n]`.
unfoldable pub vec_of : ℕ → Option Bytes → List (Option Bytes)
vec_of zero value = []
vec_of (suc n) value = value ∷ vec_of n value

abbrev pub given_all : List Bytes → List (Option Bytes)
given_all elems = map (λ e. some e) elems

-- The lists of hostaddrs, hosts and ports, one entry for each host.
unfoldable pub hostaddr_list : ℕ → Option Bytes → List (Option Bytes)
hostaddr_list n none = vec_of n none
hostaddr_list n (some list) = given_all (comma_separated list)

unfoldable pub host_list : ℕ → Option Bytes → Result (List (Option Bytes))
host_list n none = ok (vec_of n none)
host_list n (some list) =
    let hosts = comma_separated list in
    if length hosts == n
    then ok (given_all hosts)
    else err (ConnError.host_count_mismatch (length hosts) n)

abbrev pub spread : ℕ → List Bytes → Result (List (Option Bytes))
spread n (port ∷ []) = ok (vec_of n (some port))
spread n ports =
    if length ports == n
    then ok (given_all ports)
    else err (ConnError.port_count_mismatch (length ports) n)

unfoldable pub port_list : ℕ → Option Bytes → Result (List (Option Bytes))
port_list n none = ok (vec_of n none)
port_list n (some list) = spread n (comma_separated list)

-- `present`.
abbrev pub present : Option Bytes → Bool
present none = false
present (some v) = not (is_nil v)

abbrev pub named : Bool → Bytes → HostType × Option Bytes
named true path = (HostType.unix_socket, some path)
named false name = (HostType.host_name, some name)

-- What one slot of the three lists makes.
abbrev pub classify_host : Option Bytes → HostType × Option Bytes
classify_host none = (HostType.unix_socket, some default_pgsocket_dir)
classify_host (some []) = (HostType.unix_socket, some default_pgsocket_dir)
classify_host (some (b ∷ path)) = named (is_unixsock_path (b ∷ path)) (b ∷ path)

unfoldable pub classify : Option Bytes → Option Bytes → HostType × Option Bytes
classify hostaddr host =
    if present hostaddr then (HostType.host_address, host) else classify_host host

unfoldable pub conn_host : Option Bytes → Option Bytes → Option Bytes → ConnHost
conn_host hostaddr host port =
    let (kind, host') = classify hostaddr host in
    record { kind = kind; host = host'; hostaddr = hostaddr; port = port }

-- The two `zip`s.
unfoldable pub slots :
    List (Option Bytes) → List (Option Bytes) → List (Option Bytes) → List ConnHost
slots (a ∷ hostaddrs) (h ∷ hosts) (p ∷ ports) = conn_host a h p ∷ slots hostaddrs hosts ports
slots _ _ _ = []

-- `nconnhost`.
abbrev pub nconnhost_of : Option Bytes → ℕ
nconnhost_of none = 1
nconnhost_of (some list) = count_comma_separated_elems list

unfoldable pub nconnhost : ConnInfo → ℕ
nconnhost conninfo = nconnhost_of (
    or_else (not_empty (get conninfo (codes "hostaddr"))) (not_empty (get conninfo (codes "host"))))

-- `conn_hosts`.
unfoldable pub conn_hosts : ConnInfo → Result (List ConnHost)
conn_hosts conninfo =
    let n = nconnhost conninfo in
    do
      hosts ← host_list n (not_empty (get conninfo (codes "host")))
      ports ← port_list n (not_empty (get conninfo (codes "port")))
      ok (slots (hostaddr_list n (not_empty (get conninfo (codes "hostaddr")))) hosts ports)

-- `enum TargetServerType`.
pub data TargetServerType : Type 0 where
  any read_write read_only primary standby prefer_standby : TargetServerType

abbrev parse_target : Bytes → Result TargetServerType
parse_target value =
    if bytes_eq value (codes "any")
    then ok TargetServerType.any
    else if bytes_eq value (codes "read-write")
    then ok TargetServerType.read_write
    else if bytes_eq value (codes "read-only")
    then ok TargetServerType.read_only
    else if bytes_eq value (codes "primary")
    then ok TargetServerType.primary
    else if bytes_eq value (codes "standby")
    then ok TargetServerType.standby
    else if bytes_eq value (codes "prefer-standby")
    then ok TargetServerType.prefer_standby
    else err (ConnError.invalid_value (codes "target_session_attrs") value)

abbrev target_of : Option Bytes → Result TargetServerType
target_of none = ok TargetServerType.any
target_of (some value) = parse_target value

-- `TargetServerType::from_conninfo`.
unfoldable pub target_from_conninfo : ConnInfo → Result TargetServerType
target_from_conninfo conninfo = target_of (get conninfo (codes "target_session_attrs"))

-- `enum LoadBalance`.
pub data LoadBalance : Type 0 where
  disable random : LoadBalance

abbrev load_balance_of : Option Bytes → Result LoadBalance
load_balance_of none = ok LoadBalance.disable
load_balance_of (some value) =
    if bytes_eq value (codes "disable")
    then ok LoadBalance.disable
    else if bytes_eq value (codes "random")
    then ok LoadBalance.random
    else err (ConnError.invalid_value (codes "load_balance_hosts") value)

-- `LoadBalance::from_conninfo`.
unfoldable pub load_balance_from_conninfo : ConnInfo → Result LoadBalance
load_balance_from_conninfo conninfo = load_balance_of (get conninfo (codes "load_balance_hosts"))
