-- ===== src/ConnInfo/Options.antt =====
-- crates/rlibpq/src/conninfo.rs: the table of the connection options, and the compiled-in values of
-- crates/rlibpq/src/pg_config.rs that it names (in a build with neither TLS nor GSSAPI).
use Prim.Native.String.{String}
use pgrust_drop.Prelude.{ℕ, List, [], ◌∷◌, ◌++◌, Option, none, some, Bytes, codes}

abbrev pub default_option : String
default_option = ""

abbrev pub default_channel_binding : String
default_channel_binding = "disable"

abbrev pub default_target_session_attrs : String
default_target_session_attrs = "any"

abbrev pub default_load_balance_hosts : String
default_load_balance_hosts = "disable"

abbrev pub default_ssl_mode : String
default_ssl_mode = "disable"

abbrev pub default_ssl_negotiation : String
default_ssl_negotiation = "postgres"

abbrev pub default_gss_mode : String
default_gss_mode = "disable"

abbrev pub def_pgport_str : String
def_pgport_str = "5432"

abbrev pub pg_krb_srvnam : String
pg_krb_srvnam = "postgres"

-- `enum Dispchar`.
pub data Dispchar : Type 0 where
  plain password debug : Dispchar

-- `struct ConnOptionDef`.
pub record ConnOptionDef : Type 0 where
  pub keyword : Bytes
  pub envvar : Option Bytes
  pub compiled : Option Bytes
  pub label : Bytes
  pub dispchar : Dispchar
  pub dispsize : ℕ

abbrev codes_of : Option String → Option Bytes
codes_of none = none
codes_of (some s) = some (codes s)

-- `option`.
abbrev pub option : String → Option String → Option String → String → Dispchar → ℕ → ConnOptionDef
option keyword envvar compiled label dispchar dispsize = record {
  keyword = codes keyword;
  envvar = codes_of envvar;
  compiled = codes_of compiled;
  label = codes label;
  dispchar = dispchar;
  dispsize = dispsize;
}

-- `CONNINFO_OPTIONS`, in three parts.
unfoldable pub server_options : List ConnOptionDef
server_options =
    option "service" (some "PGSERVICE") none "Database-Service" Dispchar.plain 20
    ∷ option "user" (some "PGUSER") none "Database-User" Dispchar.plain 20
    ∷ option "password" (some "PGPASSWORD") none "Database-Password" Dispchar.password 20
    ∷ option "passfile" (some "PGPASSFILE") none "Database-Password-File" Dispchar.plain 64
    ∷ option "channel_binding" (some "PGCHANNELBINDING") (some default_channel_binding)
        "Channel-Binding" Dispchar.plain 8
    ∷ option "connect_timeout" (some "PGCONNECT_TIMEOUT") none "Connect-timeout" Dispchar.plain 10
    ∷ option "dbname" (some "PGDATABASE") none "Database-Name" Dispchar.plain 20
    ∷ option "host" (some "PGHOST") none "Database-Host" Dispchar.plain 40
    ∷ option "hostaddr" (some "PGHOSTADDR") none "Database-Host-IP-Address" Dispchar.plain 45
    ∷ option "port" (some "PGPORT") (some def_pgport_str) "Database-Port" Dispchar.plain 6
    ∷ option "client_encoding" (some "PGCLIENTENCODING") none "Client-Encoding" Dispchar.plain 10
    ∷ option "options" (some "PGOPTIONS") (some default_option) "Backend-Options" Dispchar.plain 40
    ∷ option "application_name" (some "PGAPPNAME") none "Application-Name" Dispchar.plain 64
    ∷ option "fallback_application_name" none none "Fallback-Application-Name" Dispchar.plain 64
    ∷ option "keepalives" none none "TCP-Keepalives" Dispchar.plain 1
    ∷ option "keepalives_idle" none none "TCP-Keepalives-Idle" Dispchar.plain 10
    ∷ option "keepalives_interval" none none "TCP-Keepalives-Interval" Dispchar.plain 10
    ∷ []

unfoldable pub ssl_options : List ConnOptionDef
ssl_options =
    option "keepalives_count" none none "TCP-Keepalives-Count" Dispchar.plain 10
    ∷ option "tcp_user_timeout" none none "TCP-User-Timeout" Dispchar.plain 10
    ∷ option "sslmode" (some "PGSSLMODE") (some default_ssl_mode) "SSL-Mode" Dispchar.plain 12
    ∷ option "sslnegotiation" (some "PGSSLNEGOTIATION") (some default_ssl_negotiation)
        "SSL-Negotiation" Dispchar.plain 9
    ∷ option "sslcompression" (some "PGSSLCOMPRESSION") (some "0") "SSL-Compression" Dispchar.plain
        1
    ∷ option "sslcert" (some "PGSSLCERT") none "SSL-Client-Cert" Dispchar.plain 64
    ∷ option "sslkey" (some "PGSSLKEY") none "SSL-Client-Key" Dispchar.plain 64
    ∷ option "sslcertmode" (some "PGSSLCERTMODE") none "SSL-Client-Cert-Mode" Dispchar.plain 8
    ∷ option "sslpassword" none none "SSL-Client-Key-Password" Dispchar.password 20
    ∷ option "sslrootcert" (some "PGSSLROOTCERT") none "SSL-Root-Certificate" Dispchar.plain 64
    ∷ option "sslcrl" (some "PGSSLCRL") none "SSL-Revocation-List" Dispchar.plain 64
    ∷ option "sslcrldir" (some "PGSSLCRLDIR") none "SSL-Revocation-List-Dir" Dispchar.plain 64
    ∷ option "sslsni" (some "PGSSLSNI") (some "1") "SSL-SNI" Dispchar.plain 1
    ∷ option "requirepeer" (some "PGREQUIREPEER") none "Require-Peer" Dispchar.plain 10
    ∷ option "require_auth" (some "PGREQUIREAUTH") none "Require-Auth" Dispchar.plain 14
    ∷ option "min_protocol_version" (some "PGMINPROTOCOLVERSION") none "Min-Protocol-Version"
        Dispchar.plain 6
    ∷ option "max_protocol_version" (some "PGMAXPROTOCOLVERSION") none "Max-Protocol-Version"
        Dispchar.plain 6
    ∷ []

unfoldable pub other_options : List ConnOptionDef
other_options =
    option "ssl_min_protocol_version" (some "PGSSLMINPROTOCOLVERSION") (some "TLSv1.2")
      "SSL-Minimum-Protocol-Version" Dispchar.plain 8
    ∷ option "ssl_max_protocol_version" (some "PGSSLMAXPROTOCOLVERSION") none
        "SSL-Maximum-Protocol-Version" Dispchar.plain 8
    ∷ option "gssencmode" (some "PGGSSENCMODE") (some default_gss_mode) "GSSENC-Mode" Dispchar.plain
        8
    ∷ option "krbsrvname" (some "PGKRBSRVNAME") (some pg_krb_srvnam) "Kerberos-service-name"
        Dispchar.plain 20
    ∷ option "gsslib" (some "PGGSSLIB") none "GSS-library" Dispchar.plain 7
    ∷ option "gssdelegation" (some "PGGSSDELEGATION") (some "0") "GSS-delegation" Dispchar.plain 1
    ∷ option "replication" none none "Replication" Dispchar.debug 5
    ∷ option "target_session_attrs" (some "PGTARGETSESSIONATTRS")
        (some default_target_session_attrs) "Target-Session-Attrs" Dispchar.plain 15
    ∷ option "load_balance_hosts" (some "PGLOADBALANCEHOSTS") (some default_load_balance_hosts)
        "Load-Balance-Hosts" Dispchar.plain 8
    ∷ option "scram_client_key" none none "SCRAM-Client-Key" Dispchar.debug 64
    ∷ option "scram_server_key" none none "SCRAM-Server-Key" Dispchar.debug 64
    ∷ option "oauth_issuer" none none "OAuth-Issuer" Dispchar.plain 40
    ∷ option "oauth_client_id" none none "OAuth-Client-ID" Dispchar.plain 40
    ∷ option "oauth_client_secret" none none "OAuth-Client-Secret" Dispchar.password 40
    ∷ option "oauth_scope" none none "OAuth-Scope" Dispchar.plain 15
    ∷ option "sslkeylogfile" none none "SSL-Key-Log-File" Dispchar.debug 64
    ∷ []

unfoldable pub conninfo_options : List ConnOptionDef
unfolding server_options ssl_options other_options
conninfo_options = server_options ++ (ssl_options ++ other_options)
