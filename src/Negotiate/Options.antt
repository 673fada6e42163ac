-- ===== src/Negotiate/Options.antt =====
-- crates/rlibpq/src/negotiate.rs: the encryption options, read out of a `ConnInfo`.
use pgrust_drop.Prelude.{
  Bool, true, false, not, ◌&&◌, Option, none, some, if◌then◌else◌, Bytes, codes, bytes_eq,
}
use pgrust_drop.ConnError.{ConnError, Result, ok, err, ◌>>=◌, ◌>>◌, refuse}
use pgrust_drop.ConnInfo.{ConnInfo, get, is_system}
use pgrust_drop.ConnInfo.Options.{default_ssl_mode, default_ssl_negotiation, default_gss_mode}
use pgrust_drop.Negotiate.{
  Build, SslMode, SslNegotiation, GssEncMode, EncryptionOptions, requires_ssl, gss_is_require,
}

-- `Option::unwrap_or`.
abbrev pub unwrap_or : Bytes → Option Bytes → Bytes
unwrap_or d none = d
unwrap_or d (some v) = v

-- `invalid`.
abbrev invalid : Bytes → Bytes → ConnError
invalid option value = ConnError.invalid_value option value

-- `SslMode::parse`, with the error of its caller.
unfoldable pub parse_ssl_mode : Bytes → Result SslMode
parse_ssl_mode value =
    if bytes_eq value (codes "disable")
    then ok SslMode.disable
    else if bytes_eq value (codes "allow")
    then ok SslMode.allow
    else if bytes_eq value (codes "prefer")
    then ok SslMode.prefer
    else if bytes_eq value (codes "require")
    then ok SslMode.require
    else if bytes_eq value (codes "verify-ca")
    then ok SslMode.verify_ca
    else if bytes_eq value (codes "verify-full")
    then ok SslMode.verify_full
    else err (invalid (codes "sslmode") value)

unfoldable pub parse_ssl_negotiation : Bytes → Result SslNegotiation
parse_ssl_negotiation value =
    if bytes_eq value (codes "postgres")
    then ok SslNegotiation.postgres
    else if bytes_eq value (codes "direct")
    then ok SslNegotiation.direct
    else err (invalid (codes "sslnegotiation") value)

unfoldable pub parse_gss_enc_mode : Bytes → Result GssEncMode
parse_gss_enc_mode value =
    if bytes_eq value (codes "disable")
    then ok GssEncMode.disable
    else if bytes_eq value (codes "prefer")
    then ok GssEncMode.prefer
    else if bytes_eq value (codes "require")
    then ok GssEncMode.require
    else err (invalid (codes "gssencmode") value)

abbrev pub is_direct : SslNegotiation → Bool
is_direct SslNegotiation.direct = true
is_direct SslNegotiation.postgres = false

abbrev pub is_verify_full : SslMode → Bool
is_verify_full SslMode.verify_full = true
is_verify_full _ = false

-- `EncryptionOptions::from_conninfo`.
unfoldable pub from_conninfo : ConnInfo → Build → Result EncryptionOptions
from_conninfo conninfo build =
    let system = is_system (get conninfo (codes "sslrootcert")) in
    let raw_mode = unwrap_or (codes default_ssl_mode) (get conninfo (codes "sslmode")) in
    let raw_negotiation =
      unwrap_or (codes default_ssl_negotiation) (get conninfo (codes "sslnegotiation")) in
    let raw_gss = unwrap_or (codes default_gss_mode) (get conninfo (codes "gssencmode")) in
    do
      refuse (not build.use_ssl && system)
          (ConnError.ssl_not_compiled_in (codes "sslrootcert") (codes "system"))
      sslmode ← parse_ssl_mode raw_mode
      refuse (not build.use_ssl && requires_ssl sslmode)
          (ConnError.ssl_not_compiled_in (codes "sslmode") raw_mode)
      sslnegotiation ← parse_ssl_negotiation raw_negotiation
      refuse (not build.use_ssl && is_direct sslnegotiation)
          (ConnError.ssl_not_compiled_in (codes "sslnegotiation") raw_negotiation)
      refuse (is_direct sslnegotiation && not (requires_ssl sslmode))
          (ConnError.weak_ssl_mode_with_direct raw_mode)
      refuse (build.use_ssl && system && not (is_verify_full sslmode))
          (ConnError.weak_ssl_mode_with_system_root raw_mode)
      gssencmode ← parse_gss_enc_mode raw_gss
      refuse (not build.enable_gss && gss_is_require gssencmode)
          (ConnError.gss_not_compiled_in raw_gss)
      ok (record { sslmode = sslmode; sslnegotiation = sslnegotiation; gssencmode = gssencmode })
