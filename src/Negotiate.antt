-- ===== src/Negotiate.antt =====
-- crates/rlibpq/src/negotiate.rs: which of plaintext, SSL and GSSAPI a connection attempt may use,
-- and in what order it tries them. Options reads the three options out of a `ConnInfo`.
pub mod Options
pub mod Safety
pub mod Ends
pub mod Accepted
use pgrust_drop.Prelude.{
  ℕ, Bool, true, false, not, ◌&&◌, ◌||◌, List, [], ◌∷◌, Option, none, some, if◌then◌else◌, is_some,
}
use pgrust_drop.ConnError.{ConnError, Result, ok, err}

-- `struct Build`.
pub record Build : Type 0 where
  pub use_ssl : Bool
  pub enable_gss : Bool

-- `enum SslMode`.
pub data SslMode : Type 0 where
  disable allow prefer require verify_ca verify_full : SslMode

-- `SslMode::requires_ssl`.
unfoldable pub requires_ssl : SslMode → Bool
requires_ssl SslMode.require = true
requires_ssl SslMode.verify_ca = true
requires_ssl SslMode.verify_full = true
requires_ssl _ = false

-- `enum SslNegotiation`.
pub data SslNegotiation : Type 0 where
  postgres direct : SslNegotiation

-- `enum GssEncMode`.
pub data GssEncMode : Type 0 where
  disable prefer require : GssEncMode

-- `struct EncryptionOptions`.
pub record EncryptionOptions : Type 0 where
  pub sslmode : SslMode
  pub sslnegotiation : SslNegotiation
  pub gssencmode : GssEncMode

-- `enum EncMethod`.
pub data EncMethod : Type 0 where
  plaintext gssapi ssl : EncMethod

-- The `u8` masks `allowed` and `failed`, of which the code sets and tests the three bits of
-- `EncMethod::bit`.
pub record Mask : Type 0 where
  pub has_plaintext : Bool
  pub has_gssapi : Bool
  pub has_ssl : Bool

abbrev pub no_bits : Mask
no_bits = record { has_plaintext = false; has_gssapi = false; has_ssl = false }

-- `mask & method.bit() != 0`.
unfoldable pub bit : EncMethod → Mask → Bool
bit EncMethod.plaintext m = m.has_plaintext
bit EncMethod.gssapi m = m.has_gssapi
bit EncMethod.ssl m = m.has_ssl

-- `mask |= method.bit()`.
unfoldable pub or_bit : EncMethod → Mask → Mask
or_bit EncMethod.plaintext m = record m { has_plaintext = true }
or_bit EncMethod.gssapi m = record m { has_gssapi = true }
or_bit EncMethod.ssl m = record m { has_ssl = true }

-- `enum AfterRefusal`.
pub data AfterRefusal : Type 0 where
  give_up same_connection reconnect : AfterRefusal

-- `struct Negotiation`.
pub record Negotiation : Type 0 where
  pub sslmode : SslMode
  pub sslnegotiation : SslNegotiation
  pub allowed : Mask
  pub failed : Mask
  pub current : Option EncMethod

-- The order of `Negotiation::select_next`.
unfoldable pub order : SslMode → List EncMethod
order SslMode.allow = EncMethod.gssapi ∷ EncMethod.plaintext ∷ EncMethod.ssl ∷ []
order _ = EncMethod.gssapi ∷ EncMethod.ssl ∷ EncMethod.plaintext ∷ []

-- `find(|method| remaining & method.bit() != 0)`, with `remaining` `allowed & !failed`.
unfoldable pub find_remaining : Mask → Mask → List EncMethod → Option EncMethod
find_remaining allowed failed [] = none
find_remaining allowed failed (method ∷ methods) =
    let behind = find_remaining allowed failed methods in
    if bit method allowed && not (bit method failed) then some method else behind

-- `Negotiation::select_next`, without what it returns: whether there is a current method.
unfoldable pub select_next : Negotiation → Negotiation
select_next n = record n { current = find_remaining n.allowed n.failed (order n.sslmode) }

abbrev pub or_current : Option EncMethod → Mask → Mask
or_current none m = m
or_current (some method) m = or_bit method m

-- `Negotiation::mark_current_failed`.
unfoldable pub mark_current_failed : Negotiation → Negotiation
mark_current_failed n = record n { failed = or_current n.current n.failed }

-- `Negotiation::connection_failed`.
unfoldable pub connection_failed : Negotiation → Negotiation × Bool
connection_failed n = let next = select_next (mark_current_failed n) in (next, is_some next.current)

unfoldable pub after_refusal : Option EncMethod → SslNegotiation → AfterRefusal
after_refusal none negotiation = AfterRefusal.give_up
after_refusal (some EncMethod.ssl) SslNegotiation.direct = AfterRefusal.reconnect
after_refusal _ _ = AfterRefusal.same_connection

-- `Negotiation::encryption_negotiation_failed`.
unfoldable pub encryption_negotiation_failed : Negotiation → Negotiation × AfterRefusal
encryption_negotiation_failed n =
    let next = select_next (mark_current_failed n) in
    (next, after_refusal next.current next.sslnegotiation)

abbrev is_disable : SslMode → Bool
is_disable SslMode.disable = true
is_disable _ = false

abbrev pub gss_is_require : GssEncMode → Bool
gss_is_require GssEncMode.require = true
gss_is_require _ = false

abbrev gss_is_disable : GssEncMode → Bool
gss_is_disable GssEncMode.disable = true
gss_is_disable _ = false

-- The methods that the options allow over a network socket.
unfoldable pub allowed_methods : EncryptionOptions → Build → Mask
allowed_methods options build =
    let gss_required = gss_is_require options.gssencmode in
    record {
      has_plaintext = not (requires_ssl options.sslmode) && not gss_required;
      has_gssapi = build.enable_gss && not (gss_is_disable options.gssencmode);
      has_ssl = build.use_ssl && not (is_disable options.sslmode) && not gss_required;
    }

-- `Negotiation::start`.
unfoldable pub start : EncryptionOptions → Build → Bool → Result Negotiation
start options build true =
    if gss_is_require options.gssencmode
    then err ConnError.gssapi_over_local_socket
    else ok (record {
      sslmode = options.sslmode;
      sslnegotiation = options.sslnegotiation;
      allowed = or_bit EncMethod.plaintext no_bits;
      failed = no_bits;
      current = some EncMethod.plaintext;
    })
start options build false = ok (
    select_next (record {
      sslmode = options.sslmode;
      sslnegotiation = options.sslnegotiation;
      allowed = allowed_methods options build;
      failed = no_bits;
      current = none;
    }))
