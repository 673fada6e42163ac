-- ===== src/Tests/Session.antt =====
-- The theorems on negotiation, server checks, plans and base64 at concrete values.
use pgrust_drop.Prelude.{
  suc, true, false, List, [], ◌∷◌, none, some, ◌≡◌, ◌↔◌, refl, arith, All, codes, length, take,
  bytes_eq,
}
use pgrust_drop.ConnError.{ok}
use pgrust_drop.ConnInfo.{ConnInfo, new, get, set_at, index_of, position, is_system}
use pgrust_drop.ConnInfo.Options.{conninfo_options}
use pgrust_drop.Negotiate.{
  Build, SslMode, SslNegotiation, GssEncMode, EncryptionOptions, EncMethod, AfterRefusal,
  Negotiation, no_bits, order, allowed_methods, start, select_next, mark_current_failed,
  connection_failed, encryption_negotiation_failed, find_remaining, bit, or_bit, requires_ssl,
}
use pgrust_drop.Negotiate.Options.{
  from_conninfo, parse_ssl_mode, parse_ssl_negotiation, parse_gss_enc_mode,
}
use pgrust_drop.Negotiate.Safety.{Failure, tell, history, Permits, history-Permits}
use pgrust_drop.Negotiate.Ends.{tried, permitted, tried-start, tried_ends}
use pgrust_drop.Negotiate.Accepted.{Coherent, from_conninfo-Coherent}
use pgrust_drop.Hosts.{TargetServerType}
use pgrust_drop.QueryResult
use pgrust_drop.QueryResult.{ExecStatus, QueryResult}
use pgrust_drop.Target.{
  PgBool, ServerState, CheckQuery, TargetCheck, answer, answer_value, check_target,
}
use pgrust_drop.Target.Laws.{Decides, IsKnown, settles, answer-Decides, check_target-settles}
use pgrust_drop.Extended.{
  text_params, Plan, fits, Request, plan_of, query_params, query_guts, guts_plan, check_count,
  check_array,
}
use pgrust_drop.Extended.Laws.{Closed, Packs, plan_of-Closed, plan_of-Packs}
use pgrust_drop.Base64.{base64_encode, base64_decode}
use pgrust_drop.Base64.RoundTrip.{base64_decode-base64_encode}

abbrev a_build : Build
a_build = record { use_ssl = true; enable_gss = true }

abbrev an_options : EncryptionOptions
an_options = record {
  sslmode = SslMode.require;
  sslnegotiation = SslNegotiation.direct;
  gssencmode = GssEncMode.prefer;
}

abbrev a_start : Negotiation
a_start = record {
  sslmode = SslMode.require;
  sslnegotiation = SslNegotiation.direct;
  allowed = record { has_plaintext = false; has_gssapi = true; has_ssl = true };
  failed = no_bits;
  current = some EncMethod.gssapi;
}

a_start_ok : start an_options a_build false ≡ ok a_start
unfolding start select_next find_remaining bit allowed_methods order requires_ssl
a_start_ok = refl

abbrev failures : List Failure
failures = Failure.refused ∷ Failure.attempt_failed ∷ Failure.refused ∷ []

one_failure_ssl : (history (Failure.refused ∷ []) a_start).current ≡ some EncMethod.ssl
unfolding history tell encryption_negotiation_failed select_next mark_current_failed find_remaining
    bit or_bit order
one_failure_ssl = refl

history-Permits_example : Permits an_options a_build false EncMethod.ssl
history-Permits_example =
    history-Permits an_options a_build false (Failure.refused ∷ []) EncMethod.ssl a_start_ok
      one_failure_ssl

tried-start_example :
    tried failures a_start
    ≡ take
        (suc (length failures))
        (permitted (allowed_methods an_options a_build) (order SslMode.require))
tried-start_example = tried-start an_options a_build failures a_start_ok

tried_ends_example :
    ((history failures a_start).current ≡ none)
    × ((connection_failed (history failures a_start)).1 ≡ false)
    × ((encryption_negotiation_failed (history failures a_start)).1 ≡ AfterRefusal.give_up)
tried_ends_example = tried_ends an_options a_build failures a_start_ok (omega arith)

abbrev a_conninfo : ConnInfo
a_conninfo = record { values = set_at 19 (some (codes "verify-full")) new.values }

abbrev its_options : EncryptionOptions
its_options = record {
  sslmode = SslMode.verify_full;
  sslnegotiation = SslNegotiation.postgres;
  gssencmode = GssEncMode.disable;
}

a_conninfo_ok : from_conninfo a_conninfo a_build ≡ ok its_options
unfolding from_conninfo parse_ssl_mode parse_ssl_negotiation parse_gss_enc_mode requires_ssl get
    index_of position set_at new conninfo_options bytes_eq
a_conninfo_ok = refl

from_conninfo-Coherent_example :
    Coherent a_build (is_system (get a_conninfo (codes "sslrootcert"))) its_options
from_conninfo-Coherent_example = from_conninfo-Coherent a_conninfo a_build a_conninfo_ok

abbrev unasked : ServerState
unasked = record {
  default_transaction_read_only = PgBool.unknown;
  in_hot_standby = PgBool.unknown;
  sversion = 170000;
}

abbrev one_row : QueryResult
one_row = record (QueryResult.new ExecStatus.tuples_ok) { rows = (some (codes "t") ∷ []) ∷ [] }

abbrev asked : ServerState
asked = record unasked { in_hot_standby = PgBool.yes }

is_asked :
    check_target TargetServerType.standby false unasked ≡ TargetCheck.ask CheckQuery.is_in_recovery
unfolding check_target
is_asked = refl

is_answered : answer CheckQuery.is_in_recovery (some one_row) unasked ≡ some asked
unfolding answer answer_value
is_answered = refl

answer-Decides_example : Decides (check_target TargetServerType.standby false asked)
answer-Decides_example =
    answer-Decides TargetServerType.standby false (some one_row) unasked is_asked is_answered

abbrev known : ServerState
known = record asked { default_transaction_read_only = PgBool.no }

known-IsKnown : IsKnown known
known-IsKnown = (λ e. ground arith, λ e. ground arith)

check_target-settles_example :
    (check_target TargetServerType.read_only false known ≡ TargetCheck.accept)
    ↔ (settles TargetServerType.read_only false known ≡ true)
check_target-settles_example =
    check_target-settles TargetServerType.read_only false known known-IsKnown

abbrev a_request : Request
a_request = Request.params (codes "SELECT $1") (23 ∷ []) (text_params (some (codes "1") ∷ []))

abbrev a_plan : Plan
a_plan = guts_plan (some (codes "SELECT $1", 23 ∷ [])) [] (text_params (some (codes "1") ∷ []))

a_request_fits : plan_of a_request ≡ fits a_plan
unfolding query_params query_guts check_count check_array
a_request_fits = refl

plan_of-Closed_example : Closed a_plan
plan_of-Closed_example = plan_of-Closed a_request a_request_fits

plan_of-Packs_example : All Packs a_plan.messages
plan_of-Packs_example = plan_of-Packs a_request a_request_fits (omega arith, tt)

base64_decode-base64_encode_example :
    base64_decode (base64_encode (codes "salt")) ≡ some (codes "salt")
base64_decode-base64_encode_example =
    base64_decode-base64_encode (codes "salt")
      (omega arith, (omega arith, (omega arith, (omega arith, tt))))
