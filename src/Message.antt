-- ===== src/Message.antt =====
-- crates/rlibpq/src/message.rs and the request type of crates/rlibpq/src/auth.rs: what the server
-- and the client say to one another. Reader and Decode read the server's messages, Frame cuts them
-- out of the input buffer, Frontend writes the client's.
pub mod Reader
pub mod Frame
pub mod Decode
pub mod Frontend
use pgrust_drop.Prelude.{ℕ, List, Option, Bytes}
use pgrust_drop.Prelude.Int.{ℤ}
use pgrust_drop.ResultError.{ResultError}
use pgrust_drop.QueryResult.{FieldDescription, Row, CopyFormat}

-- `enum ProtocolError`.
pub data ProtocolError : Type 0 where
  lost_synchronization : ℕ → ℤ → ProtocolError
  insufficient_data contents_do_not_agree : ℕ → ProtocolError
  unexpected_field_count data_without_row_description : ProtocolError
  unexpected_response : ℕ → ProtocolError
  negative_unsupported_parameter_count too_much_data : ProtocolError
  function_call_protocol : ℕ → ProtocolError

-- `Result<T, ProtocolError>`.
pub data Result {ℓ} (A : Type ℓ) : Type ℓ where
  ok : A → Result A
  err : ProtocolError → Result A

-- `enum TransactionStatus`.
pub data TransactionStatus : Type 0 where
  idle in_transaction in_error unknown : TransactionStatus

-- `enum AuthRequest`.
pub data AuthRequest : Type 0 where
  ok kerberos_v4 kerberos_v5 cleartext_password crypt : AuthRequest
  md5_password : Bytes → AuthRequest
  gss : AuthRequest
  gss_continue : Bytes → AuthRequest
  sspi : AuthRequest
  sasl : List Bytes → AuthRequest
  sasl_continue sasl_final : Bytes → AuthRequest
  unknown : ℕ → AuthRequest

-- `enum Backend`.
pub data Backend : Type 0 where
  authentication : AuthRequest → Backend
  backend_key_data : ℤ → Bytes → Backend
  parameter_status : Bytes → Bytes → Backend
  ready_for_query : TransactionStatus → Backend
  row_description : List FieldDescription → Backend
  data_row : Row → Backend
  command_complete : Bytes → Backend
  empty_query_response : Backend
  error_response notice_response : ResultError → Backend
  notification_response : ℤ → Bytes → Bytes → Backend
  negotiate_protocol_version : ℕ → List Bytes → Backend
  parse_complete bind_complete close_complete no_data portal_suspended : Backend
  parameter_description : List ℕ → Backend
  copy_in_response copy_out_response copy_both_response : CopyFormat → Backend
  copy_data : Bytes → Backend
  copy_done : Backend
  function_call_response : Option Bytes → Backend
  other : ℕ → Bytes → Backend

-- `message_id` of crates/rlibpq/src/pipeline.rs: the type byte a message came from.
unfoldable pub message_id : Backend → ℕ
message_id (Backend.authentication _) = b'R'
message_id (Backend.backend_key_data _ _) = b'K'
message_id (Backend.parameter_status _ _) = b'S'
message_id (Backend.ready_for_query _) = b'Z'
message_id (Backend.row_description _) = b'T'
message_id (Backend.data_row _) = b'D'
message_id (Backend.command_complete _) = b'C'
message_id Backend.empty_query_response = b'I'
message_id (Backend.error_response _) = b'E'
message_id (Backend.notice_response _) = b'N'
message_id (Backend.notification_response _ _ _) = b'A'
message_id (Backend.negotiate_protocol_version _ _) = b'v'
message_id Backend.parse_complete = b'1'
message_id Backend.bind_complete = b'2'
message_id Backend.close_complete = b'3'
message_id Backend.no_data = b'n'
message_id Backend.portal_suspended = b's'
message_id (Backend.parameter_description _) = b't'
message_id (Backend.copy_in_response _) = b'G'
message_id (Backend.copy_out_response _) = b'H'
message_id (Backend.copy_both_response _) = b'W'
message_id (Backend.copy_data _) = b'd'
message_id Backend.copy_done = b'c'
message_id (Backend.function_call_response _) = b'V'
message_id (Backend.other id _) = id
