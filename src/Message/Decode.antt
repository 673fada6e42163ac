-- ===== src/Message/Decode.antt =====
-- crates/rlibpq/src/message.rs: `Backend::decode` and the decoders it calls;
-- crates/rlibpq/src/auth.rs: `AuthRequest::decode`.
pub mod Layout
pub mod RoundTrip
pub mod Authentication
use pgrust_drop.Prelude.{
  ℕ, zero, suc, ◌+◌, Bool, true, false, not, ◌&&◌, List, [], ◌∷◌, Option, none, some, ◌==◌,
  if◌then◌else◌, length, Bytes, is_nil,
}
use pgrust_drop.Prelude.Int.{pos, negsuc}
use pgrust_drop.ResultError
use pgrust_drop.ResultError.{ResultError}
use pgrust_drop.QueryResult.{FieldDescription, CopyFormat}
use pgrust_drop.Message.{ProtocolError, Result, ok, err, TransactionStatus, AuthRequest, Backend}
use pgrust_drop.Message.Reader.{
  Parse, ◌>>=◌, pure, fail, take_bytes, read_u8, read_u16, read_i16, read_u32, read_i32,
  read_cstring, read_rest, repeat,
}

-- The loop of `AuthRequest::decode` over the mechanism names, on fuel: each round but the last
-- reads at least two bytes.
unfoldable pub read_mechanisms : ℕ → Parse (List Bytes)
read_mechanisms zero = λ id _. err (ProtocolError.insufficient_data id)
read_mechanisms (suc fuel) = do
  name ← read_cstring
  elim name [ [] ↦ pure [] | c ∷ cs ↦ do names ← read_mechanisms fuel; pure ((c ∷ cs) ∷ names) ]

decode_areq : ℕ → ℕ → Parse AuthRequest
decode_areq fuel areq =
    if areq == 0
    then pure AuthRequest.ok
    else if areq == 1
    then pure AuthRequest.kerberos_v4
    else if areq == 2
    then pure AuthRequest.kerberos_v5
    else if areq == 3
    then pure AuthRequest.cleartext_password
    else if areq == 4
    then pure AuthRequest.crypt
    else if areq == 5
    then (do salt ← take_bytes 4; pure (AuthRequest.md5_password salt))
    else if areq == 7
    then pure AuthRequest.gss
    else if areq == 8
    then (do body ← read_rest; pure (AuthRequest.gss_continue body))
    else if areq == 9
    then pure AuthRequest.sspi
    else if areq == 10
    then (do names ← read_mechanisms fuel; pure (AuthRequest.sasl names))
    else if areq == 11
    then (do body ← read_rest; pure (AuthRequest.sasl_continue body))
    else if areq == 12
    then (do body ← read_rest; pure (AuthRequest.sasl_final body))
    else pure (AuthRequest.unknown areq)

-- `AuthRequest::decode`, with a reader of its own over the body.
unfoldable pub decode_auth : Bytes → Result (AuthRequest × Bytes)
unfolding read_mechanisms decode_areq
decode_auth body = (do areq ← read_u32; decode_areq (length body + 1) areq) b'R' body

-- One column of a RowDescription.
unfoldable pub read_field : Parse FieldDescription
read_field = do
  name ← read_cstring
  tableid ← read_u32
  columnid ← read_i16
  typid ← read_u32
  typlen ← read_i16
  atttypmod ← read_i32
  format ← read_i16
  pure (record {
    name = name;
    tableid = tableid;
    columnid = columnid;
    typid = typid;
    typlen = typlen;
    atttypmod = atttypmod;
    format = format;
  })

-- A value behind its length word: a negative length is NULL.
unfoldable pub read_value : Parse (Option Bytes)
read_value = do
  vlen ← read_i32
  elim vlen [ pos n ↦ do v ← take_bytes n; pure (some v) | negsuc n ↦ pure none ]

decode_negotiate_protocol_version : Parse Backend
decode_negotiate_protocol_version = do
  newest ← read_u32
  count ← read_i32
  elim count [
    | negsuc n ↦ fail ProtocolError.negative_unsupported_parameter_count
    | pos n ↦ do
      unrecognized ← repeat n read_cstring
      pure (Backend.negotiate_protocol_version newest unrecognized)
  ]

decode_parameter_description : Parse Backend
decode_parameter_description = do
  nparams ← read_u16
  types ← repeat nparams read_u32
  pure (Backend.parameter_description types)

unfoldable pub decode_copy_format : Parse CopyFormat
decode_copy_format = do
  overall ← read_u8
  nfields ← read_u16
  formats ← repeat nfields read_i16
  pure (record { overall = overall; column_formats = formats })

-- The loop of `decode_error_fields`, on fuel: each round but the last reads at least two bytes.
unfoldable pub read_error_fields : ℕ → Parse (List (ℕ × Bytes))
read_error_fields zero = λ id _. err (ProtocolError.insufficient_data id)
read_error_fields (suc fuel) = do
  code ← read_u8
  elim (code == 0) [
    | true ↦ pure []
    | false ↦ do
      value ← read_cstring
      fields ← read_error_fields fuel
      pure ((code, value) ∷ fields)
  ]

decode_error_fields : ℕ → Parse ResultError
decode_error_fields fuel = do fields ← read_error_fields fuel; pure (ResultError.new fields)

unfoldable pub transaction_status : ℕ → TransactionStatus
transaction_status b =
    if b == b'I'
    then TransactionStatus.idle
    else if b == b'T'
    then TransactionStatus.in_transaction
    else if b == b'E'
    then TransactionStatus.in_error
    else TransactionStatus.unknown

decode_notification : Parse Backend
decode_notification = do
  pid ← read_i32
  channel ← read_cstring
  payload ← read_cstring
  pure (Backend.notification_response pid channel payload)

-- The `match id` of `Backend::decode`; the fuel is for the two loops above.
unfoldable pub decode_message : ℕ → ℕ → Bytes → Result (Backend × Bytes)
unfolding decode_areq decode_negotiate_protocol_version decode_parameter_description
    decode_error_fields decode_notification
decode_message fuel id body =
    if id == b'R'
    then elim (decode_auth body) [ ok (a, _) ↦ ok (Backend.authentication a, body) | err e ↦ err e ]
    else if id == b'K'
    then (do pid ← read_i32; key ← read_rest; pure (Backend.backend_key_data pid key)) id body
    else if id == b'S'
    then (do name ← read_cstring; value ← read_cstring; pure (Backend.parameter_status name value))
        id body
    else if id == b'Z'
    then (do b ← read_u8; pure (Backend.ready_for_query (transaction_status b))) id body
    else if id == b'T'
    then (do
      nfields ← read_u16
      fields ← repeat nfields read_field
      pure (Backend.row_description fields))
        id body
    else if id == b'D'
    then (do nfields ← read_u16; values ← repeat nfields read_value; pure (Backend.data_row values))
        id body
    else if id == b'C'
    then (do tag ← read_cstring; pure (Backend.command_complete tag)) id body
    else if id == b'I'
    then ok (Backend.empty_query_response, body)
    else if id == b'E'
    then (do e ← decode_error_fields fuel; pure (Backend.error_response e)) id body
    else if id == b'N'
    then (do e ← decode_error_fields fuel; pure (Backend.notice_response e)) id body
    else if id == b'A'
    then decode_notification id body
    else if id == b'v'
    then decode_negotiate_protocol_version id body
    else if id == b'1'
    then ok (Backend.parse_complete, body)
    else if id == b'2'
    then ok (Backend.bind_complete, body)
    else if id == b'3'
    then ok (Backend.close_complete, body)
    else if id == b'n'
    then ok (Backend.no_data, body)
    else if id == b's'
    then ok (Backend.portal_suspended, body)
    else if id == b't'
    then decode_parameter_description id body
    else if id == b'G'
    then (do f ← decode_copy_format; pure (Backend.copy_in_response f)) id body
    else if id == b'H'
    then (do f ← decode_copy_format; pure (Backend.copy_out_response f)) id body
    else if id == b'W'
    then (do f ← decode_copy_format; pure (Backend.copy_both_response f)) id body
    else if id == b'd'
    then (do whole ← take_bytes (length body); pure (Backend.copy_data whole)) id body
    else if id == b'c'
    then ok (Backend.copy_done, body)
    else if id == b'V'
    then (do value ← read_value; pure (Backend.function_call_response value)) id body
    else ok (Backend.other id body, body)

-- The three kinds of message that leave part of the body unread.
abbrev reads_partly : Backend → Bool
reads_partly (Backend.other _ _) = true
reads_partly (Backend.backend_key_data _ _) = true
reads_partly (Backend.authentication _) = true
reads_partly _ = false

-- The check behind the `match`: the body is exactly consumed.
abbrev check_consumed : ℕ → Result (Backend × Bytes) → Result Backend
check_consumed id (err e) = err e
check_consumed id (ok (message, rest)) =
    if not (is_nil rest) && not (reads_partly message)
    then err (ProtocolError.contents_do_not_agree id)
    else ok message

-- `Backend::decode`.
unfoldable pub decode : ℕ → Bytes → Result Backend
decode id body = check_consumed id (decode_message (length body + 1) id body)
