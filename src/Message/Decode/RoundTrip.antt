-- ===== src/Message/Decode/RoundTrip.antt =====
-- Decoding what the protocol's layout carries.
use pgrust_drop.Prelude.{
  ℕ, zero, suc, ◌+◌, ◌^◌, ◌≤◌, ◌<◌, false, List, [], ◌∷◌, ◌++◌, Option, none, some, ◌≡◌, refl, sym,
  ap, arith, length, length-append, Bytes, append-nil,
}
use pgrust_drop.Prelude.Int.{pos, negsuc, FitsWord}
use pgrust_drop.QueryResult.{FieldDescription, CopyFormat}
use pgrust_drop.Message.{ok, TransactionStatus, Backend, message_id}
use pgrust_drop.Message.Reader.{◌>>=◌, read_cstring, read_u8, read_u32, read_i16, take_bytes}
use pgrust_drop.Message.Reader.Laws.{
  NoNul, read_cstring-append, read_u16-u16_be, read_u32-u32_be, read_i16-i16_be, read_i32-i32_be,
  take_bytes-append, repeat-list_onto,
}
use pgrust_drop.Message.Frontend.{u32_be, i16_be}
use pgrust_drop.Message.Decode.{
  read_field, read_value, read_error_fields, decode_copy_format, decode, decode_message,
  transaction_status,
}
use pgrust_drop.Message.Decode.Layout.{
  cstring_onto, field_onto, FieldFits, value_onto, ValueFits, error_fields_onto, ErrorFieldsFit,
  formats_onto, FormatsFit, body_of, is_known, MessageFits,
}

read_field-field_onto :
    (f : FieldDescription) (id : ℕ) (rest : Bytes)
    → FieldFits f
    → read_field id (field_onto f rest) ≡ ok (f, rest)
unfolding read_field
read_field-field_onto f id rest h = rw (
  read_cstring-append f.name id _ h.name,
  read_u32-u32_be f.tableid id _ h.tableid,
  read_i16-i16_be f.columnid id _ h.columnid,
  read_u32-u32_be f.typid id _ h.typid,
  read_i16-i16_be f.typlen id _ h.typlen,
  read_i32-i32_be f.atttypmod id _ h.atttypmod,
  read_i16-i16_be f.format id rest h.format,
  ◌>>=◌,
)

pub read_value-value_onto :
    (v : Option Bytes) (id : ℕ) (rest : Bytes)
    → ValueFits v
    → read_value id (value_onto v rest) ≡ ok (v, rest)
unfolding read_value
read_value-value_onto none id rest h = rw (read_i32-i32_be (negsuc 0) id rest (omega arith), ◌>>=◌)
read_value-value_onto (some v) id rest h =
    rw (read_i32-i32_be (pos (length v)) id (v ++ rest) h, ◌>>=◌)
      (rw (take_bytes-append v id rest, ◌>>=◌))

read_error_fields-error_fields_onto :
    (fields : List (ℕ × Bytes)) (fuel id : ℕ) (rest : Bytes)
    → length fields < fuel
    → ErrorFieldsFit fields
    → read_error_fields fuel id (error_fields_onto fields rest) ≡ ok (fields, rest)
unfolding read_error_fields read_u8
read_error_fields-error_fields_onto fields zero id rest l h = absurd (omega arith)
read_error_fields-error_fields_onto [] (suc fuel) id rest l h = refl
read_error_fields-error_fields_onto ((code, value) ∷ fields) (suc fuel) id rest l h = ground (
  arith,
  read_cstring-append value id (error_fields_onto fields rest) h.1,
  read_error_fields-error_fields_onto fields fuel id rest (omega arith) h.2,
)

length-error_fields_onto :
    (fields : List (ℕ × Bytes)) → length fields ≤ length (error_fields_onto fields [])
length-error_fields_onto [] = omega arith
length-error_fields_onto ((code, value) ∷ fields) =
    omega (
      arith,
      length-error_fields_onto fields,
      length-append value (0 ∷ error_fields_onto fields []),
    )

error_fuel : (fields : List (ℕ × Bytes)) → length fields < length (error_fields_onto fields []) + 1
error_fuel fields = omega (arith, length-error_fields_onto fields)

decode_copy_format-formats_onto :
    (f : CopyFormat) (id : ℕ) → FormatsFit f → decode_copy_format id (formats_onto f) ≡ ok (f, [])
unfolding decode_copy_format read_u8
decode_copy_format-formats_onto f id h =
    rw (read_u16-u16_be (length f.column_formats) id _ h.0, ◌>>=◌)
      (rw (
        repeat-list_onto read_i16 (λ z rest. i16_be z ++ rest) (FitsWord (2 ^ 15)) read_i16-i16_be
            f.column_formats id [] h.1,
        ◌>>=◌,
      ))

pub take_whole : (bs : Bytes) (id : ℕ) → take_bytes (length bs) id bs ≡ ok (bs, [])
take_whole bs id = rw (append-nil bs) at (take_bytes-append bs id [])

decode_message_other :
    (fuel id : ℕ) (body : Bytes)
    → is_known id ≡ false
    → decode_message fuel id body ≡ ok (Backend.other id body, body)
unfolding decode_message is_known
decode_message_other fuel id body h = ground arith

decode_other :
    (id : ℕ) (body : Bytes) → is_known id ≡ false → decode id body ≡ ok (Backend.other id body)
unfolding decode
decode_other id body h = rw (decode_message_other _ id body h) (ground arith)

-- For every message but an authentication request: where its strings have no NUL and its numbers and
-- counts fit their words, decoding the layout under the message's type byte gives the message back.
pub decode-body_of : (m : Backend) → MessageFits m → decode (message_id m) (body_of m) ≡ ok m
unfolding decode decode_message message_id transaction_status
decode-body_of (Backend.authentication a) h = absurd h
decode-body_of (Backend.backend_key_data pid key) h =
    rw (read_i32-i32_be pid b'K' key h, ◌>>=◌) (ground arith)
decode-body_of (Backend.parameter_status name value) h =
    rw (read_cstring-append name b'S' _ h.0, ◌>>=◌)
      (rw (read_cstring-append value b'S' [] h.1, ◌>>=◌))
decode-body_of (Backend.ready_for_query TransactionStatus.idle) h = unfold read_u8 in refl
decode-body_of (Backend.ready_for_query _) h = unfold read_u8 in refl
decode-body_of (Backend.row_description fields) h =
    rw (read_u16-u16_be (length fields) b'T' _ h.0, ◌>>=◌)
      (rw (
        repeat-list_onto read_field field_onto FieldFits read_field-field_onto fields b'T' [] h.1,
        ◌>>=◌,
      ))
decode-body_of (Backend.data_row values) h =
    rw (read_u16-u16_be (length values) b'D' _ h.0, ◌>>=◌)
      (rw (
        repeat-list_onto read_value value_onto ValueFits read_value-value_onto values b'D' [] h.1,
        ◌>>=◌,
      ))
decode-body_of (Backend.command_complete tag) h = rw (read_cstring-append tag b'C' [] h, ◌>>=◌)
decode-body_of (Backend.error_response e) h =
    let fuel = error_fuel e.fields in
    rw (read_error_fields-error_fields_onto e.fields _ b'E' [] fuel h.1, ◌>>=◌)
      (ap (λ x. ok (Backend.error_response x)) (sym h.0))
decode-body_of (Backend.notice_response e) h =
    let fuel = error_fuel e.fields in
    rw (read_error_fields-error_fields_onto e.fields _ b'N' [] fuel h.1, ◌>>=◌)
      (ap (λ x. ok (Backend.notice_response x)) (sym h.0))
decode-body_of (Backend.notification_response pid channel payload) h =
    rw (read_i32-i32_be pid b'A' _ h.0, ◌>>=◌)
      (rw (read_cstring-append channel b'A' _ h.1, ◌>>=◌)
        (rw (read_cstring-append payload b'A' [] h.2, ◌>>=◌)))
decode-body_of (Backend.negotiate_protocol_version newest unrecognized) h =
    rw (read_u32-u32_be newest b'v' _ h.0, ◌>>=◌)
      (rw (read_i32-i32_be (pos (length unrecognized)) b'v' _ h.1, ◌>>=◌)
        (rw (
          repeat-list_onto read_cstring cstring_onto NoNul read_cstring-append unrecognized b'v' []
              h.2,
          ◌>>=◌,
        )))
decode-body_of (Backend.parameter_description types) h =
    rw (read_u16-u16_be (length types) b't' _ h.0, ◌>>=◌)
      (rw (
        repeat-list_onto read_u32 (λ n rest. u32_be n ++ rest) (λ n. n < 2 ^ 32) read_u32-u32_be
            types b't' [] h.1,
        ◌>>=◌,
      ))
decode-body_of (Backend.copy_in_response f) h = rw (decode_copy_format-formats_onto f b'G' h, ◌>>=◌)
decode-body_of (Backend.copy_out_response f) h =
    rw (decode_copy_format-formats_onto f b'H' h, ◌>>=◌)
decode-body_of (Backend.copy_both_response f) h =
    rw (decode_copy_format-formats_onto f b'W' h, ◌>>=◌)
decode-body_of (Backend.copy_data bytes) h = rw (take_whole bytes b'd', ◌>>=◌)
decode-body_of (Backend.function_call_response value) h =
    rw (read_value-value_onto value b'V' [] h, ◌>>=◌)
decode-body_of (Backend.other id body) h = decode_other id body h
decode-body_of _ h = refl
