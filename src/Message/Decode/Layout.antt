-- ===== src/Message/Decode/Layout.antt =====
-- The layout of the server's messages in the frontend/backend protocol, as a writer in front of what
-- follows: what `Backend::decode` of crates/rlibpq/src/message.rs is to read back.
use pgrust_drop.Prelude.{
  ℕ, ◌^◌, ◌<◌, Bool, false, ◌||◌, List, [], ◌∷◌, ◌++◌, Option, none, some, ◌≡◌, ◌≢◌, ◌==◌, length,
  All, Bytes,
}
use pgrust_drop.Prelude.Int.{pos, negsuc, FitsWord}
use pgrust_drop.ResultError
use pgrust_drop.QueryResult.{FieldDescription, CopyFormat}
use pgrust_drop.Message.{TransactionStatus, Backend}
use pgrust_drop.Message.Reader.Laws.{NoNul, list_onto}
use pgrust_drop.Message.Reader.{read_cstring, read_u32, read_i16}
use pgrust_drop.Message.Frontend.{u16_be, u32_be, i16_be, i32_be}
use pgrust_drop.Message.Decode.{read_field, read_value}

abbrev pub cstring_onto : Bytes → Bytes → Bytes
cstring_onto s rest = s ++ 0 ∷ rest

abbrev pub field_onto : FieldDescription → Bytes → Bytes
field_onto f rest = cstring_onto f.name (
    u32_be f.tableid
    ++ (i16_be f.columnid
        ++ (u32_be f.typid
            ++ (i16_be f.typlen ++ (i32_be f.atttypmod ++ (i16_be f.format ++ rest))))))

pub record FieldFits (f : FieldDescription) : Type 0 where
  pub name : NoNul f.name
  pub tableid : f.tableid < 2 ^ 32
  pub columnid : FitsWord (2 ^ 15) f.columnid
  pub typid : f.typid < 2 ^ 32
  pub typlen : FitsWord (2 ^ 15) f.typlen
  pub atttypmod : FitsWord (2 ^ 31) f.atttypmod
  pub format : FitsWord (2 ^ 15) f.format

-- A value behind its length; NULL has the length -1.
abbrev pub value_onto : Option Bytes → Bytes → Bytes
value_onto none rest = i32_be (negsuc 0) ++ rest
value_onto (some v) rest = i32_be (pos (length v)) ++ (v ++ rest)

abbrev pub ValueFits : Option Bytes → Type 0
ValueFits none = Unit
ValueFits (some v) = length v < 2 ^ 31

-- The fields of an error, and the zero byte behind them.
abbrev pub error_fields_onto : List (ℕ × Bytes) → Bytes → Bytes
error_fields_onto [] rest = 0 ∷ rest
error_fields_onto ((code, value) ∷ fields) rest =
    code ∷ cstring_onto value (error_fields_onto fields rest)

abbrev pub ErrorFieldsFit : List (ℕ × Bytes) → Type 0
ErrorFieldsFit [] = Unit
ErrorFieldsFit ((code, value) ∷ fields) = (code ≢ 0) × NoNul value × ErrorFieldsFit fields

abbrev pub formats_onto : CopyFormat → Bytes
formats_onto f =
    f.overall
    ∷ (u16_be (length f.column_formats)
        ++ list_onto read_i16 (λ z rest. i16_be z ++ rest) (FitsWord (2 ^ 15)) f.column_formats [])

abbrev pub FormatsFit : CopyFormat → Type 0
FormatsFit f = (length f.column_formats < 2 ^ 16) × All (FitsWord (2 ^ 15)) f.column_formats

abbrev pub status_byte : TransactionStatus → ℕ
status_byte TransactionStatus.idle = b'I'
status_byte TransactionStatus.in_transaction = b'T'
status_byte TransactionStatus.in_error = b'E'
status_byte TransactionStatus.unknown = b'?'

-- The body of each message but an authentication request.
abbrev pub body_of : Backend → Bytes
body_of (Backend.authentication _) = []
body_of (Backend.backend_key_data pid key) = i32_be pid ++ key
body_of (Backend.parameter_status name value) = cstring_onto name (cstring_onto value [])
body_of (Backend.ready_for_query status) = status_byte status ∷ []
body_of (Backend.row_description fields) =
    u16_be (length fields) ++ list_onto read_field field_onto FieldFits fields []
body_of (Backend.data_row values) =
    u16_be (length values) ++ list_onto read_value value_onto ValueFits values []
body_of (Backend.command_complete tag) = cstring_onto tag []
body_of (Backend.error_response e) = error_fields_onto e.fields []
body_of (Backend.notice_response e) = error_fields_onto e.fields []
body_of (Backend.notification_response pid channel payload) =
    i32_be pid ++ cstring_onto channel (cstring_onto payload [])
body_of (Backend.negotiate_protocol_version newest unrecognized) =
    u32_be newest
    ++ (i32_be (pos (length unrecognized))
        ++ list_onto read_cstring cstring_onto NoNul unrecognized [])
body_of (Backend.parameter_description types) =
    u16_be (length types)
    ++ list_onto read_u32 (λ n rest. u32_be n ++ rest) (λ n. n < 2 ^ 32) types []
body_of (Backend.copy_in_response f) = formats_onto f
body_of (Backend.copy_out_response f) = formats_onto f
body_of (Backend.copy_both_response f) = formats_onto f
body_of (Backend.copy_data bytes) = bytes
body_of (Backend.function_call_response value) = value_onto value []
body_of (Backend.other id body) = body
body_of _ = []

-- Is the byte the type of a message with a constructor of its own?
unfoldable pub is_known : ℕ → Bool
is_known id =
    id == b'R'
    || id == b'K'
    || id == b'S'
    || id == b'Z'
    || id == b'T'
    || id == b'D'
    || id == b'C'
    || id == b'I'
    || id == b'E'
    || id == b'N'
    || id == b'A'
    || id == b'v'
    || id == b'1'
    || id == b'2'
    || id == b'3'
    || id == b'n'
    || id == b's'
    || id == b't'
    || id == b'G'
    || id == b'H'
    || id == b'W'
    || id == b'd'
    || id == b'c'
    || id == b'V'

-- The messages that the layout can carry: strings with no NUL, numbers and counts that fit their
-- words. An error holds its fields alone, as decoding makes it.
abbrev pub MessageFits : Backend → Type 0
MessageFits (Backend.authentication _) = ⊥
MessageFits (Backend.backend_key_data pid key) = FitsWord (2 ^ 31) pid
MessageFits (Backend.parameter_status name value) = NoNul name × NoNul value
MessageFits (Backend.row_description fields) = (length fields < 2 ^ 16) × All FieldFits fields
MessageFits (Backend.data_row values) = (length values < 2 ^ 16) × All ValueFits values
MessageFits (Backend.command_complete tag) = NoNul tag
MessageFits (Backend.error_response e) = (e ≡ ResultError.new e.fields) × ErrorFieldsFit e.fields
MessageFits (Backend.notice_response e) = (e ≡ ResultError.new e.fields) × ErrorFieldsFit e.fields
MessageFits (Backend.notification_response pid channel payload) =
    FitsWord (2 ^ 31) pid × NoNul channel × NoNul payload
MessageFits (Backend.negotiate_protocol_version newest unrecognized) =
    (newest < 2 ^ 32) × (length unrecognized < 2 ^ 31) × All NoNul unrecognized
MessageFits (Backend.parameter_description types) =
    (length types < 2 ^ 16) × All (λ n. n < 2 ^ 32) types
MessageFits (Backend.copy_in_response f) = FormatsFit f
MessageFits (Backend.copy_out_response f) = FormatsFit f
MessageFits (Backend.copy_both_response f) = FormatsFit f
MessageFits (Backend.function_call_response value) = ValueFits value
MessageFits (Backend.other id body) = is_known id ≡ false
MessageFits _ = Unit
