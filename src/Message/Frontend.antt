-- ===== src/Message/Frontend.antt =====
-- crates/rlibpq/src/message.rs: the client's messages and `Frontend::encode`. Where the source
-- panics, because a count or a length does not fit its word, the encoders here give no bytes.
pub mod RoundTrip
pub mod Framing
use pgrust_drop.Prelude.{
  ℕ, ◌+◌, ◌-◌, ◌*◌, ◌/◌, ◌%◌, ◌^◌, List, [], ◌∷◌, ◌++◌, Option, none, some, ltb, if◌then◌else◌,
  length, Bytes,
}
use pgrust_drop.Prelude.Int.{ℤ, pos, negsuc, to_word}

-- `enum Target`.
pub data Target : Type 0 where
  statement portal : Target

-- `Target::byte`.
abbrev pub target_byte : Target → ℕ
target_byte Target.statement = b'S'
target_byte Target.portal = b'P'

-- `enum Frontend`.
pub data Frontend : Type 0 where
  startup : ℕ → List (Bytes × Bytes) → Frontend
  query password_message : Bytes → Frontend
  sasl_initial_response : Bytes → Option Bytes → Frontend
  sasl_response : Bytes → Frontend
  terminate : Frontend
  parse : Bytes → Bytes → List ℕ → Frontend
  bind : Bytes → Bytes → List ℤ → List (Option Bytes) → List ℤ → Frontend
  describe : Target → Bytes → Frontend
  execute : Bytes → ℤ → Frontend
  close : Target → Bytes → Frontend
  sync flush : Frontend
  copy_data : Bytes → Frontend
  copy_done : Frontend
  copy_fail : Bytes → Frontend
  cancel_request : ℤ → Bytes → Frontend
  function_call : ℕ → List (Option Bytes) → Frontend

infixl 5 ◌>>=◌
abbrev pub ◌>>=◌ : {A B : Type 0} → Option A → (A → Option B) → Option B
none >>= f = none
some a >>= f = f a

-- `u16::to_be_bytes` and `u32::to_be_bytes`.
abbrev pub u16_be : ℕ → Bytes
u16_be n = n / 256 % 256 ∷ n % 256 ∷ []

abbrev pub u32_be : ℕ → Bytes
u32_be n = n / 16777216 % 256 ∷ n / 65536 % 256 ∷ n / 256 % 256 ∷ n % 256 ∷ []

abbrev pub i16_be : ℤ → Bytes
i16_be z = u16_be (to_word (2 ^ 15) z)

abbrev pub i32_be : ℤ → Bytes
i32_be z = u32_be (to_word (2 ^ 31) z)

-- `cstring`: the bytes and their NUL.
abbrev pub cstring : Bytes → Bytes
cstring bytes = bytes ++ 0 ∷ []

-- `count16`.
unfoldable pub count16 : ℕ → Option Bytes
count16 n = if ltb n (2 ^ 16) then some (u16_be n) else none

-- `length_word`.
unfoldable pub length_word : ℕ → Option Bytes
length_word body_len = if ltb (body_len + 4) (2 ^ 32) then some (u32_be (body_len + 4)) else none

-- `packet`.
unfoldable pub packet : ℕ → Bytes → Option Bytes
unfolding length_word
packet id body = do word ← length_word (length body); some (id ∷ (word ++ body))

-- A message with no type byte: the startup packet and the cancel request.
abbrev untyped : Bytes → Option Bytes
untyped body = do word ← length_word (length body); some (word ++ body)

-- A value behind its length word, or a length of -1 for NULL.
unfoldable pub put_value : Option Bytes → Option Bytes
put_value none = some (i32_be (negsuc 0))
put_value (some value) =
    if ltb (length value) (2 ^ 31) then some (i32_be (pos (length value)) ++ value) else none

unfoldable pub put_values : List (Option Bytes) → Option Bytes
unfolding put_value
put_values [] = some []
put_values (v ∷ vs) = do bytes ← put_value v; rest ← put_values vs; some (bytes ++ rest)

unfoldable pub put_i16s : List ℤ → Bytes
put_i16s [] = []
put_i16s (z ∷ zs) = i16_be z ++ put_i16s zs

unfoldable pub put_u32s : List ℕ → Bytes
put_u32s [] = []
put_u32s (n ∷ ns) = u32_be n ++ put_u32s ns

put_parameters : List (Bytes × Bytes) → Bytes
put_parameters [] = []
put_parameters ((name, value) ∷ rest) = cstring name ++ (cstring value ++ put_parameters rest)

-- `bind_body`.
unfoldable pub bind_body : Bytes → Bytes → List ℤ → List (Option Bytes) → List ℤ → Option Bytes
unfolding count16 put_values put_i16s
bind_body portal_name statement_name param_formats params result_formats = do
  nformats ← count16 (length param_formats)
  nparams ← count16 (length params)
  values ← put_values params
  nresults ← count16 (length result_formats)
  some (
      cstring portal_name
      ++ (cstring statement_name
          ++ (nformats
              ++ (put_i16s param_formats
                  ++ (nparams ++ (values ++ (nresults ++ put_i16s result_formats)))))))

-- `function_call_body`.
unfoldable pub function_call_body : ℕ → List (Option Bytes) → Option Bytes
unfolding count16 put_values
function_call_body fnid args = do
  nargs ← count16 (length args)
  values ← put_values args
  some
      (u32_be fnid ++ (i16_be (pos 1) ++ (i16_be (pos 1) ++ (nargs ++ (values ++ i16_be (pos 1))))))

abbrev pub cancel_request_code : ℕ
cancel_request_code = 1234 * 2 ^ 16 + 5678

-- `u32::try_from(len).unwrap_or(u32::MAX)`.
abbrev saturated : ℕ → ℕ
saturated n = if ltb n (2 ^ 32) then n else 2 ^ 32 - 1

abbrev initial_response : Option Bytes → Bytes
initial_response none = []
initial_response (some response) = u32_be (saturated (length response)) ++ response

-- `Frontend::encode`.
unfoldable pub encode : Frontend → Option Bytes
unfolding packet length_word bind_body function_call_body count16 put_u32s put_parameters
encode (Frontend.startup version parameters) =
    untyped (u32_be version ++ (put_parameters parameters ++ 0 ∷ []))
encode (Frontend.query q) = packet b'Q' (cstring q)
encode (Frontend.password_message password) = packet b'p' (cstring password)
encode (Frontend.sasl_initial_response mechanism response) =
    packet b'p' (cstring mechanism ++ initial_response response)
encode (Frontend.sasl_response response) = packet b'p' response
encode Frontend.terminate = packet b'X' []
encode (Frontend.parse name q param_types) = do
  ntypes ← count16 (length param_types)
  packet b'P' (cstring name ++ (cstring q ++ (ntypes ++ put_u32s param_types)))
encode (Frontend.bind portal_name statement_name param_formats params result_formats) = do
  body ← bind_body portal_name statement_name param_formats params result_formats
  packet b'B' body
encode (Frontend.describe target name) = packet b'D' (target_byte target ∷ cstring name)
encode (Frontend.execute portal_name max_rows) =
    packet b'E' (cstring portal_name ++ i32_be max_rows)
encode (Frontend.close target name) = packet b'C' (target_byte target ∷ cstring name)
encode Frontend.sync = packet b'S' []
encode Frontend.flush = packet b'H' []
encode (Frontend.copy_data bytes) = packet b'd' bytes
encode Frontend.copy_done = packet b'c' []
encode (Frontend.copy_fail message) = packet b'f' (cstring message)
encode (Frontend.function_call fnid args) = do body ← function_call_body fnid args; packet b'F' body
encode (Frontend.cancel_request pid cancel_key) =
    untyped (u32_be cancel_request_code ++ (i32_be pid ++ cancel_key))
