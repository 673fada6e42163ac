-- ===== src/Message/Decode/Authentication.antt =====
-- The layout of an authentication request, and decoding it: `AuthRequest::decode` of
-- crates/rlibpq/src/auth.rs under `Backend::decode`.
use pgrust_drop.Prelude.{
  ℕ, zero, suc, ◌^◌, ◌≤◌, ◌<◌, List, [], ◌∷◌, ◌++◌, ◌≡◌, ◌≢◌, refl, arith, length, length-append,
  Bytes, ◌⊎◌,
}
use pgrust_drop.Message.{ok, AuthRequest, Backend}
use pgrust_drop.Message.Reader.{◌>>=◌, read_cstring, take_bytes}
use pgrust_drop.Message.Reader.Laws.{NoNul, read_cstring-append, read_u32-u32_be}
use pgrust_drop.Message.Frontend.{u32_be}
use pgrust_drop.Message.Decode.{read_mechanisms, decode_areq, decode_auth, decode_message, decode}
use pgrust_drop.Message.Decode.RoundTrip.{take_whole}

-- The names of the SASL mechanisms, and the zero byte behind them.
abbrev pub mechanisms_onto : List Bytes → Bytes
mechanisms_onto [] = 0 ∷ []
mechanisms_onto (name ∷ names) = name ++ 0 ∷ mechanisms_onto names

abbrev pub MechanismsFit : List Bytes → Type 0
MechanismsFit [] = Unit
MechanismsFit (name ∷ names) = (name ≢ []) × NoNul name × MechanismsFit names

abbrev pub code_of : AuthRequest → ℕ
code_of AuthRequest.ok = 0
code_of AuthRequest.kerberos_v4 = 1
code_of AuthRequest.kerberos_v5 = 2
code_of AuthRequest.cleartext_password = 3
code_of AuthRequest.crypt = 4
code_of (AuthRequest.md5_password _) = 5
code_of AuthRequest.gss = 7
code_of (AuthRequest.gss_continue _) = 8
code_of AuthRequest.sspi = 9
code_of (AuthRequest.sasl _) = 10
code_of (AuthRequest.sasl_continue _) = 11
code_of (AuthRequest.sasl_final _) = 12
code_of (AuthRequest.unknown n) = n

abbrev pub payload_of : AuthRequest → Bytes
payload_of (AuthRequest.md5_password salt) = salt
payload_of (AuthRequest.gss_continue body) = body
payload_of (AuthRequest.sasl names) = mechanisms_onto names
payload_of (AuthRequest.sasl_continue body) = body
payload_of (AuthRequest.sasl_final body) = body
payload_of _ = []

abbrev pub RequestFits : AuthRequest → Type 0
RequestFits (AuthRequest.md5_password salt) = length salt ≡ 4
RequestFits (AuthRequest.sasl names) = MechanismsFit names
RequestFits (AuthRequest.unknown n) = (n < 2 ^ 32) × ((n ≡ 6) ⊎ (12 < n))
RequestFits _ = Unit

read_mechanisms-mechanisms_onto :
    (names : List Bytes) (fuel id : ℕ)
    → length names < fuel
    → MechanismsFit names
    → read_mechanisms fuel id (mechanisms_onto names) ≡ ok (names, [])
unfolding read_mechanisms
read_mechanisms-mechanisms_onto names zero id l h = absurd (omega arith)
read_mechanisms-mechanisms_onto [] (suc fuel) id l h = unfold read_cstring in refl
read_mechanisms-mechanisms_onto ([] ∷ names) (suc fuel) id l h = absurd (h.0 refl)
read_mechanisms-mechanisms_onto ((c ∷ cs) ∷ names) (suc fuel) id l h =
    rw (read_cstring-append (c ∷ cs) id (mechanisms_onto names) h.1, ◌>>=◌)
      (rw (read_mechanisms-mechanisms_onto names fuel id (omega arith) h.2, ◌>>=◌))

length-mechanisms_onto : (names : List Bytes) → length names ≤ length (mechanisms_onto names)
length-mechanisms_onto [] = omega arith
length-mechanisms_onto (name ∷ names) =
    omega (arith, length-mechanisms_onto names, length-append name (0 ∷ mechanisms_onto names))

rest_of : AuthRequest → Bytes
rest_of (AuthRequest.gss_continue body) = body
rest_of (AuthRequest.sasl_continue body) = body
rest_of (AuthRequest.sasl_final body) = body
rest_of _ = []

code_fits : (a : AuthRequest) → RequestFits a → code_of a < 2 ^ 32
code_fits (AuthRequest.unknown n) h = h.0
code_fits _ h = omega arith

decode_areq-payload_of :
    (a : AuthRequest) (fuel : ℕ)
    → RequestFits a
    → length (payload_of a) < fuel
    → decode_areq fuel (code_of a) b'R' (payload_of a) ≡ ok (a, rest_of a)
unfolding decode_areq rest_of
decode_areq-payload_of (AuthRequest.md5_password salt) fuel h l =
    let four : take_bytes 4 b'R' salt ≡ ok (salt, []) = rw h at (take_whole salt b'R') in
    rw (four, ◌>>=◌) refl
decode_areq-payload_of (AuthRequest.sasl names) fuel h l =
    let more = length-mechanisms_onto names in
    rw (read_mechanisms-mechanisms_onto names fuel b'R' (omega (arith, more)) h, ◌>>=◌)
decode_areq-payload_of (AuthRequest.unknown n) fuel h l = ground arith
decode_areq-payload_of _ fuel h l = refl

decode_auth-payload_of :
    (a : AuthRequest)
    → RequestFits a
    → decode_auth (u32_be (code_of a) ++ payload_of a) ≡ ok (a, rest_of a)
unfolding decode_auth
decode_auth-payload_of a h =
    rw (read_u32-u32_be (code_of a) b'R' (payload_of a) (code_fits a h), ◌>>=◌)
      (decode_areq-payload_of a _ h (omega arith))

-- An authentication request, laid out as its code and its payload, is decoded: the salt has four
-- bytes, the mechanism names are not empty and have no NUL, and an unknown code fits its word.
pub decode-payload_of :
    (a : AuthRequest)
    → RequestFits a
    → decode b'R' (u32_be (code_of a) ++ payload_of a) ≡ ok (Backend.authentication a)
unfolding decode decode_message
decode-payload_of a h = rw (decode_auth-payload_of a h) refl
