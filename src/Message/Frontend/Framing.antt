-- ===== src/Message/Frontend/Framing.antt =====
-- The client's messages on the wire, and their length words.
use pgrust_drop.Prelude.{
  ℕ, ◌+◌, ◌^◌, ◌<◌, [], ◌∷◌, ◌++◌, Option, none, some, ◌≡◌, ap, ◌∙◌, sym, arith, length,
  length-append, Bytes,
}
use pgrust_drop.Message.Frame.{Frame, next_copy_frame}
use pgrust_drop.Message.Frame.Laws.{packet_lem, next_copy_frame-header}
use pgrust_drop.Message.Frontend.{
  Frontend, encode, u32_be, count16, bind_body, function_call_body, packet, cstring, target_byte,
  ◌>>=◌,
}

-- The type byte of a message; the startup packet and the cancel request have none.
abbrev pub type_byte : Frontend → Option ℕ
type_byte (Frontend.startup _ _) = none
type_byte (Frontend.query _) = some b'Q'
type_byte (Frontend.password_message _) = some b'p'
type_byte (Frontend.sasl_initial_response _ _) = some b'p'
type_byte (Frontend.sasl_response _) = some b'p'
type_byte Frontend.terminate = some b'X'
type_byte (Frontend.parse _ _ _) = some b'P'
type_byte (Frontend.bind _ _ _ _ _) = some b'B'
type_byte (Frontend.describe _ _) = some b'D'
type_byte (Frontend.execute _ _) = some b'E'
type_byte (Frontend.close _ _) = some b'C'
type_byte Frontend.sync = some b'S'
type_byte Frontend.flush = some b'H'
type_byte (Frontend.copy_data _) = some b'd'
type_byte Frontend.copy_done = some b'c'
type_byte (Frontend.copy_fail _) = some b'f'
type_byte (Frontend.cancel_request _ _) = none
type_byte (Frontend.function_call _ _) = some b'F'

abbrev Framed : ℕ → Bytes → Type 0
Framed id bs = (body : Bytes) × (bs ≡ id ∷ (u32_be (length body + 4) ++ body))

packet-Framed : {id : ℕ} (body : Bytes) {bs : Bytes} → packet id body ≡ some bs → Framed id bs
packet-Framed body h = (body, packet_lem _ body h)

typed :
    {x id : ℕ} (body : Bytes) {bs : Bytes}
    → some x ≡ some id
    → packet x body ≡ some bs
    → Framed id bs
typed {x} {id} body t h = let same : x ≡ id = cc in rw (sym same) (packet-Framed body h)

bound :
    (o : Option Bytes) (f : Bytes → Option Bytes) {bs : Bytes}
    → o >>= f ≡ some bs
    → (a : Bytes) × (f a ≡ some bs)
bound none f h = cc
bound (some a) f h = (a, h)

encode-Framed :
    (m : Frontend) {id : ℕ} {bs : Bytes} → type_byte m ≡ some id → encode m ≡ some bs → Framed id bs
unfolding encode
encode-Framed (Frontend.startup _ _) t h = cc
encode-Framed (Frontend.cancel_request _ _) t h = cc
encode-Framed (Frontend.parse name q types) t h =
    let (_, h') = bound (count16 (length types)) _ h in typed _ t h'
encode-Framed (Frontend.bind p s f v r) t h =
    let (_, h') = bound (bind_body p s f v r) _ h in typed _ t h'
encode-Framed (Frontend.function_call fnid args) t h =
    let (_, h') = bound (function_call_body fnid args) _ h in typed _ t h'
encode-Framed (Frontend.describe target name) t h = typed (target_byte target ∷ cstring name) t h
encode-Framed (Frontend.close target name) t h = typed (target_byte target ∷ cstring name) t h
encode-Framed Frontend.terminate t h = typed [] t h
encode-Framed Frontend.sync t h = typed [] t h
encode-Framed Frontend.flush t h = typed [] t h
encode-Framed Frontend.copy_done t h = typed [] t h
encode-Framed _ t h = typed _ t h

-- A message that the client writes, other than the startup packet and the cancel request, and that is
-- shorter than 2^31 bytes: followed by anything, it is cut off exactly by a reader of length words,
-- under its type byte.
pub encode-next_copy_frame :
    (m : Frontend) (id : ℕ) (bs rest : Bytes)
    → type_byte m ≡ some id
    → encode m ≡ some bs
    → length bs < 2 ^ 31
    → next_copy_frame (bs ++ rest) ≡ Frame.message id 5 (length bs)
encode-next_copy_frame m id bs rest t h l =
    let (body, whole) = encode-Framed m t h in
    let size : length bs ≡ length body + 5 = ap length whole ∙ omega arith in
    let here =
      next_copy_frame-header id (length body + 4) (body ++ rest) (omega arith)
        (omega (arith, size, l)) in
    rw size (
      ap (λ xs. next_copy_frame (xs ++ rest)) whole
      ∙ here
      ∙ ground (arith, length-append body rest))
