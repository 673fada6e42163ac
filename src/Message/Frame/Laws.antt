-- ===== src/Message/Frame/Laws.antt =====
-- What cutting a message off the buffer owes a stream that arrives in pieces.
use pgrust_drop.Prelude.{
  ℕ, zero, suc, ◌+◌, ◌/◌, ◌%◌, ◌^◌, ◌≤◌, ◌<◌, true, [], ◌∷◌, ◌++◌, some, ◌≡◌, ◌≢◌, refl, ◌∙◌, arith,
  ◌⊎◌, length, length-append, length-take, take, Bytes,
}
use pgrust_drop.Prelude.Int.{pos, to_signed}
use pgrust_drop.Message.Reader.{be32}
use pgrust_drop.Message.Frame.{
  next_copy_frame, Frame, next_frame, valid_long_message_type, long_message_threshold, frame_body,
}
use pgrust_drop.Message.Frontend.{packet, u32_be}

-- When a frame has been cut off the buffer, or the stream found broken, more bytes change nothing.
pub next_frame_stable :
    (buf more : Bytes)
    → next_frame buf ≢ Frame.incomplete
    → next_frame (buf ++ more) ≡ next_frame buf
unfolding next_frame
next_frame_stable (id ∷ a ∷ b ∷ c ∷ d ∷ rest) more h = ground (arith, length-append rest more)
next_frame_stable [] more h = absurd (h refl)
next_frame_stable (_ ∷ []) more h = absurd (h refl)
next_frame_stable (_ ∷ _ ∷ []) more h = absurd (h refl)
next_frame_stable (_ ∷ _ ∷ _ ∷ []) more h = absurd (h refl)
next_frame_stable (_ ∷ _ ∷ _ ∷ _ ∷ []) more h = absurd (h refl)

-- A message's body lies in the buffer, behind the five bytes of its header.
pub next_frame_range :
    (buf : Bytes) {id from to : ℕ}
    → next_frame buf ≡ Frame.message id from to
    → (from ≡ 5) × (5 ≤ to) × (to ≤ length buf)
unfolding next_frame
next_frame_range (id ∷ a ∷ b ∷ c ∷ d ∷ rest) h = ground arith
next_frame_range [] h = cc
next_frame_range (_ ∷ []) h = cc
next_frame_range (_ ∷ _ ∷ []) h = cc
next_frame_range (_ ∷ _ ∷ _ ∷ []) h = cc
next_frame_range (_ ∷ _ ∷ _ ∷ _ ∷ []) h = cc

-- The length word of a message that fits an `i32` is read back.
length_word_read :
    (n : ℕ)
    → n < 2 ^ 31
    → to_signed (2 ^ 31) (be32 (n / 16777216 % 256) (n / 65536 % 256) (n / 256 % 256) (n % 256))
      ≡ pos n
length_word_read n h = ground arith

pub packet_lem :
    (id : ℕ) (body : Bytes) {bs : Bytes}
    → packet id body ≡ some bs
    → bs ≡ id ∷ (u32_be (length body + 4) ++ body)
unfolding packet
packet_lem id body e = ground arith

-- The messages whose length the reader believes.
abbrev pub Believed : ℕ → ℕ → Type 0
Believed id len =
    (len < 2 ^ 31) × ((len ≤ long_message_threshold) ⊎ (valid_long_message_type id ≡ true))

pub next_frame-header :
    (id len : ℕ) (rest : Bytes)
    → 4 ≤ len
    → Believed id len
    → next_frame (id ∷ (u32_be len ++ rest)) ≡ frame_body id len rest
unfolding next_frame
next_frame-header id len rest h (b, k) = rw (length_word_read len b) (ground arith)

-- Behind a length word, whatever the type.
pub next_copy_frame-header :
    (id len : ℕ) (rest : Bytes)
    → 4 ≤ len
    → len < 2 ^ 31
    → next_copy_frame (id ∷ (u32_be len ++ rest)) ≡ frame_body id len rest
unfolding next_copy_frame
next_copy_frame-header id len rest h b = rw (length_word_read len b) (ground arith)

prefix_incomplete :
    (id : ℕ) (body : Bytes)
    → Believed id (length body + 4)
    → (n : ℕ) → n < length (id ∷ (u32_be (length body + 4) ++ body))
    → next_frame (take n (id ∷ (u32_be (length body + 4) ++ body))) ≡ Frame.incomplete
prefix_incomplete id body b zero h = unfold next_frame in refl
prefix_incomplete id body b (suc zero) h = unfold next_frame in refl
prefix_incomplete id body b (suc (suc zero)) h = unfold next_frame in refl
prefix_incomplete id body b (suc (suc (suc zero))) h = unfold next_frame in refl
prefix_incomplete id body b (suc (suc (suc (suc zero)))) h = unfold next_frame in refl
prefix_incomplete id body b (suc (suc (suc (suc (suc n))))) h =
    next_frame-header id (length body + 4) (take n body) (omega arith) b
    ∙ ground (arith, length-take n body (omega arith))

-- A message as `packet` writes it, whose length word fits an `i32` and is within the threshold for
-- long messages unless its type may be long: followed by anything, it is cut off exactly; from any
-- shorter part of it no frame is cut and no loss of synchronization is seen.
pub next_frame-packet :
    (id : ℕ) (body : Bytes) {bs : Bytes}
    → packet id body ≡ some bs
    → Believed id (length body + 4)
    → ((rest : Bytes) → next_frame (bs ++ rest) ≡ Frame.message id 5 (5 + length body))
      × ((n : ℕ) → n < length bs → next_frame (take n bs) ≡ Frame.incomplete)
next_frame-packet id body e b = rw (packet_lem id body e) (
  (λ rest.
      next_frame-header id (length body + 4) (body ++ rest) (omega arith) b
      ∙ ground (arith, length-append body rest)),
  prefix_incomplete id body b,
)
