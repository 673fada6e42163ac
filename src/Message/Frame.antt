-- ===== src/Message/Frame.antt =====
-- crates/rlibpq/src/message.rs: `next_frame` and `next_copy_frame`, which cut the next message off
-- the input buffer.
pub mod Laws
use pgrust_drop.Prelude.{
  ℕ, ◌+◌, ◌-◌, ◌^◌, Bool, not, ◌&&◌, ◌||◌, ◌∷◌, ltb, ◌==◌, if◌then◌else◌, length, Bytes,
}
use pgrust_drop.Prelude.Int.{ℤ, pos, negsuc, to_signed}
use pgrust_drop.Message.Reader.{be32}

abbrev pub long_message_threshold : ℕ
long_message_threshold = 30000

-- `valid_long_message_type`.
unfoldable pub valid_long_message_type : ℕ → Bool
valid_long_message_type id =
    id == b'd'
    || id == b'D'
    || id == b'E'
    || id == b'V'
    || id == b'N'
    || id == b'A'
    || id == b'T'
    || id == b't'

-- `enum Frame`; the body's range is its first index and the index behind it.
pub data Frame : Type 0 where
  incomplete : Frame
  sync_loss : ℕ → ℤ → Frame
  message : ℕ → ℕ → ℕ → Frame

-- Behind the checks of the length word: is the body there?
abbrev pub frame_body : ℕ → ℕ → Bytes → Frame
frame_body id len rest =
    if ltb (length rest) (len - 4) then Frame.incomplete else Frame.message id 5 (5 + (len - 4))

abbrev next_frame_at : ℕ → ℤ → Bytes → Frame
next_frame_at id (negsuc n) rest = Frame.sync_loss id (negsuc n)
next_frame_at id (pos len) rest =
    if ltb len 4
    then Frame.sync_loss id (pos len)
    else if ltb long_message_threshold len && not (valid_long_message_type id)
    then Frame.sync_loss id (pos len)
    else frame_body id len rest

-- `next_frame`: the five bytes of a header and what follows them.
unfoldable pub next_frame : Bytes → Frame
next_frame (id ∷ a ∷ b ∷ c ∷ d ∷ rest) = next_frame_at id (to_signed (2 ^ 31) (be32 a b c d)) rest
next_frame _ = Frame.incomplete

abbrev next_copy_frame_at : ℕ → ℤ → Bytes → Frame
next_copy_frame_at id (negsuc n) rest = Frame.sync_loss id (negsuc n)
next_copy_frame_at id (pos len) rest =
    if ltb len 4 then Frame.sync_loss id (pos len) else frame_body id len rest

-- `next_copy_frame`: the same without the long-message check.
unfoldable pub next_copy_frame : Bytes → Frame
next_copy_frame (id ∷ a ∷ b ∷ c ∷ d ∷ rest) =
    next_copy_frame_at id (to_signed (2 ^ 31) (be32 a b c d)) rest
next_copy_frame _ = Frame.incomplete
