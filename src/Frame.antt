-- ===== src/Frame.antt =====
-- internal/tunnel/protocol.go: the data frame, a 32-bit big-endian sequence number before the
-- payload. A byte is a number below 256.
pub mod Tests
use mqtt_forward.Prelude.{
  length, All, Text, Result, ok, err, ℕ, ◌+◌, ◌*◌, ◌/◌, ◌%◌, ◌^◌, ◌<◌, ◌≡◌, refl, ◌⊎◌, inl, inr, [],
  ◌∷◌, ◌++◌, arith,
}

abbrev pub data_header_size : ℕ
data_header_size = 4

abbrev pub max_payload_size : ℕ
max_payload_size = 64 * 1024

-- `binary.BigEndian.PutUint32`.
unfoldable pub put_uint32 : ℕ → Text
put_uint32 v = (v / 2 ^ 24 % 256) ∷ (v / 2 ^ 16 % 256) ∷ (v / 2 ^ 8 % 256) ∷ (v % 256) ∷ []

-- `binary.BigEndian.Uint32`, of four bytes.
unfoldable pub uint32 : ℕ → ℕ → ℕ → ℕ → ℕ
uint32 a b c d = a * 2 ^ 24 + b * 2 ^ 16 + c * 2 ^ 8 + d

unfoldable pub encode_data_frame : ℕ → Text → Text
unfolding put_uint32
encode_data_frame seq payload = put_uint32 seq ++ payload

pub data FrameError : Type 0 where
  frame_too_short : FrameError

unfoldable pub decode_data_frame : Text → Result FrameError (ℕ × Text)
unfolding uint32
decode_data_frame [] = err frame_too_short
decode_data_frame (_ ∷ []) = err frame_too_short
decode_data_frame (_ ∷ _ ∷ []) = err frame_too_short
decode_data_frame (_ ∷ _ ∷ _ ∷ []) = err frame_too_short
decode_data_frame (a ∷ b ∷ c ∷ d ∷ payload) = ok (uint32 a b c d, payload)

-- Decoding undoes encoding, for every sequence number of 32 bits and every payload.
pub decode-encode :
    (seq : ℕ) (payload : Text)
    → seq < 2 ^ 32
    → decode_data_frame (encode_data_frame seq payload) ≡ ok (seq, payload)
unfolding decode_data_frame encode_data_frame
decode-encode seq payload h = ground arith

-- A frame of bytes that decodes is the encoding of what it decodes to, with a 32-bit number; a
-- frame fails to decode exactly when it is shorter than the header.
pub decode_data_frame_sound :
    (frame : Text)
    → All (λ b. b < 256) frame
    → ((seq : ℕ) × (payload : Text) × (decode_data_frame frame ≡ ok (seq, payload))
        × (encode_data_frame seq payload ≡ frame)
        × (seq < 2 ^ 32))
      ⊎ ((decode_data_frame frame ≡ err frame_too_short) × (length frame < data_header_size))
unfolding decode_data_frame encode_data_frame
decode_data_frame_sound [] h = inr (refl, omega arith)
decode_data_frame_sound (_ ∷ []) h = inr (refl, omega arith)
decode_data_frame_sound (_ ∷ _ ∷ []) h = inr (refl, omega arith)
decode_data_frame_sound (_ ∷ _ ∷ _ ∷ []) h = inr (refl, omega arith)
decode_data_frame_sound (a ∷ b ∷ c ∷ d ∷ payload) h =
    inl (uint32 a b c d, payload, refl, ground arith, omega arith)
