-- ===== src/Chat/Codec.antt =====
-- internal/chat/codec.go: `EncodeFrame` and `DecodeFrame`. A byte is a number below 256; a reader is
-- the bytes that are still to come before its end.
pub mod Roundtrip
pub mod Ends
use cyandie_backend.Common.{
  ℕ, zero, suc, ◌+◌, ◌*◌, ◌/◌, ◌%◌, ◌^◌, Option, none, some, List, [], ◌∷◌, ◌++◌, length, take,
  drop, ltb, if◌then◌else◌,
}

-- `HeadLen`
abbrev pub head_len : ℕ
head_len = 6

-- `1<<20`
abbrev pub max_frame : ℕ
max_frame = 1048576

pub record Frame : Type 0 where
  pub frame_type : ℕ  -- uint16
  pub frame_length : ℕ  -- uint32
  pub value : List ℕ

-- `binary.BigEndian.PutUint16` and `PutUint32`, with the conversions to `byte`.
unfoldable pub put_uint16 : ℕ → List ℕ
put_uint16 v = v / 256 % 256 ∷ v % 256 ∷ []

unfoldable pub put_uint32 : ℕ → List ℕ
put_uint32 v = v / 16777216 % 256 ∷ v / 65536 % 256 ∷ v / 256 % 256 ∷ v % 256 ∷ []

-- `EncodeFrame`: the length is the value's, as a `uint32`; the field `Length` is not read.
unfoldable pub encode_frame : Frame → List ℕ
unfolding put_uint16 put_uint32
encode_frame f = put_uint16 f.frame_type ++ (put_uint32 (length f.value % 4294967296) ++ f.value)

pub data DecodeError : Type 0 where
  read_header : DecodeError
  frame_too_large : ℕ → DecodeError
  read_value : DecodeError

-- The result of `DecodeFrame`, and the reader after it.
pub data Decoded : Type 0 where
  frame : Frame → List ℕ → Decoded
  error : DecodeError → Decoded

-- `binary.BigEndian.Uint16` and `Uint32` of the header.
abbrev pub uint16 : ℕ → ℕ → ℕ
uint16 a b = a * 256 + b

abbrev pub uint32 : ℕ → ℕ → ℕ → ℕ → ℕ
uint32 a b c d = a * 16777216 + b * 65536 + c * 256 + d

-- The value: `io.ReadFull` fails on a reader that ends too early.
unfoldable pub decode_value : ℕ → ℕ → List ℕ → Decoded
decode_value frame_type frame_length r =
    if ltb max_frame frame_length
    then error (frame_too_large frame_length)
    else if ltb (length r) frame_length
    then error read_value
    else frame
        (record {
          frame_type = frame_type;
          frame_length = frame_length;
          value = take frame_length r;
        })
        (drop frame_length r)

-- `DecodeFrame`
unfoldable pub decode_frame : List ℕ → Decoded
unfolding decode_value
decode_frame (t₁ ∷ t₂ ∷ l₁ ∷ l₂ ∷ l₃ ∷ l₄ ∷ r) = decode_value (uint16 t₁ t₂) (uint32 l₁ l₂ l₃ l₄) r
decode_frame r = error read_header

-- The frames that a reader yields up to the first error, as the loop of `readLoop` takes them. Each
-- frame takes at least the header's bytes, so the reader's length is enough fuel.
unfoldable pub decode_frames : ℕ → List ℕ → List Frame × Option DecodeError
decode_frames zero r = ([], none)
decode_frames (suc fuel) r = elim (decode_frame r) [
  | frame f rest ↦ (let (fs, e) = decode_frames fuel rest in (f ∷ fs, e))
  | error e ↦ ([], some e)
]
