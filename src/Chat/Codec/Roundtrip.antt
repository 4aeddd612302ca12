-- ===== src/Chat/Codec/Roundtrip.antt =====
-- The frames of internal/chat/codec.go: writing and reading them are inverse to one another.
use cyandie_backend.Common.{
  ℕ, zero, suc, ◌+◌, ◌/◌, ◌%◌, ◌≤◌, ◌<◌, some, List, [], ◌∷◌, ◌++◌, ◌≡◌, refl, ap, ◌∙◌, length,
  take, drop, take-append, drop-append, take-append-drop, length-take, length-append, arith, All,
  flat_map, map,
}
use cyandie_backend.Chat.Codec.{
  Frame, uint16, uint32, encode_frame, put_uint16, put_uint32, frame, error, read_header,
  frame_too_large, decode_value, decode_frame, decode_frames, max_frame,
}

abbrev pub IsByte : ℕ → Type 0
IsByte b = b < 256

-- What `DecodeFrame` gives back of a frame: `Length` is set from the value.
abbrev pub sized : Frame → Frame
sized f = record f { frame_length = length f.value }

decode_value-append :
    (t : ℕ) (v rest : List ℕ)
    → length v ≤ max_frame
    → decode_value t (length v) (v ++ rest)
      ≡ frame (record { frame_type = t; frame_length = length v; value = v }) rest
unfolding decode_value
decode_value-append t v rest h =
    ground (arith, length-append v rest, take-append v rest, drop-append v rest)

uint16_bytes : (t : ℕ) → t < 65536 → uint16 (t / 256 % 256) (t % 256) ≡ t
uint16_bytes t h = omega arith

uint32_bytes :
    (n : ℕ)
    → n ≤ max_frame
    → uint32
        (n % 4294967296 / 16777216 % 256)
        (n % 4294967296 / 65536 % 256)
        (n % 4294967296 / 256 % 256)
        (n % 4294967296 % 256)
      ≡ n
uint32_bytes n h = omega arith

-- A frame with a 16-bit type and a value of at most 1 MiB is read back as it was written, `Length`
-- being set, and the bytes behind it are left.
pub decode-encode :
    (f : Frame) (rest : List ℕ)
    → f.frame_type < 65536
    → length f.value ≤ max_frame
    → decode_frame (encode_frame f ++ rest) ≡ frame (sized f) rest
unfolding decode_frame encode_frame put_uint16 put_uint32
decode-encode f rest t h =
    rw (uint16_bytes f.frame_type t, uint32_bytes (length f.value) h)
      (decode_value-append f.frame_type f.value rest h)

-- A value over 1 MiB, and under the 4 GiB of its length field, is written, and then refused by the reader.
pub decode-encode_large :
    (f : Frame) (rest : List ℕ)
    → max_frame < length f.value
    → length f.value < 4294967296
    → decode_frame (encode_frame f ++ rest) ≡ error (frame_too_large (length f.value))
unfolding decode_frame encode_frame
decode-encode_large f rest h k = rw (large_bytes (length f.value) k) (ground arith)
  where
    large_bytes :
        (n : ℕ)
        → n < 4294967296
        → uint32
            (n % 4294967296 / 16777216 % 256)
            (n % 4294967296 / 65536 % 256)
            (n % 4294967296 / 256 % 256)
            (n % 4294967296 % 256)
          ≡ n
    large_bytes n h = omega arith

-- What a frame that was read stands for.
pub record IsFaithful (r : List ℕ) (f : Frame) (rest : List ℕ) : Type 0 where
  pub type_fits : f.frame_type < 65536
  pub value_fits : f.frame_length ≤ max_frame
  pub value_sized : length f.value ≡ f.frame_length
  pub bytes_kept : encode_frame f ++ rest ≡ r

decode_value-eq-frame :
    (t n : ℕ) (r : List ℕ) (f : Frame) (rest : List ℕ)
    → decode_value t n r ≡ frame f rest
    → (f ≡ record { frame_type = t; frame_length = n; value = take n r })
      × (rest ≡ drop n r)
      × (n ≤ length r)
      × (n ≤ max_frame)
unfolding decode_value
decode_value-eq-frame t n r f rest h = (ground arith, ground arith, ground arith, ground arith)

header_bytes :
    (t₁ t₂ l₁ l₂ l₃ l₄ n : ℕ) (v : List ℕ)
    → All IsByte (t₁ ∷ t₂ ∷ l₁ ∷ l₂ ∷ l₃ ∷ l₄ ∷ [])
    → length v ≡ uint32 l₁ l₂ l₃ l₄
    → encode_frame (record { frame_type = uint16 t₁ t₂; frame_length = n; value = v })
      ≡ t₁ ∷ t₂ ∷ l₁ ∷ l₂ ∷ l₃ ∷ l₄ ∷ v
unfolding encode_frame
header_bytes t₁ t₂ l₁ l₂ l₃ l₄ n v bytes e = ground (arith, e)

-- Every frame that `DecodeFrame` returns has a 16-bit type and a value of its length, of 1 MiB at most,
-- and writing it again gives exactly the bytes that were taken from the reader.
pub decode_frame-IsFaithful :
    (r : List ℕ) (f : Frame) (rest : List ℕ)
    → All IsByte r
    → decode_frame r ≡ frame f rest
    → IsFaithful r f rest
unfolding decode_frame encode_frame
decode_frame-IsFaithful (t₁ ∷ t₂ ∷ l₁ ∷ l₂ ∷ l₃ ∷ l₄ ∷ r) f rest bytes h =
    let (ef, er, fits, small) =
      decode_value-eq-frame (uint16 t₁ t₂) (uint32 l₁ l₂ l₃ l₄) r f rest h in
    let n = uint32 l₁ l₂ l₃ l₄ in
    let len = length-take n r fits in
    rw (ef, er)
      (record {
        type_fits = omega arith;
        value_fits = small;
        value_sized = len;
        bytes_kept =
            ap (λ xs. xs ++ drop n r)
              (header_bytes t₁ t₂ l₁ l₂ l₃ l₄ n (take n r) (omega arith) len)
            ∙ ap (λ xs. t₁ ∷ t₂ ∷ l₁ ∷ l₂ ∷ l₃ ∷ l₄ ∷ xs) (take-append-drop n r);
      })
decode_frame-IsFaithful _ f rest bytes h = cc

decode_frames_step :
    (fuel : ℕ) (r rest : List ℕ) (f : Frame)
    → decode_frame r ≡ frame f rest
    → decode_frames (suc fuel) r ≡ (f ∷ (decode_frames fuel rest).0, (decode_frames fuel rest).1)
unfolding decode_frames
decode_frames_step fuel r rest f e = rw (e, decode_frames)

length-encode_frame : (f : Frame) → length (encode_frame f) ≡ 6 + length f.value
unfolding encode_frame
length-encode_frame f = omega arith

-- A sequence of frames, written one after the other, is read as that sequence; the reader ends at the
-- first byte that is missing.
pub decode_frames-encode :
    (fs : List Frame) (fuel : ℕ)
    → All (λ f. f.frame_type < 65536) fs
    → All (λ f. length f.value ≤ max_frame) fs
    → length (flat_map encode_frame fs) < fuel
    → decode_frames fuel (flat_map encode_frame fs) ≡ (map sized fs, some read_header)
unfolding decode_frames decode_frame
decode_frames-encode [] zero t v h = absurd (omega arith)
decode_frames-encode [] (suc fuel) t v h = refl
decode_frames-encode (f ∷ fs) zero t v h = absurd (omega arith)
decode_frames-encode (f ∷ fs) (suc fuel) t v h =
    let rest = flat_map encode_frame fs in
    let short : length rest < fuel =
      omega (arith, length-append (encode_frame f) rest, length-encode_frame f) in
    decode_frames_step fuel (encode_frame f ++ rest) rest (sized f) (decode-encode f rest t.0 v.0)
    ∙ rw (decode_frames-encode fs fuel t.1 v.1 short)
