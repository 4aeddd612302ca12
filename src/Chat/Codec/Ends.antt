-- ===== src/Chat/Codec/Ends.antt =====
-- The loop over `DecodeFrame` in internal/chat/server.go ends, whatever the bytes are.
use cyandie_backend.Common.{
  ℕ, zero, suc, ◌+◌, ◌≤◌, ◌<◌, Option, some, List, [], ◌∷◌, ◌≡◌, refl, sym, ap, ◌∙◌, arith, ltb,
  length, take, drop, Bool-cases, ◌⊎◌, inl, inr,
}
use cyandie_backend.Chat.Codec.{
  Frame, Decoded, frame, error, DecodeError, read_header, frame_too_large, read_value, max_frame,
  uint16, uint32, decode_value, decode_frame, decode_frames,
}

drop_shorter {ℓ} : {A : Type ℓ} (n : ℕ) (xs : List A) → length (drop n xs) ≤ length xs
drop_shorter zero xs = omega arith
drop_shorter (suc n) [] = omega arith
drop_shorter (suc n) (x ∷ xs) = let rest = drop_shorter n xs in omega arith

-- An error, or a frame and a shorter reader.
abbrev Progress : List ℕ → Decoded → Type 0
Progress r d =
    ((e : DecodeError) × (d ≡ error e))
    ⊎ ((f : Frame) × (rest : List ℕ) × (d ≡ frame f rest) × (length rest < length r))

decode_value-Progress :
    (t l a b c d e f : ℕ) (r : List ℕ) → Progress (a ∷ b ∷ c ∷ d ∷ e ∷ f ∷ r) (decode_value t l r)
unfolding decode_value
decode_value-Progress t l a b c d e f r = elim (Bool-cases (ltb max_frame l)) [
  | inl large ↦ inl (frame_too_large l, rw large refl)
  | inr fits ↦ elim (Bool-cases (ltb (length r) l)) [
    | inl short ↦ inl (read_value, rw (fits, short) refl)
    | inr enough ↦
        let shorter = drop_shorter l r in
        inr (
          record { frame_type = t; frame_length = l; value = take l r },
          drop l r,
          rw (fits, enough) refl,
          omega arith,
        )
  ]
]

decode_frame-Progress : (r : List ℕ) → Progress r (decode_frame r)
unfolding decode_frame
decode_frame-Progress [] = inl (read_header, refl)
decode_frame-Progress (a ∷ []) = inl (read_header, refl)
decode_frame-Progress (a ∷ b ∷ []) = inl (read_header, refl)
decode_frame-Progress (a ∷ b ∷ c ∷ []) = inl (read_header, refl)
decode_frame-Progress (a ∷ b ∷ c ∷ d ∷ []) = inl (read_header, refl)
decode_frame-Progress (a ∷ b ∷ c ∷ d ∷ e ∷ []) = inl (read_header, refl)
decode_frame-Progress (a ∷ b ∷ c ∷ d ∷ e ∷ f ∷ r) =
    decode_value-Progress (uint16 a b) (uint32 c d e f) a b c d e f r

decode_frames-error :
    (fuel : ℕ) (r : List ℕ) (e : DecodeError)
    → decode_frame r ≡ error e
    → decode_frames (suc fuel) r ≡ ([], some e)
unfolding decode_frames
decode_frames-error fuel r e h = rw (h, decode_frames) refl

decode_frames-frame :
    (fuel : ℕ) (r rest : List ℕ) (f : Frame)
    → decode_frame r ≡ frame f rest
    → decode_frames (suc fuel) r ≡ (f ∷ (decode_frames fuel rest).0, (decode_frames fuel rest).1)
unfolding decode_frames
decode_frames-frame fuel r rest f h = rw (h, decode_frames) refl

-- With more fuel than the reader has bytes, the loop ends with an error of `DecodeFrame`, and still more fuel
-- gives the same frames and the same error.
pub decode_frames_ends :
    (fuel more : ℕ) (r : List ℕ)
    → length r < fuel
    → ((e : DecodeError) × ((decode_frames fuel r).1 ≡ some e))
      × (decode_frames (fuel + more) r ≡ decode_frames fuel r)
decode_frames_ends zero more r enough = absurd (omega arith)
decode_frames_ends (suc fuel) more r enough =
    let next : suc fuel + more ≡ suc (fuel + more) = omega arith in
    elim (decode_frame-Progress r) [
      | inl (e, stopped) ↦ (
        (e, ap (λ d. d.1) (decode_frames-error fuel r e stopped)),
        ap (λ n. decode_frames n r) next
            ∙ decode_frames-error (fuel + more) r e stopped
            ∙ sym (decode_frames-error fuel r e stopped),
      )
      | inr (f, rest, taken, shorter) ↦
          let ((e, ended), same) = decode_frames_ends fuel more rest (omega arith) in
          (
            (e, ap (λ d. d.1) (decode_frames-frame fuel r rest f taken) ∙ ended),
            ap (λ n. decode_frames n r) next
                ∙ decode_frames-frame (fuel + more) r rest f taken
                ∙ ap (λ (d : List Frame × Option DecodeError). (f ∷ d.0, d.1)) same
                ∙ sym (decode_frames-frame fuel r rest f taken),
          )
    ]
