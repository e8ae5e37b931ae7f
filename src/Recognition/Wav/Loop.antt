-- ===== src/Recognition/Wav/Loop.antt =====
-- src/services/audio-recognition/wav.js: when the loop that reads a file in chunks of 65536 bytes
-- ends.
use hernan_pedraza_pi_back.Prelude.{
  ℕ, zero, suc, ◌+◌, ◌-◌, ◌*◌, ◌/◌, ◌≤◌, ◌<◌, min, Bool, true, false, List, [], ltb, ◌==◌, length,
  if◌then◌else◌, if_elim, ◌≡◌, refl, ap, ◌∙◌, inl, inr, Bool-cases, arith,
}
use native.Mathlib.Nat.{le-div_iff_mul-le, div-eq_of_lt, mul-le-mul_right, one-mul}
use hernan_pedraza_pi_back.Recognition.Wav.{Run, returned, unfinished, Format, read_at, read_u8}
use hernan_pedraza_pi_back.Recognition.Wav.Frames.{
  Numbers, frame_size, bytes_at, read_sample, sample, sum_channels, decode_frame, decode_frames,
  decode_pcm, read_frames,
}
use hernan_pedraza_pi_back.Recognition.Wav.Walk.{Ends, Ended, Ends->>=, Ended->>=, Ended-or_throw}
use hernan_pedraza_pi_back.Recognition.Wav.Buffers.{length-fill}

-- A number of samples.
abbrev pub Sized {ℓ} : {A : Type ℓ} → ℕ → List A → Type 0
Sized k xs = length xs ≡ k

module _ {F : Type 0} (nums : Numbers F) (fmt : Format) (buffer : List ℕ) where
  Ended-bytes_at : (k off : ℕ) → Ended (bytes_at buffer off k)
  Ended-bytes_at zero off = tt
  Ended-bytes_at (suc k) off =
      Ended->>= (read_u8 buffer off) _ (Ended-or_throw _)
        (λ b. Ended->>= (bytes_at buffer (off + 1) k) _ (Ended-bytes_at k (off + 1)) (λ rest. tt))

  Ended-read_sample :
      (k off : ℕ) (decode : List ℕ → F) → Ended (read_sample nums buffer off k decode)
  Ended-read_sample k off decode =
      Ended->>= (bytes_at buffer off k) _ (Ended-bytes_at k off) (λ bytes. tt)

  -- A test of the format decides between two computations that end.
  Ended-if : (b : Bool) (r r' : Run F) → Ended r → Ended r' → Ended (if b then r else r')
  Ended-if b r r' h h' = if_elim Ended b r r' h h'

  Ended-sample : (off : ℕ) → Ended (sample nums fmt buffer off)
  unfolding sample
  Ended-sample off =
      Ended-if (fmt.format == 3) _ _
        (Ended-if (fmt.bits == 32) _ _ (Ended-read_sample 4 off _)
          (Ended-if (fmt.bits == 64) _ _ (Ended-read_sample 8 off _) tt))
        (Ended-if (fmt.format == 1) _ _
          (Ended-if (fmt.bits == 8) _ _ (Ended-read_sample 1 off _) (
            Ended-if (fmt.bits == 16) _ _ (Ended-read_sample 2 off _) (
              Ended-if (fmt.bits == 24) _ _ (Ended-read_sample 3 off _)
                (Ended-if (fmt.bits == 32) _ _ (Ended-read_sample 4 off _) tt))))
          tt)

  Ended-sum_channels : (k off : ℕ) (sum : F) → Ended (sum_channels nums fmt buffer off k sum)
  unfolding sum_channels
  Ended-sum_channels zero off sum = tt
  Ended-sum_channels (suc k) off sum =
      Ended->>= (sample nums fmt buffer off) _ (Ended-sample off)
        (λ x. Ended-sum_channels k (off + fmt.bits / 8) (nums.add sum x))

  Ended-decode_frame : (off : ℕ) → Ended (decode_frame nums fmt buffer off)
  unfolding decode_frame
  Ended-decode_frame off =
      Ended->>= (sum_channels nums fmt buffer off fmt.channels nums.nought) _
        (Ended-sum_channels fmt.channels off nums.nought) (λ sum. tt)

  pub decode_frames-Sized : (k off : ℕ) → Ends (Sized k) (decode_frames nums fmt buffer k off)
  unfolding decode_frames
  decode_frames-Sized zero off = refl
  decode_frames-Sized (suc k) off =
      Ends->>= (λ _. Unit) (Sized (suc k)) (decode_frame nums fmt buffer off) _
        (Ended-decode_frame off)
        (λ x _.
          Ends->>= (Sized k) (Sized (suc k))
            (decode_frames nums fmt buffer k (off + frame_size fmt)) _
            (decode_frames-Sized k (off + frame_size fmt)) (λ xs h. ap suc h))

module _ {F : Type 0} (nums : Numbers F) (fmt : Format) (file : List ℕ) where
  -- With a frame size, a chunk is decoded frame by frame.
  pub decode_pcm_lem :
      (n offset : ℕ)
      → 0 < frame_size fmt
      → decode_pcm nums (read_at file n offset) fmt
        ≡ decode_frames nums fmt (read_at file n offset) (n / frame_size fmt) 0
  unfolding decode_pcm
  decode_pcm_lem n offset h =
      let e : (frame_size fmt == 0) ≡ false = ground arith in
      let l : length (read_at file n offset) ≡ n = length-fill n _ in
      (rw e (ap (λ k. decode_frames nums fmt (read_at file n offset) (k / frame_size fmt) 0) l))

  -- The bytes that the loop asks for when `left` frames are left.
  abbrev pub chunk_bytes : ℕ → ℕ
  chunk_bytes left = min 65536 (left * frame_size fmt)

  some_frame :
      (left : ℕ)
      → 0 < frame_size fmt
      → frame_size fmt ≤ 65536
      → 0 < left
      → 0 < chunk_bytes left / frame_size fmt
  some_frame left h w l =
      let m : 1 * frame_size fmt ≤ left * frame_size fmt = mul-le-mul_right (frame_size fmt) l in
      let n : frame_size fmt ≤ left * frame_size fmt =
        ground (arith, m, one-mul (frame_size fmt)) in
      let o : 1 * frame_size fmt ≤ chunk_bytes left =
        ground (arith, n, w, one-mul (frame_size fmt)) in
      (le-div_iff_mul-le h).1 o

  no_frame : (left : ℕ) → 65536 < frame_size fmt → chunk_bytes left / frame_size fmt ≡ 0
  no_frame left w = div-eq_of_lt (ground arith)

  Ended-read_frames :
      (fuel total done offset : ℕ)
      → 0 < frame_size fmt
      → frame_size fmt ≤ 65536
      → 0 < fuel
      → total < done + fuel
      → Ended (read_frames nums fuel file fmt total done offset)
  unfolding read_frames
  Ended-read_frames zero total done offset h w p q = ground arith
  Ended-read_frames (suc fuel) total done offset h w p q = elim (Bool-cases (ltb done total)) [
    | inl e ↦
        let n : ℕ = chunk_bytes (total - done) in
        let f : 0 < n / frame_size fmt = some_frame (total - done) h w (ground arith) in
        (rw (e, decode_pcm_lem n offset h)
          (Ends->>= (Sized (n / frame_size fmt)) (λ _. Unit)
            (decode_frames nums fmt (read_at file n offset) (n / frame_size fmt) 0) _
            (decode_frames-Sized nums fmt (read_at file n offset) (n / frame_size fmt) 0)
            (λ xs l.
              Ended->>= (read_frames nums fuel file fmt total (done + length xs) (offset + n)) _
                (Ended-read_frames fuel total (done + length xs) (offset + n) h w (ground arith)
                  (ground (arith, l, f)))
                (λ rest. tt))))
    | inr e ↦ (rw e tt)
  ]

  read_frames-unfinished :
      (fuel total done offset : ℕ)
      → 65536 < frame_size fmt
      → done < total
      → read_frames nums fuel file fmt total done offset ≡ unfinished
  unfolding read_frames
  read_frames-unfinished zero total done offset w h = refl
  read_frames-unfinished (suc fuel) total done offset w h =
      let e : ltb done total ≡ true = ground arith in
      let n : ℕ = chunk_bytes (total - done) in
      let step : decode_pcm nums (read_at file n offset) fmt ≡ returned [] =
        (decode_pcm_lem n offset (ground arith)
          ∙ ap (λ k. decode_frames nums fmt (read_at file n offset) k 0)
              (no_frame (total - done) w)) in
      (rw (e, step)
        (rw (read_frames-unfinished fuel total (done + 0) (offset + n) w (ground arith)) refl))

  -- The loop of readWavNormalized over at least one frame. When a frame has between 1 and 65536
  -- bytes, one step more than there are frames is enough for the loop to end, by a throw or with
  -- samples. When a frame has more than 65536 bytes, no number of steps is enough: no chunk holds a
  -- frame, and the loop reads on forever.
  pub read_frames-Ended :
      (total offset : ℕ)
      → 0 < total
      → 0 < frame_size fmt
      → (frame_size fmt ≤ 65536 → Ended (read_frames nums (suc total) file fmt total 0 offset))
        × (65536 < frame_size fmt
            → (fuel : ℕ) → read_frames nums fuel file fmt total 0 offset ≡ unfinished)
  read_frames-Ended total offset t h = (
    (λ w. Ended-read_frames (suc total) total 0 offset h w (ground arith) (ground arith)),
    (λ w fuel. read_frames-unfinished fuel total 0 offset w t),
  )
