-- ===== src/Recognition/Wav/Frames.antt =====
-- src/services/audio-recognition/wav.js: the samples of a WAV file. What the engine does with
-- floating-point numbers is a parameter. The loop that reads the file is on fuel.
use hernan_pedraza_pi_back.Prelude.{
  ℕ, zero, suc, ◌+◌, ◌-◌, ◌*◌, ◌/◌, ◌%◌, ◌^◌, min, List, [], ◌∷◌, ◌++◌, ltb, ◌==◌, length,
  if◌then◌else◌,
}
use hernan_pedraza_pi_back.Recognition.Wav.{
  Run, returned, threw, unfinished, ◌>>=◌, Format, read_at, read_u8, parse_wav_header,
}
use hernan_pedraza_pi_back.Recognition.Thresholds.{ℤ, pos, negsuc}

-- The engine's numbers, as the decoder uses them.
pub record Numbers (F : Type 0) : Type 0 where
  pub nought : F
  -- An integer over a power of two.
  pub over : ℤ → ℕ → F
  pub add : F → F → F
  pub divide : F → ℕ → F
  -- readFloatLE and readDoubleLE, on the bytes they read.
  pub float_le : List ℕ → F
  pub double_le : List ℕ → F
  -- a + (b - a) * (num / den)
  pub mix : F → F → ℕ → ℕ → F

-- A number below 2 ^ w in two's complement.
abbrev pub twos_complement : ℕ → ℕ → ℤ
twos_complement w n = if ltb n (2 ^ (w - 1)) then pos n else negsuc (2 ^ w - n - 1)

-- A number of bytes, the lowest first.
abbrev pub little_endian : List ℕ → ℕ
little_endian [] = 0
little_endian (b ∷ bytes) = b + 256 * little_endian bytes

-- A reading method of Buffer throws when a byte lies outside. readInt24LE, which would read such a
-- byte as zero, is treated alike.
abbrev pub bytes_at : List ℕ → ℕ → ℕ → Run (List ℕ)
bytes_at buffer off zero = returned []
bytes_at buffer off (suc n) = do
  b ← read_u8 buffer off
  rest ← bytes_at buffer (off + 1) n
  returned (b ∷ rest)

-- A byte less 128.
abbrev centred : ℕ → ℤ
centred n = if ltb n 128 then negsuc (127 - n) else pos (n - 128)

abbrev pub frame_size : Format → ℕ
frame_size fmt = fmt.bits / 8 * fmt.channels

module _ {F : Type 0} (nums : Numbers F) where
  abbrev pub read_sample : List ℕ → ℕ → ℕ → (List ℕ → F) → Run F
  read_sample buffer off n decode = bytes_at buffer off n >>= λ bytes. returned (decode bytes)

  -- sample, with readInt24LE in it.
  unfoldable pub sample : Format → List ℕ → ℕ → Run F
  sample fmt buffer off =
      if fmt.format == 3
      then (if fmt.bits == 32
          then read_sample buffer off 4 nums.float_le
          else if fmt.bits == 64
          then read_sample buffer off 8 nums.double_le
          else threw)
      else if fmt.format == 1
      then (if fmt.bits == 8
          then read_sample buffer off 1 (λ bytes. nums.over (centred (little_endian bytes)) 128)
          else if fmt.bits == 16
          then read_sample buffer off 2
              (λ bytes. nums.over (twos_complement 16 (little_endian bytes)) 32768)
          else if fmt.bits == 24
          then read_sample buffer off 3
              (λ bytes. nums.over (twos_complement 24 (little_endian bytes)) 8388608)
          else if fmt.bits == 32
          then read_sample buffer off 4
              (λ bytes. nums.over (twos_complement 32 (little_endian bytes)) 2147483648)
          else threw)
      else threw

  -- The loop over the channels that are left, with the sum so far.
  unfoldable pub sum_channels : Format → List ℕ → ℕ → ℕ → F → Run F
  unfolding sample
  sum_channels fmt buffer off zero sum = returned sum
  sum_channels fmt buffer off (suc n) sum = do
    x ← sample fmt buffer off
    sum_channels fmt buffer (off + fmt.bits / 8) n (nums.add sum x)

  -- The frame at an offset.
  unfoldable pub decode_frame : Format → List ℕ → ℕ → Run F
  unfolding sum_channels
  decode_frame fmt buffer off = do
    sum ← sum_channels fmt buffer off fmt.channels nums.nought
    returned (nums.divide sum fmt.channels)

  -- The loop over `n` frames from an offset on.
  unfoldable pub decode_frames : Format → List ℕ → ℕ → ℕ → Run (List F)
  unfolding decode_frame
  decode_frames fmt buffer zero off = returned []
  decode_frames fmt buffer (suc n) off = do
    x ← decode_frame fmt buffer off
    xs ← decode_frames fmt buffer n (off + frame_size fmt)
    returned (x ∷ xs)

  -- Without a frame size, an array of no length or of an infinite one is asked for.
  unfoldable pub decode_pcm : List ℕ → Format → Run (List F)
  unfolding decode_frames
  decode_pcm buffer fmt =
      if frame_size fmt == 0
      then (if length buffer == 0 then returned [] else threw)
      else decode_frames fmt buffer (length buffer / frame_size fmt) 0

  -- The loop of readWavNormalized. The samples decoded from here on are returned; the offset of the
  -- first of them in `decodedSamples` is `decoded_offset`.
  unfoldable pub read_frames : ℕ → List ℕ → Format → ℕ → ℕ → ℕ → Run (List F)
  unfolding decode_pcm
  read_frames zero file fmt total_frames decoded_offset offset = unfinished
  read_frames (suc fuel) file fmt total_frames decoded_offset offset =
      if ltb decoded_offset total_frames
      then (let bytes_to_read = min 65536 ((total_frames - decoded_offset) * frame_size fmt) in
          decode_pcm (read_at file bytes_to_read offset) fmt >>= λ chunk_decoded.
          read_frames fuel file fmt total_frames (decoded_offset + length chunk_decoded)
            (offset + bytes_to_read)
          >>= λ rest. returned (chunk_decoded ++ rest))
      else returned []

  abbrev value_at : List F → ℕ → F
  value_at [] i = nums.nought
  value_at (x ∷ xs) zero = x
  value_at (x ∷ xs) (suc i) = value_at xs i

  -- The sample between two of the input, at `source / to_rate` of them from the start.
  abbrev interpolate : List F → ℕ → ℕ → F
  interpolate input source to_rate =
      let index = source / to_rate in
      let a = value_at input index in
      let b = if ltb (index + 1) (length input) then value_at input (index + 1) else a in
      nums.mix a b (source % to_rate) to_rate

  abbrev resampled_from : List F → ℕ → ℕ → ℕ → ℕ → List F
  resampled_from input from_rate to_rate zero i = []
  resampled_from input from_rate to_rate (suc n) i =
      interpolate input (i * from_rate) to_rate ∷ resampled_from input from_rate to_rate n (i + 1)

  -- resampleLinear, its ratio taken exactly. Math.round of a / b is (2a + b) / 2b.
  unfoldable pub resample_linear : List F → ℕ → ℕ → Run (List F)
  resample_linear input from_rate to_rate =
      if length input == 0
      then returned input
      else if from_rate == to_rate
      then returned input
      else if from_rate == 0
      then threw
      else returned (
          resampled_from input from_rate to_rate
            ((2 * (length input * to_rate) + from_rate) / (2 * from_rate)) 0)

  -- readWavNormalized. A file without a frame size asks for an array of infinite length.
  unfoldable pub read_wav_normalized : ℕ → ℕ → List ℕ → ℕ → Run (List F)
  unfolding read_frames resample_linear
  read_wav_normalized header_fuel fuel file target_sample_rate = do
    h ← parse_wav_header header_fuel file
    decoded ←
        (if frame_size h.fmt == 0
          then threw
          else read_frames fuel file h.fmt (h.data_size / frame_size h.fmt) 0 h.data_offset)
    resample_linear decoded h.fmt.sample_rate target_sample_rate
