-- ===== src/Witnesses/Sounds.antt =====
-- A WAV file of four frames in mono, 16 bits each.
use hernan_pedraza_pi_back.Prelude.{ℕ, ◌*◌, ◌≤◌, ◌<◌, ◌≡◌, refl, List, [], ◌∷◌, ◌++◌, arith}
use hernan_pedraza_pi_back.Recognition.Thresholds.{ℤ, pos, negsuc}
use hernan_pedraza_pi_back.Recognition.Wav.{returned, unfinished, Format, parse_wav_header, read_at}
use hernan_pedraza_pi_back.Recognition.Wav.Frames.{
  Numbers, frame_size, decode_pcm, read_frames, read_wav_normalized,
}
use hernan_pedraza_pi_back.Recognition.Wav.Walk.{Ends, Ended, Located, parse_wav_header-Located}
use hernan_pedraza_pi_back.Recognition.Wav.Loop.{read_frames-Ended}
use hernan_pedraza_pi_back.Recognition.Wav.Aligned.{read_frames-decode_pcm}

-- Numbers that keep the integers they were made of.
abbrev traces : Numbers (List ℤ)
traces = record {
  nought = [];
  over = λ z n. z ∷ [];
  add = λ a b. a ++ b;
  divide = λ a n. a;
  float_le = λ bytes. [];
  double_le = λ bytes. [];
  mix = λ a b n d. a;
}

abbrev samples : List ℕ
samples = 1 ∷ 0 ∷ 0 ∷ 1 ∷ 255 ∷ 255 ∷ 0 ∷ 128 ∷ []

abbrev file : List ℕ
file =
    82 ∷ 73 ∷ 70 ∷ 70 ∷ 0 ∷ 0 ∷ 0 ∷ 0 ∷ 87 ∷ 65 ∷ 86 ∷ 69 ∷ 102 ∷ 109 ∷ 116 ∷ 32 ∷ 16 ∷ 0 ∷ 0 ∷ 0
    ∷ 1 ∷ 0 ∷ 1 ∷ 0 ∷ 128 ∷ 62 ∷ 0 ∷ 0 ∷ 0 ∷ 125 ∷ 0 ∷ 0 ∷ 2 ∷ 0 ∷ 16 ∷ 0 ∷ 100 ∷ 97 ∷ 116 ∷ 97 ∷ 8
    ∷ 0 ∷ 0 ∷ 0 ∷ samples

abbrev mono : Format
mono = record { format = 1; channels = 1; sample_rate = 16000; bits = 16 }

-- 8193 channels of 64 bits.
abbrev wide : Format
wide = record { format = 3; channels = 8193; sample_rate = 16000; bits = 64 }

header_of_file :
    parse_wav_header 4 file ≡ returned (record { fmt = mono; data_offset = 44; data_size = 8 })
unfolding parse_wav_header
header_of_file = refl

samples_of_file :
    read_wav_normalized traces 4 5 file 16000
    ≡ returned ((pos 1 ∷ []) ∷ (pos 256 ∷ []) ∷ (negsuc 0 ∷ []) ∷ (negsuc 32767 ∷ []) ∷ [])
unfolding read_wav_normalized parse_wav_header
samples_of_file = refl

parse_wav_header-Located_example : Ends (Located file) (parse_wav_header 1013 file)
parse_wav_header-Located_example = parse_wav_header-Located file 1013 (ground arith)

read_frames-Ended_example :
    (frame_size wide ≤ 65536 → Ended (read_frames traces 2 file wide 1 0 44))
    × (65536 < frame_size wide → (fuel : ℕ) → read_frames traces fuel file wide 1 0 44 ≡ unfinished)
read_frames-Ended_example = read_frames-Ended traces wide file 1 44 (ground arith) (ground arith)

read_frames-decode_pcm_example :
    read_frames traces 5 file mono 4 0 44
    ≡ decode_pcm traces (read_at file (4 * frame_size mono) 44) mono
read_frames-decode_pcm_example = read_frames-decode_pcm traces mono file 4 44 (ground arith) refl
