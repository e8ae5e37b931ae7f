-- ===== src/Recognition/Wav/Aligned.antt =====
-- src/services/audio-recognition/wav.js: the loop that reads a file in chunks of 65536 bytes, against
-- decoding all its samples at once.
use hernan_pedraza_pi_back.Prelude.{
  ℕ, zero, suc, ◌+◌, ◌-◌, ◌*◌, ◌/◌, ◌%◌, ◌≤◌, ◌<◌, min, List, ◌∷◌, ◌++◌, ltb, leb, ◌==◌, ◌≡◌, refl,
  sym, ap, ◌∙◌, inl, inr, Bool-cases, arith,
}
use native.Mathlib.Nat.{
  mul-div_cancel, min-eq_left, min-eq_right, mul-le-mul_right, suc-mul, add-mul, zero-mul,
  div-add-mod',
}
use hernan_pedraza_pi_back.Recognition.Wav.{
  Run, returned, threw, unfinished, ◌>>=◌, Format, read_at,
}
use hernan_pedraza_pi_back.Recognition.Wav.Frames.{
  Numbers, frame_size, decode_frame, decode_frames, decode_pcm, read_frames,
}
use hernan_pedraza_pi_back.Recognition.Wav.Walk.{Ends}
use hernan_pedraza_pi_back.Recognition.Wav.Loop.{
  Sized, decode_frames-Sized, decode_pcm_lem, chunk_bytes,
}
use hernan_pedraza_pi_back.Recognition.Wav.Buffers.{
  >>=-returned, >>=_assoc, bind_cong, Agree-read_at, decode_frames-Agree,
}

min-mul : (q r w : ℕ) → min (q * w) (r * w) ≡ min q r * w
min-mul q r w = elim (Bool-cases (leb q r)) [
  | inl e ↦
      let h : q ≤ r = ground arith in
      min-eq_left (mul-le-mul_right w h) ∙ ap (λ x. x * w) (sym (min-eq_left h))
  | inr e ↦
      let h : r ≤ q = ground arith in
      min-eq_right (mul-le-mul_right w h) ∙ ap (λ x. x * w) (sym (min-eq_right h))
]

-- What a computation is followed by matters only on the values it may have.
bind_where {ℓ κ} :
    {A : Type ℓ} {B : Type κ} (Q : A → Type 0) (r : Run A) {f g : A → Run B}
    → Ends Q r
    → ((a : A) → Q a → f a ≡ g a)
    → (r >>= f) ≡ (r >>= g)
bind_where Q (returned a) h k = k a h
bind_where Q threw h k = refl
bind_where Q unfinished h k = refl

module _ {F : Type 0} (nums : Numbers F) (fmt : Format) (buffer : List ℕ) where
  -- Frames are decoded one after the other.
  decode_frames_append :
      (k l off : ℕ)
      → decode_frames nums fmt buffer (k + l) off ≡ (
          decode_frames nums fmt buffer k off >>= λ xs.
          decode_frames nums fmt buffer l (off + k * frame_size fmt) >>= λ ys. returned (xs ++ ys))
  unfolding decode_frames
  decode_frames_append zero l off =
      let e : decode_frames nums fmt buffer (0 + l) off
          ≡ decode_frames nums fmt buffer l (off + 0 * frame_size fmt) =
        (ap (λ n. decode_frames nums fmt buffer n off) (omega arith)
          ∙ ap (λ o. decode_frames nums fmt buffer l o) (omega arith)) in
      e ∙ sym (>>=-returned (decode_frames nums fmt buffer l (off + 0 * frame_size fmt)))
  decode_frames_append (suc k) l off =
      let size : ℕ = frame_size fmt in
      let s : suc k + l ≡ suc (k + l) = omega arith in
      let o : off + size + k * size ≡ off + suc k * size = ground (arith, suc-mul k size) in
      let first : Run (List F) = decode_frames nums fmt buffer k (off + size) in
      let second : (List F → Run (List F)) = (λ xs.
        decode_frames nums fmt buffer l (off + size + k * size) >>= λ ys. returned (xs ++ ys)) in
      let second' : (List F → Run (List F)) = (λ xs.
        decode_frames nums fmt buffer l (off + suc k * size) >>= λ ys. returned (xs ++ ys)) in
      let moved : second ≡ second' =
        ap (λ i xs. decode_frames nums fmt buffer l i >>= λ ys. returned (xs ++ ys)) o in
      ap (λ n. decode_frames nums fmt buffer n off) s
      ∙ bind_cong {r = decode_frame nums fmt buffer off} refl (λ x.
        ap (λ r. r >>= λ zs. returned (x ∷ zs)) (decode_frames_append k l (off + size))
        ∙ >>=_assoc first second (λ zs. returned (x ∷ zs))
        ∙ bind_cong {r = first} refl (λ xs.
          >>=_assoc (decode_frames nums fmt buffer l (off + size + k * size))
            (λ ys. returned (xs ++ ys)) (λ zs. returned (x ∷ zs))
          ∙ ap (λ f. f (x ∷ xs)) moved)
        ∙ sym (>>=_assoc first (λ xs. returned (x ∷ xs)) second'))
      ∙ sym (
          >>=_assoc (decode_frame nums fmt buffer off) (λ x. first >>= λ xs. returned (x ∷ xs))
            second')

module _ {F : Type 0} (nums : Numbers F) (fmt : Format) (file : List ℕ) (total start : ℕ)
    (size : 0 < frame_size fmt) (aligned : 65536 % frame_size fmt ≡ 0) where
  -- All the samples of the file, in one buffer.
  abbrev whole : List ℕ
  whole = read_at file (total * frame_size fmt) start

  -- A chunk holds a whole number of frames.
  abbrev chunk_frames : ℕ → ℕ
  chunk_frames left = min (65536 / frame_size fmt) left

  chunk_bytes_aligned :
      (left : ℕ) → chunk_bytes nums fmt file left ≡ chunk_frames left * frame_size fmt
  chunk_bytes_aligned left =
      let q : 65536 / frame_size fmt * frame_size fmt ≡ 65536 =
        ground (arith, aligned, div-add-mod' 65536 (frame_size fmt)) in
      ap (λ x. min x (left * frame_size fmt)) (sym q)
      ∙ min-mul (65536 / frame_size fmt) left (frame_size fmt)

  some_frames : 0 < 65536 / frame_size fmt
  some_frames = elim (Bool-cases (65536 / frame_size fmt == 0)) [
    | inl e ↦
        let z : 65536 / frame_size fmt ≡ 0 = ground (arith, e) in
        let q : 65536 / frame_size fmt * frame_size fmt ≡ 0 =
          ap (λ x. x * frame_size fmt) z ∙ zero-mul (frame_size fmt) in
        ground (arith, q, aligned, div-add-mod' 65536 (frame_size fmt))
    | inr e ↦ ground (arith, e)
  ]

  -- A chunk decodes to its part of the samples.
  chunk_decoded :
      (done : ℕ)
      → done ≤ total
      → decode_pcm nums
          (read_at file (chunk_bytes nums fmt file (total - done)) (start + done * frame_size fmt))
          fmt
        ≡ decode_frames nums fmt whole (chunk_frames (total - done)) (done * frame_size fmt)
  chunk_decoded done h =
      let m : ℕ = chunk_frames (total - done) in
      let n : ℕ = chunk_bytes nums fmt file (total - done) in
      let b : n ≡ m * frame_size fmt = chunk_bytes_aligned (total - done) in
      let k : n / frame_size fmt ≡ m = ap (λ x. x / frame_size fmt) b ∙ mul-div_cancel m size in
      let inside : (done + m) * frame_size fmt ≤ total * frame_size fmt =
        mul-le-mul_right (frame_size fmt) (ground arith) in
      decode_pcm_lem nums fmt file n (start + done * frame_size fmt) size
      ∙ ap (λ x. decode_frames nums fmt (read_at file n (start + done * frame_size fmt)) x 0) k
      ∙ decode_frames-Agree (done * frame_size fmt) n
          (read_at file n (start + done * frame_size fmt)) whole
          (Agree-read_at file n (total * frame_size fmt) start (done * frame_size fmt)
            (ground (arith, inside, b, add-mul done m (frame_size fmt))))
          nums fmt m 0 (ground (arith, b))
      ∙ ap (λ o. decode_frames nums fmt whole m o) (omega arith)

  read_frames_from :
      (fuel done : ℕ)
      → done ≤ total
      → total < done + fuel
      → read_frames nums fuel file fmt total done (start + done * frame_size fmt)
        ≡ decode_frames nums fmt whole (total - done) (done * frame_size fmt)
  unfolding read_frames
  read_frames_from zero done h q = ground arith
  read_frames_from (suc fuel) done h q = elim (Bool-cases (ltb done total)) [
    | inl e ↦
        let m : ℕ = chunk_frames (total - done) in
        let n : ℕ = chunk_bytes nums fmt file (total - done) in
        let p : 0 < m = ground (arith, e, some_frames) in
        let here : ℕ = start + done * frame_size fmt + n in
        let offset : here ≡ start + (done + m) * frame_size fmt =
          ground (arith, chunk_bytes_aligned (total - done), add-mul done m (frame_size fmt)) in
        let next : (read_frames nums fuel file fmt total (done + m) here
            ≡ decode_frames nums fmt whole (total - (done + m))
                (done * frame_size fmt + m * frame_size fmt)) =
          (ap (λ o. read_frames nums fuel file fmt total (done + m) o) offset
            ∙ read_frames_from fuel (done + m) (ground arith) (ground (arith, p))
            ∙ ap (λ o. decode_frames nums fmt whole (total - (done + m)) o)
                (add-mul done m (frame_size fmt))) in
        let count : m + (total - (done + m)) ≡ total - done = ground arith in
        (rw (e, chunk_decoded done h)
          (bind_where (Sized m) (decode_frames nums fmt whole m (done * frame_size fmt))
              (decode_frames-Sized nums fmt whole m (done * frame_size fmt))
              (λ xs l.
                ap (λ r. r >>= λ rest. returned (xs ++ rest))
                  (ap (λ k. read_frames nums fuel file fmt total (done + k) here) l ∙ next))
            ∙ sym
                (decode_frames_append nums fmt whole m (total - (done + m)) (done * frame_size fmt))
            ∙ ap (λ k. decode_frames nums fmt whole k (done * frame_size fmt)) count))
    | inr e ↦ let none_left : total - done ≡ 0 = ground arith in (rw (e, none_left) refl)
  ]

  -- The loop of readWavNormalized with one step more than there are frames. When the size of a frame
  -- is not zero and divides 65536, it gives the samples that decodePcm gives of all the frames
  -- at once, and throws when that throws.
  pub read_frames-decode_pcm :
      read_frames nums (suc total) file fmt total 0 start
      ≡ decode_pcm nums (read_at file (total * frame_size fmt) start) fmt
  read_frames-decode_pcm =
      let all : total - 0 ≡ total * frame_size fmt / frame_size fmt =
        ground (arith, mul-div_cancel total size) in
      ap (λ o. read_frames nums (suc total) file fmt total 0 o)
        (ground (arith, zero-mul (frame_size fmt)))
      ∙ read_frames_from (suc total) 0 (ground arith) (ground arith)
      ∙ ap (λ o. decode_frames nums fmt whole (total - 0) o) (zero-mul (frame_size fmt))
      ∙ ap (λ k. decode_frames nums fmt whole k 0) all
      ∙ sym (decode_pcm_lem nums fmt file (total * frame_size fmt) start size)
