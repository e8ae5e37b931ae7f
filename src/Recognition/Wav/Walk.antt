-- ===== src/Recognition/Wav/Walk.antt =====
-- src/services/audio-recognition/wav.js: the loop over the chunks of a header, and what it reports.
use hernan_pedraza_pi_back.Prelude.{
  ℕ, zero, suc, ◌+◌, ◌≤◌, ◌<◌, min, ◌&&◌, Option, none, some, List, leb, ◌==◌, length, if_elim, inl,
  inr, Bool-cases, arith,
}
use hernan_pedraza_pi_back.Recognition.Wav.{
  Run, returned, threw, unfinished, ◌>>=◌, Format, Header, Chunks, has_tag, read_u16, read_u32,
  read_format, note_format, walk_chunks, next_chunk, parse_wav_header, read_at, read_u8,
  found_chunks, or_throw,
}

-- A computation that comes to an end: by a throw, or by a value with a property.
abbrev pub Ends {ℓ} : {A : Type ℓ} → (A → Type 0) → Run A → Type 0
Ends P (returned a) = P a
Ends P threw = Unit
Ends P unfinished = ⊥

abbrev pub Ended {ℓ} : {A : Type ℓ} → Run A → Type 0
Ended r = Ends (λ _. Unit {0}) r

module _ {ℓ κ} {A : Type ℓ} {B : Type κ} (Q : A → Type 0) (P : B → Type 0) where
  pub Ends->>= :
      (r : Run A) (f : A → Run B) → Ends Q r → ((a : A) → Q a → Ends P (f a)) → Ends P (r >>= f)
  Ends->>= (returned a) f h k = k a h
  Ends->>= threw f h k = tt
  Ends->>= unfinished f h k = elim h [ ]

module _ {ℓ κ} {A : Type ℓ} {B : Type κ} where
  pub Ended->>= : (r : Run A) (f : A → Run B) → Ended r → ((a : A) → Ended (f a)) → Ended (r >>= f)
  Ended->>= r f h k = Ends->>= (λ _. Unit) (λ _. Unit) r f h (λ a _. k a)

pub Ended-or_throw {ℓ} : {A : Type ℓ} (o : Option A) → Ended (or_throw o)
Ended-or_throw none = tt
Ended-or_throw (some a) = tt

Ended-read_u16 : (b : List ℕ) (i : ℕ) → Ended (read_u16 b i)
unfolding read_u16
Ended-read_u16 b i =
    Ended->>= (read_u8 b i) _ (Ended-or_throw _)
      (λ x. Ended->>= (read_u8 b (i + 1)) _ (Ended-or_throw _) (λ y. tt))

Ended-read_u32 : (b : List ℕ) (i : ℕ) → Ended (read_u32 b i)
unfolding read_u32
Ended-read_u32 b i =
    Ended->>= (read_u16 b i) _ (Ended-read_u16 b i)
      (λ x. Ended->>= (read_u16 b (i + 2)) _ (Ended-read_u16 b (i + 2)) (λ y. tt))

Ended-read_format : (b : List ℕ) (i : ℕ) → Ended (read_format b i)
unfolding read_format
Ended-read_format b i = Ended->>= (read_u16 b i) _ (Ended-read_u16 b i) (λ f.
    Ended->>= (read_u16 b (i + 2)) _ (Ended-read_u16 b (i + 2)) (λ c.
      Ended->>= (read_u32 b (i + 4)) _ (Ended-read_u32 b (i + 4))
        (λ s. Ended->>= (read_u16 b (i + 14)) _ (Ended-read_u16 b (i + 14)) (λ t. tt))))

Ended-note_format : (b : List ℕ) (off : ℕ) (fmt : Option Format) → Ended (note_format b off fmt)
unfolding note_format
Ended-note_format b off fmt =
    if_elim Ended (has_tag b off 102 109 116 32) _ _
      (Ended->>= (read_format b (off + 8)) _ (Ended-read_format b (off + 8)) (λ f. tt)) tt

-- What the walk reports: no data, or data that begins where the walk has read up to.
abbrev Reported : ℕ → Chunks → Type 0
Reported n c = (0 < c.data_size) → (20 ≤ c.data_chunk_start) × (c.data_chunk_start ≤ n)

-- Every chunk moves the walk on by eight bytes at least, so as much fuel as there are bytes left
-- is enough.
walk_chunks-Reported :
    (fuel : ℕ) (b : List ℕ) (n off : ℕ) (fmt : Option Format)
    → 0 < fuel
    → n < off + fuel
    → 12 ≤ off
    → Ends (Reported n) (walk_chunks fuel b n off fmt)
unfolding walk_chunks
walk_chunks-Reported zero b n off fmt p h g = ground arith
walk_chunks-Reported (suc fuel) b n off fmt p h g = elim (Bool-cases (leb (off + 8) n)) [
  | inl e ↦
      (rw e (
        Ends->>= (λ _. Unit) (Reported n) (read_u32 b (off + 4)) _ (Ended-read_u32 b (off + 4))
          (λ size _.
            if_elim (Ends (Reported n)) (has_tag b off 100 97 116 97) _ _
              (λ q. (ground arith, ground arith))
              (Ends->>= (λ _. Unit) (Reported n) (note_format b off fmt) _
                (Ended-note_format b off fmt)
                (λ fmt' _.
                  walk_chunks-Reported fuel b n (next_chunk off size) fmt' (ground arith)
                    (ground arith) (ground arith))))))
  | inr e ↦ (rw e (λ q. ground arith))
]

-- The samples of a header begin behind a chunk header, inside the file, and are not empty.
abbrev pub Located : List ℕ → Header → Type 0
Located file h = (20 ≤ h.data_offset) × (h.data_offset ≤ length file) × (0 < h.data_size)

module _ (file : List ℕ) where
  found-Located :
      (fmt : Option Format) (c : Chunks)
      → Reported (min 1024 (length file)) c
      → Ends (Located file) (found_chunks fmt c.data_chunk_start c.data_size)
  found-Located none c r = tt
  found-Located (some fmt) c r = elim (Bool-cases (c.data_size == 0)) [
    | inl e ↦ (rw e tt)
    | inr e ↦
        let q : 0 < c.data_size = ground arith in
        let p = r q in (rw e (p.0, ground (arith, p.1), q))
  ]

  -- For every file, 1013 steps bring parseWavHeader to an end, by a throw or by a header. The
  -- samples that a header announces begin at byte 20 or later, no further than the end of the file,
  -- and their announced size is not zero.
  pub parse_wav_header-Located :
      (fuel : ℕ) → 1013 ≤ fuel → Ends (Located file) (parse_wav_header fuel file)
  unfolding parse_wav_header
  parse_wav_header-Located fuel h =
      if_elim (Ends (Located file))
        (has_tag (read_at file 1024 0) 0 82 73 70 70 && has_tag (read_at file 1024 0) 8 87 65 86 69)
        _ _
        (Ends->>= (Reported (min 1024 (length file))) (Located file)
          (walk_chunks fuel (read_at file 1024 0) (min 1024 (length file)) 12 none) _
          (walk_chunks-Reported fuel (read_at file 1024 0) (min 1024 (length file)) 12 none
            (ground arith) (ground arith) (ground arith))
          (λ c r. found-Located c.fmt c r))
        tt
