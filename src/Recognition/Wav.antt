-- ===== src/Recognition/Wav.antt =====
-- src/services/audio-recognition/wav.js: the header of a WAV file. A file is the list of its bytes;
-- what a read finds past its end stays zero, as in a fresh buffer.
pub mod Frames
pub mod Walk
pub mod Buffers
pub mod Loop
pub mod Aligned
use hernan_pedraza_pi_back.Prelude.{
  ℕ, zero, suc, ◌+◌, ◌*◌, ◌%◌, ◌/◌, min, Bool, false, ◌&&◌, Option, none, some, List, [], ◌∷◌, leb,
  ◌==◌, length, drop, get_elem?, if◌then◌else◌,
}

-- A computation that may throw. `unfinished` is a loop that its fuel did not bring to an end.
pub data Run {ℓ} (A : Type ℓ) : Type ℓ where
  returned : A → Run A
  threw unfinished : Run A

infixl 5 ◌>>=◌
abbrev pub ◌>>=◌ {ℓ κ} : {A : Type ℓ} {B : Type κ} → Run A → (A → Run B) → Run B
returned a >>= f = f a
threw >>= f = threw
unfinished >>= f = unfinished

abbrev pub or_throw {ℓ} : {A : Type ℓ} → Option A → Run A
or_throw none = threw
or_throw (some a) = returned a

pub record Format : Type 0 where
  pub format : ℕ
  pub channels : ℕ
  pub sample_rate : ℕ
  pub bits : ℕ

pub record Header : Type 0 where
  pub fmt : Format
  pub data_offset : ℕ
  pub data_size : ℕ

-- The buffer that fd.read(Buffer.alloc(n), 0, n, offset) fills.
abbrev pub fill : ℕ → List ℕ → List ℕ
fill zero bytes = []
fill (suc n) [] = 0 ∷ fill n []
fill (suc n) (b ∷ bytes) = b ∷ fill n bytes

abbrev pub read_at : List ℕ → ℕ → ℕ → List ℕ
read_at file n offset = fill n (drop offset file)

-- readUInt16LE and readUInt32LE, which throw outside the buffer.
abbrev pub read_u8 : List ℕ → ℕ → Run ℕ
read_u8 buffer i = or_throw (get_elem? buffer i)

unfoldable pub read_u16 : List ℕ → ℕ → Run ℕ
read_u16 buffer i = do a ← read_u8 buffer i; b ← read_u8 buffer (i + 1); returned (a + b * 256)

unfoldable pub read_u32 : List ℕ → ℕ → Run ℕ
unfolding read_u16
read_u32 buffer i = do a ← read_u16 buffer i; b ← read_u16 buffer (i + 2); returned (a + b * 65536)

-- buffer.toString('ascii', i, i + 4) against four characters, given by their codes. The encoding
-- leaves out the highest bit of a byte.
abbrev is_byte : Option ℕ → ℕ → Bool
is_byte none c = false
is_byte (some b) c = b % 128 == c

unfoldable pub has_tag : List ℕ → ℕ → ℕ → ℕ → ℕ → ℕ → Bool
has_tag buffer i a b c d =
    is_byte (get_elem? buffer i) a
    && is_byte (get_elem? buffer (i + 1)) b
    && is_byte (get_elem? buffer (i + 2)) c
    && is_byte (get_elem? buffer (i + 3)) d

unfoldable pub read_format : List ℕ → ℕ → Run Format
unfolding read_u16 read_u32
read_format buffer start = do
  format ← read_u16 buffer start
  channels ← read_u16 buffer (start + 2)
  sample_rate ← read_u32 buffer (start + 4)
  bits ← read_u16 buffer (start + 14)
  returned (record { format = format; channels = channels; sample_rate = sample_rate; bits = bits })

-- The chunks that the walk has met: `fmt`, and the offset and the size of `data`.
pub record Chunks : Type 0 where
  pub fmt : Option Format
  pub data_chunk_start : ℕ
  pub data_size : ℕ

abbrev pub no_chunks : Option Format → Chunks
no_chunks fmt = record { fmt = fmt; data_chunk_start = 0; data_size = 0 }

-- A `fmt ` chunk is read, any other one is passed over.
unfoldable pub note_format : List ℕ → ℕ → Option Format → Run (Option Format)
unfolding read_format has_tag
note_format buffer off fmt =
    if has_tag buffer off 102 109 116 32
    then (read_format buffer (off + 8) >>= λ f. returned (some f))
    else returned fmt

-- The offset of the next chunk: chunks are padded to an even size.
abbrev pub next_chunk : ℕ → ℕ → ℕ
next_chunk off size = off + 8 + size + size % 2

-- The loop over the chunks, on fuel.
unfoldable pub walk_chunks : ℕ → List ℕ → ℕ → ℕ → Option Format → Run Chunks
unfolding note_format read_u32 has_tag
walk_chunks zero buffer bytes_read off fmt = unfinished
walk_chunks (suc fuel) buffer bytes_read off fmt =
    if leb (off + 8) bytes_read
    then (read_u32 buffer (off + 4) >>= λ size.
        if has_tag buffer off 100 97 116 97
        then returned (record { fmt = fmt; data_chunk_start = off + 8; data_size = size })
        else (note_format buffer off fmt >>= λ fmt'.
            walk_chunks fuel buffer bytes_read (next_chunk off size) fmt'))
    else returned (no_chunks fmt)

abbrev pub found_chunks : Option Format → ℕ → ℕ → Run Header
found_chunks none start size = threw
found_chunks (some fmt) start size =
    if size == 0
    then threw
    else returned (record { fmt = fmt; data_offset = start; data_size = size })

-- parseWavHeader, with the fuel of its loop.
unfoldable pub parse_wav_header : ℕ → List ℕ → Run Header
unfolding walk_chunks has_tag
parse_wav_header fuel file =
    let header = read_at file 1024 0 in
    if has_tag header 0 82 73 70 70 && has_tag header 8 87 65 86 69
    then (walk_chunks fuel header (min 1024 (length file)) 12 none >>= λ c.
        found_chunks c.fmt c.data_chunk_start c.data_size)
    else threw
