-- ===== src/Recognition/Codec.antt =====
-- src/services/audio-recognition/fingerprint-codec.js: the hashes of a track as bytes, eight for a
-- row: the hash as an unsigned and the time as a signed number of 32 bits, low bytes first.
use hernan_pedraza_pi_back.Prelude.{
  if◌then◌else◌, ℕ, ◌+◌, ◌-◌, ◌*◌, ◌/◌, ◌%◌, ◌≡◌, refl, Option, none, some, List, [], ◌∷◌, ltb,
  Bool-cases, true, false, inl, inr, ◌<◌, arith,
}
use hernan_pedraza_pi_back.Recognition.Thresholds.{ℤ, pos, negsuc}
use hernan_pedraza_pi_back.Recognition.Numbers.{from_int, word, signed_word, to_uint32, to_int32}
use hernan_pedraza_pi_back.Recognition.Session.State.{SentHash, or_field, finite}

-- A row as it is read back: two finite numbers, as in Recognition/Numbers.
pub record Row : Type 0 where
  pub h : ℤ
  pub t : ℤ

abbrev pub write_word : ℕ → List ℕ → List ℕ
write_word n rest = n % 256 ∷ (n / 256) % 256 ∷ (n / 65536) % 256 ∷ (n / 16777216) % 256 ∷ rest

-- writeInt32LE: a negative number is written in two's complement.
abbrev pub write_signed : ℤ → List ℕ → List ℕ
write_signed (pos n) rest = write_word n rest
write_signed (negsuc n) rest = write_word (4294967295 - n) rest

abbrev pub read_word : ℕ → ℕ → ℕ → ℕ → ℕ
read_word a b c d = a + b * 256 + c * 65536 + d * 16777216

-- readInt32LE: a word whose highest bit is set is negative, one less than what the complement of its
-- bytes says.
abbrev pub read_signed : ℕ → ℕ → ℕ → ℕ → ℤ
read_signed a b c d =
    if ltb d 128
    then pos (read_word a b c d)
    else negsuc (read_word (255 - a) (255 - b) (255 - c) (255 - d))

abbrev pub encode_row : Option ℤ → Option ℤ → List ℕ → List ℕ
unfolding to_uint32 to_int32
encode_row (some h) (some t) rest = write_word (to_uint32 h) (write_signed (to_int32 t) rest)
encode_row (some h) none rest = rest
encode_row none t rest = rest

unfoldable pub encode_hash_rows : List SentHash → List ℕ
encode_hash_rows [] = []
encode_hash_rows (x ∷ xs) =
    encode_row (finite (or_field x.hash x.h)) (finite (or_field x.time x.t)) (encode_hash_rows xs)

-- A remainder of less than eight bytes is not read.
unfoldable pub decode_hash_rows : List ℕ → List Row
decode_hash_rows (a ∷ b ∷ c ∷ d ∷ e ∷ f ∷ g ∷ h ∷ rest) =
    record { h = from_int (pos (read_word a b c d)); t = from_int (read_signed e f g h) }
    ∷ decode_hash_rows rest
decode_hash_rows _ = []

-- What a row of finite numbers becomes: hash >>> 0 and time | 0.
abbrev pub wrapped_row : Option ℤ → Option ℤ → List Row → List Row
unfolding to_uint32 to_int32
wrapped_row (some h) (some t) rest =
    record { h = from_int (pos (to_uint32 h)); t = from_int (to_int32 t) } ∷ rest
wrapped_row (some h) none rest = rest
wrapped_row none t rest = rest

abbrev pub wrapped : List SentHash → List Row
wrapped [] = []
wrapped (x ∷ xs) =
    wrapped_row (finite (or_field x.hash x.h)) (finite (or_field x.time x.t)) (wrapped xs)

to_uint32-bound : (n : ℤ) → to_uint32 n < word
unfolding to_uint32
to_uint32-bound (pos n) = omega arith
to_uint32-bound (negsuc n) = omega arith

read_word-write_word :
    (n : ℕ)
    → n < word
    → read_word (n % 256) ((n / 256) % 256) ((n / 65536) % 256) ((n / 16777216) % 256) ≡ n
read_word-write_word n small = omega arith

-- The bytes of a signed word, read back.
read_signed-write_word :
    (n : ℕ)
    → n < word
    → read_signed (n % 256) ((n / 256) % 256) ((n / 65536) % 256) ((n / 16777216) % 256)
      ≡ signed_word n
read_signed-write_word n small = elim (Bool-cases (ltb n 2147483648)) [
  | inl low ↦
      let top : ltb ((n / 16777216) % 256) 128 ≡ true = (ground (arith, low)) in
      rw (low, top, read_word-write_word n small)
  | inr high ↦
      let top : ltb ((n / 16777216) % 256) 128 ≡ false = (ground (arith, high, small)) in
      let flipped : read_word (255 - n % 256) (255 - (n / 256) % 256) (255 - (n / 65536) % 256)
            (255 - (n / 16777216) % 256)
          ≡ 4294967295 - n =
        (omega (arith, small)) in
      rw (high, top, flipped)
]

decode-write_signed :
    (h n : ℕ) (rest : List ℕ)
    → h < word
    → n < word
    → decode_hash_rows (write_word h (write_signed (signed_word n) rest))
      ≡ record { h = from_int (pos h); t = from_int (signed_word n) } ∷ decode_hash_rows rest
unfolding decode_hash_rows
decode-write_signed h n rest small_h small_n =
    let bytes : write_signed (signed_word n) rest ≡ write_word n rest =
      (elim (Bool-cases (ltb n 2147483648)) [
        | inl low ↦ rw low
        | inr high ↦
            let back : 4294967295 - (4294967295 - n) ≡ n = (omega (arith, small_n)) in
            rw (high, back)
      ]) in
    rw (bytes, read_word-write_word h small_h, read_signed-write_word n small_n)

encode_row-wrapped :
    (h t : Option ℤ) (rest : List ℕ) (rows : List Row)
    → decode_hash_rows rest ≡ rows
    → decode_hash_rows (encode_row h t rest) ≡ wrapped_row h t rows
unfolding to_int32
encode_row-wrapped (some h) (some t) rest rows e = rw (
  decode-write_signed (to_uint32 h) (to_uint32 t) rest (to_uint32-bound h) (to_uint32-bound t),
  e,
)
encode_row-wrapped (some h) none rest rows e = e
encode_row-wrapped none t rest rows e = e

-- Storing hashes and reading them back gives each row whose hash and time are finite numbers, in
-- order: the hash as JavaScript's hash >>> 0 and the time as time | 0, which cut off the fraction,
-- take the rest modulo 2 ^ 32 whatever the sign, and give the time its sign of 32 bits back.
pub decode_hash_rows-encode_hash_rows :
    (xs : List SentHash) → decode_hash_rows (encode_hash_rows xs) ≡ wrapped xs
unfolding decode_hash_rows encode_hash_rows
decode_hash_rows-encode_hash_rows [] = refl
decode_hash_rows-encode_hash_rows (x ∷ xs) =
    encode_row-wrapped (finite (or_field x.hash x.h)) (finite (or_field x.time x.t))
      (encode_hash_rows xs) (wrapped xs) (decode_hash_rows-encode_hash_rows xs)
