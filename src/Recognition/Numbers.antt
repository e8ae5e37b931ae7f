-- ===== src/Recognition/Numbers.antt =====
-- The finite numbers that src/services/audio-recognition/fingerprint-codec.js, match-session.js and
-- ram-matcher.js read out of JSON: 64-bit floating point. Every one of them is a multiple of
-- 2 ^ -1074, the smallest positive one, and is kept as that multiple, so that fractions and signs
-- are exact. -0 is 0, as it is for `|`, `>>>`, the keys of a Map and a template string.
use hernan_pedraza_pi_back.Prelude.{
  ℕ, zero, suc, ◌+◌, ◌-◌, ◌*◌, ◌/◌, ◌%◌, ◌^◌, ◌<◌, ◌≡◌, refl, inl, inr, Bool, true, false, ◌&&◌,
  ltb, leb, ◌==◌, Bool-cases, arith, if◌then◌else◌,
}
use native.Mathlib.Numerals.{unary_clauses}
use hernan_pedraza_pi_back.Recognition.Thresholds.{ℤ, pos, negsuc}

-- How many multiples make 1.
unfoldable pub unit : ℕ
unit = 2 ^ 1074

-- The number that an integer is.
unfoldable pub from_int : ℤ → ℤ
unfolding unit
from_int (pos n) = pos (n * unit)
from_int (negsuc n) = negsuc (suc n * unit - 1)

abbrev pub word : ℕ
word = 4294967296

-- The remainder modulo 2 ^ 32 of a number whose sign is split off; the fraction is cut off first.
abbrev pub wrap : ℤ → ℕ
wrap (pos n) = n / unit % word
wrap (negsuc n) = (word - suc n / unit % word) % word

-- n >>> 0
unfoldable pub to_uint32 : ℤ → ℕ
to_uint32 n = wrap n

-- The upper half of the words is negative.
abbrev pub signed_word : ℕ → ℤ
signed_word n = if ltb n 2147483648 then pos n else negsuc (4294967295 - n)

-- n | 0
unfoldable pub to_int32 : ℤ → ℤ
unfolding to_uint32
to_int32 n = signed_word (to_uint32 n)

abbrev pub equal : ℤ → ℤ → Bool
equal (pos a) (pos b) = a == b
equal (negsuc a) (negsuc b) = a == b
equal _ _ = false

-- The distance of the numbers of this size from each other is `step`, doubled until 53 bits are
-- enough.
abbrev pub step_for : ℕ → ℕ → ℕ → ℕ
step_for zero step n = step
step_for (suc fuel) step n = elim (ltb n (step * 2 ^ 53)) [
  | true ↦ step
  | false ↦ step_for fuel (2 * step) n
]

-- The closest multiple of `step`, the even one of two that are equally close.
abbrev pub nearest : ℕ → ℕ → ℕ
nearest n step =
    let below = n / step in
    let rest = 2 * (n % step) in
    if ltb rest step
    then below * step
    else if rest == step && below % 2 == 0
    then below * step
    else suc below * step

-- The largest finite number has 2098 bits.
unfoldable pub to_double : ℕ → ℕ
to_double n = nearest n (step_for 2100 1 n)

abbrev pub to_double_sign : ℤ → ℤ
to_double_sign (pos n) = pos (to_double n)
to_double_sign (negsuc n) = negsuc (to_double (suc n) - 1)

abbrev pub sub_ℕ : ℕ → ℕ → ℤ
sub_ℕ a b = if leb b a then pos (a - b) else negsuc (b - a - 1)

abbrev pub exact_difference : ℤ → ℤ → ℤ
exact_difference (pos a) (pos b) = sub_ℕ a b
exact_difference (pos a) (negsuc b) = pos (a + b + 1)
exact_difference (negsuc a) (pos b) = negsuc (a + b)
exact_difference (negsuc a) (negsuc b) = sub_ℕ b a

-- a - b
unfoldable pub difference : ℤ → ℤ → ℤ
unfolding to_double
difference a b = to_double_sign (exact_difference a b)

-- The doubling reaches 53 bits with as much fuel as the number has bits more.
step_for-enough :
    (fuel step n : ℕ) → n < step * 2 ^ 53 * 2 ^ fuel → n < step_for fuel step n * 2 ^ 53
step_for-enough zero step n small = ground (arith, small)
step_for-enough (suc fuel) step n small =
    let double : 2 ^ suc fuel ≡ 2 ^ fuel * 2 = (simp unary_clauses refl) in
    elim (Bool-cases (ltb n (step * 2 ^ 53))) [
      | inl fits ↦ rw (step_for, fits) (ground (arith, fits))
      | inr big ↦
          rw (step_for, big) (step_for-enough fuel (2 * step) n (grind (arith, small, double)))
    ]
