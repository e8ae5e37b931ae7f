-- ===== src/Events/Codes.antt =====
-- src/utils/code-generator.js: the codes of events, from a stream of random numbers. `draw i` is
-- Math.random() at the i-th use, times the number of characters and rounded down.
use Prim.Native.String
use Prim.Native.String.append
use hernan_pedraza_pi_back.Prelude.{
  ℕ, zero, suc, ◌+◌, ◌<◌, ◌≡◌, refl, ◌∙◌, String, true, ◌||◌, Option, none, some, ltb, arith,
  if◌then◌else◌,
}
use hernan_pedraza_pi_back.Participants.Text.{
  is_alphanumeric, all_alphanumeric, characters, is_code_shaped,
}

-- chars.charAt(i) of the alphabet, which is empty past its end.
abbrev char_at : String → ℕ → String
char_at String.[] i = ""
char_at (String.◌∷◌ c s) zero = String.◌∷◌ c String.[]
char_at (String.◌∷◌ c s) (suc i) = char_at s i

abbrev pub code_chars : String
code_chars = "ABCDEFGHIJKLMNOPQRSTUVWXYZ0123456789"

-- The loop, with `i` characters drawn before and `n` to come.
abbrev pub drawn : (ℕ → ℕ) → ℕ → ℕ → String
drawn draw i zero = ""
drawn draw i (suc n) = String.◌++◌ (char_at code_chars (draw i)) (drawn draw (suc i) n)

-- `none` for the error that a length outside 4 to 10 throws.
unfoldable pub generate_event_code : (ℕ → ℕ) → ℕ → Option String
generate_event_code draw length =
    if ltb length 4 || ltb 10 length then none else some (drawn draw 0 length)

one_char : (s : String) (i : ℕ) → i < characters s → characters (char_at s i) ≡ 1
unfolding characters
one_char String.[] i h = absurd (omega arith)
one_char (String.◌∷◌ c s) zero h = refl
one_char (String.◌∷◌ c s) (suc i) h = one_char s i (omega arith)

characters-append : (s t : String) → characters (String.◌++◌ s t) ≡ characters s + characters t
unfolding characters
characters-append String.[] t = rw append.nil (omega arith)
characters-append (String.◌∷◌ c s) t =
    let rest = characters-append s t in rw append.cons (omega (arith, rest))

all_alphanumeric-append :
    (s t : String)
    → all_alphanumeric s ≡ true
    → all_alphanumeric t ≡ true
    → all_alphanumeric (String.◌++◌ s t) ≡ true
unfolding all_alphanumeric
all_alphanumeric-append String.[] t hs ht = rw append.nil ht
all_alphanumeric-append (String.◌∷◌ c s) t hs ht =
    let rest = all_alphanumeric-append s t in rw append.cons (ground (arith, hs, ht, rest))

all_alphanumeric-char_at :
    (s : String) (i : ℕ) → all_alphanumeric s ≡ true → all_alphanumeric (char_at s i) ≡ true
unfolding all_alphanumeric
all_alphanumeric-char_at String.[] i h = refl
all_alphanumeric-char_at (String.◌∷◌ c s) zero h = ground (arith, h)
all_alphanumeric-char_at (String.◌∷◌ c s) (suc i) h =
    all_alphanumeric-char_at s i (ground (arith, h))

code_chars-alphanumeric : all_alphanumeric code_chars ≡ true
unfolding all_alphanumeric is_alphanumeric
code_chars-alphanumeric = refl

code_chars-characters : characters code_chars ≡ 36
unfolding characters
code_chars-characters = refl

drawn-alphanumeric : (draw : ℕ → ℕ) (i n : ℕ) → all_alphanumeric (drawn draw i n) ≡ true
drawn-alphanumeric draw i zero = unfold all_alphanumeric in refl
drawn-alphanumeric draw i (suc n) =
    all_alphanumeric-append (char_at code_chars (draw i)) (drawn draw (suc i) n)
      (all_alphanumeric-char_at code_chars (draw i) code_chars-alphanumeric)
      (drawn-alphanumeric draw (suc i) n)

drawn-characters :
    (draw : ℕ → ℕ) (i n : ℕ) → ((j : ℕ) → draw j < 36) → characters (drawn draw i n) ≡ n
drawn-characters draw i zero inside = unfold characters in refl
drawn-characters draw i (suc n) inside =
    let first = one_char code_chars (draw i) (rw code_chars-characters (inside i)) in
    let rest = drawn-characters draw (suc i) n inside in
    characters-append (char_at code_chars (draw i)) (drawn draw (suc i) n)
    ∙ omega (arith, first, rest)

-- Every generated code has the length asked for and the shape of an access code, four to twenty
-- letters of A-Z or a-z and digits, if Math.random() stays below 1.
pub generate_event_code-is_code_shaped :
    (draw : ℕ → ℕ) (length : ℕ) (c : String)
    → ((j : ℕ) → draw j < 36)
    → generate_event_code draw length ≡ some c
    → (characters c ≡ length) × (is_code_shaped c ≡ true)
unfolding generate_event_code is_code_shaped
generate_event_code-is_code_shaped draw length c inside h =
    let shape = drawn-alphanumeric draw 0 length in
    let size = drawn-characters draw 0 length inside in ground (arith, shape, size, h)
