-- ===== src/Participants/Text.antt =====
-- The texts of src/services/participants.service.js: the public name of a masked attendee, and the
-- shape that an access code has.
use Prim.Native.String
use Prim.Native.Char.{code}
use hernan_pedraza_pi_back.Prelude.{
  ℕ, zero, suc, ◌/◌, ◌%◌, String, Bool, true, ◌&&◌, ◌||◌, Option, none, some, ltb, leb, ◌==◌,
  if◌then◌else◌,
}

digit : ℕ → String
digit d =
    if d == 0
    then "0"
    else if d == 1
    then "1"
    else if d == 2
    then "2"
    else if d == 3
    then "3"
    else if d == 4
    then "4"
    else if d == 5
    then "5"
    else if d == 6
    then "6"
    else if d == 7
    then "7"
    else if d == 8
    then "8"
    else "9"

decimal_fuel : ℕ → ℕ → String
unfolding digit
decimal_fuel zero n = ""
decimal_fuel (suc f) n =
    let rest = String.◌++◌ (decimal_fuel f (n / 10)) (digit (n % 10)) in
    if ltb n 10 then digit n else rest

unfoldable pub decimal : ℕ → String
unfolding decimal_fuel
decimal n = decimal_fuel (suc n) n

-- A number that is missing is not finite.
unfoldable pub format_anonymous_name : Option ℕ → Option String
unfolding decimal
format_anonymous_name none = none
format_anonymous_name (some n) =
    if ltb n 1 then none else some (String.◌++◌ "Participant " (decimal n))

unfoldable pub is_alphanumeric : ℕ → Bool
is_alphanumeric c =
    (leb b'A' c && leb c b'Z') || (leb b'a' c && leb c b'z') || (leb b'0' c && leb c b'9')

unfoldable pub all_alphanumeric : String → Bool
unfolding is_alphanumeric
all_alphanumeric String.[] = true
all_alphanumeric (String.◌∷◌ c s) = is_alphanumeric (code c) && all_alphanumeric s

unfoldable pub characters : String → ℕ
characters String.[] = 0
characters (String.◌∷◌ c s) = suc (characters s)

-- /^[A-Za-z0-9]{4,20}$/
unfoldable pub is_code_shaped : String → Bool
unfolding all_alphanumeric characters
is_code_shaped s = all_alphanumeric s && leb 4 (characters s) && leb (characters s) 20
