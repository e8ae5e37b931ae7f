-- ===== src/Auth/Credentials.antt =====
-- src/validators/auth.validator.js and the rule for passwords of src/schemas/validation-rules.js. A
-- text is measured in UTF-16 units, as the engine does.
use Prim.Native.Char.{code}
use hernan_pedraza_pi_back.Prelude.{
  ℕ, ◌+◌, String, Bool, true, false, not, ◌&&◌, ◌||◌, [], ◌∷◌, any, ltb, leb, ◌==◌, str_eq,
  if◌then◌else◌,
}
use hernan_pedraza_pi_back.Errors.{Result, ok, err, validation, refuse}
use hernan_pedraza_pi_back.Platform.{Platform}
use hernan_pedraza_pi_back.Participants.Text.{is_alphanumeric}

-- A field of a request: a text, a value that counts as false, or some other value.
pub data Input : Type 0 where
  missing other : Input
  text : String → Input

infixl 5 ◌&>◌
abbrev pub ◌&>◌ : Result (Unit {0}) → Result (Unit {0}) → Result (Unit {0})
ok _ &> r = r
err e &> r = err e

unfoldable pub utf16_length : String → ℕ
utf16_length String.[] = 0
utf16_length (String.◌∷◌ c s) = (if ltb (code c) 65536 then 1 else 2) + utf16_length s

-- \s of a regular expression.
unfoldable pub is_space : ℕ → Bool
is_space c =
    (leb 9 c && leb c 13)
    || any (λ x. x == c) (32 ∷ 160 ∷ 5760 ∷ 8232 ∷ 8233 ∷ 8239 ∷ 8287 ∷ 12288 ∷ 65279 ∷ [])
    || (leb 8192 c && leb c 8202)

-- /^[^\s@]+@[^\s@]+\.[^\s@]+$/ as an automaton: before the first character, in the name, after the
-- @, in the domain, after a dot that may end the domain, and behind such a dot.
pub data EmailState : Type 0 where
  start name at domain dot done refused : EmailState

abbrev next_char : EmailState → Bool → EmailState
next_char start is_dot = EmailState.name
next_char name is_dot = EmailState.name
next_char at is_dot = EmailState.domain
next_char domain is_dot = if is_dot then EmailState.dot else EmailState.domain
next_char dot is_dot = EmailState.done
next_char done is_dot = EmailState.done
next_char refused is_dot = EmailState.refused

abbrev next_at : EmailState → EmailState
next_at name = EmailState.at
next_at _ = EmailState.refused

unfoldable pub next_state : EmailState → ℕ → EmailState
unfolding is_space
next_state state c =
    if is_space c
    then EmailState.refused
    else if c == b'@'
    then next_at state
    else next_char state (c == b'.')

abbrev is_done : EmailState → Bool
is_done done = true
is_done _ = false

unfoldable pub email_from : EmailState → String → Bool
unfolding next_state
email_from state String.[] = is_done state
email_from state (String.◌∷◌ c s) = email_from (next_state state (code c)) s

unfoldable pub is_email : String → Bool
unfolding email_from
is_email s = email_from EmailState.start s

unfoldable pub validate_email : Input → Result (Unit {0})
unfolding is_email
validate_email (text s) =
    if str_eq s ""
    then err (validation "Email is required")
    else refuse (not (is_email s)) (validation "Invalid email format")
validate_email _ = err (validation "Email is required")

-- PASSWORD_REGEX, /^(?=.*[A-Za-z0-9])[\x20-\x7E]{8,128}$/.
unfoldable pub all_printable : String → Bool
all_printable String.[] = true
all_printable (String.◌∷◌ c s) = leb 32 (code c) && leb (code c) 126 && all_printable s

unfoldable pub some_alphanumeric : String → Bool
unfolding is_alphanumeric
some_alphanumeric String.[] = false
some_alphanumeric (String.◌∷◌ c s) = is_alphanumeric (code c) || some_alphanumeric s

unfoldable pub is_valid_password : String → Bool
unfolding all_printable some_alphanumeric utf16_length
is_valid_password s =
    some_alphanumeric s && all_printable s && leb 8 (utf16_length s) && leb (utf16_length s) 128

unfoldable pub validate_password : Input → Result (Unit {0})
unfolding is_valid_password
validate_password (text s) =
    if str_eq s ""
    then err (validation "Password is required")
    else if ltb (utf16_length s) 8
    then err (validation "Password must be at least 8 characters")
    else if ltb 128 (utf16_length s)
    then err (validation "Password must be less than 128 characters")
    else refuse (not (is_valid_password s)) (validation "Invalid password")
validate_password _ = err (validation "Password is required")

-- `role` of a registration: ADMIN and any other word is refused.
abbrev pub is_open_role : Input → Bool
is_open_role missing = true
is_open_role other = false
is_open_role (text s) = str_eq s "" || str_eq s "ATTENDEE" || str_eq s "DJ"

module _ (env : Platform) where
  unfoldable pub validate_display_name : Input → Result (Unit {0})
  unfolding utf16_length
  validate_display_name (text s) =
      if str_eq s ""
      then err (validation "Display name is required")
      else if ltb (utf16_length (env.trim s)) 2
      then err (validation "Display name must be at least 2 characters")
      else refuse (ltb 50 (utf16_length (env.trim s)))
          (validation "Display name must be less than 50 characters")
  validate_display_name _ = err (validation "Display name is required")

  unfoldable pub validate_registration : Input → Input → Input → Input → Result (Unit {0})
  unfolding validate_email validate_password validate_display_name
  validate_registration email password display_name role =
      validate_email email
      &> validate_password password
      &> validate_display_name display_name
      &> refuse (not (is_open_role role)) (validation "Invalid role. Must be ATTENDEE or DJ")

  abbrev falsy : Input → Bool
  falsy missing = true
  falsy other = false
  falsy (text s) = str_eq s ""

  -- email.trim().toLowerCase() === password.trim().toLowerCase(), once both are texts.
  abbrev same_text : Input → Input → Bool
  same_text (text s) (text t) = str_eq (env.to_lower (env.trim s)) (env.to_lower (env.trim t))
  same_text _ _ = false

  abbrev is_text : Input → Bool
  is_text (text s) = not (str_eq s "")
  is_text _ = false

  unfoldable pub validate_login : Input → Input → Result (Unit {0})
  unfolding validate_email validate_password
  validate_login email password =
      refuse (falsy email) (validation "Email is required")
      &> refuse (falsy password) (validation "Password is required")
      &> validate_email email
      &> refuse (not (is_text password)) (validation "Invalid password")
      &> validate_password password
      &> refuse (same_text email password) (validation "Invalid password")
