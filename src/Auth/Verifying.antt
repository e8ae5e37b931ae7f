-- ===== src/Auth/Verifying.antt =====
-- src/services/auth.service.js: verifyEmail, which mails a new token, and verifyEmailToken, which
-- takes one back.
use hernan_pedraza_pi_back.Prelude.{
  ℕ, String, Bool, true, false, Option, none, some, str_eq, if◌then◌else◌,
}
use hernan_pedraza_pi_back.Errors.{
  Result, ok, err, ApiError, validation, unauthorized, failure, guard, refuse,
}
use hernan_pedraza_pi_back.Exec.{Exec, pure, lift, gets, update, ◌>>=◌, ◌>>◌}
use hernan_pedraza_pi_back.Mongo.{Mongo}
use hernan_pedraza_pi_back.Platform.{Platform}
use hernan_pedraza_pi_back.Models.{Role, User, Db}
use hernan_pedraza_pi_back.Auth.Credentials.{Input, text, missing, other}
use hernan_pedraza_pi_back.Auth.Tokens.{Payload, Jwt, build_auth_token, find_by_id}
use hernan_pedraza_pi_back.Auth.Mail.{Mailer, Mail, save_user, send_welcome_email}
use hernan_pedraza_pi_back.Auth.Accounts.{AccountView, account_view, load_user, mail_error}

-- `token` is missing when the address was verified before.
pub record Verified : Type 0 where
  pub token : Option String
  pub user : AccountView

abbrev pub is_dj_account : Role → Bool
is_dj_account Role.dj = true
is_dj_account Role.attendee = false

-- A call of verifyToken whose error is replaced.
abbrev pub or_invalid_link : Result Payload → Result Payload
or_invalid_link (ok p) = ok p
or_invalid_link (err e) = err (unauthorized "Invalid or expired verification link")

abbrev pub read_link : Jwt → ℕ → Input → Result Payload
read_link jwt now missing = err (unauthorized "Verification token is missing")
read_link jwt now other = err (unauthorized "Invalid token format")
read_link jwt now (text t) =
    if str_eq t ""
    then err (unauthorized "Verification token is missing")
    else or_invalid_link (jwt.verify now t)

abbrev pub is_kind : Option String → String → Bool
is_kind none kind = false
is_kind (some k) kind = str_eq k kind

-- An identifier that is missing or empty.
abbrev pub token_id_or : Option String → ApiError → Result String
token_id_or none e = err e
token_id_or (some i) e = if str_eq i "" then err e else ok i

-- The message for a missing user is read off `messages.AUTH.USER`, which is undefined.
abbrev pub user_or_type_error : Option User → Result User
user_or_type_error none =
    err (failure "Cannot read properties of undefined (reading 'USER_NOT_FOUND')")
user_or_type_error (some u) = ok u

module _ (m : Mongo) (env : Platform) (jwt : Jwt) (mailer : Mailer) where
  abbrev with_mail_error : Result Mail × Db m → Result (Option String) × Db m
  with_mail_error (ok mail, db) = (ok mail.token, db)
  with_mail_error (err e, db) = (err (mail_error e), db)

  unfoldable pub verify_email : ℕ → String → ℕ → Exec (Db m) (Option String)
  unfolding mail_error send_welcome_email
  verify_email now token_id u = do
    user ← load_user m env jwt mailer u
    _ ← lift (refuse user.email_registered (validation "Email already verified"))
    _ ←
        lift (
          guard (is_dj_account user.role)
            (validation "Only DJ accounts require email verification"))
    (λ db. with_mail_error (send_welcome_email m jwt mailer now token_id user db))

  -- The user once its address is verified.
  unfoldable pub email_verified : ℕ → User → User
  email_verified now user = record user {
    email_registered = true;
    email_registered_at = some now;
    email_verification_token_id = none;
  }

  abbrev pub accept_token : ℕ → User → Exec (Db m) Verified
  accept_token now user = do
    update (save_user m jwt mailer (email_verified now user))
    pure (record {
      token = some (build_auth_token jwt now (email_verified now user));
      user = account_view (email_verified now user);
    })

  abbrev pub already_verified : User → Exec (Db m) Verified
  already_verified user = pure (record { token = none; user = account_view user })

  unfoldable pub verify_email_token : ℕ → Input → Exec (Db m) Verified
  unfolding email_verified
  verify_email_token now token = do
    decoded ← lift (read_link jwt now token)
    _ ← lift (guard (is_kind decoded.kind "email-verification") (unauthorized "Invalid token type"))
    token_id ←
        lift (token_id_or decoded.verification_token_id (unauthorized "Invalid verification token"))
    found ← gets (λ db. find_by_id m jwt db decoded.user_id)
    user ← lift (user_or_type_error found)
    _ ←
        lift (
          guard (is_dj_account user.role)
            (validation "Only DJ accounts require email verification"))
    newest ← lift (
        token_id_or user.email_verification_token_id
          (unauthorized "Verification token already used or replaced"))
    _ ← lift (
        guard (str_eq token_id newest) (unauthorized "Verification token already used or replaced"))
    (λ db. (if user.email_registered then already_verified user else accept_token now user) db)
