-- ===== src/Auth/Mail.antt =====
-- src/services/email.service.js: sendWelcomeEmail, with its limits on repetition. The mail itself,
-- its template and the identifier that makes a repeated send harmless are left to the delivery
-- service, a parameter.
use Prim.Native.String
use hernan_pedraza_pi_back.Prelude.{
  ℕ, ◌+◌, ◌-◌, ◌/◌, String, Bool, false, ◌&&◌, Option, none, some, ltb, leb, ◌==◌, if◌then◌else◌,
}
use hernan_pedraza_pi_back.Errors.{Result, ok, err, failure, refuse}
use hernan_pedraza_pi_back.Exec.{Exec, lift, update, ◌>>=◌, ◌>>◌}
use hernan_pedraza_pi_back.Mongo.{Mongo}
use hernan_pedraza_pi_back.Models.{User, Db}
use hernan_pedraza_pi_back.Participants.Text.{decimal}
use hernan_pedraza_pi_back.Auth.Tokens.{Payload, Jwt, generate_token}

-- The answer of the delivery service.
pub data Delivery : Type 0 where
  delivered : Option String → Delivery
  undelivered : String → Delivery

-- The environment: DEBUG_EMAIL, canExposeVerificationToken, and the service if there is a key for
-- it, which sends a token to an address.
pub record Mailer : Type 0 where
  pub debug_email : Bool
  pub can_expose_verification_token : Bool
  pub resend : Option (Option String → String → Delivery)

pub record Mail : Type 0 where
  pub message_id : Option String
  pub token : Option String

abbrev pub cooldown_ms : Mailer → ℕ
cooldown_ms mailer = if mailer.debug_email then 0 else 300000

-- 24 hours.
abbrev pub attempt_window_ms : ℕ
attempt_window_ms = 86400000

abbrev pub max_attempts : ℕ
max_attempts = 5

-- Math.ceil(ms / 1000)
abbrev seconds : ℕ → ℕ
seconds ms = (ms + 999) / 1000

unfoldable pub check_cooldown_since : ℕ → Mailer → Option ℕ → Result (Unit {0})
unfolding decimal
check_cooldown_since now mailer none = ok tt
check_cooldown_since now mailer (some last) =
    refuse (ltb 0 (cooldown_ms mailer) && ltb now (last + cooldown_ms mailer)) (
      failure (
        String.◌++◌ "Email verification cooldown active. Wait "
          (String.◌++◌ (decimal (seconds (last + cooldown_ms mailer - now))) "s")))

abbrev pub is_recent : ℕ → Option ℕ → Bool
is_recent now none = false
is_recent now (some last) = ltb now (last + attempt_window_ms)

unfoldable pub check_attempts : ℕ → Mailer → User → Result (Unit {0})
check_attempts now mailer user =
    refuse
      (is_recent now user.email_verification_last_sent_at
        && leb max_attempts user.email_verification_attempts
        && ltb 0 (cooldown_ms mailer))
      (failure "Too many verification attempts. Try again in 24 hours")

-- The user as the mail leaves it, with the identifier of the newest token.
unfoldable pub asked_to_verify : ℕ → String → User → User
asked_to_verify now token_id user = record user {
  email_verification_attempts = user.email_verification_attempts + 1;
  email_verification_last_sent_at = some now;
  email_verification_token_id = some token_id;
}

abbrev sent_or_failed : Delivery → Result Mail
sent_or_failed (delivered id) = ok (record { message_id = id; token = none })
sent_or_failed (undelivered message) = err (failure message)

abbrev pub deliver : Mailer → User → String → Result Mail
deliver mailer user token =
    if mailer.debug_email
    then ok (record { message_id = none; token = some token })
    else (elim mailer.resend as (λ _. Result Mail) [
      | none ↦ ok (record {
        message_id = none;
        token = if mailer.can_expose_verification_token then some token else none;
      })
      | some send ↦ sent_or_failed (send user.email token)
    ])

module _ (m : Mongo) (jwt : Jwt) (mailer : Mailer) where
  abbrev pub save_user : User → Db m → Db m
  save_user user db = record db { users = m.save User (λ x. x.id == user.id) user db.users }

  abbrev pub verification_payload : User → String → Payload
  verification_payload user token_id = record {
    user_id = user.id;
    email = user.email;
    role = none;
    kind = some "email-verification";
    token_version = none;
    verification_token_id = some token_id;
  }

  -- `token_id` is the random identifier of the token. The caller's document changes too, so it comes
  -- back with the mail.
  unfoldable pub send_welcome_email : ℕ → String → User → Exec (Db m) Mail
  unfolding check_cooldown_since check_attempts asked_to_verify generate_token
  send_welcome_email now token_id user = do
    _ ← lift (check_cooldown_since now mailer user.email_verification_last_sent_at)
    _ ← lift (check_attempts now mailer user)
    let token = generate_token jwt now "5m" (verification_payload user token_id)
    update (save_user (asked_to_verify now token_id user))
    lift (deliver mailer user token)
