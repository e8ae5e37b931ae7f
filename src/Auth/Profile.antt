-- ===== src/Auth/Profile.antt =====
-- src/services/auth.service.js: what users read and change of their own account.
use hernan_pedraza_pi_back.Prelude.{
  ℕ, String, Bool, true, not, ◌&&◌, Option, none, some, ltb, str_eq, if◌then◌else◌,
}
use hernan_pedraza_pi_back.Errors.{Result, ok, err, validation, refuse}
use hernan_pedraza_pi_back.Exec.{Exec, pure, lift, update, ◌>>=◌, ◌>>◌}
use hernan_pedraza_pi_back.Mongo.{Mongo}
use hernan_pedraza_pi_back.Platform.{Platform}
use hernan_pedraza_pi_back.Models.{User, Db}
use hernan_pedraza_pi_back.Auth.Credentials.{utf16_length}
use hernan_pedraza_pi_back.Auth.Tokens.{Jwt}
use hernan_pedraza_pi_back.Auth.Mail.{Mailer, save_user}
use hernan_pedraza_pi_back.Auth.Accounts.{AccountView, account_view, load_user}

-- The fields that only the current user reads.
pub record CurrentUser : Type 0 where
  pub account : AccountView
  pub last_login_at : Option ℕ
  pub email_registered_at : Option ℕ

-- `if (!userId)`
abbrev given : Option ℕ → Result ℕ
given none = err (validation "This field is required")
given (some u) = ok u

module _ (m : Mongo) (env : Platform) (jwt : Jwt) (mailer : Mailer) where
  unfoldable pub get_current_user : ℕ → Exec (Db m) CurrentUser
  get_current_user u = do
    user ← load_user m env jwt mailer u
    pure (record {
      account = account_view user;
      last_login_at = user.last_login_at;
      email_registered_at = user.email_registered_at;
    })

  unfoldable pub mark_own_tutorial_as_seen : ℕ → Exec (Db m) Bool
  mark_own_tutorial_as_seen u = do
    user ← load_user m env jwt mailer u
    update (save_user m jwt mailer (record user { has_seen_tutorial = true }))
    pure true

  abbrev is_short : Option String → Bool
  is_short none = Bool.false
  is_short (some s) = not (str_eq s "") && ltb (utf16_length (env.trim s)) 2

  -- A display name that is missing or empty leaves the old one.
  abbrev with_display_name : Option String → User → User
  with_display_name none user = user
  with_display_name (some s) user =
      if str_eq s "" then user else record user { display_name = env.trim s }

  unfoldable pub update_account : Option ℕ → Option String → Exec (Db m) AccountView
  unfolding utf16_length
  update_account user_id display_name = do
    u ← lift (given user_id)
    _ ←
        lift
          (refuse (is_short display_name) (validation "Display name must be at least 2 characters"))
    user ← load_user m env jwt mailer u
    update (save_user m jwt mailer (with_display_name display_name user))
    pure (account_view (with_display_name display_name user))

  -- A picture that is neither a text nor null is refused before; `none` stands for null.
  unfoldable pub update_profile_picture : Option ℕ → Option String → Exec (Db m) AccountView
  update_profile_picture user_id picture = do
    u ← lift (given user_id)
    user ← load_user m env jwt mailer u
    update (save_user m jwt mailer (record user { profile_picture = picture }))
    pure (account_view (record user { profile_picture = picture }))
