-- ===== src/Auth/Accounts.antt =====
-- src/services/auth.service.js: accounts, from their registration to the verification of their
-- address. Logging is left out.
use hernan_pedraza_pi_back.Prelude.{
  ℕ, ◌+◌, String, Bool, true, false, ◌&&◌, ◌||◌, Option, none, some, is_some, str_eq, if◌then◌else◌,
}
use hernan_pedraza_pi_back.Errors.{
  Result, ok, err, ApiError, validation, unauthorized, failure, guard, refuse, or_missing,
}
use hernan_pedraza_pi_back.Exec.{Exec, pure, lift, gets, update, ◌>>=◌, ◌>>◌}
use hernan_pedraza_pi_back.Mongo.{Mongo}
use hernan_pedraza_pi_back.Platform.{Platform}
use hernan_pedraza_pi_back.Models.{Role, User, Db}
use hernan_pedraza_pi_back.Auth.Credentials.{Input, text, validate_registration, validate_login}
use hernan_pedraza_pi_back.Auth.Tokens.{Jwt, build_auth_token, find_by_id}
use hernan_pedraza_pi_back.Auth.Mail.{Mailer, Mail, save_user, send_welcome_email}

pub record AccountView : Type 0 where
  pub id : ℕ
  pub email : Option String
  pub display_name : String
  pub profile_picture : Option String
  pub role : Role
  pub email_registered : Bool
  pub has_seen_tutorial : Bool

pub record SignedIn : Type 0 where
  pub token : Option String
  pub email_verification_token : Option String
  pub user : AccountView

abbrev pub account_view : User → AccountView
account_view u = record {
  id = u.id;
  email = u.email;
  display_name = u.display_name;
  profile_picture = u.profile_picture;
  role = u.role;
  email_registered = u.email_registered;
  has_seen_tutorial = u.has_seen_tutorial;
}

-- A validated text.
abbrev pub text_of : Input → String
text_of (text s) = s
text_of _ = ""

-- The role of a new account: any word but DJ counts as ATTENDEE.
abbrev pub caller_role : Input → Role
caller_role (text s) = if str_eq s "DJ" then Role.dj else Role.attendee
caller_role _ = Role.attendee

-- s.includes(t)
unfoldable pub begins_with : String → String → Bool
begins_with s String.[] = true
begins_with String.[] (String.◌∷◌ d t) = false
begins_with (String.◌∷◌ c s) (String.◌∷◌ d t) =
    str_eq (String.◌∷◌ c String.[]) (String.◌∷◌ d String.[]) && begins_with s t

unfoldable pub has_part : String → String → Bool
unfolding begins_with
has_part String.[] t = begins_with String.[] t
has_part (String.◌∷◌ c s) t = begins_with (String.◌∷◌ c s) t || has_part s t

-- The errors of sendWelcomeEmail that verifyEmail tells apart by their message.
unfoldable pub mail_error : ApiError → ApiError
unfolding has_part
mail_error (failure message) =
    if has_part message "cooldown"
    then validation "Please wait before requesting a new verification email"
    else if has_part message "Too many"
    then validation "Too many verification attempts. Please try again later"
    else failure message
mail_error e = e

module _ (m : Mongo) (env : Platform) (jwt : Jwt) (mailer : Mailer) where
  abbrev pub load_user : ℕ → Exec (Db m) User
  load_user u = do
    found ← gets (λ db. or_missing (find_by_id m jwt db u) "User not found")
    lift found

  abbrev pub find_by_email : Db m → String → Option User
  find_by_email db email =
      m.find_one User (λ x. str_eq_option x.email (env.to_lower email)) db.users
    where
      str_eq_option : Option String → String → Bool
      str_eq_option none s = false
      str_eq_option (some t) s = str_eq t s

  unfoldable pub new_user : ℕ → String → String → String → Role → User
  new_user i email password display_name role = record {
    id = i;
    email = some (env.to_lower (env.trim email));
    display_name = env.trim display_name;
    profile_picture = none;
    is_active = true;
    role = role;
    email_registered = false;
    has_seen_tutorial = false;
    password_hash = env.bcrypt_hash password;
    last_login_at = none;
    email_registered_at = none;
    email_verification_attempts = 0;
    email_verification_last_sent_at = none;
    email_verification_token_id = none;
    auth_token_version = 0;
  }

  abbrev mailed_token : Result Mail × Db m → Result (Option String) × Db m
  mailed_token (ok mail, db) = (ok mail.token, db)
  mailed_token (err e, db) = (ok none, db)

  -- The mail for a DJ; an error of it is caught.
  unfoldable pub welcome : ℕ → String → User → Exec (Db m) (Option String)
  welcome now token_id user db = elim user.role as (λ _. Result (Option String) × Db m) [
    | Role.dj ↦ mailed_token (send_welcome_email m jwt mailer now token_id user db)
    | Role.attendee ↦ (ok none, db)
  ]

  -- `i` is the identifier of the new user.
  unfoldable pub register : ℕ → ℕ → String → Input → Input → Input → Input → Exec (Db m) SignedIn
  unfolding new_user welcome
  register now i token_id email password display_name role = do
    _ ← lift (validate_registration env email password display_name role)
    existing ← gets (λ db. find_by_email db (text_of email))
    _ ← lift (refuse (is_some existing) (validation "User with this email already exists"))
    let user =
        new_user i (text_of email) (text_of password) (text_of display_name) (caller_role role)
    update (λ db. record db { users = m.create User user db.users })
    verification ← welcome now token_id user
    pure (record {
      token = some (build_auth_token jwt now user);
      email_verification_token = verification;
      user = record (account_view user) { display_name = text_of display_name };
    })

  -- The user as a login leaves it: older tokens name an older version.
  unfoldable pub logged_in : ℕ → User → User
  logged_in now user = record user {
    last_login_at = some now;
    auth_token_version = user.auth_token_version + 1;
  }

  abbrev pub credentials : Option User → Result User
  credentials none = err (unauthorized "Invalid email or password")
  credentials (some u) = ok u

  unfoldable pub login : ℕ → Input → Input → Exec (Db m) SignedIn
  unfolding logged_in
  login now email password = do
    _ ← lift (validate_login env email password)
    found ← gets (λ db. find_by_email db (text_of email))
    user ← lift (credentials found)
    _ ← lift (
        guard (env.bcrypt_compare (text_of password) user.password_hash)
          (unauthorized "Invalid email or password"))
    update (save_user m jwt mailer (logged_in now user))
    pure (record {
      token = some (build_auth_token jwt now (logged_in now user));
      email_verification_token = none;
      user = account_view user;
    })

  unfoldable pub logout : ℕ → Exec (Db m) Bool
  logout u = do
    user ← load_user u
    update
        (save_user m jwt mailer (record user { auth_token_version = user.auth_token_version + 1 }))
    pure true
