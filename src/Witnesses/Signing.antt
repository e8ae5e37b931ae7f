-- ===== src/Witnesses/Signing.antt =====
-- A DJ with an account, and a package for tokens that knows three of them.
use hernan_pedraza_pi_back.Prelude.{
  ℕ, zero, suc, ◌≡◌, refl, String, true, false, Option, none, some, [], ◌∷◌, Memᴰ, str_eq,
  if◌then◌else◌,
}
use hernan_pedraza_pi_back.Errors.{ok, err, failure, Returns}
use hernan_pedraza_pi_back.Mongo.{list_mongo}
use hernan_pedraza_pi_back.Platform.{plain_platform}
use hernan_pedraza_pi_back.Models.{Role, User, Db}
use hernan_pedraza_pi_back.Auth.Credentials.{Input, text, validate_login}
use hernan_pedraza_pi_back.Auth.Tokens.{
  Payload, Jwt, auth_payload, token_payload, build_auth_token, validate_default_token,
}
use hernan_pedraza_pi_back.Auth.Mail.{Mailer}
use hernan_pedraza_pi_back.Auth.Accounts.{SignedIn, account_view, login, logout, logged_in}
use hernan_pedraza_pi_back.Auth.Verifying.{Verified, verify_email_token}
use hernan_pedraza_pi_back.Auth.Revocation.{KeepsPayload, FindsById, login-Revoked, logout-Revoked}
use hernan_pedraza_pi_back.Auth.Sessions.{login-validate_default_token}
use hernan_pedraza_pi_back.Auth.Verification.{verify_email_token-Once}
use hernan_pedraza_pi_back.Witnesses.Samples.{db}

abbrev host : User
host = record {
  id = 9;
  email = some "dj@x.io";
  display_name = "Host";
  profile_picture = none;
  is_active = true;
  role = Role.dj;
  email_registered = false;
  has_seen_tutorial = false;
  password_hash = "password1";
  last_login_at = none;
  email_registered_at = none;
  email_verification_attempts = 1;
  email_verification_last_sent_at = some 10;
  email_verification_token_id = some "a";
  auth_token_version = 0;
}

abbrev hosted : Db list_mongo
hosted = record db { users = host ∷ [] }

abbrev link_payload : Payload
link_payload = record {
  user_id = 9;
  email = some "dj@x.io";
  role = none;
  kind = some "email-verification";
  token_version = none;
  verification_token_id = some "a";
}

abbrev name_of_version : Option ℕ → String
name_of_version none = "link"
name_of_version (some zero) = "old"
name_of_version (some (suc n)) = "new"

abbrev newer : User → User
newer u = record u { auth_token_version = 1 }

abbrev three_tokens : Jwt
three_tokens = record {
  sign = λ now expires_in p. name_of_version p.token_version;
  verify = λ now t.
      if str_eq t "link"
      then ok link_payload
      else if str_eq t "old"
      then ok (auth_payload host)
      else if str_eq t "new"
      then ok (auth_payload (newer host))
      else err (failure "invalid signature");
  expiry = "7d";
}

abbrev no_mail : Mailer
no_mail = record { debug_email = false; can_expose_verification_token = false; resend = none }

keeps : KeepsPayload three_tokens
keeps t n n' p p' e e' = cc

finds : FindsById list_mongo three_tokens hosted
finds x (Memᴰ.head e) = rw e refl
finds x (Memᴰ.tail there) = elim there [ ]

abbrev address : Input
address = text "dj@x.io"

abbrev secret : Input
secret = text "password1"

old_token_validates :
    (validate_default_token list_mongo three_tokens 200 "old" hosted).0
    ≡ ok (auth_payload host, host)
unfolding validate_default_token
old_token_validates = refl

abbrev entered : SignedIn
entered = record { token = some "new"; email_verification_token = none; user = account_view host }

host_logs_in :
    (login list_mongo plain_platform three_tokens no_mail 200 address secret hosted).0 ≡ ok entered
unfolding login validate_login build_auth_token logged_in
host_logs_in = refl

login-Revoked_example :
    ¬ Returns
      (validate_default_token list_mongo three_tokens 300 "old"
        (login list_mongo plain_platform three_tokens no_mail 200 address secret hosted).1).0
login-Revoked_example =
    login-Revoked list_mongo plain_platform three_tokens no_mail hosted 200 300 address secret
      entered "old" (auth_payload host) host keeps finds old_token_validates host_logs_in refl

logout-Revoked_example :
    ¬ Returns
      (validate_default_token list_mongo three_tokens 300 "old"
        (logout list_mongo plain_platform three_tokens no_mail 9 hosted).1).0
logout-Revoked_example =
    logout-Revoked list_mongo plain_platform three_tokens no_mail hosted 200 300 "old"
      (auth_payload host) host keeps old_token_validates

new_token_verifies :
    three_tokens.verify 300 (
      build_auth_token three_tokens 200
        (logged_in list_mongo plain_platform three_tokens no_mail 200 host))
    ≡ ok (
        token_payload
          (auth_payload (logged_in list_mongo plain_platform three_tokens no_mail 200 host)))
unfolding build_auth_token logged_in
new_token_verifies = refl

login-validate_default_token_example :
    (validate_default_token list_mongo three_tokens 300 "new"
      (login list_mongo plain_platform three_tokens no_mail 200 address secret hosted).1).0
    ≡ ok (
      token_payload
          (auth_payload (logged_in list_mongo plain_platform three_tokens no_mail 200 host)),
      logged_in list_mongo plain_platform three_tokens no_mail 200 host,
    )
login-validate_default_token_example =
    login-validate_default_token list_mongo plain_platform three_tokens no_mail hosted 200 300
      address secret entered host "new" finds new_token_verifies host_logs_in refl refl refl

abbrev confirmed : Verified
confirmed = record {
  token = some "old";
  user = record (account_view host) { email_registered = true };
}

link_verifies :
    (verify_email_token list_mongo plain_platform three_tokens no_mail 200 (text "link") hosted).0
    ≡ ok confirmed
unfolding verify_email_token build_auth_token
link_verifies = refl

verify_email_token-Once_example :
    ¬ Returns
      (verify_email_token list_mongo plain_platform three_tokens no_mail 300
        (text "link")
        (verify_email_token list_mongo plain_platform three_tokens no_mail 200
          (text "link")
          hosted).1).0
verify_email_token-Once_example =
    verify_email_token-Once list_mongo plain_platform three_tokens no_mail hosted 200 300
      (text "link") confirmed "old" keeps link_verifies refl
