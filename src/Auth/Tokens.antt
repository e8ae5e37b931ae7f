-- ===== src/Auth/Tokens.antt =====
-- src/utils/jwt.utils.js, and buildAuthToken and validateDefaultToken of src/services/auth.service.js.
-- Tokens are signed and checked by the package jsonwebtoken, which enters as a record.
use hernan_pedraza_pi_back.Prelude.{
  ℕ, String, Bool, true, ◌||◌, Option, none, some, ◌==◌, str_eq, if◌then◌else◌,
}
use hernan_pedraza_pi_back.Errors.{Result, ok, err, unauthorized, guard}
use hernan_pedraza_pi_back.Exec.{Exec, pure, lift, gets, ◌>>=◌}
use hernan_pedraza_pi_back.Mongo.{Mongo}
use hernan_pedraza_pi_back.Models.{Role, User, Db}

pub record Payload : Type 0 where
  pub user_id : ℕ
  pub email : Option String
  pub role : Option Role
  pub kind : Option String
  pub token_version : Option ℕ
  pub verification_token_id : Option String

-- jwt.sign at a time, for a time to live, and jwt.verify at a time, with the server's secret.
pub record Jwt : Type 0 where
  pub sign : ℕ → String → Payload → String
  pub verify : ℕ → String → Result Payload
  -- config.jwtExpiry
  pub expiry : String

abbrev pub truthy_text : Option String → Option String
truthy_text none = none
truthy_text (some s) = if str_eq s "" then none else some s

-- What generateToken keeps of its argument.
unfoldable pub token_payload : Payload → Payload
token_payload p = record p {
  email = truthy_text p.email;
  kind = truthy_text p.kind;
  verification_token_id = truthy_text p.verification_token_id;
}

abbrev pub is_default : Option String → Bool
is_default none = true
is_default (some kind) = str_eq kind "" || str_eq kind "default"

abbrev pub auth_payload : User → Payload
auth_payload u = record {
  user_id = u.id;
  email = u.email;
  role = some u.role;
  kind = some "default";
  token_version = some u.auth_token_version;
  verification_token_id = none;
}

module _ (jwt : Jwt) where
  unfoldable pub generate_token : ℕ → String → Payload → String
  unfolding token_payload
  generate_token now expires_in p = jwt.sign now expires_in (token_payload p)

  unfoldable pub build_auth_token : ℕ → User → String
  unfolding generate_token
  build_auth_token now u = generate_token now jwt.expiry (auth_payload u)

module _ (m : Mongo) (jwt : Jwt) where
  abbrev pub find_by_id : Db m → ℕ → Option User
  find_by_id db u = m.find_one User (λ x. x.id == u) db.users

  abbrev pub or_invalid_token {ℓ} : {A : Type ℓ} → Option A → Result A
  or_invalid_token none = err (unauthorized "Invalid or expired token")
  or_invalid_token (some a) = ok a

  unfoldable pub validate_default_token : ℕ → String → Exec (Db m) (Payload × User)
  validate_default_token now token = do
    decoded ← lift (jwt.verify now token)
    _ ← lift (guard (is_default decoded.kind) (unauthorized "Invalid token type"))
    version ← lift (or_invalid_token decoded.token_version)
    found ← gets (λ db. find_by_id db decoded.user_id)
    user ← lift (or_invalid_token found)
    _ ← lift (guard user.is_active (unauthorized "Invalid or expired token"))
    _ ← lift (guard (user.auth_token_version == version) (unauthorized "Invalid or expired token"))
    pure (decoded, user)
