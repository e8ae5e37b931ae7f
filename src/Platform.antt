-- ===== src/Platform.antt =====
-- What the services call of the JavaScript engine's Unicode tables and of third-party packages:
-- text case, trimming, collation, and the password hash (bcryptjs).
use hernan_pedraza_pi_back.Prelude.{String, Bool, false, str_eq}

pub record Platform : Type 0 where
  pub trim : String → String
  pub to_lower : String → String
  pub to_upper : String → String
  -- a.localeCompare(b) < 0
  pub locale_before : String → String → Bool
  pub bcrypt_hash : String → String
  pub bcrypt_compare : String → String → Bool

-- A platform for concrete runs: no case, no blanks, and a hash that keeps the password.
abbrev pub plain_platform : Platform
plain_platform = record {
  trim = λ s. s;
  to_lower = λ s. s;
  to_upper = λ s. s;
  locale_before = λ s t. false;
  bcrypt_hash = λ s. s;
  bcrypt_compare = λ s t. str_eq s t;
}
