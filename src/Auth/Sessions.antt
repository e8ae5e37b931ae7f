-- ===== src/Auth/Sessions.antt =====
-- src/services/auth.service.js: the token of a login against validateDefaultToken.
use hernan_pedraza_pi_back.Prelude.{
  ℕ, ◌≡◌, refl, sym, ap, ◌∙◌, String, true, some, Memᴰ, ==_refl, find?-mem,
}
use hernan_pedraza_pi_back.Errors.{ok}
use hernan_pedraza_pi_back.Mongo.{Mongo, find_one_lem}
use hernan_pedraza_pi_back.Platform.{Platform}
use hernan_pedraza_pi_back.Models.{User, Db}
use hernan_pedraza_pi_back.Auth.Credentials.{Input}
use hernan_pedraza_pi_back.Auth.Tokens.{
  Jwt, auth_payload, token_payload, build_auth_token, find_by_id, validate_default_token,
}
use hernan_pedraza_pi_back.Auth.Mail.{Mailer, save_user}
use hernan_pedraza_pi_back.Auth.Accounts.{SignedIn, text_of, find_by_email, login, logged_in}
use hernan_pedraza_pi_back.Auth.Revocation.{FindsById, login-saves, saved-found}

module _ (m : Mongo) (env : Platform) (jwt : Jwt) (mailer : Mailer) where
  -- The payload of a user's token is accepted as long as the user is active and has that version.
  fresh-Valid :
      (db : Db m) (now later : ℕ) (u : User)
      → jwt.verify later (build_auth_token jwt now u) ≡ ok (token_payload (auth_payload u))
      → find_by_id m jwt db u.id ≡ some u
      → u.is_active ≡ true
      → (validate_default_token m jwt later (build_auth_token jwt now u) db).0
        ≡ ok (token_payload (auth_payload u), u)
  unfolding validate_default_token token_payload
  fresh-Valid db now later u verified found active =
      rw (verified, found, active, ==_refl u.auth_token_version) refl

  -- The token that an active user's login returns is validated against the database that the
  -- login leaves, and stands for that user. The token verifies with the payload that it was signed
  -- with, and the database finds each user by its identifier.
  pub login-validate_default_token :
      (db : Db m) (now later : ℕ) (email password : Input) (s : SignedIn) (u : User) (t : String)
      → FindsById m jwt db
      → jwt.verify later (build_auth_token jwt now (logged_in m env jwt mailer now u))
        ≡ ok (token_payload (auth_payload (logged_in m env jwt mailer now u)))
      → (login m env jwt mailer now email password db).0 ≡ ok s
      → s.token ≡ some t
      → find_by_email m env jwt mailer db (text_of email) ≡ some u
      → u.is_active ≡ true
      → (validate_default_token m jwt later t (login m env jwt mailer now email password db).1).0
        ≡ ok (
          token_payload (auth_payload (logged_in m env jwt mailer now u)),
          logged_in m env jwt mailer now u,
        )
  unfolding logged_in
  login-validate_default_token db now later email password s u t finds verified signed_in some_token
        known active =
      login-saves m env jwt mailer db now email password s _ signed_in (λ v found saved _ made.
        let one : some v ≡ some u = sym found ∙ known in
        let v_u : v ≡ u = cc in
        let new : User = logged_in m env jwt mailer now u in
        let there : Memᴰ u (m.docs User db.users) =
          (find?-mem _ (m.docs User db.users) u (sym (find_one_lem m _ db.users) ∙ known)).0 in
        let token : build_auth_token jwt now new ≡ t =
          (let two : some (build_auth_token jwt now new) ≡ some t =
              (ap (λ x. some (build_auth_token jwt now (logged_in m env jwt mailer now x)))
                  (sym v_u)
                ∙ sym made
                ∙ some_token) in
            cc) in
        let after : (login m env jwt mailer now email password db).1
            ≡ save_user m jwt mailer new db =
          (saved ∙ ap (λ x. save_user m jwt mailer (logged_in m env jwt mailer now x) db) v_u) in
        let held : find_by_id m jwt (save_user m jwt mailer new db) u.id ≡ some new =
          saved-found m jwt mailer db u new u.id (finds u there) refl in
        ap (λ d. (validate_default_token m jwt later t d).0) after
        ∙ ap (λ x. (validate_default_token m jwt later x (save_user m jwt mailer new db)).0)
            (sym token)
        ∙ fresh-Valid (save_user m jwt mailer new db) now later new verified held active)
