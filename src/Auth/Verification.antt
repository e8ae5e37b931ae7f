-- ===== src/Auth/Verification.antt =====
-- src/services/auth.service.js: verifyEmailToken called again with the same link.
use hernan_pedraza_pi_back.Prelude.{
  ℕ, ◌≡◌, refl, sym, ap, ◌∙◌, String, Bool, true, false, Option, none, some, str_eq, inl, inr,
  if◌then◌else◌,
}
use hernan_pedraza_pi_back.Errors.{Result, ok, err, unauthorized, guard, Returns, Result-cases}
use hernan_pedraza_pi_back.Exec.{ok-lift}
use hernan_pedraza_pi_back.Mongo.{Mongo}
use hernan_pedraza_pi_back.Platform.{Platform}
use hernan_pedraza_pi_back.Models.{User, Db}
use hernan_pedraza_pi_back.Auth.Credentials.{Input, missing, other, text}
use hernan_pedraza_pi_back.Auth.Tokens.{Payload, Jwt, find_by_id}
use hernan_pedraza_pi_back.Auth.Mail.{Mailer, save_user}
use hernan_pedraza_pi_back.Auth.Verifying.{
  Verified, already_verified, accept_token, verify_email_token, email_verified, read_link,
  or_invalid_link, is_kind, token_id_or, user_or_type_error, is_dj_account,
}
use hernan_pedraza_pi_back.Auth.Revocation.{KeepsPayload, saved-found}

module _ (jwt : Jwt) (keeps : KeepsPayload jwt) where
  -- A link that is read twice carries one payload.
  read_text-keeps :
      (now later : ℕ) (t : String) (b : Bool) (p p' : Payload)
      → (if b
          then err (unauthorized "Verification token is missing")
          else or_invalid_link (jwt.verify now t))
        ≡ ok p
      → (if b
          then err (unauthorized "Verification token is missing")
          else or_invalid_link (jwt.verify later t))
        ≡ ok p'
      → p ≡ p'
  read_text-keeps now later t true p p' h h' = cc
  read_text-keeps now later t false p p' h h' =
      keeps t now later p p' (ok-or_invalid_link (jwt.verify now t) p h)
        (ok-or_invalid_link (jwt.verify later t) p' h')
    where
      ok-or_invalid_link : (r : Result Payload) (q : Payload) → or_invalid_link r ≡ ok q → r ≡ ok q
      ok-or_invalid_link (ok q') q e = e
      ok-or_invalid_link (err e') q e = cc

  read_link-keeps :
      (now later : ℕ) (token : Input) (p p' : Payload)
      → read_link jwt now token ≡ ok p
      → read_link jwt later token ≡ ok p'
      → p ≡ p'
  read_link-keeps now later missing p p' h h' = cc
  read_link-keeps now later other p p' h h' = cc
  read_link-keeps now later (text t) p p' h h' = read_text-keeps now later t (str_eq t "") p p' h h'

ok-user_or_type_error : (o : Option User) (u : User) → user_or_type_error o ≡ ok u → o ≡ some u
ok-user_or_type_error none u h = cc
ok-user_or_type_error (some v) u h = cc

module _ (m : Mongo) (env : Platform) (jwt : Jwt) (mailer : Mailer) where
  -- Whom a link that is taken belongs to, and what the call does then.
  verify_email_token-takes :
      (db : Db m) (now : ℕ) (token : Input) (v : Verified) (C : Type 0)
      → (verify_email_token m env jwt mailer now token db).0 ≡ ok v
      → ((p : Payload) (u : User) (i : String)
          → read_link jwt now token ≡ ok p
          → find_by_id m jwt db p.user_id ≡ some u
          → token_id_or u.email_verification_token_id
              (unauthorized "Verification token already used or replaced")
            ≡ ok i
          → verify_email_token m env jwt mailer now token db
            ≡ (if u.email_registered
                  then already_verified m env jwt mailer u
                  else accept_token m env jwt mailer now u)
                db
          → C)
      → C
  unfolding verify_email_token
  verify_email_token-takes db now token v C h k =
      ok-lift (read_link jwt now token) _ db v h (λ p e1 h1.
        ok-lift (guard (is_kind p.kind "email-verification") _) _ db v h1 (λ _ e2 h2.
          ok-lift (token_id_or p.verification_token_id _) _ db v h2 (λ i e3 h3.
            ok-lift (user_or_type_error (find_by_id m jwt db p.user_id)) _ db v h3 (λ u e4 h4.
              ok-lift (guard (is_dj_account u.role) _) _ db v h4 (λ _ e5 h5.
                ok-lift (token_id_or u.email_verification_token_id _) _ db v h5 (λ j e6 h6.
                  ok-lift (guard (str_eq i j) _) _ db v h6 (λ _ e7 h7.
                    k p u j e1 (ok-user_or_type_error (find_by_id m jwt db p.user_id) u e4) e6
                      (rw (e1, e2, e3, e4, e5, e6, e7) refl))))))))

  -- The users after a link verified an address.
  accepted :
      (db : Db m) (now : ℕ) (u : User) (b : Bool) (v : Verified) (t : String)
      → ((if b then already_verified m env jwt mailer u else accept_token m env jwt mailer now u)
          db).0
        ≡ ok v
      → v.token ≡ some t
      → ((if b then already_verified m env jwt mailer u else accept_token m env jwt mailer now u)
          db).1
        ≡ save_user m jwt mailer (email_verified m env jwt mailer now u) db
  accepted db now u true v t h some_token = cc
  accepted db now u false v t h some_token = refl

  -- A link that has verified an address, and brought a new session token, is refused at any time
  -- from then on. Tokens keep their payload.
  pub verify_email_token-Once :
      (db : Db m) (now later : ℕ) (token : Input) (v : Verified) (t : String)
      → KeepsPayload jwt
      → (verify_email_token m env jwt mailer now token db).0 ≡ ok v
      → v.token ≡ some t
      → ¬ Returns
          (verify_email_token m env jwt mailer later token
            (verify_email_token m env jwt mailer now token db).1).0
  unfolding email_verified
  verify_email_token-Once db now later token v t keeps h some_token =
      let after : Db m = (verify_email_token m env jwt mailer now token db).1 in
      verify_email_token-takes db now token v _ h (λ p u i link found _ does.
        let value : ((if u.email_registered
                then already_verified m env jwt mailer u
                else accept_token m env jwt mailer now u)
              db).0
            ≡ ok v =
          (ap (λ r. r.0) (sym does) ∙ h) in
        let saved : after ≡ save_user m jwt mailer (email_verified m env jwt mailer now u) db =
          (ap (λ r. r.1) does ∙ accepted db now u u.email_registered v t value some_token) in
        let held : find_by_id m jwt after p.user_id ≡ some (email_verified m env jwt mailer now u) =
          (ap (λ d. find_by_id m jwt d p.user_id) saved
            ∙ saved-found m jwt mailer db u (email_verified m env jwt mailer now u) p.user_id found
                refl) in
        elim (Result-cases (verify_email_token m env jwt mailer later token after).0) [
          | inr (e, refused) ↦ (λ r. rw refused at r)
          | inl (v', again) ↦ (λ _.
              verify_email_token-takes after later token v' ⊥ again
                (λ p' u' i' link' found' open_id _.
                  let same : p ≡ p' = read_link-keeps jwt keeps now later token p p' link link' in
                  let one : some u' ≡ some (email_verified m env jwt mailer now u) =
                    (sym found' ∙ ap (λ q. find_by_id m jwt after q.user_id) (sym same) ∙ held) in
                  let u_new : u' ≡ email_verified m env jwt mailer now u = cc in
                  let none_left : token_id_or none
                        (unauthorized "Verification token already used or replaced")
                      ≡ ok i' =
                    (ap
                        (λ x.
                          token_id_or x.email_verification_token_id
                            (unauthorized "Verification token already used or replaced"))
                        (sym u_new)
                      ∙ open_id) in
                  cc))
        ])
