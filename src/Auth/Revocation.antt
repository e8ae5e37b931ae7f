-- ===== src/Auth/Revocation.antt =====
-- src/services/auth.service.js: a login or a logout against the tokens that were given out before.
use hernan_pedraza_pi_back.Prelude.{
  ℕ, ◌+◌, ◌≡◌, refl, sym, ap, ◌∙◌, String, true, Option, none, some, Memᴰ, ◌==◌, find?, find?-mem,
  find?-modify, inl, inr, if◌then◌else◌, arith,
}
use hernan_pedraza_pi_back.Errors.{ok, guard, or_missing, Returns, Result-cases}
use hernan_pedraza_pi_back.Exec.{ok-lift, ok-guard}
use hernan_pedraza_pi_back.Mongo.{Mongo, find_one_lem, docs-save}
use hernan_pedraza_pi_back.Platform.{Platform}
use hernan_pedraza_pi_back.Models.{User, Db}
use hernan_pedraza_pi_back.Auth.Credentials.{Input, validate_login}
use hernan_pedraza_pi_back.Auth.Tokens.{
  Payload, Jwt, build_auth_token, find_by_id, is_default, or_invalid_token, validate_default_token,
}
use hernan_pedraza_pi_back.Auth.Mail.{Mailer, save_user}
use hernan_pedraza_pi_back.Auth.Accounts.{
  SignedIn, text_of, find_by_email, credentials, login, logout, logged_in,
}

-- A token that verifies at two times carries the same payload at both.
abbrev pub KeepsPayload : Jwt → Type 0
KeepsPayload jwt =
    (t : String) (n n' : ℕ) (p p' : Payload)
    → jwt.verify n t ≡ ok p
    → jwt.verify n' t ≡ ok p'
    → p ≡ p'

-- A collection finds each of its documents by its identifier.
abbrev pub FindsById : (m : Mongo) → Jwt → Db m → Type 0
FindsById m jwt db = (x : User) → Memᴰ x (m.docs User db.users) → find_by_id m jwt db x.id ≡ some x

module _ (m : Mongo) (jwt : Jwt) where
  ok-or_invalid_token :
      {A : Type 0} (o : Option A) (a : A) → or_invalid_token m jwt o ≡ ok a → o ≡ some a
  ok-or_invalid_token none a h = cc
  ok-or_invalid_token (some b) a h = cc

  -- What a validated token says of its user.
  validate_default_token-reads :
      (db : Db m) (now : ℕ) (token : String) (p : Payload) (u : User)
      → (validate_default_token m jwt now token db).0 ≡ ok (p, u)
      → (jwt.verify now token ≡ ok p)
        × (find_by_id m jwt db p.user_id ≡ some u)
        × (p.token_version ≡ some u.auth_token_version)
  unfolding validate_default_token
  validate_default_token-reads db now token p u h =
      ok-lift (jwt.verify now token) _ db (p, u) h
        (λ p1 e1 h1.
          ok-lift (guard (is_default p1.kind) _) _ db (p, u) h1
            (λ _ e2 h2.
              ok-lift (or_invalid_token m jwt p1.token_version) _ db (p, u) h2
                (λ v e3 h3.
                  ok-lift (or_invalid_token m jwt (find_by_id m jwt db p1.user_id)) _ db (p, u) h3
                    (λ u1 e4 h4.
                      ok-lift (guard u1.is_active _) _ db (p, u) h4
                        (λ _ e5 h5.
                          ok-lift (guard (u1.auth_token_version == v) _) _ db (p, u) h5
                            (λ w e6 h6.
                              let ep : p1 ≡ p = cc in
                              let eu : u1 ≡ u = cc in
                              let version : u1.auth_token_version ≡ v =
                                ground (arith, ok-guard (u1.auth_token_version == v) _ w e6) in
                              (
                                e1 ∙ ap (λ q. ok q) ep,
                                ap (λ q. find_by_id m jwt db q.user_id) (sym ep)
                                    ∙ ok-or_invalid_token (find_by_id m jwt db p1.user_id) u1 e4
                                    ∙ ap (λ x. some x) eu,
                                ap (λ q. q.token_version) (sym ep)
                                    ∙ ok-or_invalid_token p1.token_version v e3
                                    ∙ ap (λ x. some x)
                                        (sym version ∙ ap (λ x. x.auth_token_version) eu),
                              )))))))

  pub found_id : (db : Db m) (i : ℕ) (u : User) → find_by_id m jwt db i ≡ some u → u.id ≡ i
  found_id db i u found =
      let (there, e) =
        find?-mem (λ x. x.id == i) (m.docs User db.users) u
          (sym (find_one_lem m _ db.users) ∙ found) in
      ground (arith, e)

  -- A saved user is found by its identifier.
  pub saved-found :
      (mailer : Mailer) (db : Db m) (u new : User) (i : ℕ)
      → find_by_id m jwt db i ≡ some u
      → new.id ≡ u.id
      → find_by_id m jwt (save_user m jwt mailer new db) i ≡ some new
  saved-found mailer db u new i found same =
      let here : find? (λ x. x.id == i) (m.docs User db.users) ≡ some u =
        sym (find_one_lem m _ db.users) ∙ found in
      let u_id : (u.id == i) ≡ true =
        (find?-mem (λ x. x.id == i) (m.docs User db.users) u here).1 in
      let own : (u.id == new.id) ≡ true = ground (arith, same) in
      find_one_lem m _ _
      ∙ ap (λ xs. find? (λ x. x.id == i) xs) (docs-save m (λ x. x.id == new.id) new db.users)
      ∙ find?-modify (λ x. x.id == i) (λ x. x.id == new.id) (λ _. new) (m.docs User db.users)
          (λ x there e. ground (arith, e)) here
      ∙ ap (λ b. some (if b then new else u)) own

  -- A token that names an older version is refused.
  stale-Refused :
      (keeps : KeepsPayload jwt) (db db' : Db m) (now later : ℕ) (token : String) (p : Payload)
      (u new : User)
      → (validate_default_token m jwt now token db).0 ≡ ok (p, u)
      → find_by_id m jwt db' p.user_id ≡ some new
      → new.auth_token_version ≡ u.auth_token_version + 1
      → ¬ Returns (validate_default_token m jwt later token db').0
  stale-Refused keeps db db' now later token p u new valid found newer =
      elim (Result-cases (validate_default_token m jwt later token db').0) [
        | inr (e, refused) ↦ (λ h. rw (refused) at h)
        | inl ((p', u'), again) ↦
            let (verified, _, version) = validate_default_token-reads db now token p u valid in
            let (verified', found', version') =
              validate_default_token-reads db' later token p' u' again in
            let same : p ≡ p' = keeps token now later p p' verified verified' in
            let one : some u' ≡ some new =
              sym found' ∙ ap (λ q. find_by_id m jwt db' q.user_id) (sym same) ∙ found in
            let u_new : u' ≡ new = cc in
            let clash : some (u.auth_token_version + 1) ≡ some u.auth_token_version =
              (ap (λ v. some v) (sym newer ∙ ap (λ x. x.auth_token_version) (sym u_new))
                ∙ sym version'
                ∙ ap (λ q. q.token_version) (sym same)
                ∙ version) in
            let n : u.auth_token_version + 1 ≡ u.auth_token_version = cc in (λ _. ground (arith, n))
      ]

module _ (m : Mongo) (env : Platform) (jwt : Jwt) (mailer : Mailer) where
  ok-or_missing :
      {A : Type 0} (o : Option A) (message : String) (a : A)
      → or_missing o message ≡ ok a
      → o ≡ some a
  ok-or_missing none message a h = cc
  ok-or_missing (some b) message a h = cc

  ok-credentials : (o : Option User) (u : User) → credentials m env jwt mailer o ≡ ok u → o ≡ some u
  ok-credentials none u h = cc
  ok-credentials (some v) u h = cc

  -- Whom a login lets in, and what it writes.
  pub login-saves :
      (db : Db m) (now : ℕ) (email password : Input) (s : SignedIn) (C : Type 0)
      → (login m env jwt mailer now email password db).0 ≡ ok s
      → ((u : User)
          → find_by_email m env jwt mailer db (text_of email) ≡ some u
          → (login m env jwt mailer now email password db).1
            ≡ save_user m jwt mailer (logged_in m env jwt mailer now u) db
          → s.user.id ≡ u.id
          → s.token ≡ some (build_auth_token jwt now (logged_in m env jwt mailer now u))
          → C)
      → C
  unfolding login
  login-saves db now email password s C h k =
      ok-lift (validate_login env email password) _ db s h (λ _ e1 h1.
        ok-lift (credentials m env jwt mailer (find_by_email m env jwt mailer db (text_of email))) _
          db s h1
          (λ u e2 h2.
            ok-lift (guard (env.bcrypt_compare (text_of password) u.password_hash) _) _ db s h2
              (λ _ e3 h3.
                let same : s.user.id ≡ u.id = cc in
                let token : s.token
                    ≡ some (build_auth_token jwt now (logged_in m env jwt mailer now u)) =
                  cc in
                k u (ok-credentials (find_by_email m env jwt mailer db (text_of email)) u e2)
                  (rw (e1, e2, e3) refl) same token)))

  -- A token that is validated at the time of its user's login is refused from the login on, at any
  -- time. Tokens keep their payload, and the database finds each user by its identifier.
  pub login-Revoked :
      (db : Db m) (now later : ℕ) (email password : Input) (s : SignedIn) (token : String)
      (p : Payload) (u : User)
      → KeepsPayload jwt
      → FindsById m jwt db
      → (validate_default_token m jwt now token db).0 ≡ ok (p, u)
      → (login m env jwt mailer now email password db).0 ≡ ok s
      → s.user.id ≡ u.id
      → ¬ Returns
          (validate_default_token m jwt later token
            (login m env jwt mailer now email password db).1).0
  unfolding logged_in
  login-Revoked db now later email password s token p u keeps finds valid signed_in same =
      login-saves db now email password s _ signed_in (λ v found saved id_of _.
        let (_, held, _) = validate_default_token-reads m jwt db now token p u valid in
        let there : Memᴰ v (m.docs User db.users) =
          (find?-mem _ (m.docs User db.users) v (sym (find_one_lem m _ db.users) ∙ found)).0 in
        let id_u : u.id ≡ p.user_id = found_id m jwt db p.user_id u held in
        let id_v : v.id ≡ p.user_id = sym id_of ∙ same ∙ id_u in
        let held_v : find_by_id m jwt db p.user_id ≡ some v =
          ap (λ i. find_by_id m jwt db i) (sym id_v) ∙ finds v there in
        let one : some v ≡ some u = sym held_v ∙ held in
        let v_u : v ≡ u = cc in
        let now_held : find_by_id m jwt (login m env jwt mailer now email password db).1 p.user_id
            ≡ some (logged_in m env jwt mailer now v) =
          (ap (λ d. find_by_id m jwt d p.user_id) saved
            ∙ saved-found m jwt mailer db v (logged_in m env jwt mailer now v) p.user_id held_v
                refl) in
        stale-Refused m jwt keeps db (login m env jwt mailer now email password db).1 now later
          token p u (logged_in m env jwt mailer now v) valid now_held
          (ap (λ x. x.auth_token_version + 1) v_u))

  -- A token that was validated is refused at any time after its user has logged out. Tokens keep
  -- their payload.
  pub logout-Revoked :
      (db : Db m) (now later : ℕ) (token : String) (p : Payload) (u : User)
      → KeepsPayload jwt
      → (validate_default_token m jwt now token db).0 ≡ ok (p, u)
      → ¬ Returns (validate_default_token m jwt later token (logout m env jwt mailer u.id db).1).0
  unfolding logout
  logout-Revoked db now later token p u keeps valid =
      let (_, held, _) = validate_default_token-reads m jwt db now token p u valid in
      let id_u : u.id ≡ p.user_id = found_id m jwt db p.user_id u held in
      let held_u : find_by_id m jwt db u.id ≡ some u =
        ap (λ i. find_by_id m jwt db i) id_u ∙ held in
      let new : User = record u { auth_token_version = u.auth_token_version + 1 } in
      let saved : (logout m env jwt mailer u.id db).1 ≡ save_user m jwt mailer new db =
        (rw held_u refl) in
      let now_held : find_by_id m jwt (logout m env jwt mailer u.id db).1 p.user_id ≡ some new =
        (ap (λ d. find_by_id m jwt d p.user_id) saved
          ∙ saved-found m jwt mailer db u new p.user_id held refl) in
      stale-Refused m jwt keeps db (logout m env jwt mailer u.id db).1 now later token p u new valid
        now_held refl
