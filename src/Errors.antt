-- ===== src/Errors.antt =====
-- src/errors/*.js: the errors that services throw, each with its HTTP status, and the result of a
-- call that may throw one of them.
use hernan_pedraza_pi_back.Prelude.{
  ℕ, String, Bool, true, false, Option, none, some, ◌≡◌, refl, ◌⊎◌, inl, inr,
}

-- The subclasses of `ApiError`, with their messages. `failure` is an error of another kind, a
-- TypeError or one that a package throws, which errorMiddleware answers like a generic error.
pub data ApiError : Type 0 where
  validation not_found forbidden unauthorized match_required failure : String → ApiError

unfoldable pub status_code : ApiError → ℕ
status_code (validation _) = 400
status_code (not_found _) = 404
status_code (forbidden _) = 403
status_code (unauthorized _) = 401
status_code (match_required _) = 409
status_code (failure _) = 500

pub data Result {ℓ} (A : Type ℓ) : Type ℓ where
  ok : A → Result A
  err : ApiError → Result A

abbrev pub guard : Bool → ApiError → Result (Unit {0})
guard true e = ok tt
guard false e = err e

-- `if (!document) throw new NotFoundError(message)`
abbrev pub or_missing {ℓ} : {A : Type ℓ} → Option A → String → Result A
or_missing none message = err (not_found message)
or_missing (some a) message = ok a

-- `if (test) throw e`
abbrev pub refuse : Bool → ApiError → Result (Unit {0})
refuse true e = err e
refuse false e = ok tt

-- A successful call.
abbrev pub Returns {ℓ} : {A : Type ℓ} → Result A → Type 0
Returns (ok a) = Unit
Returns (err e) = ⊥

pub Result-cases {ℓ} :
    {A : Type ℓ} (r : Result A) → ((a : A) × (r ≡ ok a)) ⊎ ((e : ApiError) × (r ≡ err e))
Result-cases (ok a) = inl (a, refl)
Result-cases (err e) = inr (e, refl)
