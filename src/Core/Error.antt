-- ===== src/Core/Error.antt =====
-- core/error.rs: the error type of every handler, with its HTTP status and its code, and the result
-- type with its `?` as a do block. The payload of a database or cache error is left out.
use Prim.Native.String.{String}
use pstu_backend.Prelude.{ℕ, List, Option, none, some, ◌≡◌, refl, ◌⊎◌, inl, inr}

pub data AppError : Type 0 where
  bad_request : String → AppError
  validation : String → List (String × String) → AppError
  unauthorized forbidden not_found conflict gone : String → AppError
  payload_too_large unprocessable rate_limited service_unavailable internal : String → AppError
  database redis : AppError

unfoldable pub status_code : AppError → ℕ
status_code (AppError.bad_request _) = 400
status_code (AppError.validation _ _) = 400
status_code (AppError.unauthorized _) = 401
status_code (AppError.forbidden _) = 403
status_code (AppError.not_found _) = 404
status_code (AppError.conflict _) = 409
status_code (AppError.gone _) = 410
status_code (AppError.payload_too_large _) = 413
status_code (AppError.unprocessable _) = 422
status_code (AppError.rate_limited _) = 429
status_code (AppError.service_unavailable _) = 503
status_code (AppError.internal _) = 500
status_code AppError.database = 500
status_code AppError.redis = 503

unfoldable pub error_code : AppError → String
error_code (AppError.bad_request _) = "BAD_REQUEST"
error_code (AppError.validation _ _) = "VALIDATION_FAILED"
error_code (AppError.unauthorized _) = "UNAUTHORIZED"
error_code (AppError.forbidden _) = "FORBIDDEN"
error_code (AppError.not_found _) = "NOT_FOUND"
error_code (AppError.conflict _) = "CONFLICT"
error_code (AppError.gone _) = "EXPIRED"
error_code (AppError.payload_too_large _) = "PAYLOAD_TOO_LARGE"
error_code (AppError.unprocessable _) = "UNPROCESSABLE_ENTITY"
error_code (AppError.rate_limited _) = "RATE_LIMITED"
error_code (AppError.service_unavailable _) = "SERVICE_UNAVAILABLE"
error_code (AppError.internal _) = "INTERNAL_SERVER_ERROR"
error_code AppError.database = "DATABASE_ERROR"
error_code AppError.redis = "CACHE_UNAVAILABLE"

-- `Result<A, AppError>`
pub data Result {ℓ} (A : Type ℓ) : Type ℓ where
  ok : A → Result A
  err : AppError → Result A

-- `ok_or_else`
abbrev pub ok_or {ℓ} : {A : Type ℓ} → AppError → Option A → Result A
ok_or e none = err e
ok_or e (some a) = ok a

pub Result-cases {ℓ} :
    {A : Type ℓ} (r : Result A) → ((a : A) × (r ≡ ok a)) ⊎ ((e : AppError) × (r ≡ err e))
Result-cases (ok a) = inl (a, refl)
Result-cases (err e) = inr (e, refl)
