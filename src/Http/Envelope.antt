-- ===== src/Http/Envelope.antt =====
-- core/error.rs: how an error is answered.
use Prim.Native.String.{String}
use pstu_backend.Prelude.{ℕ, Text, Option, none, some, ◌++◌, List}
use pstu_backend.Core.Error.{AppError, status_code, error_code}
use pstu_backend.Core.Text.{codes}

pub record ErrorDetails : Type 0 where
  pub code : String
  pub message : Text
  pub request_id : Text
  pub fields : Option (List (String × String))

pub record ErrorEnvelope : Type 0 where
  pub status : ℕ
  pub error : ErrorDetails

-- `AppError::to_string`; the texts of an error of the database and of Redis are given.
unfoldable pub to_string : Text → Text → AppError → Text
to_string db_error redis_error (AppError.bad_request m) = codes "Bad request: " ++ codes m
to_string db_error redis_error (AppError.validation _ _) = codes "Validation failed"
to_string db_error redis_error (AppError.unauthorized m) = codes "Unauthorized: " ++ codes m
to_string db_error redis_error (AppError.forbidden m) = codes "Forbidden: " ++ codes m
to_string db_error redis_error (AppError.not_found m) = codes "Resource not found: " ++ codes m
to_string db_error redis_error (AppError.conflict m) = codes "Conflict: " ++ codes m
to_string db_error redis_error (AppError.gone m) = codes "Resource expired/gone: " ++ codes m
to_string db_error redis_error (AppError.payload_too_large _) = codes "Payload too large"
to_string db_error redis_error (AppError.unprocessable m) =
    codes "Unprocessable entity: " ++ codes m
to_string db_error redis_error (AppError.rate_limited _) = codes "Too many requests"
to_string db_error redis_error (AppError.service_unavailable m) =
    codes "Service unavailable: " ++ codes m
to_string db_error redis_error (AppError.internal m) = codes "Internal server error: " ++ codes m
to_string db_error redis_error AppError.database = codes "Database error: " ++ db_error
to_string db_error redis_error AppError.redis = codes "Redis error: " ++ redis_error

-- The message of an answer.
unfoldable pub public_message : Text → Text → AppError → Text
public_message db_error redis_error AppError.database =
    codes "An unexpected database error occurred. Please try again later."
public_message db_error redis_error (AppError.internal _) =
    codes "An internal error occurred. Please try again later."
public_message db_error redis_error (AppError.validation m _) = codes m
public_message db_error redis_error e = to_string db_error redis_error e

abbrev pub invalid_fields : AppError → Option (List (String × String))
invalid_fields (AppError.validation _ fields) = some fields
invalid_fields _ = none

-- `AppError::into_response`, with the id that it draws for the answer
unfoldable pub into_response : Text → Text → Text → AppError → ErrorEnvelope
into_response db_error redis_error request_id e = record {
  status = status_code e;
  error = record {
    code = error_code e;
    message = public_message db_error redis_error e;
    request_id = request_id;
    fields = invalid_fields e;
  };
}
