-- ===== src/Http.antt =====
-- core/envelope.rs, and what the routes of features/*/routes.rs share: an answer with its status, the
-- rate limit, and the answers to an invalid input. The extractors of axum hand a handler its decoded
-- input; one that cannot be decoded does not reach the handler.
pub mod Validate
pub mod Envelope
use Prim.Native.String.{String}
use pstu_backend.Prelude.{ℕ, Uuid, Text, [], ◌∷◌}
use pstu_backend.Core.Error.{AppError}
use pstu_backend.Core.Services.{Services}
use pstu_backend.Core.Text.{codes}
use pstu_backend.Core.App.{Action, pure, raise}
use pstu_backend.Core.RateLimit.{enforce_rate_limit}
use pstu_backend.Store.Tx.{⊤}
use pstu_backend.Http.Validate.{Problems}

pub record Meta : Type 0 where
  pub request_id : Text

-- The field `data`.
pub record ApiResponse (A : Type 0) : Type 0 where
  pub content : A
  pub meta : Meta

-- `ApiResponse::with_request_id`
abbrev pub with_request_id : {A : Type 0} → A → Text → ApiResponse A
with_request_id a request_id = record { content = a; meta = record { request_id = request_id } }

-- A status code with what is answered under it.
pub record Reply (A : Type 0) : Type 0 where
  pub status : ℕ
  pub body : A

-- What a route itself draws: the time in milliseconds and the id for the rate limit, and the id of
-- the answer.
pub record Draw : Type 0 where
  pub now_ms : ℕ
  pub member_id : Uuid
  pub trace : Uuid

-- The test of a payload that answers with the first message of each invalid field.
abbrev pub raise_invalid : {C : Type 0} → String → Problems → Action C ⊤
raise_invalid message [] = pure tt
raise_invalid message (p ∷ ps) = raise (AppError.validation message (p ∷ ps))

-- `payload.validate().map_err(|e| AppError::BadRequest(e.to_string()))?`, where `report` stands for
-- the printing of the crate validator.
abbrev pub refuse_invalid : {C : Type 0} → (Problems → String) → Problems → Action C ⊤
refuse_invalid report [] = pure tt
refuse_invalid report (p ∷ ps) = raise (AppError.bad_request (report (p ∷ ps)))

module _ (S : Services) where
  open S use {Cache, print_uuid}

  -- `ApiResponse::new`
  abbrev pub api_response : {A : Type 0} → Uuid → A → ApiResponse A
  api_response trace a = with_request_id a (print_uuid trace)

  -- `Ok(Json(ApiResponse::new(res)))`, and the same with a status
  abbrev pub answer : {A : Type 0} → ℕ → Uuid → A → Action Cache (Reply (ApiResponse A))
  answer status trace a = pure (record { status = status; body = api_response trace a })

  -- `enforce_rate_limit(&state, scope, &auth_user.user_id.to_string(), max, 60)`
  abbrev pub limit_user : String → Uuid → ℕ → Draw → Action Cache ⊤
  limit_user scope user_id max_requests d =
      enforce_rate_limit S (codes scope) (print_uuid user_id) max_requests 60 d.now_ms d.member_id
