-- ===== src/Router/Health.antt =====
-- features/health/routes.rs, on whether Postgres and Redis answer.
use Prim.Native.String.{String}
use pstu_backend.Prelude.{ℕ, Instant, Bool, ◌&&◌, if◌then◌else◌}
use pstu_backend.Http.{Reply}

pub record HealthResponse : Type 0 where
  pub status : String
  pub postgres : String
  pub redis : String
  pub server_started_at : Instant

unfoldable pub health_check : Bool → Bool → Instant → Reply HealthResponse
health_check pg_ok redis_ok server_started_at = record {
  status = if pg_ok && redis_ok then 200 else 503;
  body = record {
    status = if pg_ok && redis_ok then "ok" else "degraded";
    postgres = if pg_ok then "ok" else "down";
    redis = if redis_ok then "ok" else "down";
    server_started_at = server_started_at;
  };
}

abbrev pub liveness_check : ℕ
liveness_check = 200

unfoldable pub readiness_check : Bool → Bool → ℕ
readiness_check pg_ok redis_ok = if pg_ok && redis_ok then 200 else 503
