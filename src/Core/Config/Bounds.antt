-- ===== src/Core/Config/Bounds.antt =====
-- The numbers of a configuration that was loaded.
use Prim.Native.String.{String}
use mathlib.Core.Path.{subst}
use pstu_backend.Prelude.{ℕ, ◌<◌, ◌≡◌, sym, arith, Text, Option, some, inl, inr, Option-cases}
use pstu_backend.Core.Config.{
  AppConfig, parse_unsigned, u16_limit, u64_limit, var_or, number_or, config_on, load_from_env,
}

-- Each number fits its type.
pub record InRange (c : AppConfig) : Type 0 where
  pub port : c.port < u16_limit
  pub smtp_port : c.smtp_port < u16_limit
  pub session_ttl_secs : c.session_ttl_secs < u64_limit
  pub default_link_ttl_secs : c.default_link_ttl_secs < u64_limit
  pub max_body_size_bytes : c.max_body_size_bytes < u64_limit

parse_unsigned_lt : (limit : ℕ) (s : Text) (n : ℕ) → parse_unsigned limit s ≡ some n → n < limit
unfolding parse_unsigned
parse_unsigned_lt limit s n h = ground (arith, h)

module _ (vars : Text → Option Text) where
  number_or_lt :
      (limit : ℕ) (name default : String) (n : ℕ)
      → n < limit
      → number_or vars limit name default n < limit
  number_or_lt limit name default n h =
      elim (Option-cases (parse_unsigned limit (var_or vars name default))) [
        | inl e ↦ ground (arith, h, e)
        | inr (k, e) ↦ ground (arith, e, parse_unsigned_lt limit (var_or vars name default) k e)
      ]

  config_on-InRange : (port : ℕ) → port < u16_limit → InRange (config_on vars port)
  unfolding config_on
  config_on-InRange port h = record {
    port = h;
    smtp_port = number_or_lt u16_limit "SMTP_PORT" "587" 587 (omega arith);
    session_ttl_secs = number_or_lt u64_limit "SESSION_TTL_SECS" "86400" 86400 (omega arith);
    default_link_ttl_secs =
        number_or_lt u64_limit "DEFAULT_LINK_TTL_SECS" "10800" 10800 (omega arith);
    max_body_size_bytes =
        number_or_lt u64_limit "MAX_BODY_SIZE_BYTES" "1048576" 1048576 (omega arith);
  }

  -- Whatever the variables hold, each number of a configuration that loads fits its type.
  pub load_from_env-InRange : (c : AppConfig) → load_from_env vars ≡ some c → InRange c
  unfolding load_from_env
  load_from_env-InRange c h =
      elim (Option-cases (parse_unsigned u16_limit (var_or vars "PORT" "8080"))) [
        | inl e ↦ absurd (ground (arith, h, e))
        | inr (port, e) ↦
            let loaded : c ≡ config_on vars port = ground (arith, h, e) in
            subst InRange (sym loaded) (
              config_on-InRange port
                (parse_unsigned_lt u16_limit (var_or vars "PORT" "8080") port e))
      ]
