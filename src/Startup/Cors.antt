-- ===== src/Startup/Cors.antt =====
-- lib.rs: the CORS layer of `build_app`.
use Prim.Native.String.{String}
use pstu_backend.Prelude.{
  ℕ, ◌≡◌, refl, arith, Text, Bool, true, false, not, ◌&&◌, ◌||◌, List, [], ◌∷◌, ◌++◌, map, ◌==◌,
  if◌then◌else◌, where_rows, text_eq,
}
use pstu_backend.Core.Text.{codes, trim}

-- The characters before the first separator are put before the first piece.
abbrev into_first : ℕ → List Text → List Text
into_first c [] = (c ∷ []) ∷ []
into_first c (t ∷ ts) = (c ∷ t) ∷ ts

-- `str::split`, at one character
unfoldable pub split : ℕ → Text → List Text
split d [] = [] ∷ []
split d (c ∷ s) = let rest = split d s in if c == d then [] ∷ rest else into_first c rest

-- `AllowOrigin`: the origin of the request, or one of a list.
pub data AllowOrigin : Type 0 where
  mirror_request : AllowOrigin
  list : List Text → AllowOrigin

pub record CorsLayer : Type 0 where
  pub allow_origin : AllowOrigin
  pub allow_credentials : Bool
  pub allow_methods : List String
  pub allow_headers : List String
  pub expose_headers : List String

-- What the two branches of `build_app` share.
abbrev pub layer_for : AllowOrigin → CorsLayer
layer_for origin = record {
  allow_origin = origin;
  allow_credentials = true;
  allow_methods = "GET" ∷ "POST" ∷ "PUT" ∷ "DELETE" ∷ "PATCH" ∷ "OPTIONS" ∷ "HEAD" ∷ [];
  allow_headers =
      "authorization" ∷ "content-type" ∷ "accept" ∷ "origin" ∷ "cookie" ∷ "x-request-id" ∷ "x-csrf"
      ∷ "x-idempotent-replay" ∷ [];
  expose_headers = "x-request-id" ∷ "x-idempotent-replay" ∷ "content-disposition" ∷ [];
}

-- `HeaderValue::from_str` succeeds.
module _ (is_header_value : Text → Bool) where
  abbrev pub is_origin : Text → Bool
  is_origin t = not (text_eq t []) && is_header_value t

  -- `cors_cfg.split(',').filter_map(…)`
  unfoldable pub origin_list : Text → List Text
  unfolding split
  origin_list cors_cfg = where_rows is_origin (map trim (split b',' cors_cfg))

  -- The CORS layer of `build_app`.
  unfoldable pub cors_layer : Text → CorsLayer
  unfolding origin_list
  cors_layer cors_allowed_origins =
      let cors_cfg = trim cors_allowed_origins in
      if text_eq cors_cfg (codes "*") || text_eq cors_cfg []
      then layer_for mirror_request
      else layer_for (list (origin_list cors_cfg))

-- The pieces with the separator between them.
abbrev pub join : ℕ → List Text → Text
join d [] = []
join d (t ∷ []) = t
join d (t ∷ u ∷ ts) = t ++ d ∷ join d (u ∷ ts)

abbrev pub has : ℕ → Text → Bool
has d [] = false
has d (c ∷ s) = c == d || has d s

abbrev pub free_of : ℕ → List Text → Bool
free_of d [] = true
free_of d (t ∷ ts) = not (has d t) && free_of d ts

split_single : (d : ℕ) (t : Text) → has d t ≡ false → split d t ≡ t ∷ []
unfolding split
split_single d [] h = refl
split_single d (c ∷ s) h = ground (arith, h, split_single d s)

split-append : (d : ℕ) (t s : Text) → has d t ≡ false → split d (t ++ d ∷ s) ≡ t ∷ split d s
unfolding split
split-append d [] s h = ground arith
split-append d (c ∷ t) s h = ground (arith, h, split-append d t s)

pub split-join :
    (d : ℕ) (t : Text) (ts : List Text)
    → free_of d (t ∷ ts) ≡ true
    → split d (join d (t ∷ ts)) ≡ t ∷ ts
split-join d t [] h = split_single d t (ground (arith, h))
split-join d t (u ∷ ts) h = ground (arith, h, split-append d t (join d (u ∷ ts)), split-join d u ts)

-- Of pieces without a comma, written one after another with commas between, the origins are those that
-- are trimmed to something that is a header value, trimmed, in their order.
pub origin_list-join :
    (is_header_value : Text → Bool) (t : Text) (ts : List Text)
    → free_of b',' (t ∷ ts) ≡ true
    → origin_list is_header_value (join b',' (t ∷ ts))
      ≡ where_rows (is_origin is_header_value) (map trim (t ∷ ts))
unfolding origin_list
origin_list-join is_header_value t ts h = rw (split-join b',' t ts h) refl
