-- ===== src/Core/Services.antt =====
-- The services that the source calls and does not implement, as an interface: Redis (its keys are
-- the strings that the source formats, told apart by their prefixes), Argon2, the parser of UUIDs
-- and the table of decimal digits of the crate regex. A reply `none` is an error or a missing value:
-- the source handles both by one `unwrap_or`.
use pstu_backend.Prelude.{
  ℕ, ◌+◌, ◌<◌, ◌≡◌, ◌≢◌, Uuid, Instant, Text, Bool, true, false, ◌||◌, text_eq, Option, none, some,
  List, [], ◌∷◌, length, where_rows, ltb, unwrap_or, i64_limit,
}

pub data Key : Type 0 where
  pin_failures : Uuid → Key
  login_failures : Text → Key
  daily_outflow : Uuid → ℕ → Key
  session : Text → Key
  user_sessions : Uuid → Key
  rate_limit : Text → Text → Key

pub record Services : Type 1 where
  pub Cache : Type 0
  -- GET and INCRBY of a counter, EXPIRE, DEL
  pub get : Key → Cache → Option ℕ
  pub incr : Key → ℕ → Cache → Option ℕ × Cache
  pub expire : Key → ℕ → Cache → Cache
  pub del : Key → Cache → Cache
  -- GET and SETEX of a string: a reply `none` is an error, `some none` a missing key
  pub get_text : Key → Cache → Option (Option Text)
  pub set_ex : Key → Text → ℕ → Cache → Cache
  -- SADD, SREM and SMEMBERS
  pub sadd : Key → Text → Cache → Cache
  pub srem : Key → Text → Cache → Cache
  pub smembers : Key → Cache → Option (List Text)
  -- MULTI, ZREMRANGEBYSCORE 0 to a score, ZCARD, EXEC: the reply of ZCARD. No score is below `none`,
  -- which stands for a negative number.
  pub trim_window : Key → Option ℕ → Cache → Option ℕ × Cache
  -- ZADD of a member with its score
  pub zadd : Key → Text → ℕ → Cache → Cache
  -- `Argon2::hash_password` and `verify_password`; `none` from the second is a malformed hash
  pub hash_password : Text → Option Text
  pub verify_password : Text → Text → Option Bool
  -- `Uuid::from_str` and `Uuid::to_string`
  pub parse_uuid : Text → Option Uuid
  pub print_uuid : Uuid → Text
  -- `\d`
  pub is_digit : ℕ → Bool
  -- `ILIKE` of a string and a pattern, and `DateTime::to_rfc3339`
  pub ilike : Text → Text → Bool
  pub rfc3339 : Instant → Text

abbrev pub is_after : Option ℕ → ℕ → Bool
is_after none score = true
is_after (some upto) score = ltb upto score

abbrev pub entries_after : Option ℕ → List (Text × ℕ) → List (Text × ℕ)
entries_after upto = where_rows λ e. is_after upto e.1

abbrev pub has_member : Text → List (Text × ℕ) → Bool
has_member m [] = false
has_member m (e ∷ es) = text_eq e.0 m || has_member m es

-- What Redis documents of its counters while it answers.
pub record RedisLaws (S : Services) : Type 0 where
  pub get_incr :
      (k : Key) (n : ℕ) (c : S.Cache)
      → unwrap_or 0 (S.get k c) + n < i64_limit
      → S.get k (S.incr k n c).1 ≡ some (unwrap_or 0 (S.get k c) + n)
  pub get_expire : (j k : Key) (t : ℕ) (c : S.Cache) → 0 < t → S.get j (S.expire k t c) ≡ S.get j c
  pub get_del : (k : Key) (c : S.Cache) → S.get k (S.del k c) ≡ none

-- What Redis documents of its strings and sets while it answers: a command on one key leaves the
-- others alone; and what the crate uuid documents, that a printed id is parsed to itself.
pub record SessionLaws (S : Services) : Type 0 where
  pub get_text-set_ex :
      (k : Key) (v : Text) (t : ℕ) (c : S.Cache)
      → 0 < t
      → S.get_text k (S.set_ex k v t c) ≡ some (some v)
  pub get_text-del : (k : Key) (c : S.Cache) → S.get_text k (S.del k c) ≡ some none
  pub get_text-del_ne :
      (j k : Key) (c : S.Cache) → j ≢ k → S.get_text j (S.del k c) ≡ S.get_text j c
  pub get_text-sadd :
      (j k : Key) (m : Text) (c : S.Cache) → j ≢ k → S.get_text j (S.sadd k m c) ≡ S.get_text j c
  pub get_text-srem :
      (j k : Key) (m : Text) (c : S.Cache) → j ≢ k → S.get_text j (S.srem k m c) ≡ S.get_text j c
  pub parse-print_uuid : (u : Uuid) → S.parse_uuid (S.print_uuid u) ≡ some u

-- What Redis documents of its sorted sets while it answers, by the members of a set with their scores.
pub record WindowLaws (S : Services) : Type 0 where
  pub entries : Key → S.Cache → List (Text × ℕ)
  pub trim_window-reply :
      (k : Key) (upto : Option ℕ) (c : S.Cache)
      → (S.trim_window k upto c).0 ≡ some (length (entries_after upto (entries k c)))
  pub entries-trim_window :
      (k : Key) (upto : Option ℕ) (c : S.Cache)
      → entries k (S.trim_window k upto c).1 ≡ entries_after upto (entries k c)
  pub entries-zadd :
      (k : Key) (m : Text) (score : ℕ) (c : S.Cache)
      → has_member m (entries k c) ≡ false
      → entries k (S.zadd k m score c) ≡ (m, score) ∷ entries k c
  pub entries-expire :
      (k : Key) (t : ℕ) (c : S.Cache) → 0 < t → entries k (S.expire k t c) ≡ entries k c
