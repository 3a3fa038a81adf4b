-- ===== src/Scenarios/Memory.antt =====
-- The services in memory: strings, sets and counters as functions of the key, hashing that keeps
-- the text, an id written as one character, and the ASCII digits.
use pstu_backend.Prelude.{
  ℕ, ◌+◌, ◌≡◌, refl, arith, Bool, true, false, not, ◌&&◌, Option, none, some, List, [], ◌∷◌, ltb,
  ◌==◌, if◌then◌else◌, unwrap_or, i64_limit, Text, Uuid, length, where_rows, text_eq, text_eq_refl,
  text_eq_eq,
}
use pstu_backend.Core.Services.{
  Services, RedisLaws, SessionLaws, WindowLaws, entries_after, has_member, Key, pin_failures,
  login_failures, daily_outflow, session, user_sessions, rate_limit,
}
use pstu_backend.Core.Text.{is_ascii_digit, to_text}

abbrev same : Key → Key → Bool
same (pin_failures u) (pin_failures v) = u == v
same (login_failures s) (login_failures t) = text_eq s t
same (daily_outflow u n) (daily_outflow v k) = u == v && n == k
same (session s) (session t) = text_eq s t
same (user_sessions u) (user_sessions v) = u == v
same (rate_limit s t) (rate_limit s' t') = text_eq s s' && text_eq t t'
same _ _ = false

same_refl : (k : Key) → same k k ≡ true
same_refl (pin_failures u) = ground arith
same_refl (login_failures s) = text_eq_refl s
same_refl (daily_outflow u n) = ground arith
same_refl (session s) = text_eq_refl s
same_refl (user_sessions u) = ground arith
same_refl (rate_limit s t) = ground (arith, text_eq_refl s, text_eq_refl t)

same_eq : (j k : Key) → same j k ≡ true → j ≡ k
same_eq (pin_failures u) (pin_failures v) h = ground (arith, h)
same_eq (login_failures s) (login_failures t) h = ground (arith, h, text_eq_eq s t)
same_eq (daily_outflow u n) (daily_outflow v k) h = ground (arith, h)
same_eq (session s) (session t) h = ground (arith, h, text_eq_eq s t)
same_eq (user_sessions u) (user_sessions v) h = ground (arith, h)
same_eq (rate_limit s t) (rate_limit s' t') h = ground (arith, h, text_eq_eq s s', text_eq_eq t t')
same_eq _ _ h = cc

pub record Memory : Type 0 where
  counters : Key → Option ℕ
  texts : Key → Option Text
  sets : Key → List Text
  windows : Key → List (Text × ℕ)

module _ {A : Type 0} where
  abbrev put : Key → A → (Key → A) → Key → A
  put k v c j = if same j k then v else c j

abbrev counted_up : Key → ℕ → Memory → Option ℕ × Memory
counted_up k n c =
    if ltb (unwrap_or 0 (c.counters k) + n) i64_limit
    then (
      some (unwrap_or 0 (c.counters k) + n),
      record c { counters = put k (some (unwrap_or 0 (c.counters k) + n)) c.counters },
    )
    else (none, c)

abbrev without : Text → List Text → List Text
without m = where_rows λ t. not (text_eq t m)

abbrev parsed : Text → Option Uuid
parsed (u ∷ []) = some u
parsed _ = none

abbrev pub memory : Services
memory = record {
  Cache = Memory;
  get = λ k c. c.counters k;
  incr = counted_up;
  expire = λ k t c. c;
  del = λ k c. record c { counters = put k none c.counters; texts = put k none c.texts };
  get_text = λ k c. some (c.texts k);
  set_ex = λ k v t c. record c { texts = put k (some v) c.texts };
  sadd = λ k m c. record c { sets = put k (m ∷ without m (c.sets k)) c.sets };
  srem = λ k m c. record c { sets = put k (without m (c.sets k)) c.sets };
  smembers = λ k c. some (c.sets k);
  trim_window = λ k upto c. (
    some (length (entries_after upto (c.windows k))),
    record c { windows = put k (entries_after upto (c.windows k)) c.windows },
  );
  zadd = λ k m score c. record c {
    windows = put k ((m, score) ∷ where_rows (λ e. not (text_eq e.0 m)) (c.windows k)) c.windows;
  };
  hash_password = some;
  verify_password = λ p h. some (text_eq p h);
  parse_uuid = parsed;
  print_uuid = λ u. u ∷ [];
  is_digit = is_ascii_digit;
  ilike = text_eq;
  rfc3339 = to_text;
}

abbrev pub nothing_kept : Memory
nothing_kept = record { counters = λ k. none; texts = λ k. none; sets = λ k. []; windows = λ k. [] }

pub memory_laws : RedisLaws memory
memory_laws = record {
  get_incr = λ k n c h. ground (arith, h, same_refl k);
  get_expire = λ j k t c h. refl;
  get_del = λ k c. ground (arith, same_refl k);
}

pub memory-SessionLaws : SessionLaws memory
memory-SessionLaws = record {
  get_text-set_ex = λ k v t c h. ground (arith, same_refl k);
  get_text-del = λ k c. ground (arith, same_refl k);
  get_text-del_ne = λ j k c n. ground (arith, n, same_eq j k);
  get_text-sadd = λ j k m c n. refl;
  get_text-srem = λ j k m c n. refl;
  parse-print_uuid = λ u. refl;
}

kept_others :
    (m : Text) (es : List (Text × ℕ))
    → has_member m es ≡ false
    → where_rows (λ (e : Text × ℕ). not (text_eq e.0 m)) es ≡ es
kept_others m [] h = refl
kept_others m (e ∷ es) h = ground (arith, h, kept_others m es)

pub memory_window_laws : WindowLaws memory
memory_window_laws = record {
  entries = λ k c. c.windows k;
  trim_window-reply = λ k upto c. refl;
  entries-trim_window = λ k upto c. ground (arith, same_refl k);
  entries-zadd = λ k m score c h. ground (arith, same_refl k, kept_others m (c.windows k) h);
  entries-expire = λ k t c h. refl;
}

pub entries_nothing_kept : (k : Key) → memory_window_laws.entries k nothing_kept ≡ []
unfolding memory_window_laws
entries_nothing_kept k = refl
