-- ===== src/Auth/Sessions/Opened.antt =====
-- A session that `login_user` opens is the one that a later request is let in by.
use pstu_backend.Prelude.{
  ℕ, ◌<◌, ◌≡◌, ◌∙◌, ap, arith, Uuid, Instant, Text, Option-cases, inl, inr, some, false, true,
}
use pstu_backend.Core.Error.{ok}
use pstu_backend.Core.Limits.{max_login_failures}
use pstu_backend.Core.Services.{Services, SessionLaws, Key}
use pstu_backend.Core.Text.{trim}
use pstu_backend.Core.App.{AppState}
use pstu_backend.Store.Schema.{UserRow, active}
use pstu_backend.Auth.Login.{
  LoginRequest, LoginResponse, Cookie, find_login, login_response, login_user,
}
use pstu_backend.Auth.Login.Lockout.{login_failures}
use pstu_backend.Auth.Sessions.{Parts, request_token, is_blank, authenticate}

module _ (S : Services) where
  authenticate-passes :
      (parts : Parts) (t v : Text) (u : Uuid) (s : AppState S.Cache)
      → request_token parts ≡ some t
      → is_blank t ≡ false
      → S.get_text (Key.session t) s.cache ≡ some (some v)
      → S.parse_uuid v ≡ some u
      → (authenticate S parts s).0 ≡ ok (record { user_id = u; session_token = t })
  unfolding authenticate
  authenticate-passes parts t v u s e b h p = ground (arith, e, b, h, p)

  -- The cache that a login leaves.
  abbrev pub with_session : Text → ℕ → Text → Uuid → S.Cache → S.Cache
  with_session token ttl phone u c =
      S.sadd (Key.user_sessions u) token
        (S.set_ex (Key.session token) (S.print_uuid u) ttl (S.del (Key.login_failures phone) c))

  module _ (token : Text) (session_ttl_secs : ℕ) (req : LoginRequest) (now : Instant)
      (s : AppState S.Cache) where
    abbrev pub login : AppState S.Cache
    login = (login_user S token session_ttl_secs req now s).1

    -- The user is the one that the request names, and the answer and the cache are about that user.
    pub record LoggedIn (resp : LoginResponse) (cookie : Cookie) (r : UserRow) (b : ℕ)
        : Type 0 where
      pub found : find_login (trim req.phone) s.db ≡ some (r, b)
      pub is_allowed : r.status ≡ active
      pub verified : S.verify_password req.password r.password_hash ≡ some true
      pub answer : resp ≡ login_response r b
      pub set : cookie ≡ record { value = token; max_age = session_ttl_secs }
      pub after : login.cache ≡ with_session token session_ttl_secs (trim req.phone) r.id s.cache

    -- A login is answered only while the phone number has fewer than five failures, for an active
    -- user who has the number and a balance and for whose kept hash the password is verified; the
    -- answer is about that user, the cookie holds the new token, and the cache has lost the failures
    -- and gained the session, and nothing else.
    pub login_user-eq-ok :
        (resp : LoginResponse) (cookie : Cookie)
        → (login_user S token session_ttl_secs req now s).0 ≡ ok (resp, cookie)
        → (login_failures S (trim req.phone) s < max_login_failures)
          × (r : UserRow) × (b : ℕ) × LoggedIn resp cookie r b
    unfolding login_user
    login_user-eq-ok resp cookie h = elim (Option-cases (find_login (trim req.phone) s.db)) [
      | inl unknown ↦ absurd (ground (arith, h, unknown))
      | inr ((r, b), found) ↦ (ground (arith, h), r, b, ground (arith, h, found))
    ]

    module _ (L : SessionLaws S) where
      -- With a Redis that answers: after a login that was answered, a request that carries the token
      -- of the answer's cookie, which is not blank, is let in as the user of the answer, when
      -- sessions live longer than no time.
      pub login_user-authenticated :
          (resp : LoginResponse) (cookie : Cookie) (parts : Parts)
          → (login_user S token session_ttl_secs req now s).0 ≡ ok (resp, cookie)
          → 0 < session_ttl_secs
          → is_blank token ≡ false
          → request_token parts ≡ some cookie.value
          → (authenticate S parts login).0
            ≡ ok (record { user_id = resp.user.id; session_token = cookie.value })
      login_user-authenticated resp cookie parts h long shown e =
          let (few, r, b, l) = login_user-eq-ok resp cookie h in
          authenticate-passes parts cookie.value (S.print_uuid r.id) resp.user.id login e
            (ground (arith, shown, l.set))
            (ap (λ (c : Cookie). S.get_text (Key.session c.value) login.cache) l.set
              ∙ ap (S.get_text (Key.session token)) l.after
              ∙ L.get_text-sadd (Key.session token) (Key.user_sessions r.id) token _ (λ d. cc)
              ∙ L.get_text-set_ex (Key.session token) (S.print_uuid r.id) session_ttl_secs _ long)
            (ground (arith, l.answer, L.parse-print_uuid r.id))
