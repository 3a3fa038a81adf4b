-- ===== src/Auth/Sessions/Revoked.antt =====
-- What `logout_user` and `reset_pin` leave of the sessions.
use pstu_backend.Prelude.{
  ◌≡◌, refl, ◌∙◌, ap, arith, Uuid, Instant, Text, Bool-cases, inl, inr, Option, none, some, List,
  [], ◌∷◌, Bool, false, true, text_eq, text_eq_refl, text_eq_eq, unwrap_or, if◌then◌else◌,
}
use pstu_backend.Core.Error.{AppError, ok, err}
use pstu_backend.Core.Services.{Services, SessionLaws, Key}
use pstu_backend.Core.App.{AppState}
use pstu_backend.Store.Statements.{exists_row}
use pstu_backend.Auth.Sessions.{
  Parts, Cookies, PinResetReq, request_token, is_blank, is_current, end_session, end_cookie_session,
  end_others, authenticate, logout_user, reset_pin,
}

abbrev pub has_text : Text → List Text → Bool
has_text t = exists_row λ x. text_eq x t

module _ (S : Services) where
  authenticate-fails :
      (parts : Parts) (t : Text) (s : AppState S.Cache)
      → request_token parts ≡ some t
      → is_blank t ≡ false
      → S.get_text (Key.session t) s.cache ≡ some none
      → (authenticate S parts s).0 ≡ err (AppError.unauthorized "Session expired or invalid")
  unfolding authenticate
  authenticate-fails parts t s e b h = ground (arith, e, b, h)

  module _ (L : SessionLaws S) (u : Uuid) where
    get_text-end_session :
        (t t' : Text) (c : S.Cache)
        → S.get_text (Key.session t) (end_session S u t' c)
          ≡ (if text_eq t t' then some none else S.get_text (Key.session t) c)
    get_text-end_session t t' c =
        L.get_text-srem (Key.session t) (Key.user_sessions u) t' _ (λ e. cc)
        ∙ elim (Bool-cases (text_eq t t')) [
          | inl same ↦ rw (same, text_eq_eq t t' same) (L.get_text-del (Key.session t') c)
          | inr other ↦ rw other (
              L.get_text-del_ne (Key.session t) (Key.session t') c
                (λ e. ground (arith, e, other, text_eq_refl t)))
        ]

    module _ (current : Option Text) where
      -- A session that is gone stays so.
      end_others_gone :
          (ts : List Text) (t : Text) (c : S.Cache)
          → S.get_text (Key.session t) c ≡ some none
          → S.get_text (Key.session t) (end_others S u current ts c) ≡ some none
      end_others_gone [] t c h = h
      end_others_gone (t' ∷ ts) t c h =
          end_others_gone ts t _ (ground (arith, h, get_text-end_session t t' c))

      get_text-end_others :
          (ts : List Text) (t : Text) (c : S.Cache)
          → has_text t ts ≡ true
          → is_current current t ≡ false
          → S.get_text (Key.session t) (end_others S u current ts c) ≡ some none
      get_text-end_others [] t c m n = cc
      get_text-end_others (t' ∷ ts) t c m n = elim (Bool-cases (text_eq t' t)) [
        | inl same ↦
            end_others_gone ts t _
              (ground (arith, n, text_eq_eq t' t same, text_eq_refl t, get_text-end_session t t' c))
        | inr other ↦ get_text-end_others ts t _ (ground (arith, m, other)) n
      ]

      get_text-end_others_current :
          (ts : List Text) (t : Text) (c : S.Cache)
          → is_current current t ≡ true
          → S.get_text (Key.session t) (end_others S u current ts c) ≡ S.get_text (Key.session t) c
      get_text-end_others_current [] t c n = refl
      get_text-end_others_current (t' ∷ ts) t c n =
          get_text-end_others_current ts t _ n
          ∙ ground (arith, n, text_eq_eq t t', get_text-end_session t t' c)

  module _ (u : Uuid) (req : PinResetReq) (cookies : Cookies) (now : Instant)
      (s : AppState S.Cache) where
    abbrev pub after_reset : AppState S.Cache
    after_reset = (reset_pin S u req cookies now s).1

    -- The tokens that the cache keeps of the user.
    abbrev pub tokens : List Text
    tokens = unwrap_or [] (S.smembers (Key.user_sessions u) s.cache)

    reset_pin-cache :
        {answer : Instant}
        → (reset_pin S u req cookies now s).0 ≡ ok answer
        → after_reset.cache ≡ end_others S u cookies.sid tokens s.cache
    unfolding reset_pin
    reset_pin-cache h = ground (arith, h)

    revoked :
        (L : SessionLaws S) (answer : Instant) (parts : Parts) (t : Text)
        → (reset_pin S u req cookies now s).0 ≡ ok answer
        → has_text t tokens ≡ true
        → is_current cookies.sid t ≡ false
        → request_token parts ≡ some t
        → is_blank t ≡ false
        → (authenticate S parts after_reset).0
          ≡ err (AppError.unauthorized "Session expired or invalid")
    revoked L answer parts t h member other e shown =
        authenticate-fails parts t after_reset e shown (
          ap (S.get_text (Key.session t)) (reset_pin-cache h)
          ∙ get_text-end_others L u cookies.sid tokens t s.cache member other)

    kept :
        (L : SessionLaws S) (answer : Instant) (parts : Parts) (t : Text)
        → (reset_pin S u req cookies now s).0 ≡ ok answer
        → is_current cookies.sid t ≡ true
        → request_token parts ≡ some t
        → (authenticate S parts after_reset).0 ≡ (authenticate S parts s).0
    unfolding authenticate
    kept L answer parts t h mine e = ground (
      arith,
      e,
      ap (S.get_text (Key.session t)) (reset_pin-cache h)
          ∙ get_text-end_others_current L u cookies.sid tokens t s.cache mine,
    )

    -- With a Redis that answers: after a reset of the PIN that was answered, a request that carries
    -- a token of the user's set, which is not blank, is refused as expired, unless it is the token
    -- of the cookie that the reset came with: then it is answered as before the reset.
    pub reset_pin-revokes :
        (L : SessionLaws S) (answer : Instant) (parts : Parts) (t : Text)
        → (reset_pin S u req cookies now s).0 ≡ ok answer
        → has_text t tokens ≡ true
        → request_token parts ≡ some t
        → is_blank t ≡ false
        → (authenticate S parts after_reset).0 ≡ (
            if is_current cookies.sid t
            then (authenticate S parts s).0
            else err (AppError.unauthorized "Session expired or invalid"))
    reset_pin-revokes L answer parts t h member e shown =
        elim (Bool-cases (is_current cookies.sid t)) [
          | inl mine ↦ rw mine (kept L answer parts t h mine e)
          | inr other ↦ rw other (revoked L answer parts t h member other e shown)
        ]

  -- With a Redis that answers: after a logout, a request that carries the token of the logout's
  -- cookie, which is not blank, is refused as expired.
  pub logout_user-revokes :
      (L : SessionLaws S) (u : Uuid) (cookies : Cookies) (now : Instant) (s : AppState S.Cache)
      (parts : Parts) (t : Text)
      → cookies.sid ≡ some t
      → request_token parts ≡ some t
      → is_blank t ≡ false
      → (authenticate S parts (logout_user S u cookies now s).1).0
        ≡ err (AppError.unauthorized "Session expired or invalid")
  unfolding logout_user
  logout_user-revokes L u cookies now s parts t mine e shown =
      authenticate-fails parts t (logout_user S u cookies now s).1 e shown (
        ap (λ o. S.get_text (Key.session t) (end_cookie_session S u o s.cache)) mine
        ∙ get_text-end_session L u t t s.cache
        ∙ ground (arith, text_eq_refl t))
