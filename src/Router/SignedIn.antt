-- ===== src/Router/SignedIn.antt =====
-- A login through its route, and the first request of the new session.
use pstu_backend.Prelude.{
  ◌<◌, ◌≡◌, ◌∙◌, refl, ap, arith, Uuid, Instant, Text, Bool, true, false, some, List, [], ◌∷◌,
  first_row, ℕ, text_eq, ◌==◌, Bool-cases, inl, inr,
}
use pstu_backend.Core.Error.{ok}
use pstu_backend.Core.Services.{SessionLaws}
use pstu_backend.Core.Text.{trim}
use pstu_backend.Core.App.{AppState}
use pstu_backend.Store.Schema.{Db, UserRow}
use pstu_backend.Store.Statements.{balance_of}
use pstu_backend.Auth.Login.{LoginRequest, LoginResponse, Cookie, find_login, login_user}
use pstu_backend.Auth.Sessions.{Parts, AuthenticatedUser, is_blank, request_token, authenticate}
use pstu_backend.Auth.Sessions.Opened.{login_user-eq-ok, login_user-authenticated}
use pstu_backend.Auth.Sessions.Kept.{login_user-Unmoved}
use pstu_backend.Books.Unmoved.{Unmoved}
use pstu_backend.Auth.Routes.{login_handler}
use pstu_backend.Users.Routes.{UserProfileResponse, find_profile, profile, get_me_handler}
use pstu_backend.Http.{Reply, ApiResponse, Draw, api_response}
use pstu_backend.Router.{Server, Endpoint, Answer, handle}

-- A row found by one test is found, or another like it, by any test that it passes.
first_row_again :
    {A : Type 0} (p q : A → Bool) (rows : List A) (r : A)
    → first_row p rows ≡ some r
    → q r ≡ true
    → (r' : A) × (first_row q rows ≡ some r') × (q r' ≡ true)
first_row_again p q [] r e h = absurd (ground (arith, e))
first_row_again p q (x ∷ rows) r e h = elim (Bool-cases (q x)) [
  | inl passes ↦ (x, ground (arith, passes), passes)
  | inr fails ↦ elim (Bool-cases (p x)) [
    | inl taken ↦ absurd (ground (arith, taken, fails, e, h))
    | inr other ↦
        let (r', found, passed) = first_row_again p q rows r (ground (arith, e, other)) h in
        (r', ground (arith, found, fails), passed)
  ]
]

find_login-eq-some :
    (phone : Text) (db : Db) (r : UserRow) (b : ℕ)
    → find_login phone db ≡ some (r, b)
    → (first_row (λ (x : UserRow). text_eq x.phone phone) db.users ≡ some r)
      × (balance_of r.id db ≡ some b)
unfolding find_login
find_login-eq-some phone db r b h = ground (arith, h)

-- The user who is found by a phone number has a profile, with the balance that was found.
find_profile-eq-some :
    (phone : Text) (db : Db) (r : UserRow) (b : ℕ)
    → find_login phone db ≡ some (r, b)
    → (u : UserRow) × (find_profile r.id db ≡ some (profile u b)) × (u.id ≡ r.id)
find_profile-eq-some phone db r b h =
    let (first, had) = find_login-eq-some phone db r b h in
    let (u, found, same) =
      first_row_again (λ (x : UserRow). text_eq x.phone phone) (λ (x : UserRow). x.id == r.id)
        db.users r first (ground arith) in
    (u, ground (arith, found, same, had), ground (arith, same))

find_profile-Unmoved :
    (u : Uuid) (db db' : Db) → Unmoved db db' → find_profile u db' ≡ find_profile u db
find_profile-Unmoved u db db' h = rw (h.users, h.balances) refl

module _ (V : Server) where
  open V use {services, config}

  -- A request with a session of a user who has a profile is answered with it.
  get_me-answer :
      (p : Parts) (d : Draw) (s : AppState services.Cache) (u : AuthenticatedUser)
      (me : UserProfileResponse)
      → (authenticate services p s).0 ≡ ok u
      → find_profile u.user_id s.db ≡ some me
      → (handle V Endpoint.get_me p d s).0
        ≡ ok (record { status = 200; body = api_response services d.trace me })
  unfolding handle get_me_handler authenticate
  get_me-answer p d s u me h k = ground (arith, h, k)

  handle-login :
      (payload : LoginRequest) (token : Text) (now : Instant) (p : Parts) (d : Draw)
      (s : AppState services.Cache) (a : Reply (Answer (Endpoint.login payload token now)))
      → (handle V (Endpoint.login payload token now) p d s).0 ≡ ok a
      → ((login_user services token config.session_ttl_secs payload now s).0
          ≡ ok (a.body.0.content, a.body.1))
        × ((handle V (Endpoint.login payload token now) p d s).1
            ≡ (login_user services token config.session_ttl_secs payload now s).1)
  unfolding handle login_handler
  handle-login payload token now p d s a h = ground (arith, h)

  -- The profile that is read right after the login.
  pub record Shown (a : Reply (ApiResponse LoginResponse × Cookie))
      (me : Reply (ApiResponse UserProfileResponse)) : Type 0 where
    pub is_ok : me.status ≡ 200
    pub same_user : me.body.content.id ≡ a.body.0.content.user.id
    pub same_balance : me.body.content.balance ≡ a.body.0.content.balance

  module _ (L : SessionLaws services) (payload : LoginRequest) (token : Text) (now : Instant)
      (p : Parts) (d : Draw) (s : AppState services.Cache) where
    abbrev pub signed_in : AppState services.Cache
    signed_in = (handle V (Endpoint.login payload token now) p d s).1

    -- With a Redis that answers: after a login that was answered by its route, a request for the
    -- profile that carries the token of the login's cookie, which is not blank, is answered with
    -- status 200, the same user id and the same balance, when sessions live longer than no time.
    pub login-get_me :
        (a : Reply (ApiResponse LoginResponse × Cookie)) (p' : Parts) (d' : Draw)
        → (handle V (Endpoint.login payload token now) p d s).0 ≡ ok a
        → 0 < config.session_ttl_secs
        → is_blank token ≡ false
        → request_token p' ≡ some a.body.1.value
        → (me : Reply (ApiResponse UserProfileResponse)) × ((handle V Endpoint.get_me p' d'
              signed_in).0
            ≡ ok me)
          × Shown a me
    login-get_me a p' d' h long shown carried =
        let ttl = config.session_ttl_secs in
        let (answered, state) = handle-login payload token now p d s a h in
        let (few, r, b, l) =
          login_user-eq-ok services token ttl payload now s a.body.0.content a.body.1 answered in
        let (u, found, same) = find_profile-eq-some (trim payload.phone) s.db r b l.found in
        let let_in =
          login_user-authenticated services token ttl payload now s L a.body.0.content a.body.1 p'
            answered long shown carried in
        let read =
          find_profile-Unmoved r.id s.db signed_in.db
            (rw state (login_user-Unmoved services token ttl payload now s))
          ∙ found in
        let me : Reply (ApiResponse UserProfileResponse) = record {
          status = 200;
          body = api_response services d'.trace (profile u b);
        } in
        (
          me,
          get_me-answer p' d' signed_in
              (record { user_id = a.body.0.content.user.id; session_token = a.body.1.value })
              (profile u b) (rw state let_in)
              (ap (λ (x : LoginResponse). find_profile x.user.id signed_in.db) l.answer ∙ read),
          record {
            is_ok = refl;
            same_user = ground (arith, l.answer, same);
            same_balance = ground (arith, l.answer);
          },
        )
