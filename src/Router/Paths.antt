-- ===== src/Router/Paths.antt =====
-- The routers of features/*/routes.rs with their paths, as `build_app` of lib.rs merges and nests
-- them. How axum takes one route of those that match a path is left open: at most one does.
use Prim.Native.String.{String}
use pstu_backend.Prelude.{
  ◌≤◌, ◌≡◌, refl, arith, Text, Bool, true, false, not, ◌&&◌, List, [], ◌∷◌, ◌++◌, map, length,
  where_rows, text_eq, text_eq_eq, text_eq_refl, Bool-cases, inl, inr,
}
use pstu_backend.Core.Text.{codes}

pub data Method : Type 0 where
  get post : Method

pub data Segment : Type 0 where
  literal : Text → Segment
  param : Segment

-- The handlers by their names in the source.
pub data Handler : Type 0 where
  health_check liveness_check readiness_check metrics_handler : Handler
  register_handler login_handler logout_handler change_pin_handler reset_pin_handler : Handler
  get_me_handler lookup_users_handler get_public_user_handler : Handler
  create_transfer_handler get_transfer_handler get_transfer_events_handler : Handler
  get_transactions_handler get_statement_csv_handler get_activity_handler : Handler
  create_request_handler get_requests_handler accept_request_handler : Handler
  reject_request_handler cancel_request_handler get_request_events_handler : Handler
  create_link_handler get_my_links_handler get_link_handler claim_link_handler : Handler
  cancel_link_handler get_link_events_handler : Handler
  get_notifications_handler mark_read_handler parse_ai_intent_handler : Handler

pub record Route : Type 0 where
  pub method : Method
  pub path : List Segment
  pub handler : Handler

abbrev lit : String → Segment
lit s = literal (codes s)

abbrev route : Method → List Segment → Handler → Route
route method path handler = record { method = method; path = path; handler = handler }

abbrev pub health_router : List Route
health_router =
    route get (lit "health" ∷ []) health_check
    ∷ route get (lit "health" ∷ lit "live" ∷ []) liveness_check
    ∷ route get (lit "health" ∷ lit "ready" ∷ []) readiness_check
    ∷ route get (lit "metrics" ∷ []) metrics_handler
    ∷ []

abbrev pub auth_router : List Route
auth_router =
    route post (lit "auth" ∷ lit "register" ∷ []) register_handler
    ∷ route post (lit "auth" ∷ lit "login" ∷ []) login_handler
    ∷ route post (lit "auth" ∷ lit "logout" ∷ []) logout_handler
    ∷ route post (lit "me" ∷ lit "pin" ∷ lit "change" ∷ []) change_pin_handler
    ∷ route post (lit "me" ∷ lit "pin" ∷ lit "reset" ∷ []) reset_pin_handler
    ∷ []

abbrev pub users_router : List Route
users_router =
    route get (lit "me" ∷ []) get_me_handler
    ∷ route get (lit "users" ∷ lit "lookup" ∷ []) lookup_users_handler
    ∷ route get (lit "public" ∷ lit "users" ∷ param ∷ []) get_public_user_handler
    ∷ []

abbrev pub transfers_router : List Route
transfers_router =
    route post (lit "transfers" ∷ []) create_transfer_handler
    ∷ route get (lit "transfers" ∷ param ∷ []) get_transfer_handler
    ∷ route get (lit "transfers" ∷ param ∷ lit "events" ∷ []) get_transfer_events_handler
    ∷ []

abbrev pub history_router : List Route
history_router =
    route get (lit "me" ∷ lit "transactions" ∷ []) get_transactions_handler
    ∷ route get (lit "me" ∷ lit "statement.csv" ∷ []) get_statement_csv_handler
    ∷ route get (lit "me" ∷ lit "activity" ∷ []) get_activity_handler
    ∷ []

abbrev pub requests_router : List Route
requests_router =
    route post (lit "requests" ∷ []) create_request_handler
    ∷ route get (lit "requests" ∷ []) get_requests_handler
    ∷ route post (lit "requests" ∷ param ∷ lit "accept" ∷ []) accept_request_handler
    ∷ route post (lit "requests" ∷ param ∷ lit "reject" ∷ []) reject_request_handler
    ∷ route post (lit "requests" ∷ param ∷ lit "cancel" ∷ []) cancel_request_handler
    ∷ route get (lit "requests" ∷ param ∷ lit "events" ∷ []) get_request_events_handler
    ∷ []

abbrev pub links_router : List Route
links_router =
    route post (lit "links" ∷ []) create_link_handler
    ∷ route get (lit "me" ∷ lit "links" ∷ []) get_my_links_handler
    ∷ route get (lit "links" ∷ param ∷ []) get_link_handler
    ∷ route post (lit "links" ∷ param ∷ lit "claim" ∷ []) claim_link_handler
    ∷ route post (lit "links" ∷ param ∷ lit "cancel" ∷ []) cancel_link_handler
    ∷ route get (lit "links" ∷ param ∷ lit "events" ∷ []) get_link_events_handler
    ∷ []

abbrev pub notifications_router : List Route
notifications_router =
    route get (lit "me" ∷ lit "notifications" ∷ []) get_notifications_handler
    ∷ route post (lit "me" ∷ lit "notifications" ∷ lit "read" ∷ []) mark_read_handler
    ∷ []

abbrev pub ai_router : List Route
ai_router = route post (lit "ai" ∷ lit "parse" ∷ []) parse_ai_intent_handler ∷ []

abbrev pub api_v1 : List Route
api_v1 =
    health_router ++ auth_router ++ users_router ++ transfers_router ++ history_router
    ++ requests_router ++ links_router ++ notifications_router ++ ai_router

-- `nest`
abbrev pub nest : List Segment → Route → Route
nest prefix r = record r { path = prefix ++ r.path }

unfoldable pub app : List Route
app = health_router ++ map (nest (lit "api" ∷ lit "v1" ∷ [])) api_v1

abbrev pub same_method : Method → Method → Bool
same_method get get = true
same_method post post = true
same_method _ _ = false

-- A parameter takes any segment.
abbrev pub fits : List Segment → List Text → Bool
fits [] [] = true
fits (literal t ∷ path) (s ∷ segments) = text_eq t s && fits path segments
fits (param ∷ path) (s ∷ segments) = fits path segments
fits _ _ = false

abbrev pub matches : Method → List Text → Route → Bool
matches m segments r = same_method r.method m && fits r.path segments

-- Some request fits both paths.
abbrev overlap : List Segment → List Segment → Bool
overlap [] [] = true
overlap (literal t ∷ p) (literal s ∷ q) = text_eq t s && overlap p q
overlap (literal t ∷ p) (param ∷ q) = overlap p q
overlap (param ∷ p) (literal s ∷ q) = overlap p q
overlap (param ∷ p) (param ∷ q) = overlap p q
overlap _ _ = false

abbrev clash : Route → Route → Bool
clash r q = same_method r.method q.method && overlap r.path q.path

abbrev none_clash : Route → List Route → Bool
none_clash r [] = true
none_clash r (q ∷ qs) = not (clash r q) && none_clash r qs

abbrev all_apart : List Route → Bool
all_apart [] = true
all_apart (r ∷ rs) = none_clash r rs && all_apart rs

app-all_apart : all_apart app ≡ true
unfolding app
app-all_apart = refl

fits-overlap :
    (p q : List Segment) (s : List Text) → fits p s ≡ true → fits q s ≡ true → overlap p q ≡ true
fits-overlap [] [] s h k = refl
fits-overlap [] (y ∷ q) [] h k = ground (arith, k)
fits-overlap [] (y ∷ q) (c ∷ s) h k = ground (arith, h)
fits-overlap (x ∷ p) [] [] h k = ground (arith, h)
fits-overlap (x ∷ p) [] (c ∷ s) h k = ground (arith, k)
fits-overlap (x ∷ p) (y ∷ q) [] h k = ground (arith, h)
fits-overlap (literal t ∷ p) (literal u ∷ q) (c ∷ s) h k =
    ground (arith, h, k, fits-overlap p q s, text_eq_eq t c, text_eq_eq u c, text_eq_refl t)
fits-overlap (literal t ∷ p) (param ∷ q) (c ∷ s) h k = ground (arith, h, k, fits-overlap p q s)
fits-overlap (param ∷ p) (literal u ∷ q) (c ∷ s) h k = ground (arith, h, k, fits-overlap p q s)
fits-overlap (param ∷ p) (param ∷ q) (c ∷ s) h k = ground (arith, h, k, fits-overlap p q s)

module _ (m : Method) (s : List Text) where
  matches-clash : (r q : Route) → matches m s r ≡ true → matches m s q ≡ true → clash r q ≡ true
  matches-clash r q h k = ground (arith, h, k, fits-overlap r.path q.path s)

  none_left :
      (r : Route) (qs : List Route)
      → matches m s r ≡ true
      → none_clash r qs ≡ true
      → where_rows (matches m s) qs ≡ []
  none_left r [] h k = refl
  none_left r (q ∷ qs) h k = ground (arith, h, k, matches-clash r q h, none_left r qs h)

  one_left : (rs : List Route) → all_apart rs ≡ true → length (where_rows (matches m s) rs) ≤ 1
  one_left [] h = omega arith
  one_left (r ∷ rs) h = elim (Bool-cases (matches m s r)) [
    | inl taken ↦ ground (arith, taken, none_left r rs taken, h)
    | inr other ↦ ground (arith, other, one_left rs, h)
  ]

  -- Whatever method and path a request has, at most one route of the server takes it.
  pub app_unique : length (where_rows (matches m s) app) ≤ 1
  app_unique = one_left app app-all_apart
