-- ===== src/Links/Service.antt =====
-- features/links/service.rs: the handlers that change a payment link.
use pstu_backend.Prelude.{
  ℕ, ◌+◌, ◌*◌, Uuid, Instant, Text, Bool, true, false, not, ◌&&◌, none, some, [], ltb, leb,
  if◌then◌else◌, unwrap_or,
}
use pstu_backend.Core.Error.{AppError}
use pstu_backend.Core.Limits.{min_link_ttl_secs, max_link_ttl_secs}
use pstu_backend.Core.Money.{parse_positive_from_str}
use pstu_backend.Core.Text.{trim}
use pstu_backend.Core.Services.{Services}
use pstu_backend.Core.App.{
  Action, pure, raise_if, lift, ok_or_raise, query, transaction, update_db, ◌>>=◌, ◌>>◌,
}
use pstu_backend.Core.Pin.{enforce_user_pin}
use pstu_backend.Store.Schema.{PaymentLinkRow, LinkStatus}
use pstu_backend.Transfers.Dto.{Fresh, money_result}
use pstu_backend.Links.Dto.{
  CreatePaymentLinkRequest, ClaimPaymentLinkRequest, PaymentLinkDto, ClaimPaymentLinkResponse,
  link_dto, find_link, update_links, mark_expired,
}
use pstu_backend.Links.Transactions.{record_link, claim_transaction, cancel_transaction}

abbrev pub is_active : LinkStatus → Bool
is_active LinkStatus.active = true
is_active _ = false

abbrev pub ttl_allowed : ℕ → Bool
ttl_allowed ttl_secs = leb min_link_ttl_secs ttl_secs && leb ttl_secs max_link_ttl_secs

-- `now + Duration::seconds(ttl_secs)`, in microseconds
abbrev pub expiry : Instant → ℕ → Instant
expiry now ttl_secs = now + ttl_secs * 1000000

module _ (S : Services) where
  open S use {Cache}

  -- What `create_link` reads of its payload: the row to insert, and its time to live. The token and
  -- the default of the configuration are arguments.
  unfoldable pub draft_link :
      ℕ → Uuid → CreatePaymentLinkRequest → Text → Fresh → Action Cache (PaymentLinkRow × ℕ)
  draft_link default_ttl creator_id req token f = do
    amount ← lift (money_result (parse_positive_from_str S.is_digit req.amount_paisa))
    let ttl_secs = unwrap_or default_ttl req.expires_in_seconds
    raise_if (not (ttl_allowed ttl_secs))
        (AppError.bad_request "expires_in_seconds must be between 60 and 86400 seconds")
    pure (
      record {
        id = f.id;
        creator_id = creator_id;
        amount_paisa = amount;
        note = trim (unwrap_or [] req.note);
        token = token;
        status = LinkStatus.active;
        claimer_id = none;
        transfer_id = none;
        expires_at = expiry f.now ttl_secs;
        created_at = f.now;
        claimed_at = none;
        cancelled_at = none;
      },
      ttl_secs,
    )

  unfoldable pub create_link :
      ℕ → Uuid → CreatePaymentLinkRequest → Text → Fresh → Action Cache PaymentLinkDto
  unfolding draft_link
  create_link default_ttl creator_id req token f = do
    enforce_user_pin S creator_id req.pin f.now
    drafted ← draft_link default_ttl creator_id req token f
    transaction (record_link drafted.0 drafted.1)
    pure (link_dto drafted.0 LinkStatus.active none none)

  -- `get_link_by_token`: a read that writes the status of a link past its time.
  unfoldable pub get_link_by_token : Text → Instant → Action Cache PaymentLinkDto
  get_link_by_token token now = do
    found ← query (find_link token)
    l ← ok_or_raise (AppError.not_found "Payment link not found") found
    let lapsed = is_active l.status && ltb l.expires_at now
    update_db λ db. if lapsed then update_links l.id mark_expired db else db
    pure (link_dto l (if lapsed then LinkStatus.expired else l.status) l.claimed_at l.cancelled_at)

  unfoldable pub claim_link :
      Uuid → Text → ClaimPaymentLinkRequest → Fresh → Action Cache ClaimPaymentLinkResponse
  claim_link claimer_id token payload f = do
    enforce_user_pin S claimer_id payload.pin f.now
    answer ← transaction (claim_transaction claimer_id token payload f)
    lift answer

  unfoldable pub cancel_link : Uuid → Text → Instant → Action Cache PaymentLinkDto
  cancel_link actor_id token now = do
    l ← transaction (cancel_transaction actor_id token now)
    pure (link_dto l LinkStatus.cancelled none (some now))
