-- ===== src/Startup/Mail.antt =====
-- core/mail.rs: whether mail is sent, and through what. Building and delivering a message is the
-- crate lettre.
use pstu_backend.Prelude.{
  ℕ, ◌≡◌, refl, arith, Text, Bool, true, false, not, ◌&&◌, Option, none, some, if◌then◌else◌,
}
use pstu_backend.Core.Config.{AppConfig}
use pstu_backend.Core.Text.{trim}
use pstu_backend.Auth.Sessions.{is_blank}

pub record Transport : Type 0 where
  pub host : Text
  pub port : ℕ
  pub user : Text
  pub password : Text

pub record Mailer : Type 0 where
  pub transport : Option Transport
  pub from_email : Option Text

abbrev no_mailer : Mailer
no_mailer = record { transport = none; from_email = none }

-- `AsyncSmtpTransport::relay` takes the host.
module _ (is_relay : Text → Bool) where
  unfoldable pub mailer_for : Text → ℕ → Text → Text → Text → Mailer
  mailer_for host port user pass from =
      if not (is_blank user) && not (is_blank pass) && not (is_blank from)
      then record {
        transport =
            if is_relay (trim host)
            then some
                (record { host = trim host; port = port; user = trim user; password = trim pass })
            else none;
        from_email = some (trim from);
      }
      else no_mailer

  abbrev some_mailer : ℕ → Option Text → Option Text → Option Text → Option Text → Mailer
  some_mailer port (some host) (some user) (some pass) (some from) =
      mailer_for host port user pass from
  some_mailer port _ _ _ _ = no_mailer

  -- `Mailer::new`
  unfoldable pub new_mailer : AppConfig → Mailer
  unfolding mailer_for
  new_mailer config =
      some_mailer config.smtp_port config.smtp_host config.smtp_user config.smtp_password
        config.mail_from_email

abbrev is_set : {A : Type 0} → Option A → Bool
is_set none = false
is_set (some a) = true

unfoldable pub is_enabled : Mailer → Bool
is_enabled m = is_set m.transport && is_set m.from_email

-- A host, a user, a password and a sender are set, the last three not blank, and the crate takes the
-- host.
pub record Complete (is_relay : Text → Bool) (host user pass from : Option Text) : Type 0 where
  pub host_text : Text
  pub user_text : Text
  pub pass_text : Text
  pub from_text : Text
  pub host_set : host ≡ some host_text
  pub user_set : user ≡ some user_text
  pub pass_set : pass ≡ some pass_text
  pub from_set : from ≡ some from_text
  pub relayed : is_relay (trim host_text) ≡ true
  pub user_shown : is_blank user_text ≡ false
  pub pass_shown : is_blank pass_text ≡ false
  pub from_shown : is_blank from_text ≡ false

module _ (is_relay : Text → Bool) where
  some_mailer-Complete :
      (port : ℕ) (host user pass from : Option Text)
      → is_enabled (some_mailer is_relay port host user pass from) ≡ true
      → Complete is_relay host user pass from
  unfolding is_enabled mailer_for
  some_mailer-Complete port (some host) (some user) (some pass) (some from) h = record {
    host_text = host;
    user_text = user;
    pass_text = pass;
    from_text = from;
    host_set = refl;
    user_set = refl;
    pass_set = refl;
    from_set = refl;
    relayed = ground (arith, h);
    user_shown = ground (arith, h);
    pass_shown = ground (arith, h);
    from_shown = ground (arith, h);
  }
  some_mailer-Complete port _ _ _ _ h = cc

  -- Mail is sent only with a host that the crate takes, and a user, a password and a sender that are
  -- not blank.
  pub is_enabled-new_mailer :
      (config : AppConfig)
      → is_enabled (new_mailer is_relay config) ≡ true
      → Complete is_relay config.smtp_host config.smtp_user config.smtp_password
          config.mail_from_email
  unfolding new_mailer
  is_enabled-new_mailer config h =
      some_mailer-Complete config.smtp_port config.smtp_host config.smtp_user config.smtp_password
        config.mail_from_email h
