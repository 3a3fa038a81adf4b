-- ===== src/Ai/Routes.antt =====
-- features/ai/routes.rs
use Prim.Native.String.{String}
use pstu_backend.Prelude.{Text}
use pstu_backend.Core.Services.{Services}
use pstu_backend.Core.App.{Action, ◌>>=◌, ◌>>◌}
use pstu_backend.Auth.Sessions.{Parts, authenticate}
use pstu_backend.Ai.{Patterns, AiParseResponse, parse_intent}
use pstu_backend.Http.{Reply, ApiResponse, Draw, refuse_invalid, limit_user, answer}
use pstu_backend.Http.Validate
use pstu_backend.Http.Validate.{Problems}

module _ (S : Services) (P : Patterns) (report : Problems → String) where
  open S use {Cache}

  unfoldable pub parse_ai_intent_handler :
      Parts → Text → Draw → Action Cache (Reply (ApiResponse AiParseResponse))
  parse_ai_intent_handler parts text d = do
    auth_user ← authenticate S parts
    limit_user S "ai_parse" auth_user.user_id 30 d
    refuse_invalid report (Validate.parse_request text)
    answer S 200 d.trace (parse_intent P text)
