-- ===== src/Slack/Providers.antt =====
-- core/dependencies.py: which transport a deployment posts with. The cache of the module is threaded
-- through, and Railway's endpoint answers with its text or an exception.
use request_o_matic.Base.{Bool, not, ◌&&◌, ◌||◌, Option, none, some, ◌++◌, if◌then◌else◌}
use request_o_matic.Exec.{Exception, Result, ok, raised}
use request_o_matic.Slack.Service.{SlackService}
use request_o_matic.Text.{Text, text, strip, is_given}

-- The settings that select the transport.
pub record SlackSettings : Type 0 where
  pub enable_slack_integration : Bool
  pub slack_use_bot_token : Bool
  pub slack_webhook_url : Option Text
  pub slack_bot_token : Option Text
  pub slack_channel_id : Option Text

abbrev initialization_error : Exception
initialization_error = Exception.other (text "ServiceInitializationError")

-- What Railway's answer makes of the URL, and of the cache.
unfoldable pub from_railway : Result Text → Result (Option Text) × Option Text
from_railway (raised e) = (raised initialization_error, none)
from_railway (ok body) =
    let url = text "https://hooks.slack.com/services/" ++ strip body in (ok (some url), some url)

-- The URL, and the cache after it.
unfoldable pub get_slack_webhook_url :
    SlackSettings → Option Text → Result Text → Result (Option Text) × Option Text
unfolding from_railway
get_slack_webhook_url settings (some cached) railway =
    if not settings.enable_slack_integration || settings.slack_use_bot_token
    then (ok none, some cached)
    else (ok (some cached), some cached)
get_slack_webhook_url settings none railway =
    if not settings.enable_slack_integration || settings.slack_use_bot_token
    then (ok none, none)
    else if is_given settings.slack_webhook_url
    then (ok settings.slack_webhook_url, settings.slack_webhook_url)
    else from_railway railway

abbrev both : Option Text → Option Text → Option (Text × Text)
both (some a) (some b) = if is_given (some a) && is_given (some b) then some (a, b) else none
both a b = none

unfoldable pub get_slack_bot_config : SlackSettings → Option (Text × Text)
get_slack_bot_config settings =
    if not settings.enable_slack_integration || not settings.slack_use_bot_token
    then none
    else both settings.slack_bot_token settings.slack_channel_id

abbrev with_bot : Option (Text × Text) → Option SlackService
with_bot none = none
with_bot (some (bot_token, channel_id)) =
    some (record { webhook_url = none; bot_token = some bot_token; channel_id = some channel_id })

abbrev with_webhook : Option Text → Option SlackService
with_webhook none = none
with_webhook (some url) =
    some (record { webhook_url = some url; bot_token = none; channel_id = none })

unfoldable pub get_slack_service :
    SlackSettings → Option Text → Option (Text × Text) → Option SlackService
get_slack_service settings webhook_url bot_config =
    if settings.slack_use_bot_token then with_bot bot_config else with_webhook webhook_url

abbrev pub given_service : SlackSettings → Result (Option Text) → Result (Option SlackService)
given_service settings (raised e) = raised e
given_service settings (ok url) =
    ok (get_slack_service settings url (get_slack_bot_config settings))

-- The dependencies in their order: what the handler is given, or the exception that precedes it, and
-- the cache.
unfoldable pub provide :
    SlackSettings → Option Text → Result Text → Result (Option SlackService) × Option Text
unfolding get_slack_webhook_url get_slack_bot_config get_slack_service
provide settings cached railway =
    let (url, later) = get_slack_webhook_url settings cached railway in
    (given_service settings url, later)
