-- ===== src/Health/Transport.antt =====
-- routers/health.py with core/dependencies.py: what the probe of Slack checks, and what is posted with.
use request_o_matic.Base.{◌≡◌, true, Option, none, some, arith}
use request_o_matic.Exec.{Result, ok, Exec, pure}
use request_o_matic.Health.{verdict, probe_slack, probe_webhook}
use request_o_matic.Providers.{Settings}
use request_o_matic.Slack.Providers.{
  provide, get_slack_webhook_url, get_slack_bot_config, get_slack_service, from_railway,
}
use request_o_matic.Slack.Service.{SlackService}
use request_o_matic.Text.{Text}

-- The check of one transport: nothing is sent with a bot token, and an empty post to the webhook.
abbrev pub checked : Option Text → Exec Text
checked none = pure (verdict true)
checked (some url) = probe_webhook (some url)

-- A service that the settings, the cache or Railway give is the one whose transport the readiness check
-- then probes: with a bot token it answers `ok` without a call, and with a webhook it posts an empty
-- body to that very URL and answers by what comes back.
pub probe_slack-provide :
    (settings : Settings) (cached later : Option Text) (railway : Result Text) (sv : SlackService)
    → provide settings.slack cached railway ≡ (ok (some sv), later)
    → probe_slack settings later ≡ checked sv.webhook_url
unfolding probe_slack provide get_slack_webhook_url get_slack_bot_config get_slack_service
    from_railway
probe_slack-provide settings none later railway sv h = ground arith
probe_slack-provide settings (some url) later railway sv h = ground arith
