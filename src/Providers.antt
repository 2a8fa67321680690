-- ===== src/Providers.antt =====
-- core/dependencies.py: the clients that a deployment has, from its settings. The one of Slack's posts
-- is in Slack/Providers. The HTTP client that all share is the world.
use request_o_matic.BanAdmin.{BanAdminClient}
use request_o_matic.Base.{Bool, false, not, ◌||◌, Option, none, some, if◌then◌else◌}
use request_o_matic.Exec.{Exception, Result, ok, raised}
use request_o_matic.Interactivity.{Deployment}
use request_o_matic.Json.{Json, decimal}
use request_o_matic.Lookup.{LookupClient, effective_caller_budget_ms}
use request_o_matic.Moderators.{ModeratorClient}
use request_o_matic.Request.{Services}
use request_o_matic.Slack.Providers.{SlackSettings}
use request_o_matic.Slack.Service.{SlackService}
use request_o_matic.Text.{Text, text, is_given}

-- The settings that the providers and the probes read.
pub record Settings : Type 0 where
  pub groq_api_key : Text
  pub lookup_service_url : Option Text
  pub lml_api_key : Option Text
  pub enable_telemetry : Bool
  pub enforce_request_bans : Bool
  pub strict_fingerprint_for_known_clients : Bool
  pub bs_check_request_ban_url : Option Text
  pub bs_internal_bans_url : Option Text
  pub bs_internal_moderators_url : Option Text
  pub bs_internal_key : Option Text
  pub slack_ban_authorized_users : Option Text
  pub slack : SlackSettings

-- The key that the client of Groq sends.
unfoldable pub get_groq_client : Settings → Result Text
get_groq_client settings =
    if is_given (some settings.groq_api_key)
    then ok settings.groq_api_key
    else raised (Exception.other (text "ServiceInitializationError"))

-- Whether there is a client, and so a check.
unfoldable pub get_ban_check_client : Settings → Bool
get_ban_check_client settings =
    not (not settings.enforce_request_bans || not (is_given settings.bs_check_request_ban_url))

-- The client with the defaults of its constructor: two attempts of 20 seconds.
unfoldable pub get_lookup_client : Settings → Option LookupClient
unfolding effective_caller_budget_ms decimal
get_lookup_client settings =
    if is_given settings.lookup_service_url
    then some (record {
      api_key = settings.lml_api_key;
      max_attempts = 2;
      budget = decimal (effective_caller_budget_ms none 20000);
    })
    else none

-- Whether there is a client, if the shared library has one.
unfoldable pub get_posthog_client : Settings → Bool → Bool
get_posthog_client settings shared = if settings.enable_telemetry then shared else false

module _ (describe : Exception → Text) where
  abbrev with_key : Option Text → Option BanAdminClient
  with_key none = none
  with_key (some key) = some (record { internal_key = key; describe = describe })

  unfoldable pub build_ban_admin_client : Settings → Option BanAdminClient
  build_ban_admin_client settings =
      if not (is_given settings.bs_internal_bans_url) || not (is_given settings.bs_internal_key)
      then none
      else with_key settings.bs_internal_key

  abbrev with_moderator_key : (Text → Text) → Option Text → Option ModeratorClient
  with_moderator_key upper none = none
  with_moderator_key upper (some key) =
      some (record { internal_key = key; describe = describe; upper = upper })

  unfoldable pub get_moderator_client : (Text → Text) → Settings → Option ModeratorClient
  get_moderator_client upper settings =
      if not (is_given settings.bs_internal_moderators_url)
        || not (is_given settings.bs_internal_key)
      then none
      else with_moderator_key upper settings.bs_internal_key

-- Whether there is a service for the callbacks of Slack.
unfoldable pub get_slack_interactivity_service : Settings → Bool
get_slack_interactivity_service settings = is_given settings.slack.slack_bot_token

-- What the routes that Slack calls are given.
unfoldable pub deployment : (Exception → Text) → (Text → Text) → Settings → Deployment
unfolding build_ban_admin_client get_moderator_client get_slack_interactivity_service
deployment describe upper settings = record {
  slack = get_slack_interactivity_service settings;
  slack_ban_authorized_users = settings.slack_ban_authorized_users;
  ban_client = build_ban_admin_client describe settings;
  moderator_client = get_moderator_client describe upper settings;
}

-- What `POST /request` is given, with the Slack service that was provided.
unfoldable pub services : Settings → Option SlackService → Bool → Json → Services
unfolding get_posthog_client get_lookup_client get_ban_check_client
services settings slack shared cache_stats = record {
  slack = slack;
  posthog = get_posthog_client settings shared;
  lookup_client = get_lookup_client settings;
  ban_check_client = get_ban_check_client settings;
  strict_fingerprint_for_known_clients = settings.strict_fingerprint_for_known_clients;
  cache_stats = cache_stats;
}
