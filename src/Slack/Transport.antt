-- ===== src/Slack/Transport.antt =====
-- core/dependencies.py: what the providers of the Slack service promise.
use request_o_matic.Base.{
  ◌≡◌, refl, true, false, not, ◌||◌, Option, none, some, is_some, arith, ◌⊎◌, inl, inr, ◌++◌,
  Option-cases, Bool-cases,
}
use request_o_matic.Exec.{Result, ok, raised}
use request_o_matic.Slack.Providers.{
  SlackSettings, get_slack_webhook_url, get_slack_bot_config, get_slack_service, provide,
  given_service, from_railway,
}
use request_o_matic.Slack.Service.{SlackService}
use request_o_matic.Text.{Text, text, strip, is_given}

-- The bot token and the channel of the settings, neither of them blank, and no webhook.
pub record UsesBot (settings : SlackSettings) (s : SlackService) : Type 0 where
  pub is_enabled : settings.enable_slack_integration ≡ true
  pub is_selected : settings.slack_use_bot_token ≡ true
  pub token : Text
  pub channel : Text
  pub set_token : settings.slack_bot_token ≡ some token
  pub set_channel : settings.slack_channel_id ≡ some channel
  pub has_token : is_given (some token) ≡ true
  pub has_channel : is_given (some channel) ≡ true
  pub is_service :
      s ≡ record { webhook_url = none; bot_token = some token; channel_id = some channel }

-- Where the URL of the webhook is from: what was resolved before, then the settings, then Railway.
abbrev pub IsResolved : SlackSettings → Option Text → Result Text → Text → Type 0
IsResolved settings (some before) railway url = url ≡ before
IsResolved settings none (ok body) url =
    ((is_given settings.slack_webhook_url ≡ true) × (settings.slack_webhook_url ≡ some url))
    ⊎ ((is_given settings.slack_webhook_url ≡ false)
        × (url ≡ text "https://hooks.slack.com/services/" ++ strip body))
IsResolved settings none (raised e) url =
    (is_given settings.slack_webhook_url ≡ true) × (settings.slack_webhook_url ≡ some url)

-- That URL, and neither token nor channel.
pub record UsesWebhook (settings : SlackSettings) (cached : Option Text) (railway : Result Text)
    (s : SlackService) : Type 0 where
  pub is_enabled : settings.enable_slack_integration ≡ true
  pub is_selected : settings.slack_use_bot_token ≡ false
  pub url : Text
  pub is_resolved : IsResolved settings cached railway url
  pub is_service : s ≡ record { webhook_url = some url; bot_token = none; channel_id = none }

module _ (settings : SlackSettings) (s : SlackService) where
  -- With the bot token selected, the URL is never resolved.
  bot-UsesBot :
      settings.slack_use_bot_token ≡ true
      → (url : Option Text)
      → get_slack_service settings url (get_slack_bot_config settings) ≡ some s
      → UsesBot settings s
  unfolding get_slack_service get_slack_bot_config
  bot-UsesBot selected url h = elim (Option-cases settings.slack_bot_token) [
    | inl missing ↦ absurd (ground (arith, h, selected, missing))
    | inr (token, set_token) ↦ elim (Option-cases settings.slack_channel_id) [
      | inl missing ↦ absurd (ground (arith, h, selected, set_token, missing))
      | inr (channel, set_channel) ↦ record {
        is_enabled = ground (arith, h, selected);
        is_selected = selected;
        token = token;
        channel = channel;
        set_token = set_token;
        set_channel = set_channel;
        has_token = ground (arith, h, selected, set_token, set_channel);
        has_channel = ground (arith, h, selected, set_token, set_channel);
        is_service = ground (arith, h, selected, set_token, set_channel);
      }
    ]
  ]

  -- Without it, the URL decides.
  module _ (selected : settings.slack_use_bot_token ≡ false) where
    cached-UsesWebhook :
        (url : Text) (railway : Result Text)
        → (provide settings (some url) railway).0 ≡ ok (some s)
        → UsesWebhook settings (some url) railway s
    unfolding provide get_slack_webhook_url get_slack_service
    cached-UsesWebhook url railway h = record {
      is_enabled = ground (arith, h, selected);
      is_selected = selected;
      url = url;
      is_resolved = refl;
      is_service = ground (arith, h, selected);
    }

    set-UsesWebhook :
        (railway : Result Text) (url : Text)
        → is_given settings.slack_webhook_url ≡ true
        → settings.slack_webhook_url ≡ some url
        → (provide settings none railway).0 ≡ ok (some s)
        → UsesWebhook settings none railway s
    unfolding provide get_slack_webhook_url get_slack_service
    set-UsesWebhook railway url given set_url h = record {
      is_enabled = ground (arith, h, selected);
      is_selected = selected;
      url = url;
      is_resolved = elim railway as (λ r. IsResolved settings none r url) [
        | ok body ↦ inl (given, set_url)
        | raised e ↦ (given, set_url)
      ];
      is_service = ground (arith, h, selected, given, set_url);
    }

    railway-UsesWebhook :
        (railway : Result Text)
        → is_given settings.slack_webhook_url ≡ false
        → (provide settings none railway).0 ≡ ok (some s)
        → UsesWebhook settings none railway s
    unfolding provide get_slack_webhook_url get_slack_service from_railway
    railway-UsesWebhook (ok body) unset h = record {
      is_enabled = ground (arith, h, selected);
      is_selected = selected;
      url = text "https://hooks.slack.com/services/" ++ strip body;
      is_resolved = inr (unset, refl);
      is_service = ground (arith, h, selected, unset);
    }
    railway-UsesWebhook (raised e) unset h = absurd (ground (arith, h, selected, unset))

    webhook-UsesWebhook :
        (cached : Option Text) (railway : Result Text)
        → (provide settings cached railway).0 ≡ ok (some s)
        → UsesWebhook settings cached railway s
    webhook-UsesWebhook (some url) railway h = cached-UsesWebhook url railway h
    webhook-UsesWebhook none railway h = elim (Bool-cases (is_given settings.slack_webhook_url)) [
      | inr unset ↦ railway-UsesWebhook railway unset h
      | inl given ↦ elim (Option-cases settings.slack_webhook_url) [
        | inl missing ↦ absurd (ground (arith, given, missing))
        | inr (url, set_url) ↦ set-UsesWebhook railway url given set_url h
      ]
    ]

  ok-same :
      (r : Result (Option Text))
      → given_service settings r ≡ ok (some s)
      → (url : Option Text) × (get_slack_service settings url (get_slack_bot_config settings)
          ≡ some s)
  ok-same (ok url) h = (url, ground (arith, h))
  ok-same (raised e) h = absurd (ground (arith, h))

  -- A service that the handler is given is one of the integration being on, and has one transport. If the
  -- settings select the bot token, it has their token and their channel, neither of them blank, and no
  -- webhook. If they do not, it has a webhook alone: the URL that was resolved before, or else that of the
  -- settings, or else, when they give none, the one made of Railway's answer.
  pub provide-Uses :
      (cached : Option Text) (railway : Result Text)
      → (provide settings cached railway).0 ≡ ok (some s)
      → UsesBot settings s ⊎ UsesWebhook settings cached railway s
  unfolding provide
  provide-Uses cached railway h = elim (Bool-cases settings.slack_use_bot_token) [
    | inl selected ↦
        let (url, made) = ok-same (get_slack_webhook_url settings cached railway).0 h in
        inl (bot-UsesBot selected url made)
    | inr selected ↦ inr (webhook-UsesWebhook selected cached railway h)
  ]

-- Railway's endpoint matters only when the integration is on without the bot token, no URL has been
-- resolved before and the settings give none: otherwise its answer, or its failure, changes nothing.
pub provide_settled :
    (settings : SlackSettings) (cached : Option Text) (railway railway' : Result Text)
    → (not settings.enable_slack_integration
        || settings.slack_use_bot_token
        || is_some cached
        || is_given settings.slack_webhook_url)
      ≡ true
    → provide settings cached railway ≡ provide settings cached railway'
unfolding provide get_slack_webhook_url
provide_settled settings none railway railway' h = ground (arith, h)
provide_settled settings (some url) railway railway' h = refl

-- What has been resolved stays: with the cache that one request leaves, the next request is given the
-- same service, whatever Railway answers then.
pub provide_cached :
    (settings : SlackSettings) (cached : Option Text) (railway railway' : Result Text)
    (s : Option SlackService)
    → (provide settings cached railway).0 ≡ ok s
    → (provide settings (provide settings cached railway).1 railway').0 ≡ ok s
unfolding provide get_slack_webhook_url from_railway
provide_cached settings none (ok body) railway' s h = ground (arith, h)
provide_cached settings none (raised e) railway' s h = ground (arith, h)
provide_cached settings (some url) railway railway' s h = ground (arith, h)
