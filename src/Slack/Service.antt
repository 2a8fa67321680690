-- ===== src/Slack/Service.antt =====
-- core/dependencies.py, `SlackService`: the two transports of a post and the Web API methods.
use mathlib.Core.Option
use request_o_matic.Base.{
  Bool, false, Option, none, some, List, [], ◌∷◌, ◌++◌, between, is_some, if◌then◌else◌,
}
use request_o_matic.Exec.{Exception, Response, Call, Exec, pure, throw, ◌>>=◌, ◌>>◌, http}
use request_o_matic.Json.{Json, get, is_true, string, boolean, object, arr, obj, optional}
use request_o_matic.Text.{Text, text, text_eq}

pub record SlackService : Type 0 where
  pub webhook_url : Option Text
  pub bot_token : Option Text
  pub channel_id : Option Text

-- httpx: any status outside 2xx raises.
unfoldable pub raise_for_status : Response → Exec (Unit {0})
raise_for_status r =
    if between 200 299 r.status then pure tt else throw (Exception.http_status_error r.status)

-- `response.json()`, then a method of `dict` on what it gives
abbrev pub decoded : Response → Exec Json
decoded r = elim r.json [ none ↦ throw Exception.value_error | some v ↦ pure v ]

abbrev error_of : Option Json → Json
error_of none = string (text "unknown_error")
error_of (some e) = e

abbrev is_not_in_channel : Json → Bool
is_not_in_channel (string s) = text_eq s (text "not_in_channel")
is_not_in_channel v = false

-- `_api_error`: only `not_in_channel` names the channel.
unfoldable pub api_error : Text → Option Json → Option Json → Exception
api_error method reported channel =
    let error = error_of reported in
    Exception.slack_api_error method error (if is_not_in_channel error then channel else none)

-- `{"ok": false}` is a refusal, though the status says 200.
unfoldable pub require_ok : Text → Option Json → Json → Exec (Unit {0})
unfolding api_error
require_ok method channel (object body) = elim (get (text "ok") body) [
  | none ↦ throw (api_error method (get (text "error") body) channel)
  | some v ↦
      if is_true v then pure tt else throw (api_error method (get (text "error") body) channel)
]
require_ok method channel v = throw Exception.attribute_error

-- one call of the Web API, with the payload as given
unfoldable pub call_api : Text → Json → Option Json → Exec Json
unfolding raise_for_status require_ok
call_api method payload channel = do
  response ← http (Call.slack_api method payload)
  raise_for_status response
  body ← decoded response
  require_ok method channel body
  pure body

abbrev given : Text → Option Json → List (Text × Json)
given key none = []
given key (some v) = (key, v) ∷ []

abbrev given_text : Text → Option Text → List (Text × Json)
given_text key none = []
given_text key (some v) = (key, string v) ∷ []

unfoldable pub post_payload : Option Text → List Json → Option Json → Option Text → Json
post_payload channel blocks metadata thread_ts = obj (
    (text "channel", optional channel)
    ∷ (text "blocks", arr blocks)
    ∷ (text "unfurl_links", boolean false)
    ∷ (text "unfurl_media", boolean false)
    ∷ (given (text "metadata") metadata ++ given_text (text "thread_ts") thread_ts))

-- `data["ts"]`
ts_of : Json → Exec Json
ts_of (object body) = elim (get (text "ts") body) [
  | none ↦ throw Exception.key_error
  | some ts ↦ pure ts
]
ts_of v = throw Exception.type_error

unfoldable pub post_via_bot_token :
    SlackService → List Json → Option Json → Option Text → Option Text → Exec Json
unfolding call_api post_payload ts_of
post_via_bot_token s blocks metadata channel thread_ts =
    let target = if is_some channel then channel else s.channel_id in
    do
      body ←
          call_api (text "chat.postMessage") (post_payload target blocks metadata thread_ts)
            (Option.map string target)
      ts_of body

unfoldable pub post_via_webhook : List Json → Exec (Option Json)
unfolding raise_for_status
post_via_webhook blocks = do
  response ← http (Call.slack_webhook (obj ((text "blocks", arr blocks) ∷ [])))
  raise_for_status response
  pure none

-- A webhook takes no channel and no thread: the checks of the second transport, in order.
unfoldable pub post_blocks :
    SlackService → List Json → Option Json → Option Text → Option Text → Exec (Option Json)
unfolding post_via_bot_token post_via_webhook
post_blocks s blocks metadata channel thread_ts =
    if is_some s.bot_token
    then (post_via_bot_token s blocks metadata channel thread_ts >>= λ ts. pure (some ts))
    else if is_some s.webhook_url
    then if is_some channel
      then throw (
          Exception.slack_post_error
            (text "SlackService webhook transport does not support channel"))
      else if is_some thread_ts
      then throw (
          Exception.slack_post_error
            (text "SlackService webhook transport does not support thread_ts"))
      else post_via_webhook blocks
    else throw
        (Exception.slack_post_error (text "SlackService has neither a webhook_url nor a bot_token"))

abbrev pub ignore : Exec Json → Exec (Unit {0})
ignore m = m >>= λ body. pure tt

unfoldable pub open_view : Text → Json → Exec (Unit {0})
unfolding call_api
open_view trigger_id view = ignore (
    call_api (text "views.open")
      (obj ((text "trigger_id", string trigger_id) ∷ (text "view", view) ∷ [])) none)

unfoldable pub update_message : Json → Json → List Json → Exec (Unit {0})
unfolding call_api
update_message channel ts blocks = ignore (
    call_api (text "chat.update")
      (obj (
        (text "channel", channel)
        ∷ (text "ts", ts)
        ∷ (text "blocks", arr blocks)
        ∷ (text "unfurl_links", boolean false)
        ∷ (text "unfurl_media", boolean false)
        ∷ []))
      (some channel))

unfoldable pub delete_message : Json → Json → Exec (Unit {0})
unfolding call_api
delete_message channel ts = ignore (
    call_api (text "chat.delete") (obj ((text "channel", channel) ∷ (text "ts", ts) ∷ []))
      (some channel))

unfoldable pub post_ephemeral : Json → Text → Text → Exec (Unit {0})
unfolding call_api
post_ephemeral channel user message = ignore (
    call_api (text "chat.postEphemeral")
      (obj (
        (text "channel", channel)
        ∷ (text "user", string user)
        ∷ (text "text", string message)
        ∷ []))
      (some channel))
