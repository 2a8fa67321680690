-- ===== src/Health.antt =====
-- routers/health.py: the probes of the readiness check. The check that runs them, with its time-outs,
-- is of a library.
pub mod Transport
use mathlib.Core.Option
use request_o_matic.Base.{
  Bool, true, false, ◌&&◌, ◌||◌, Option, none, some, List, [], ◌∷◌, ◌++◌, ◌==◌, is_some,
  if◌then◌else◌,
}
use request_o_matic.Exec.{
  Exception, Result, ok, raised, Headers, Response, Call, Exec, pure, attempt, ◌>>=◌, http,
}
use request_o_matic.Json.{
  Json, Items, Members, null, boolean, number, string, array, object, get, obj,
}
use request_o_matic.Parser.Album.{rstrip_of}
use request_o_matic.Providers.{Settings}
use request_o_matic.Slack.Providers.{get_slack_bot_config}
use request_o_matic.Text.{Text, text, text_eq, is_given}

-- The two answers of a probe.
abbrev pub verdict : Bool → Text
verdict true = text "ok"
verdict false = text "unavailable"

-- `GROQ_MODEL` of services/parser.py
abbrev pub groq_model : Text
groq_model = text "openai/gpt-oss-20b"

abbrev bearer : Option Text → Headers
bearer none = []
bearer (some key) =
    if is_given (some key) then (text "Authorization", text "Bearer " ++ key) ∷ [] else []

-- `{entry["id"] for entry in data}`, where `none` is an exception: an entry is no dict or has no id, or
-- the id cannot be an element of a set.
abbrev element : Option Json → Option (List Json) → Option (List Json)
element none rest = none
element (some (array vs)) rest = none
element (some (object kvs)) rest = none
element (some v) rest = Option.map (λ ids. v ∷ ids) rest

unfoldable pub listed_ids : Items → Option (List Json)
listed_ids Items.nil = some []
listed_ids (Items.item (object entry) entries) =
    element (get (text "id") entry) (listed_ids entries)
listed_ids (Items.item v entries) = none

-- The same on any value of `data`: a dict or a text is walked too, and is without fault only if empty.
unfoldable pub ids_of : Option Json → Option (List Json)
unfolding listed_ids
ids_of (some (array entries)) = listed_ids entries
ids_of (some (object Members.end)) = some []
ids_of (some (string [])) = some []
ids_of v = none

unfoldable pub listed : Option Json → Option (List Json)
unfolding ids_of
listed (some (object body)) = ids_of (get (text "data") body)
listed v = none

unfoldable pub is_listed : Text → List Json → Bool
is_listed model [] = false
is_listed model (string id ∷ ids) = text_eq id model || is_listed model ids
is_listed model (v ∷ ids) = is_listed model ids

abbrev pub is_pinned : Option (List Json) → Bool
is_pinned none = false
is_pinned (some ids) = is_listed groq_model ids

-- Whether a reply speaks for the model.
unfoldable pub groq_answer : Result Response → Bool
unfolding listed is_listed
groq_answer (raised e) = false
groq_answer (ok r) = r.status == 200 && is_pinned (listed r.json)

unfoldable pub probe_groq : Settings → Exec Text
unfolding groq_answer
probe_groq settings =
    if is_given (some settings.groq_api_key)
    then (attempt (http (Call.groq_models (bearer (some settings.groq_api_key)))) >>= λ reply.
        pure (verdict (groq_answer reply)))
    else pure (verdict false)

abbrev pub lookup_answer : Result Response → Bool
lookup_answer (raised e) = false
lookup_answer (ok r) = r.status == 200

abbrev lookup_url : Text → Text
lookup_url base = rstrip_of (λ c. c == b'/') base ++ text "/lookup"

abbrev pub probe_lookup_at : Option Text → Option Text → Exec Text
probe_lookup_at none key = pure (verdict false)
probe_lookup_at (some base) key =
    if is_given (some base)
    then (attempt (
          http (
            Call.lml_probe (lookup_url base) (bearer key)
              (obj ((text "raw_message", string (text "readiness-probe")) ∷ []))))
        >>= λ reply. pure (verdict (lookup_answer reply)))
    else pure (verdict false)

unfoldable pub probe_lookup : Settings → Exec Text
unfolding rstrip_of
probe_lookup settings = probe_lookup_at settings.lookup_service_url settings.lml_api_key

abbrev pub slack_answer : Result Response → Bool
slack_answer (raised e) = false
slack_answer (ok r) = r.status == 200 || r.status == 400

abbrev pub probe_webhook : Option Text → Exec Text
probe_webhook none = pure (verdict false)
probe_webhook (some url) =
    attempt (http (Call.slack_probe url (obj []))) >>= λ reply. pure (verdict (slack_answer reply))

-- With what `get_cached_slack_webhook_url` returns.
unfoldable pub probe_slack : Settings → Option Text → Exec Text
unfolding get_slack_bot_config
probe_slack settings cached =
    if settings.slack.slack_use_bot_token
    then pure (verdict (is_some (get_slack_bot_config settings.slack)))
    else probe_webhook cached

-- `Check(name=…, probe=…, required=…)`
pub record Check : Type 0 where
  pub name : Text
  pub probe : Exec Text
  pub required : Bool

-- What `build_readiness_router` hands to the library.
unfoldable pub checks : Settings → Option Text → List Check
unfolding probe_groq probe_lookup probe_slack
checks settings cached =
    record { name = text "groq"; probe = probe_groq settings; required = false }
    ∷ record { name = text "lookup"; probe = probe_lookup settings; required = true }
    ∷ record { name = text "slack"; probe = probe_slack settings cached; required = false }
    ∷ []
