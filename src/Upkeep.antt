-- ===== src/Upkeep.antt =====
-- Sample headers, probes and nights, and a theorem applied to each.
use request_o_matic.Base.{
  ◌≡◌, refl, Bool, true, false, not, ◌&&◌, ◌||◌, Option, none, some, List, [], ◌∷◌, if◌then◌else◌,
}
use request_o_matic.Base.Int.{ℤ, pos, negsuc}
use request_o_matic.Exec.{Result, ok, raised, Exception, World, Response}
use request_o_matic.Exec.AtMost.{AtMost}
use request_o_matic.Exec.Ensures.{Ensures}
use request_o_matic.Json.{Json, string, obj, arr, get}
use request_o_matic.Parser.{Library}
use request_o_matic.Health.{probe_slack, groq_answer, groq_model, ids_of, listed_ids}
use request_o_matic.Health.Transport.{checked, probe_slack-provide}
use request_o_matic.NightlyGate.{Args, decision, is_watched}
use request_o_matic.NightlyGate.Diff.{Git, splitlines, stripped_lines, keyword_of}
use request_o_matic.NightlyGate.Runs.{
  is_scheduled, is_three_oclock, is_unknown, any_of, touches, changed, decision_lem,
}
use request_o_matic.Providers.{Settings}
use request_o_matic.ServerTiming.{Floats, parse_server_timing, forward}
use request_o_matic.ServerTiming.Emitted.{AreForwarded, emitted-AreForwarded}
use request_o_matic.Slack.Providers.{provide}
use request_o_matic.Slack.Service.{SlackService}
use request_o_matic.Text.{Text, text, text_eq, is_space, split, strip, lstrip, rstrip, join}

-- Three floats, and their texts.
data Sample : Type 0 where
  zero half infinite : Sample

abbrev sample_of : Text → Option Sample
sample_of s =
    if text_eq s (text "0.0")
    then some Sample.zero
    else if text_eq s (text "0.5")
    then some Sample.half
    else if text_eq s (text "inf")
    then some Sample.infinite
    else none

abbrev is_finite : Sample → Bool
is_finite Sample.infinite = false
is_finite d = true

abbrev floats : Floats
floats = record {
  Float = Sample;
  float = sample_of;
  is_finite = is_finite;
  is_nonnegative = λ d. true;
}

abbrev header : Text
header = text "cache;desc=hit;dur=0.5, total;dur=0.0, a b;dur=0.5, db;dur=inf, total;dur=0.5"

-- The second text is a malformed entry before a good one.
abbrev other_header : Text
other_header = text "a b;dur=x, db;dur=0.0"

abbrev steps : List Text
steps = text "parse" ∷ text "lookup_service" ∷ []

emitted-AreForwarded_example :
    AreForwarded floats steps (forward floats steps [] (parse_server_timing floats (some header)))
emitted-AreForwarded_example = emitted-AreForwarded floats steps (some header)

-- What is kept of that header, and what is forwarded.
kept :
    parse_server_timing floats (some header)
    ≡ (text "cache", Sample.half) ∷ (text "total", Sample.zero) ∷ (text "total", Sample.half) ∷ []
unfolding parse_server_timing split strip lstrip rstrip text text_eq is_space
kept = refl

renamed :
    forward floats steps [] (parse_server_timing floats (some header))
    ≡ (text "cache", Sample.half) ∷ (text "lml_total", Sample.half) ∷ []
unfolding parse_server_timing forward split strip lstrip rstrip text text_eq is_space
renamed = refl

-- A deployment whose webhook is in its settings.
abbrev webhook : Option Text
webhook = some (text "https://hooks.slack.com/services/T/B/x")

abbrev settings : Settings
settings = record {
  groq_api_key = text "gsk_1";
  lookup_service_url = some (text "http://lml:8080/api/v1/");
  lml_api_key = none;
  enable_telemetry = true;
  enforce_request_bans = true;
  strict_fingerprint_for_known_clients = false;
  bs_check_request_ban_url = some (text "https://bs.example.org/check");
  bs_internal_bans_url = none;
  bs_internal_moderators_url = none;
  bs_internal_key = some (text "key");
  slack_ban_authorized_users = none;
  slack = record {
    enable_slack_integration = true;
    slack_use_bot_token = false;
    slack_webhook_url = webhook;
    slack_bot_token = none;
    slack_channel_id = none;
  };
}

abbrev service : SlackService
service = record { webhook_url = webhook; bot_token = none; channel_id = none }

abbrev unreached : Result Text
unreached = raised Exception.connect_error

provided : provide settings.slack none unreached ≡ (ok (some service), webhook)
unfolding provide text
provided = refl

probe_slack-provide_example : probe_slack settings webhook ≡ checked webhook
probe_slack-provide_example = probe_slack-provide settings none webhook unreached service provided

-- The probe of Groq, for a list with the model and for one with an entry that has no id.
abbrev listing : List Json → Result Response
listing entries = ok (record {
  status = 200;
  json = some (obj ((text "data", arr entries) ∷ []));
  body_text = [];
  server_timing = none;
})

pinned : groq_answer (listing (obj ((text "id", string groq_model) ∷ []) ∷ [])) ≡ true
unfolding groq_answer ids_of listed_ids get text text_eq
pinned = refl

unreadable : groq_answer (listing (obj ((text "id", string groq_model) ∷ []) ∷ obj [] ∷ [])) ≡ false
unfolding groq_answer ids_of listed_ids get text text_eq
unreadable = refl

-- A library whose decoder refuses everything.
abbrev library : Library
library = record {
  unicode = record { is_alnum = λ c. false; casefold = λ s. s };
  loads = λ content. none;
  validate = λ song album artist is_request message_type message. none;
}

abbrev silent : World
silent = record {
  http = λ calls c. raised Exception.connect_error;
  complete = λ calls c. ok (some (text "no JSON"));
  deliver = λ calls c. ok tt;
}

-- A summer night on which the parser's file has changed.
abbrev git : Git
git arguments = record { returncode = pos 0; stdout = text "README.md\nservices/parser.py\n" }

abbrev night : Args
night = record {
  event_name = text "schedule";
  event_schedule = text "0 7 * * *";
  base = text "abc";
  head = text "HEAD";
}

abbrev summer : ℤ
summer = negsuc 14399

decision_lem_example :
    ((decision git night summer).should_run ≡ (
      not (is_scheduled git night)
      || (is_three_oclock night.event_schedule summer
          && (is_unknown git night || any_of (touches git night) (changed git night)))))
    × ((decision git night summer).is_tonight
        ≡ (not (is_scheduled git night) || is_three_oclock night.event_schedule summer))
decision_lem_example = decision_lem git night summer

runs : decision git night summer ≡ record {
  should_run = true;
  reason = text "NLP surface changed: services/parser.py";
  is_tonight = true;
}
unfolding decision is_watched text_eq text splitlines stripped_lines join keyword_of rstrip lstrip
    is_space
runs = refl

winter_twin : (decision git night (negsuc 17999)).should_run ≡ false
unfolding decision text_eq text
winter_twin = refl
