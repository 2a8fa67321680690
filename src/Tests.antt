-- ===== src/Tests.antt =====
-- Sample requests, and a theorem applied to each.
use request_o_matic.Base.{
  ◌⊎◌, ℕ, ◌≡◌, refl, ◌↔◌, true, false, Option, none, some, List, [], ◌∷◌, ◌++◌, All, inr, is_nil,
}
use request_o_matic.Base.Int.{ℤ, pos, negsuc, is_positive}
use request_o_matic.BanCheck.{ban_check_headers, read_reply, read_response, read_ban_check}
use request_o_matic.BanCheck.Down.{is_down}
use request_o_matic.Exec.Httpx.{IsHttpx}
use request_o_matic.Exec.{Call, Exception, Response, Result, ok, raised, World}
use request_o_matic.Exec.AtMost.{AtMost, count}
use request_o_matic.Fingerprint.{
  normalize_fingerprint, fingerprint_re, hex_run, is_hex, hyphen, at_end,
}
use request_o_matic.Fingerprint.Shape.{normalize_fingerprint_iff, IsUuid}
use request_o_matic.Json.{Json, string, null, boolean, obj, get, is_true}
use request_o_matic.Lookup.{LookupClient, lookup, post_lookup}
use request_o_matic.Lookup.Retries.{is_lookup_call, lookup_bound}
use request_o_matic.Lookup.Rounds.{lookup_exhausts, lookup_settles}
use request_o_matic.Metadata.{
  request, ParsedRequest, LookupRequest, LookupResultItem, LookupResponse,
}
use request_o_matic.Parser.{Library}
use request_o_matic.Request.{Incoming, Services}
use request_o_matic.Request.Admit.{admit, is_gated, blocked}
use request_o_matic.Request.Blocked.{IsQuiet, IsRefused}
use request_o_matic.Request.Counts.{handle_request_posts_once}
use request_o_matic.Request.Foreign.{IsForeign}
use request_o_matic.Request.Handler.{handle_request}
use request_o_matic.Request.Notify.{not_in_library_context}
use request_o_matic.Request.Reconcile.{findings_positive, reconcile_signals}
use request_o_matic.Request.Refused.{blocked_iff, blocked-IsQuiet, fail_open}
use request_o_matic.Request.Search.{findings_of, reconcile}
use request_o_matic.Slack.Providers.{
  SlackSettings, provide, get_slack_webhook_url, from_railway, get_slack_service,
}
use request_o_matic.Slack.Transport.{UsesBot, UsesWebhook, provide-Uses}
use request_o_matic.Slack.Accepted.{IsFaithful, methods_accepted}
use request_o_matic.Slack.Calls.{is_slack_call}
use request_o_matic.Slack.Service.{
  open_view, update_message, delete_message, post_ephemeral, SlackService, raise_for_status,
}
use request_o_matic.Text.{Text, text, text_eq, strip, rstrip, lstrip, is_space}
use request_o_matic.UaGate.Claim.{ClaimsStrict, is_known_strict_client-ClaimsStrict}
use request_o_matic.UaGate.{find_products, is_known_strict_client, any_strict, is_strict_version}

abbrev device : Text
device = text "0a1b2c3d-4e5f-6071-8293-a4b5c6d7e8f9"

abbrev song_request : ParsedRequest
song_request = record {
  song = some (text "la paradoja");
  album = none;
  artist = some (text "Juana Molina");
  is_request = true;
  message_type = request;
  raw_message = text "la paradoja by Juana Molina";
}

-- A library that reads every message as the same request.
abbrev one_answer : Library
one_answer = record {
  unicode = record { is_alnum = λ c. false; casefold = λ s. s };
  loads = λ content. some (obj []);
  validate = λ song album artist is_request message_type message. some song_request;
}

abbrev row : ℤ → LookupResultItem
row id = record {
  library_item = record {
    id = id;
    title = some (text "DOGA");
    artist = some (text "Juana Molina");
    call_number = text "ROCK 12";
    library_url = text "https://example.org/12";
  };
  artwork = none;
}

abbrev answer : List LookupResultItem → LookupResponse
answer rows = record {
  results = some rows;
  search_type = some (text "direct");
  song_not_found = some false;
  found_on_compilation = some true;
  context_message = none;
  corrected_artist = none;
  cache_stats = none;
}

abbrev catalog_only : LookupResponse
catalog_only = answer (row (pos 0) ∷ row (negsuc 4) ∷ [])

abbrev accepts : Json → Option LookupResponse
accepts body = some (answer (row (pos 12) ∷ row (pos 0) ∷ []))

abbrev lml : LookupClient
lml = record { api_key = none; max_attempts = 2; budget = text "19800" }

abbrev all_services : Services
all_services = record {
  slack = some (record {
    webhook_url = some (text "https://hooks.slack.com/services/T/B/x");
    bot_token = none;
    channel_id = none;
  });
  posthog = true;
  lookup_client = some lml;
  ban_check_client = true;
  strict_fingerprint_for_known_clients = false;
  cache_stats = null;
}

abbrev from_phone : Incoming
from_phone = record {
  message = text "la paradoja by Juana Molina";
  skip_slack = false;
  skip_cache = false;
  authorization = none;
  x_device_fingerprint = some device;
  user_agent = some (text "WXYC-iOS/3.2.1");
}

abbrev reply : ℕ → Json → Result Response
reply status body =
    ok (record { status = status; json = some body; body_text = []; server_timing = none })

-- Every service answers, with this status and body.
abbrev answering : ℕ → Json → World
answering status body = record {
  http = λ calls c. reply status body;
  complete = λ calls c. ok (some (text "{}"));
  deliver = λ calls c. ok tt;
}

answering-IsForeign : (status : ℕ) (body : Json) → IsForeign (answering status body)
answering-IsForeign status body = record {
  http_foreign = λ calls c. tt;
  complete_foreign = λ calls c. tt;
  deliver_foreign = λ calls c. tt;
}

abbrev banning : World
banning = answering 200 (obj ((text "banned", boolean true) ∷ []))

abbrev unreachable : World
unreachable = record {
  http = λ calls c. raised Exception.connect_error;
  complete = λ calls c. raised Exception.api_timeout_error;
  deliver = λ calls c. ok tt;
}

abbrev paradoja : LookupRequest
paradoja = record {
  artist = some (text "Juana Molina");
  song = some (text "la paradoja");
  album = none;
  raw_message = none;
}

abbrev Banned : Type 0
Banned = (handle_request one_answer accepts all_services from_phone banning []).0 ≡ raised blocked

blocked_iff_example : Banned ↔ (
    (is_nil (strip from_phone.message) ≡ false)
    × IsRefused banning all_services from_phone (normalize_fingerprint (some device)))
blocked_iff_example =
    blocked_iff one_answer accepts all_services from_phone (answering-IsForeign 200 _)

from_phone-banned : Banned
unfolding text normalize_fingerprint is_gated fingerprint_re hex_run strip rstrip lstrip is_space
    is_hex hyphen at_end read_reply read_response read_ban_check get is_true text_eq
from_phone-banned = blocked_iff_example.1 (refl, inr (refl, refl, (_, refl, refl)))

blocked-IsQuiet_example :
    All IsQuiet (handle_request one_answer accepts all_services from_phone banning []).1
blocked-IsQuiet_example =
    blocked-IsQuiet one_answer accepts all_services from_phone (answering-IsForeign 200 _)
      from_phone-banned

posts_once_example :
    AtMost is_slack_call 1 (handle_request one_answer accepts all_services from_phone)
posts_once_example = handle_request_posts_once one_answer accepts all_services from_phone

IsHttpx-unreachable : IsHttpx unreachable
IsHttpx-unreachable = record { http_raises = λ calls c. tt }

fail_open_example :
    (admit all_services from_phone (normalize_fingerprint (some device)) unreachable [] ≡ (
      ok true,
      Call.ban_check (ban_check_headers none (normalize_fingerprint (some device))) ∷ [],
    ))
    ↔ (is_down (
          unreachable.http []
            (Call.ban_check (ban_check_headers none (normalize_fingerprint (some device)))))
        ≡ true)
unfolding text normalize_fingerprint is_gated fingerprint_re hex_run strip rstrip lstrip is_space
    is_hex hyphen at_end
fail_open_example = fail_open unreachable all_services from_phone IsHttpx-unreachable refl refl

findings_positive_example :
    All
      (λ p. is_positive p.0.id ≡ true)
      (findings_of song_request
        (ok (record { response = catalog_only; server_timing = none }))).items_with_artwork
findings_positive_example =
    findings_positive song_request (ok (record { response = catalog_only; server_timing = none }))

reconcile_signals_example :
    ((reconcile song_request catalog_only).song_not_found ≡ true)
    × (((reconcile song_request catalog_only).found_on_compilation ≡ false)
        × ((reconcile song_request catalog_only).context
            ≡ not_in_library_context
                (reconcile song_request catalog_only).parsed
                (some (text "Juana Molina"))))
reconcile_signals_example = reconcile_signals song_request catalog_only

normalize_iff_example : (normalize_fingerprint (some (32 ∷ device)) ≡ some device) ↔ (
    (w v : Text) × All (λ c. is_space c ≡ true) w
    × All (λ c. is_space c ≡ true) v
    × (32 ∷ device ≡ w ++ (device ++ v))
    × IsUuid device)
normalize_iff_example = normalize_fingerprint_iff (32 ∷ device) device

lookup_exhausts_example :
    ((lookup accepts lml paradoja false unreachable []).0 ≡ raised Exception.connect_error)
    × (count is_lookup_call (lookup accepts lml paradoja false unreachable []).1 ≡ 2)
lookup_exhausts_example =
    lookup_exhausts accepts lml paradoja false unreachable (λ calls c. refl) refl

lookup_settles_example :
    lookup accepts lml paradoja false (answering 503 null) []
    ≡ post_lookup accepts lml paradoja false (answering 503 null) []
unfolding post_lookup raise_for_status
lookup_settles_example = lookup_settles accepts lml paradoja false (answering 503 null) refl refl

lookup_bound_example : AtMost is_lookup_call 2 (lookup accepts lml paradoja false)
lookup_bound_example = lookup_bound accepts lml paradoja false

abbrev ios : Option Text
ios = some (text "WXYC-iOS/3.2.1 CFNetwork/1410")

ios-is_strict : is_known_strict_client ios ≡ true
unfolding is_known_strict_client find_products any_strict is_strict_version text text_eq
ios-is_strict = refl

is_known_strict_client_example :
    (user_agent : Text) × (ios ≡ some user_agent) × ClaimsStrict user_agent
is_known_strict_client_example = is_known_strict_client-ClaimsStrict ios ios-is_strict

abbrev by_webhook : SlackSettings
by_webhook = record {
  enable_slack_integration = true;
  slack_use_bot_token = false;
  slack_webhook_url = none;
  slack_bot_token = none;
  slack_channel_id = none;
}

abbrev by_bot : SlackSettings
by_bot = record {
  enable_slack_integration = true;
  slack_use_bot_token = true;
  slack_webhook_url = none;
  slack_bot_token = some (text "xoxb-1");
  slack_channel_id = some (text "C1");
}

abbrev no_railway : Result Text
no_railway = raised Exception.connect_error

abbrev bot_service : SlackService
bot_service = record {
  webhook_url = none;
  bot_token = some (text "xoxb-1");
  channel_id = some (text "C1");
}

bot_provided : (provide by_bot none no_railway).0 ≡ ok (some bot_service)
unfolding provide text
bot_provided = refl

provide-Uses_example : UsesBot by_bot bot_service ⊎ UsesWebhook by_bot none no_railway bot_service
provide-Uses_example = provide-Uses by_bot bot_service none no_railway bot_provided

abbrev resolved : Option SlackService
resolved = some (record {
  webhook_url = some (text "https://hooks.slack.com/services/" ++ strip (text "T/B/x"));
  bot_token = none;
  channel_id = none;
})

first_resolution : (provide by_webhook none (ok (text "T/B/x"))).0 ≡ ok resolved
unfolding provide get_slack_webhook_url from_railway get_slack_service
first_resolution = refl

abbrev not_found : World
not_found = answering 200 (obj ((text "ok", boolean false) ∷ []))

methods_accepted_example :
    IsFaithful not_found [] (open_view (text "C1") null)
    × (IsFaithful not_found [] (update_message (string (text "C1")) (string (text "17.1")) [])
        × (IsFaithful not_found [] (delete_message (string (text "C1")) (string (text "17.1")))
            × IsFaithful not_found []
                (post_ephemeral (string (text "C1")) (text "U2") (text "Deleted"))))
methods_accepted_example =
    methods_accepted not_found [] (text "C1") (text "U2") (text "Deleted") (string (text "C1"))
      (string (text "17.1")) null []
