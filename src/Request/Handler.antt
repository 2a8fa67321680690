-- ===== src/Request/Handler.antt =====
-- routers/request.py, `handle_request`, in the order of its statements. The `Server-Timing` header,
-- which the handler sets last and which cannot fail it, is left out.
use request_o_matic.Base.{
  Bool, true, false, not, Option, none, some, List, [], ◌∷◌, ◌++◌, map, is_nil, length,
  if◌then◌else◌,
}
use request_o_matic.Exec.{
  Exception, Result, ok, raised, Severity, warning, error, Call, Properties, Exec, pure, throw,
  attempt, ◌>>=◌, ◌>>◌, deliver, note, when,
}
use request_o_matic.Fingerprint.{normalize_fingerprint}
use request_o_matic.Json.{Json, null, boolean, string, natural, is_true}
use request_o_matic.Lookup.{LookupResult}
use request_o_matic.Metadata.{
  MessageType, request, dj_message, feedback, other, ParsedRequest, LibraryItem, ReleaseMetadata,
  LookupResponse,
}
use request_o_matic.Parser.{Library, parse_request}
use request_o_matic.Request.{
  Incoming, Services, UnifiedResponse, degraded_parsing, degraded_search, degraded_ban_check,
  caller_properties, fingerprint_property,
}
use request_o_matic.Request.Admit.{admit}
use request_o_matic.Request.Notify.{post_results_to_slack, post_degraded_to_slack}
use request_o_matic.Request.Search.{Findings, search, findings_of}
use request_o_matic.Text.{Text, text, is_given, strip}

-- `message_type.value`
abbrev pub message_type_value : MessageType → Text
message_type_value request = text "request"
message_type_value dj_message = text "dj_message"
message_type_value feedback = text "feedback"
message_type_value other = text "other"

-- `type(e).__name__`
unfoldable pub class_name : Exception → Text
class_name (Exception.http_exception status detail) = text "HTTPException"
class_name (Exception.http_exception_from status detail e) = text "HTTPException"
class_name (Exception.http_exception_json status detail) = text "HTTPException"
class_name (Exception.http_status_error status) = text "HTTPStatusError"
class_name Exception.connect_error = text "ConnectError"
class_name Exception.timeout_exception = text "TimeoutException"
class_name Exception.http_error = text "HTTPError"
class_name Exception.invalid_url = text "InvalidURL"
class_name Exception.rate_limit_error = text "RateLimitError"
class_name Exception.api_timeout_error = text "APITimeoutError"
class_name Exception.api_connection_error = text "APIConnectionError"
class_name Exception.internal_server_error = text "InternalServerError"
class_name Exception.value_error = text "ValueError"
class_name Exception.type_error = text "TypeError"
class_name Exception.attribute_error = text "AttributeError"
class_name Exception.key_error = text "KeyError"
class_name Exception.runtime_error = text "RuntimeError"
class_name (Exception.slack_api_error method reported channel) = text "SlackPostError"
class_name (Exception.slack_post_error message) = text "SlackPostError"
class_name Exception.ban_check_unavailable = text "BanCheckUnavailableError"
class_name (Exception.moderator_client_error status body) = text "ModeratorClientError"
class_name (Exception.ban_admin_client_error status body) = text "BanAdminClientError"
class_name (Exception.other name) = name

-- `_GROQ_TRANSIENT_ERRORS`
unfoldable pub is_groq_transient : Exception → Bool
is_groq_transient Exception.rate_limit_error = true
is_groq_transient Exception.api_timeout_error = true
is_groq_transient Exception.api_connection_error = true
is_groq_transient Exception.internal_server_error = true
is_groq_transient e = false

unfoldable pub severity_of : Exception → Severity
unfolding is_groq_transient
severity_of e = if is_groq_transient e then warning else error

abbrev pub is_http_exception : Exception → Bool
is_http_exception (Exception.http_exception status detail) = true
is_http_exception (Exception.http_exception_from status detail e) = true
is_http_exception (Exception.http_exception_json status detail) = true
is_http_exception e = false

abbrev flag : Text → Bool → Properties
flag name true = (name, boolean true) ∷ []
flag name false = []

abbrev slack_call : Call
slack_call = Call.record_api_call (text "slack")

module _ (sv : Services) (rq : Incoming) (normalized : Option Text)
    (ban_check_degraded : Bool) where
  abbrev caller : Properties
  caller =
      caller_properties rq.user_agent rq.x_device_fingerprint normalized
      ++ fingerprint_property normalized

  unfoldable pub parse_properties : Exception → Properties
  parse_properties e =
      (text "results_count", natural 0)
      ∷ (text "search_type", string (text "none"))
      ∷ (text "had_artist", boolean false)
      ∷ (text "had_album", boolean false)
      ∷ (text "had_song", boolean false)
      ∷ (text "is_request", null)
      ∷ (text "message_type", null)
      ∷ (text "degraded_mode", string degraded_parsing)
      ∷ (text "degraded_reason", string (class_name e))
      ∷ (caller ++ flag (text "ban_check_degraded") ban_check_degraded)

  abbrev bare_response : Option ParsedRequest → Option Text → UnifiedResponse
  bare_response parsed degraded_mode = record {
    parsed = parsed;
    artwork = none;
    library_results = [];
    result_artworks = [];
    search_type = text "none";
    song_not_found = false;
    found_on_compilation = false;
    context_message = none;
    cache_stats = sv.cache_stats;
    degraded_mode = degraded_mode;
  }

  -- `except Exception as e` around the parsing.
  unfoldable pub parsing_unavailable : Exception → Exec UnifiedResponse
  unfolding severity_of
  parsing_unavailable e = do
    note (Call.logged (severity_of e))
    when (not rq.skip_slack) (
        note slack_call
        >> post_degraded_to_slack sv.slack rq.message none (text "Parsing unavailable")
            rq.x_device_fingerprint)
    when sv.posthog (deliver (Call.send_to_posthog (parse_properties e)))
    pure (bare_response none (some degraded_parsing))

  abbrev ban_check_flags : Bool → Properties
  ban_check_flags true =
      (text "degraded_mode", string degraded_ban_check) ∷ flag (text "ban_check_degraded") true
  ban_check_flags false = []

  unfoldable pub non_request_properties : ParsedRequest → Properties
  non_request_properties parsed =
      (text "message_type", string (message_type_value parsed.message_type))
      ∷ (caller ++ ban_check_flags ban_check_degraded)

  -- `if not parsed.is_request`
  unfoldable pub non_request : ParsedRequest → Exec UnifiedResponse
  non_request parsed = do
    when (not rq.skip_slack)
        (post_results_to_slack sv.slack rq.message parsed [] none rq.x_device_fingerprint)
    when sv.posthog
        (deliver (Call.capture (text "request_non_request") (non_request_properties parsed)))
    pure (bare_response (some parsed) none)

  -- The single field: search goes before the ban check.
  abbrev degraded_mode_of : Result LookupResult → Option Text
  degraded_mode_of (raised e) = some degraded_search
  degraded_mode_of (ok r) = if ban_check_degraded then some degraded_ban_check else none

  abbrev degraded_properties : Result LookupResult → Properties
  degraded_properties (raised e) =
      (text "degraded_mode", string degraded_search)
      ∷ (text "degraded_reason", string (class_name e))
      ∷ []
  degraded_properties (ok r) =
      if ban_check_degraded then (text "degraded_mode", string degraded_ban_check) ∷ [] else []

  unfoldable pub completed_properties : Findings → Result LookupResult → Properties
  completed_properties f outcome =
      (text "results_count", natural (length f.items_with_artwork))
      ∷ (text "search_type", string f.search_type)
      ∷ (text "had_artist", boolean (is_given f.parsed.artist))
      ∷ (text "had_album", boolean (is_given f.parsed.album))
      ∷ (text "had_song", boolean (is_given f.parsed.song))
      ∷ (text "is_request", boolean f.parsed.is_request)
      ∷ (text "message_type", string (message_type_value f.parsed.message_type))
      ∷ (caller
          ++ (degraded_properties outcome ++ flag (text "ban_check_degraded") ban_check_degraded))

  unfoldable pub post_outcome : Findings → Result LookupResult → Exec (Unit {0})
  post_outcome f (raised e) =
      post_degraded_to_slack sv.slack rq.message (some f.parsed) (text "Search unavailable")
        rq.x_device_fingerprint
  post_outcome f (ok r) =
      post_results_to_slack sv.slack rq.message f.parsed f.items_with_artwork f.context
        rq.x_device_fingerprint

  -- `next((art for _, art in items_with_artwork if art), None)`
  unfoldable pub first_artwork :
      List (LibraryItem × Option ReleaseMetadata) → Option ReleaseMetadata
  first_artwork [] = none
  first_artwork ((item, some artwork) ∷ rest) = some artwork
  first_artwork ((item, none) ∷ rest) = first_artwork rest

  abbrev cache_stats_of : Option Json → Json
  cache_stats_of none = sv.cache_stats
  cache_stats_of (some stats) = if is_true stats then stats else sv.cache_stats

  unfoldable pub full_response : Findings → Result LookupResult → UnifiedResponse
  unfolding first_artwork
  full_response f outcome = record {
    parsed = some f.parsed;
    artwork = first_artwork f.items_with_artwork;
    library_results = map (λ r. r.0) f.items_with_artwork;
    result_artworks = map (λ r. r.1) f.items_with_artwork;
    search_type = f.search_type;
    song_not_found = f.song_not_found;
    found_on_compilation = f.found_on_compilation;
    context_message = f.context;
    cache_stats = cache_stats_of f.cache_stats_override;
    degraded_mode = degraded_mode_of outcome;
  }

  -- From the `slack_post` step to the end.
  unfoldable pub deliver_results : Findings → Result LookupResult → Exec UnifiedResponse
  unfolding post_outcome full_response
  deliver_results f outcome = do
    when (not rq.skip_slack) (note slack_call >> post_outcome f outcome)
    when sv.posthog (deliver (Call.send_to_posthog (completed_properties f outcome)))
    pure (full_response f outcome)

  module _ (model_validate : Json → Option LookupResponse) where
    unfoldable pub answer_request : ParsedRequest → Exec UnifiedResponse
    unfolding deliver_results
    answer_request parsed = do
      outcome ← search model_validate sv rq parsed
      deliver_results (findings_of parsed outcome) outcome

    unfoldable pub after_parse : Result ParsedRequest → Exec UnifiedResponse
    unfolding parsing_unavailable non_request answer_request
    after_parse (raised e) = if is_http_exception e then throw e else parsing_unavailable e
    after_parse (ok parsed) =
        if parsed.is_request then answer_request parsed else non_request parsed

module _ (library : Library) where
  unfoldable pub parse_step : Incoming → Exec (Result ParsedRequest)
  parse_step rq =
      attempt (note (Call.record_api_call (text "groq")) >> parse_request library rq.message)

module _ (library : Library) (model_validate : Json → Option LookupResponse) where
  unfoldable pub process : Services → Incoming → Option Text → Exec UnifiedResponse
  unfolding after_parse parse_step
  process sv rq normalized = do
    ban_check_degraded ← admit sv rq normalized
    parsed ← parse_step library rq
    after_parse sv rq normalized ban_check_degraded model_validate parsed

  unfoldable pub handle_request : Services → Incoming → Exec UnifiedResponse
  unfolding process
  handle_request sv rq =
      if is_nil (strip rq.message)
      then throw (Exception.http_exception 400 (text "Message cannot be empty"))
      else process sv rq (normalize_fingerprint rq.x_device_fingerprint)
