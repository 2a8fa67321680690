-- ===== src/Request/Notify.antt =====
-- routers/request.py: the two ways in which a request is posted to Slack.
use request_o_matic.Base.{not, Option, none, some, List, [], ◌∷◌, ◌++◌, is_nil, if◌then◌else◌}
use request_o_matic.Exec.{Exception, Result, ok, raised, Exec, pure, throw, attempt, ◌>>=◌}
use request_o_matic.Json.{Json}
use request_o_matic.Metadata.{
  MessageType, request, dj_message, feedback, other, ParsedRequest, LibraryItem, ReleaseMetadata,
}
use request_o_matic.Slack.{build_slack_blocks, build_simple_slack_blocks, build_slack_metadata}
use request_o_matic.Slack.Service.{SlackService, post_blocks}
use request_o_matic.Text.{Text, text, is_given, join}

-- `MESSAGE_TYPE_LABELS`
abbrev pub message_type_label : MessageType → Text
message_type_label request = text "Song Request"
message_type_label dj_message = text "Message to DJ"
message_type_label feedback = text "Feedback"
message_type_label other = text "Other"

abbrev labelled : Text → Option Text → List Text
labelled label none = []
labelled label (some v) = if is_given (some v) then (label ++ v) ∷ [] else []

unfoldable pub parsed_context_parts : ParsedRequest → List Text
parsed_context_parts parsed =
    labelled (text "Artist: ") parsed.artist
    ++ (labelled (text "Album: ") parsed.album ++ labelled (text "Song: ") parsed.song)

abbrev quoted_miss : Text → Text → Text
quoted_miss song artist =
    (b'"' ∷ song) ++ ((b'"' ∷ text " by ") ++ (artist ++ text " not found in library."))

-- The artist is the one that the listener typed.
unfoldable pub not_in_library_context : ParsedRequest → Option Text → Option Text
not_in_library_context parsed artist = elim parsed.song [
  | none ↦ none
  | some song ↦ elim artist [
    | none ↦ none
    | some name ↦
        if is_given (some song)
        then (if is_given (some name) then some (quoted_miss song name) else none)
        else none
  ]
]

unfoldable pub result_blocks :
    Text → ParsedRequest → List (LibraryItem × Option ReleaseMetadata) → Option Text → List Json
result_blocks message parsed items_with_artwork context =
    if not (is_nil items_with_artwork)
    then build_slack_blocks message items_with_artwork context
    else if not parsed.is_request
    then build_simple_slack_blocks message
        (some (text "_" ++ (message_type_label parsed.message_type ++ text "_")))
    else build_simple_slack_blocks message
        (some (text "_No results found_ " ++ join (text " | ") (parsed_context_parts parsed)))

-- `except Exception`: whatever goes wrong becomes a 502.
unfoldable pub or_bad_gateway : Result (Option Json) → Exec (Unit {0})
or_bad_gateway (ok ts) = pure tt
or_bad_gateway (raised e) =
    throw (Exception.http_exception_from 502 (text "Failed to post to Slack: ") e)

-- One post with the requester's fingerprint in its metadata.
unfoldable pub post_to_slack : SlackService → List Json → Option Text → Exec (Unit {0})
unfolding or_bad_gateway
post_to_slack s blocks fingerprint = do
  r ← attempt (post_blocks s blocks (build_slack_metadata fingerprint) none none)
  or_bad_gateway r

unfoldable pub post_results_to_slack :
    Option SlackService
    → Text
    → ParsedRequest
    → List (LibraryItem × Option ReleaseMetadata)
    → Option Text
    → Option Text
    → Exec (Unit {0})
post_results_to_slack none message parsed items_with_artwork context fingerprint = pure tt
post_results_to_slack (some s) message parsed items_with_artwork context fingerprint =
    post_to_slack s (result_blocks message parsed items_with_artwork context) fingerprint

abbrev context_segments : Option ParsedRequest → List Text
context_segments none = []
context_segments (some parsed) = parsed_context_parts parsed

unfoldable pub degraded_blocks : Text → Option ParsedRequest → Text → List Json
degraded_blocks message parsed remark =
    build_simple_slack_blocks message
      (some (join (text " | ") ((text "_" ++ (remark ++ text "_")) ∷ context_segments parsed)))

unfoldable pub post_degraded_to_slack :
    Option SlackService → Text → Option ParsedRequest → Text → Option Text → Exec (Unit {0})
post_degraded_to_slack none message parsed remark fingerprint = pure tt
post_degraded_to_slack (some s) message parsed remark fingerprint =
    post_to_slack s (degraded_blocks message parsed remark) fingerprint
