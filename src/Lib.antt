-- ===== src/Lib.antt =====
-- A verification library of request-o-matic: the path of `POST /request`, from the caller's headers to
-- the Slack post and the response, the bans that moderators and operators set, and the roster of
-- those who may.
--
-- The handler (routers/request.py, `handle_request`) refuses or admits the caller, has Groq parse
-- the message, asks library-metadata-lookup for it, posts to Slack and reports to PostHog. Its parts:
--
-- - Fingerprint: services/fingerprint.py, `normalize_fingerprint`. The pattern is a matcher by
--   clauses, `$` before a final line feed included.
-- - UaGate: services/ua_gate.py, `is_known_strict_client`. The scan for products runs on fuel, the
--   length of the header: each round takes a character at least. UaGate/Scan is about that fuel, and
--   UaGate/Claim about the headers that close the gate.
-- - BanCheck: services/ban_check_client.py, `BanCheckClient.check`; `read_response` and
--   `read_ban_check` are what it does with a reply. BanCheck/Caught and BanCheck/Down compare what it
--   catches, and which replies it cannot use, with httpx's documentation.
-- - Slack: services/slack.py, the blocks of a post and its metadata; Slack/Service: the class
--   `SlackService` of core/dependencies.py; Slack/Calls counts its calls, Slack/Accepted is about
--   their answers. Slack/Providers: the functions that choose the transport; Slack/Transport is
--   about them.
-- - Lookup: services/lookup_client.py, `LookupServiceClient.lookup`; the loop is recursion on the
--   rounds that are left, so it needs no fuel. Lookup/Retries and Lookup/Rounds are about the loop.
-- - Parser: services/parser.py, `parse_request`; `json.loads`, pydantic's validation, and of Python's
--   Unicode tables `str.isalnum` and `str.casefold`, are the parameters of the record `Library`.
--   Parser/Album is the pre-pass for albums, `extract_album_prefix`, and Parser/Words the patterns it
--   searches for, each as a matcher by recursion on the text. Parser/Split and Kept are about them.
-- - Metadata: models.py and the fields that the code reads of the types generated from the API's
--   description.
-- - Request: routers/request.py. Request/Notify has the two posting helpers, Request/Admit the two
--   refusals, Request/Search the lookup and what becomes of its answer, Request/Handler the stages of
--   the handler and the handler itself. Request/Counts, Foreign, Refusals, Blocked, Refused and
--   Reconcile hold the proofs.
-- - Exec: the effects. A computation takes a `World`, which answers every call that leaves the
--   process from the calls made before it, and the calls made so far; it gives a value or the Python
--   exception that ends it, and the calls. Nothing is assumed of a world, but where a theorem says so.
--   Exec/Ensures and Exec/AtMost have one rule per construct; Exec/Httpx says what httpx raises.
-- - Base, Text, Json: helpers. A text is the list of its code points. Text/Case compares without
--   regard to case.
-- - Moderators: services/moderator_client.py, the roster of those who may ban. Moderators/Roster
--   and Moderators/Envelope are about what it sends and reads, Moderators/Funnel about its failures.
--   A set of texts that is sorted is Text/Order's `sorted_set`; Text/Ascending has its laws.
-- - Authorization: services/slack_authorization.py, the allowlist and its union with the roster;
--   Authorization/Closed is about who is found to be authorized.
-- - BanAdmin: services/ban_admin_client.py with services/ban_service.py; Text/Url is the `quote` of a
--   path. BanAdmin/Routes: routers/admin.py, and the check of the operator's token in
--   core/dependencies.py; BanAdmin/Guard is about
--   who gets through, BanAdmin/Told about what an operator is told.
-- - Interactivity: routers/slack_interactivity.py. Interactivity/Click is the click on the ban button,
--   Interactivity/Ban the ban that a moderator submits, Interactivity/Save the roster that one saves,
--   and Interactivity/Dispatch the handler of the one URL. Interactivity/Guarded and Closed are about
--   those who are not authorized, Interactivity/Landed and Settled about what Slack is answered,
--   Interactivity/Quiet, OneSave and Once about how much a callback changes.
-- - Signature: services/slack_signature.py and `verify_slack_request` of core/dependencies.py, which
--   stands before the two routes that Slack calls. Signature/Window is about the signatures that pass,
--   Signature/Gate about the two routes.
-- - Commands: routers/slack_commands.py, the modal for the roster; Commands/Slash is the command.
--   Commands/Answers, Calls and Closed are about the command, Commands/Session about a modal that is
--   opened by the command and then saved.
-- - ServerTiming: core/server_timing.py, and of routers/request.py the forwarding of the legs,
--   `_emit_server_timing_header`. ServerTiming/Legs is about what is read from a header,
--   ServerTiming/Emitted about what is forwarded; Text/Split has the laws of `split`.
-- - Providers: core/dependencies.py, the clients that a deployment has by its settings.
-- - Health: routers/health.py, the probes of the readiness check; Health/Transport is about the probe
--   of Slack. ParseRoute: routers/parse.py; ParseRoute/Told is about its failures.
-- - NightlyGate: scripts/nlp_nightly_gate.py, whether the parser's tests run tonight; NightlyGate/Diff
--   is its reading of git's answers, NightlyGate/Runs about the decision.
-- - Tests, Examples, Listeners, Callbacks, Upkeep: sample inputs, and a theorem applied to each.
--
-- The libraries the code calls are parameters: httpx, Groq, Slack's API, Backend-Service and PostHog
-- are the world, and pydantic's validation of a lookup's answer is `model_validate`. `IsForeign` states
-- that those raise no exception of fastapi's, `IsHttpx` that httpx raises an
-- `HTTPError`, an `InvalidURL` or a `ValueError`, `IsNetwork` that it raises an `HTTPError` alone, and `IsSlackApi` that a success of Slack's carries
-- a JSON object. A call of Groq's client is one call, whatever the client retries within it.
-- Python's `json`, `parse_qs` and the text of a list or a dict are the record `Python`; `IsCarried` states
-- that `json` reads back what it wrote. HMAC is a parameter, `Hmac`, and `IsLatin` states that its digest is
-- in latin-1. The clock is an argument: the seconds of `time.time()` where a signature is checked, and in
-- `Elapsed`, in microseconds, what `time.monotonic()` has advanced since a command began.
-- Python's floats are the record `Floats`. git is a parameter, `Git`, from its arguments to its exit code and output.
--
-- Left out: log lines and Sentry's breadcrumbs, but for the records that report a failed parse and a
-- failed notification of Slack; the texts of exceptions that nothing reads; in `handle_request`, the
-- Server-Timing header, which it sets last and whose failures are swallowed.
-- Not modelled: the start-up and the defaults of the settings, the scripts that print what the service
-- answers, the library that runs the probes with its time-outs, and the models generated from the API's
-- description.
pub mod Base
pub mod Text
pub mod Fingerprint
pub mod Json
pub mod Metadata
pub mod Exec
pub mod UaGate
pub mod BanCheck
pub mod Moderators
pub mod Authorization
pub mod BanAdmin
pub mod Signature
pub mod Slack
pub mod Lookup
pub mod Parser
pub mod Interactivity
pub mod Commands
pub mod Request
pub mod Tests
pub mod Examples
pub mod Listeners
pub mod Callbacks
pub mod ServerTiming
pub mod Providers
pub mod Health
pub mod ParseRoute
pub mod NightlyGate
pub mod Upkeep
