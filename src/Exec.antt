-- ===== src/Exec.antt =====
-- The effects of a handler: the calls that it makes of other services, in order, and the Python
-- exception that it may end in. A `World` answers each call, as it likes, from the calls made so
-- far; nothing is assumed of it. Log lines and Sentry breadcrumbs are not calls, but for the one
-- record whose severity raises the alarm.
pub mod Ensures
pub mod AtMost
pub mod Httpx
use request_o_matic.Base.{ℕ, ◌≡◌, Bool, true, false, Option, none, some, List, [], ◌∷◌}
use request_o_matic.Json.{Json}
use request_o_matic.Metadata.{LookupRequest}
use request_o_matic.Text.{Text}

-- The exceptions that the code raises or tells apart. `other` is any class that no `except` names.
pub data Exception : Type 0 where
  -- fastapi: status and detail, which ends in the text of another exception in
  -- the second form, and is a JSON value in the third
  http_exception : ℕ → Text → Exception
  http_exception_from : ℕ → Text → Exception → Exception
  http_exception_json : ℕ → Json → Exception
  -- httpx: `http_error` is an `HTTPError` of none of the three classes before it
  http_status_error : ℕ → Exception
  connect_error timeout_exception http_error invalid_url : Exception
  -- groq
  rate_limit_error api_timeout_error api_connection_error internal_server_error : Exception
  -- Python
  value_error type_error attribute_error key_error runtime_error : Exception
  -- core/exceptions.py and the clients: a Slack refusal carries its method, error and channel
  slack_api_error : Text → Json → Option Json → Exception
  slack_post_error : Text → Exception
  ban_check_unavailable : Exception
  moderator_client_error : ℕ → Json → Exception
  ban_admin_client_error : ℕ → Json → Exception
  other : Text → Exception

pub data Result (A : Type 0) : Type 0 where
  ok : A → Result A
  raised : Exception → Result A

pub data Severity : Type 0 where
  warning error : Severity

abbrev pub Headers : Type 0
Headers = List (Text × Text)

abbrev pub Properties : Type 0
Properties = List (Text × Json)

-- A request that leaves the process, with what it carries.
pub data Call : Type 0 where
  -- Backend-Service
  ban_check : Headers → Call
  roster_get : Headers → Call
  roster_put : Headers → Json → Call
  ban_post : Headers → Json → Call
  ban_delete : Headers → (path : Text) → Call
  ban_list : Headers → List (Text × Text) → Call
  -- Groq, library-metadata-lookup
  groq_chat : (user : Text) → Call
  lml_lookup : LookupRequest → (skip_cache : Bool) → Headers → Call
  -- the probes of the readiness check
  groq_models : Headers → Call
  lml_probe : (url : Text) → Headers → Json → Call
  slack_probe : (url : Text) → Json → Call
  -- Slack
  slack_webhook : Json → Call
  slack_api : (method : Text) (payload : Json) → Call
  -- PostHog, directly and by `RequestTelemetry.send_to_posthog`
  capture : (event : Text) → Properties → Call
  send_to_posthog : Properties → Call
  -- what stays inside the process
  record_api_call : Text → Call
  logged : Severity → Call
  sleep : Call

pub record Response : Type 0 where
  pub status : ℕ
  -- what `.json()` decodes, if the body is JSON
  pub json : Option Json
  -- `.text`
  pub body_text : Text
  pub server_timing : Option Text

pub record World : Type 0 where
  pub http : List Call → Call → Result Response
  -- the content of the first choice, which may be `None`
  pub complete : List Call → Call → Result (Option Text)
  pub deliver : List Call → Call → Result (Unit {0})

-- The calls made so far come newest first.
abbrev pub Exec : Type 0 → Type 0
Exec A = World → List Call → Result A × List Call

module _ {A : Type 0} where
  abbrev pub pure : A → Exec A
  pure a w calls = (ok a, calls)

  abbrev pub throw : Exception → Exec A
  throw e w calls = (raised e, calls)

  abbrev pub lift : Result A → Exec A
  lift r w calls = (r, calls)

  -- `try`: the exception becomes a value.
  abbrev pub attempt : Exec A → Exec (Result A)
  attempt m w calls = let (r, later) = m w calls in (ok r, later)

infixl 5 ◌>>=◌ ◌>>◌
abbrev pub resume :
    {A B : Type 0} → (A → Exec B) → World → Result A → List Call → Result B × List Call
resume f w (ok a) calls = f a w calls
resume f w (raised e) calls = (raised e, calls)

abbrev pub ◌>>=◌ : {A B : Type 0} → Exec A → (A → Exec B) → Exec B
◌>>=◌ m f w calls = let (r, later) = m w calls in resume f w r later

abbrev pub ◌>>◌ : {B : Type 0} → Exec (Unit {0}) → Exec B → Exec B
m >> k = m >>= λ _. k

abbrev pub http : Call → Exec Response
http call w calls = (w.http calls call, call ∷ calls)

abbrev pub complete : Call → Exec (Option Text)
complete call w calls = (w.complete calls call, call ∷ calls)

abbrev pub deliver : Call → Exec (Unit {0})
deliver call w calls = (w.deliver calls call, call ∷ calls)

abbrev pub note : Call → Exec (Unit {0})
note call w calls = (ok tt, call ∷ calls)

abbrev pub when : Bool → Exec (Unit {0}) → Exec (Unit {0})
when true m = m
when false m = pure tt
