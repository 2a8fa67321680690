-- ===== src/BanAdmin.antt =====
-- services/ban_admin_client.py and services/ban_service.py: the bans that Backend-Service keeps. The
-- texts of httpx's exceptions are a field of the client.
pub mod Routes
pub mod Guard
pub mod Told
use request_o_matic.Base.{
  ℕ, Bool, true, false, not, Option, none, some, List, [], ◌∷◌, ◌++◌, between, ◌==◌, take,
  if◌then◌else◌,
}
use request_o_matic.BanCheck.{is_network_error}
use request_o_matic.Exec.{
  Exception, Result, ok, raised, Headers, Response, Call, Exec, pure, throw, lift, attempt, ◌>>=◌,
  http,
}
use request_o_matic.Json.{Json, string, natural, obj, decimal}
use request_o_matic.Text.{Text, text}
use request_o_matic.Text.Url.{quote}

pub record BanAdminClient : Type 0 where
  pub internal_key : Text
  pub describe : Exception → Text

unfoldable pub decode_body : Response → Json
decode_body r = elim r.json [ none ↦ string r.body_text | some body ↦ body ]

unfoldable pub safe_json : Response → Result Json
safe_json r = elim r.json [
  | none ↦ raised (
      Exception.ban_admin_client_error r.status (
        obj (
          (text "error", string (text "non_json_upstream_body"))
          ∷ (text "text", string (take 200 r.body_text))
          ∷ [])))
  | some body ↦ ok body
]

module _ (c : BanAdminClient) where
  abbrev pub headers : Headers
  headers = (text "X-Internal-Key", c.internal_key) ∷ []

  abbrev unreachable : Exception → Exception
  unreachable e = Exception.ban_admin_client_error 0 (
      obj (
        (text "error", string (text "upstream_unreachable"))
        ∷ (text "detail", string (c.describe e))
        ∷ []))

  -- `except httpx.HTTPError`
  unfoldable pub reached : Result Response → Result Response
  unfolding is_network_error
  reached (ok r) = ok r
  reached (raised e) = if is_network_error e then raised (unreachable e) else raised e

  -- The reply to a POST or a GET, and to a DELETE.
  unfoldable pub read_json : Result Response → Result Json
  unfolding decode_body safe_json
  read_json (raised e) = raised e
  read_json (ok r) =
      if between 200 299 r.status
      then safe_json r
      else raised (Exception.ban_admin_client_error r.status (decode_body r))

  unfoldable pub read_deleted : Result Response → Result (Unit {0})
  unfolding decode_body
  read_deleted (raised e) = raised e
  read_deleted (ok r) =
      if r.status == 204
      then ok tt
      else raised (Exception.ban_admin_client_error r.status (decode_body r))

  abbrev seconds_field : Option ℕ → List (Text × Json)
  seconds_field none = []
  seconds_field (some n) = (text "expiresInSeconds", natural n) ∷ []

  abbrev actor_field : Option Text → List (Text × Json)
  actor_field none = []
  actor_field (some actor) = (text "bannedByUserId", string actor) ∷ []

  unfoldable pub ban_payload : Text → Json → Option ℕ → Option Text → Json
  ban_payload fingerprint reason expires_in_seconds actor = obj (
      (text "fingerprint", string fingerprint)
      ∷ (text "reason", reason)
      ∷ (seconds_field expires_in_seconds ++ actor_field actor))

  -- `ban_service.ban`, over `BanAdminClient.ban`
  unfoldable pub ban : Text → Json → Option ℕ → Option Text → Exec Json
  unfolding reached read_json ban_payload
  ban fingerprint reason expires_in_seconds actor = do
    reply ←
        attempt
          (http (Call.ban_post headers (ban_payload fingerprint reason expires_in_seconds actor)))
    lift (read_json (reached reply))

  unfoldable pub unban : Text → Exec (Unit {0})
  unfolding reached read_deleted quote
  unban fingerprint = do
    reply ← attempt (http (Call.ban_delete headers (quote fingerprint)))
    lift (read_deleted (reached reply))

  abbrev pub limit_param : Option ℕ → List (Text × Text)
  limit_param none = []
  limit_param (some n) = (text "limit", decimal n) ∷ []

  abbrev pub cursor_param : Option Text → List (Text × Text)
  cursor_param none = []
  cursor_param (some cursor) = (text "cursor", cursor) ∷ []

  unfoldable pub list_bans : Option ℕ → Option Text → Exec Json
  unfolding reached read_json
  list_bans limit cursor = do
    reply ← attempt (http (Call.ban_list headers (limit_param limit ++ cursor_param cursor)))
    lift (read_json (reached reply))
