-- ===== src/Moderators.antt =====
-- services/moderator_client.py: the roster of ban moderators that Backend-Service keeps. Python's
-- `str.upper` and the texts of httpx's exceptions are fields of the client.
pub mod Roster
pub mod Envelope
pub mod Funnel
use request_o_matic.Base.{
  ℕ, ◌+◌, Bool, true, false, not, ◌&&◌, ◌||◌, Option, none, some, List, [], ◌∷◌, ◌++◌, map, ltb,
  between, all, length, take, if◌then◌else◌, is_nil,
}
use request_o_matic.BanCheck.{is_network_error}
use request_o_matic.Exec.{
  Exception, Result, ok, raised, Headers, Response, Call, Exec, pure, throw, lift, attempt, ◌>>=◌,
  http,
}
use request_o_matic.Json.{
  Json, Items, Members, null, boolean, number, string, array, object, arr, obj, get, natural,
}
use request_o_matic.Text.{Text, text, is_given}
use request_o_matic.Text.Order.{sorted_set}

-- The client, with what it uses of its libraries: `str(exc)`, and `str.upper`.
pub record ModeratorClient : Type 0 where
  pub internal_key : Text
  pub describe : Exception → Text
  pub upper : Text → Text

abbrev pub client_error : ℕ → Text → Exception
client_error status error =
    Exception.moderator_client_error status (obj ((text "error", string error) ∷ []))

-- `normalize_slack_user_ids`
unfoldable pub normalize_slack_user_ids : (Text → Text) → List Text → Result (List Text)
unfolding sorted_set
normalize_slack_user_ids upper user_ids =
    if all (λ user_id. is_given (some user_id)) user_ids
    then ok (sorted_set (map upper user_ids))
    else raised (client_error 0 (text "malformed_user_ids"))

abbrev pub max_roster_size : ℕ
max_roster_size = 200

abbrev pub headers : ModeratorClient → Headers
headers c = (text "X-Internal-Key", c.internal_key) ∷ []

-- `_decode_body`, and `_safe_json` for a status of success
unfoldable pub decode_body : Response → Json
decode_body r = elim r.json [ none ↦ string r.body_text | some body ↦ body ]

unfoldable pub safe_json : Response → Result Json
safe_json r = elim r.json [
  | none ↦ raised (
      Exception.moderator_client_error r.status (
        obj (
          (text "error", string (text "non_json_upstream_body"))
          ∷ (text "text", string (take 200 r.body_text))
          ∷ [])))
  | some body ↦ ok body
]

abbrev pub count_items : Items → ℕ
count_items Items.nil = 0
count_items (Items.item v vs) = 1 + count_items vs

-- `row.get("slack_user_id")` of one row, when it is a text that is not empty
abbrev pub given_text : Option Json → Option Text
given_text (some (string s)) = if is_given (some s) then some s else none
given_text v = none

abbrev pub row_id : Json → Result Text
row_id (object row) = elim (given_text (get (text "slack_user_id") row)) [
  | none ↦ raised (client_error 200 (text "malformed_roster_user_id"))
  | some user_id ↦ ok user_id
]
row_id row = raised (client_error 200 (text "malformed_roster_row"))

abbrev pub add_id : Result Text → Result (List Text) → Result (List Text)
add_id (raised e) ids = raised e
add_id (ok user_id) (raised e) = raised e
add_id (ok user_id) (ok ids) = ok (user_id ∷ ids)

-- the loop over the rows: the first malformed row raises
unfoldable pub row_ids : Items → Result (List Text)
row_ids Items.nil = ok []
row_ids (Items.item row rows) = add_id (row_id row) (row_ids rows)

abbrev pub too_large : ℕ → Exception
too_large n = Exception.moderator_client_error 200 (
    obj (
      (text "error", string (text "roster_too_large"))
      ∷ (text "count", natural n)
      ∷ (text "max", natural max_roster_size)
      ∷ []))

abbrev pub roster_items : Option Json → Result (List Text)
roster_items (some (array rows)) =
    if ltb max_roster_size (count_items rows)
    then raised (too_large (count_items rows))
    else row_ids rows
roster_items v = raised (client_error 200 (text "malformed_roster_items"))

-- `_extract_ids`
unfoldable pub extract_ids : Json → Result (List Text)
unfolding row_ids
extract_ids (object payload) = roster_items (get (text "items") payload)
extract_ids payload = raised (client_error 200 (text "malformed_roster_payload"))

-- `except (httpx.HTTPError, httpx.InvalidURL, ValueError)`
unfoldable pub is_unreachable : Exception → Bool
unfolding is_network_error
is_unreachable Exception.invalid_url = true
is_unreachable Exception.value_error = true
is_unreachable e = is_network_error e

module _ (c : ModeratorClient) where
  abbrev pub unreachable : Exception → Exception
  unreachable e = Exception.moderator_client_error 0 (
      obj (
        (text "error", string (text "upstream_unreachable"))
        ∷ (text "detail", string (c.describe e))
        ∷ []))

  abbrev pub body_ids : Result Json → Result (List Text)
  body_ids (ok body) = extract_ids body
  body_ids (raised e) = raised e

  -- What both methods make of Backend-Service's reply.
  unfoldable pub read_roster : Result Response → Result (List Text)
  unfolding is_unreachable decode_body safe_json extract_ids
  read_roster (raised e) = if is_unreachable e then raised (unreachable e) else raised e
  read_roster (ok r) =
      if between 200 299 r.status
      then body_ids (safe_json r)
      else raised (Exception.moderator_client_error r.status (decode_body r))

  unfoldable pub list_moderators : Exec (List Text)
  unfolding read_roster
  list_moderators = do
    reply ← attempt (http (Call.roster_get (headers c)))
    lift (read_roster reply)

  abbrev actor_field : Option Text → List (Text × Json)
  actor_field none = []
  actor_field (some actor) = (text "actorSlackUserId", string actor) ∷ []

  unfoldable pub replace_payload : List Text → List Text → Option Text → Json
  replace_payload slack_user_ids expected_current actor = obj (
      (text "slackUserIds", arr (map string slack_user_ids))
      ∷ (text "expectedCurrent", arr (map string expected_current))
      ∷ actor_field actor)

  unfoldable pub put_roster : List Text → List Text → Option Text → Exec (List Text)
  unfolding read_roster replace_payload
  put_roster wanted expected actor = do
    reply ← attempt (http (Call.roster_put (headers c) (replace_payload wanted expected actor)))
    lift (read_roster reply)

  unfoldable pub replace_moderators : List Text → List Text → Option Text → Exec (List Text)
  unfolding normalize_slack_user_ids put_roster
  replace_moderators slack_user_ids expected_current actor = do
    wanted ← lift (normalize_slack_user_ids c.upper slack_user_ids)
    expected ← lift (normalize_slack_user_ids c.upper expected_current)
    put_roster wanted expected actor
