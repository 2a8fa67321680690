-- ===== src/BanCheck.antt =====
-- services/ban_check_client.py: one call of Backend-Service's ban check, read into a result.
pub mod Caught
pub mod Down
use request_o_matic.Base.{
  Bool, true, false, ◌||◌, Option, none, some, [], ◌∷◌, ◌++◌, ◌==◌, between, if◌then◌else◌,
}
use request_o_matic.Exec.{
  Exception, Result, ok, raised, Headers, Response, Exec, throw, lift, attempt, ◌>>=◌, http, Call,
}
use request_o_matic.Fingerprint.{normalize_fingerprint}
use request_o_matic.Json.{Json, Items, Members, get, is_true, null, string, array, object}
use request_o_matic.Text.{Text, text, text_eq, contains, is_given}

-- The four optional values are what `.get` gives; `None` is `null`.
pub record BanCheckResult : Type 0 where
  pub banned : Bool
  pub user_id : Json
  pub fingerprint : Json
  pub ban_reason : Json
  pub ban_source : Json

abbrev allowed : BanCheckResult
allowed = record {
  banned = false;
  user_id = null;
  fingerprint = null;
  ban_reason = null;
  ban_source = null;
}

-- `httpx.HTTPError`, the base class
unfoldable pub is_network_error : Exception → Bool
is_network_error (Exception.http_status_error status) = true
is_network_error Exception.connect_error = true
is_network_error Exception.timeout_exception = true
is_network_error Exception.http_error = true
is_network_error e = false

abbrev header : Text → Option Text → Headers
header name none = []
header name (some v) = if is_given (some v) then (name, v) ∷ [] else []

unfoldable pub ban_check_headers : Option Text → Option Text → Headers
ban_check_headers authorization fingerprint =
    header (text "Authorization") authorization ++ header (text "X-Device-Fingerprint") fingerprint

abbrev field : Text → Members → Json
field key body = elim (get key body) [ none ↦ null | some v ↦ v ]

-- `"banned" in body` on a list
unfoldable pub has_item : Text → Items → Bool
has_item key Items.nil = false
has_item key (Items.item (string s) vs) = text_eq s key || has_item key vs
has_item key (Items.item v vs) = has_item key vs

-- The decoded body. `in` wants a container, and a subscript by a text wants a dict.
unfoldable pub read_ban_check : Json → Result BanCheckResult
unfolding has_item
read_ban_check (object body) = elim (get (text "banned") body) [
  | none ↦ raised Exception.ban_check_unavailable
  | some banned ↦ ok (record {
    banned = is_true banned;
    user_id = field (text "userId") body;
    fingerprint = field (text "fingerprint") body;
    ban_reason = field (text "banReason") body;
    ban_source = field (text "banSource") body;
  })
]
read_ban_check (array vs) =
    if has_item (text "banned") vs
    then raised Exception.type_error
    else raised Exception.ban_check_unavailable
read_ban_check (string s) =
    if contains (text "banned") s
    then raised Exception.type_error
    else raised Exception.ban_check_unavailable
read_ban_check body = raised Exception.type_error

unfoldable pub read_response : Response → Result BanCheckResult
read_response r =
    if r.status == 401 || r.status == 404
    then ok allowed
    else if between 500 599 r.status
    then raised Exception.ban_check_unavailable
    else if r.status == 200
    then elim r.json [
      | none ↦ raised Exception.ban_check_unavailable
      | some body ↦ read_ban_check body
    ]
    else raised Exception.ban_check_unavailable

unfoldable pub read_reply : Result Response → Result BanCheckResult
unfolding is_network_error read_response
read_reply (ok r) = read_response r
read_reply (raised e) =
    if is_network_error e then raised Exception.ban_check_unavailable else raised e

send_check : Headers → Exec BanCheckResult
unfolding read_reply
send_check headers = do reply ← attempt (http (Call.ban_check headers)); lift (read_reply reply)

-- `BanCheckClient.check`
unfoldable pub check : Option Text → Option Text → Exec BanCheckResult
unfolding send_check
check authorization raw =
    let fingerprint = normalize_fingerprint raw in
    if is_given authorization || is_given fingerprint
    then send_check (ban_check_headers authorization fingerprint)
    else throw Exception.value_error
