-- ===== src/Interactivity.antt =====
-- routers/slack_interactivity.py: the values that a callback of Slack's carries, read as the code
-- reads them. `json` and `parse_qs` of Python, and its text of a list or a dict, are parameters.
pub mod Click
pub mod Save
pub mod Ban
pub mod Dispatch
pub mod Guarded
pub mod Closed
pub mod Landed
pub mod Settled
pub mod Quiet
pub mod OneSave
pub mod Once
use request_o_matic.Authorization.{AuthorizedUsers}
use request_o_matic.BanAdmin.{BanAdminClient}
use request_o_matic.BanAdmin.Routes.{unconfigured}
use request_o_matic.BanCheck.{is_network_error}
use request_o_matic.Base.{
  ℕ, Bool, true, false, not, ◌&&◌, ◌||◌, Option, none, some, List, [], ◌∷◌, ◌++◌, if◌then◌else◌,
}
use request_o_matic.Exec.{
  Exception, Result, ok, raised, Severity, error, Call, Exec, pure, throw, lift, attempt, ◌>>=◌,
  ◌>>◌, note, when,
}
use request_o_matic.Json.{
  Json, Items, Members, null, boolean, number, string, array, object, obj, get, is_true,
}
use request_o_matic.Moderators.{ModeratorClient}
use request_o_matic.Text.{Text, text, text_eq, is_given}

-- The parts of Python's library whose results the handlers only pass on or compare.
pub record Python : Type 0 where
  -- `json.loads`, where `none` is a `JSONDecodeError`, and `json.dumps`
  pub loads : Text → Option Json
  pub dumps : Json → Text
  -- `str(value)` of a value that is no `str`
  pub repr : Json → Text
  -- `parse_qs(body.decode("utf-8", errors="replace")).get(name)`, the first of its values
  pub form_value : List ℕ → Text → Option Text

-- What the route is given: whether there is a bot token, the allowlist, and the two clients.
pub record Deployment : Type 0 where
  pub slack : Bool
  pub slack_ban_authorized_users : Option Text
  pub ban_client : Option BanAdminClient
  pub moderator_client : Option ModeratorClient

-- The answers: an empty 200, or a 200 that keeps the modal open with a message under one block.
pub data Reply : Type 0 where
  acknowledged : Reply
  errors : (block : Text) (message : Text) → Reply

-- `d.get(key)`, which only a dict has; `None` is `null`.
abbrev pub or_null : Option Json → Json
or_null none = null
or_null (some v) = v

abbrev pub field : Text → Members → Json
field key kvs = or_null (get key kvs)

abbrev pub dict_get : Text → Json → Result Json
dict_get key (object kvs) = ok (field key kvs)
dict_get key v = raised Exception.attribute_error

-- `d.get(key, {})`
abbrev or_empty : Option Json → Json
or_empty none = obj []
or_empty (some v) = v

abbrev pub dict_get_dict : Text → Json → Result Json
dict_get_dict key (object kvs) = ok (or_empty (get key kvs))
dict_get_dict key v = raised Exception.attribute_error

-- `value or {}`
abbrev pub or_dict : Json → Json
or_dict v = if is_true v then v else obj []

-- `value == "literal"`
abbrev pub is_text : Text → Json → Bool
is_text t (string s) = text_eq s t
is_text t v = false

-- `value if isinstance(value, str) else None`
abbrev pub as_text : Json → Option Text
as_text (string s) = some s
as_text v = none

-- What a `for` loop runs over: a dict gives its keys, and a text its characters.
keys : Members → Items
keys Members.end = Items.nil
keys (Members.member k v kvs) = Items.item (string k) (keys kvs)

characters : Text → Items
characters [] = Items.nil
characters (c ∷ s) = Items.item (string (c ∷ [])) (characters s)

unfoldable pub iterate : Json → Result Items
unfolding keys characters
iterate (array vs) = ok vs
iterate (object kvs) = ok (keys kvs)
iterate (string s) = ok (characters s)
iterate v = raised Exception.type_error

-- `_field`
abbrev pub inner : Text → Json → Option Text
inner key (object kvs) = as_text (field key kvs)
inner key v = none

unfoldable pub text_field : Members → Text → Text → Option Text
text_field payload container key = inner key (field container payload)

-- `_nested_dict`: `{}` at the first value that is no dict
abbrev dict_of : Json → Members
dict_of (object kvs) = kvs
dict_of v = Members.end

unfoldable pub nested_dict : Json → List Text → Members
nested_dict v [] = dict_of v
nested_dict v (key ∷ keys) = nested_dict (field key (dict_of v)) keys

-- `except (SlackPostError, httpx.HTTPError)`
unfoldable pub is_swallowed : Exception → Bool
unfolding is_network_error
is_swallowed (Exception.slack_api_error method reported channel) = true
is_swallowed (Exception.slack_post_error message) = true
is_swallowed e = is_network_error e

abbrev pub after_notify : Result (Unit {0}) → Exec (Unit {0})
after_notify (ok done) = pure tt
after_notify (raised e) = if is_swallowed e then note (Call.logged error) else throw e

-- `_notify_slack`
unfoldable pub notify_slack : Exec (Unit {0}) → Exec (Unit {0})
unfolding is_swallowed
notify_slack call = attempt call >>= after_notify

-- `_require_ban_client`
unfoldable pub require_ban_client : Option BanAdminClient → Exec BanAdminClient
require_ban_client none = throw unconfigured
require_ban_client (some client) = pure client

abbrev pub ban_modal_callback_id : Text
ban_modal_callback_id = text "ban_reason_modal"

abbrev pub ban_reason_block_id : Text
ban_reason_block_id = text "ban_reason_block"

abbrev pub ban_reason_action_id : Text
ban_reason_action_id = text "ban_reason_input"

abbrev pub moderator_modal_callback_id : Text
moderator_modal_callback_id = text "moderator_roster_modal"

abbrev pub moderator_block_id : Text
moderator_block_id = text "moderator_roster_block"

abbrev pub moderator_action_id : Text
moderator_action_id = text "moderator_roster_select"

abbrev pub reason_min_length : ℕ
reason_min_length = 1

abbrev pub reason_max_length : ℕ
reason_max_length = 1000

abbrev pub max_private_metadata_len : ℕ
max_private_metadata_len = 3000
