-- ===== src/Interactivity/Click.antt =====
-- routers/slack_interactivity.py: a click on the ban button, which opens the modal.
use request_o_matic.Authorization.{
  AuthorizedUsers, resolve_authorized_users, is_authorized_slack_user_in,
}
use request_o_matic.Base.{
  Bool, true, false, ◌&&◌, Option, none, some, [], ◌∷◌, ltb, length, if◌then◌else◌,
}
use request_o_matic.Exec.{Exception, Result, ok, raised, Exec, pure, lift, ◌>>=◌, ◌>>◌, when}
use request_o_matic.Interactivity.{
  Python, Deployment, Reply, acknowledged, field, dict_get, or_dict, is_text, as_text, iterate,
  text_field, notify_slack, require_ban_client, ban_modal_callback_id, ban_reason_block_id,
  ban_reason_action_id, reason_min_length, reason_max_length, max_private_metadata_len,
}
use request_o_matic.Json.{
  Json, Items, Members, null, boolean, string, array, object, arr, obj, get, is_true, natural,
  optional,
}
use request_o_matic.Slack.{ban_button_action_id, metadata_event_type}
use request_o_matic.Slack.Service.{open_view, post_ephemeral}
use request_o_matic.Text.{Text, text, is_given}

-- `any(a.get("action_id") == BAN_BUTTON_ACTION_ID for a in actions)`, which stops at the first
unfoldable pub any_ban_action : Items → Result Bool
any_ban_action Items.nil = ok false
any_ban_action (Items.item (object a) rest) =
    if is_text ban_button_action_id (field (text "action_id") a)
    then ok true
    else any_ban_action rest
any_ban_action (Items.item v rest) = raised Exception.attribute_error

abbrev over : {A : Type 0} → (Items → Result A) → Result Items → Result A
over f (ok vs) = f vs
over f (raised e) = raised e

-- `value or []`
abbrev or_list : Json → Json
or_list v = if is_true v then v else array Items.nil

unfoldable pub has_ban_action : Members → Result Bool
unfolding any_ban_action
has_ban_action payload = over any_ban_action (iterate (or_list (field (text "actions") payload)))

-- `block.get("elements", [])`
abbrev elements_of : Option Json → Json
elements_of none = array Items.nil
elements_of (some v) = v

-- `_is_ban_button_block`
unfoldable pub is_ban_button_block : Json → Result Bool
unfolding any_ban_action
is_ban_button_block (object block) =
    if is_text (text "actions") (field (text "type") block)
    then over any_ban_action (iterate (elements_of (get (text "elements") block)))
    else ok false
is_ban_button_block v = raised Exception.attribute_error

abbrev keep_unless : Result Bool → Json → Result Items → Result Items
keep_unless (raised e) b rest = raised e
keep_unless (ok is_ban) b (raised e) = raised e
keep_unless (ok true) b (ok rest) = ok rest
keep_unless (ok false) b (ok rest) = ok (Items.item b rest)

-- `_strip_ban_button`
unfoldable pub strip_ban_button : Items → Result Items
unfolding is_ban_button_block
strip_ban_button Items.nil = ok Items.nil
strip_ban_button (Items.item b bs) = keep_unless (is_ban_button_block b) b (strip_ban_button bs)

-- `_extract_fingerprint`
abbrev fingerprint_in : Json → Result (Option Text)
fingerprint_in (object event_payload) = ok (as_text (field (text "fingerprint") event_payload))
fingerprint_in v = raised Exception.attribute_error

abbrev from_metadata : Json → Result (Option Text)
from_metadata (object metadata) =
    if is_text metadata_event_type (field (text "event_type") metadata)
    then fingerprint_in (or_dict (field (text "event_payload") metadata))
    else ok none
from_metadata v = raised Exception.attribute_error

unfoldable pub extract_fingerprint : Json → Result (Option Text)
extract_fingerprint (object message) = from_metadata (or_dict (field (text "metadata") message))
extract_fingerprint v = raised Exception.attribute_error

abbrev plain : Text → Json
plain t = obj ((text "type", string (text "plain_text")) ∷ (text "text", string t) ∷ [])

abbrev reason_element : Json
reason_element = obj (
    (text "type", string (text "plain_text_input"))
    ∷ (text "action_id", string ban_reason_action_id)
    ∷ (text "multiline", boolean true)
    ∷ (text "min_length", natural reason_min_length)
    ∷ (text "max_length", natural reason_max_length)
    ∷ [])

abbrev reason_input : Json
reason_input = obj (
    (text "type", string (text "input"))
    ∷ (text "block_id", string ban_reason_block_id)
    ∷ (text "label", plain (text "Reason"))
    ∷ (text "element", reason_element)
    ∷ [])

-- `_build_ban_reason_modal`
unfoldable pub ban_reason_modal : Text → Json
ban_reason_modal context = obj (
    (text "type", string (text "modal"))
    ∷ (text "callback_id", string ban_modal_callback_id)
    ∷ (text "private_metadata", string context)
    ∷ (text "title", plain (text "Ban requester"))
    ∷ (text "submit", plain (text "Ban"))
    ∷ (text "close", plain (text "Cancel"))
    ∷ (text "blocks", arr (reason_input ∷ []))
    ∷ [])

unfoldable pub ban_context : Text → Option Text → Json → Json → Json
ban_context fingerprint channel message_ts blocks = obj (
    (text "fingerprint", string fingerprint)
    ∷ (text "channel", optional channel)
    ∷ (text "message_ts", message_ts)
    ∷ (text "blocks", blocks)
    ∷ [])

-- The context that fits: the blocks are dropped when it is too long with them.
unfoldable pub private_metadata : Python → Text → Option Text → Json → Items → Text
unfolding ban_context
private_metadata py fingerprint channel message_ts blocks =
    let whole = py.dumps (ban_context fingerprint channel message_ts (array blocks)) in
    if ltb max_private_metadata_len (length whole)
    then py.dumps (ban_context fingerprint channel message_ts null)
    else whole

-- An ephemeral message, if there is someone to send it to.
unfoldable pub tell : Bool → Option Text → Option Text → Text → Exec (Unit {0})
unfolding notify_slack
tell slack (some channel) (some user) message =
    when (slack && (is_given (some channel) && is_given (some user)))
      (notify_slack (post_ephemeral (string channel) user message))
tell slack channel user message = pure tt

abbrev pub no_device_info : Text
no_device_info =
    text
      "This post has no device info attached to ban -- it may have been sent before the fingerprint pipeline was live for this deployment. Use the PostHog fallback in docs/admin-bans.md instead."

abbrev pub not_authorized_to_ban : Text
not_authorized_to_ban = text "You are not authorized to ban requesters."

abbrev pub blocks_of : Json → Result Items
blocks_of v = over strip_ban_button (iterate (or_list v))

module _ (py : Python) (d : Deployment) (payload : Members) where
  abbrev pub channel : Option Text
  channel = text_field payload (text "channel") (text "id")

  abbrev pub clicking_user : Option Text
  clicking_user = text_field payload (text "user") (text "id")

  abbrev pub message : Json
  message = or_dict (field (text "message") payload)

  unfoldable pub show_modal : Text → Json → Text → Items → Exec Reply
  unfolding notify_slack private_metadata ban_reason_modal
  show_modal fingerprint message_ts trigger_id blocks =
      notify_slack (
        open_view trigger_id
          (ban_reason_modal (private_metadata py fingerprint channel message_ts blocks)))
      >> pure acknowledged

  -- From the moment that there is a trigger to answer with.
  unfoldable pub open_modal : Text → Json → Text → Exec Reply
  unfolding strip_ban_button show_modal
  open_modal fingerprint message_ts trigger_id = do
    shown ← lift (dict_get (text "blocks") message)
    blocks ← lift (blocks_of shown)
    show_modal fingerprint message_ts trigger_id blocks

  abbrev pub with_trigger : Text → Json → Option Text → Exec Reply
  with_trigger fingerprint message_ts none = pure acknowledged
  with_trigger fingerprint message_ts (some trigger_id) =
      open_modal fingerprint message_ts trigger_id

  unfoldable pub offer_modal : Option Text → Exec Reply
  unfolding tell open_modal
  offer_modal none = tell d.slack channel clicking_user no_device_info >> pure acknowledged
  offer_modal (some fingerprint) =
      if d.slack
      then (lift (dict_get (text "ts") message) >>= λ message_ts.
          with_trigger fingerprint message_ts (as_text (field (text "trigger_id") payload)))
      else pure acknowledged

  unfoldable pub click_authorized : AuthorizedUsers → Exec Reply
  unfolding tell extract_fingerprint offer_modal
  click_authorized authorized =
      if is_authorized_slack_user_in (optional clicking_user) authorized.users
      then (lift (extract_fingerprint message) >>= offer_modal)
      else (tell d.slack channel clicking_user not_authorized_to_ban >> pure acknowledged)

  unfoldable pub click_ban : Exec Reply
  unfolding require_ban_client click_authorized
  click_ban = do
    client ← require_ban_client d.ban_client
    authorized ← resolve_authorized_users d.moderator_client d.slack_ban_authorized_users
    click_authorized authorized

  -- `_handle_block_actions`
  unfoldable pub handle_block_actions : Exec Reply
  unfolding has_ban_action click_ban
  handle_block_actions = do
    is_ban ← lift (has_ban_action payload)
    if is_ban then click_ban else pure acknowledged
