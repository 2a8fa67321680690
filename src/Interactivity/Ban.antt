-- ===== src/Interactivity/Ban.antt =====
-- routers/slack_interactivity.py: the ban that a moderator submits.
use request_o_matic.Authorization.{
  AuthorizedUsers, resolve_authorized_users, is_authorized_slack_user_in,
}
use request_o_matic.BanAdmin.{BanAdminClient, ban}
use request_o_matic.Base.{
  ℕ, suc, Bool, false, ◌&&◌, Option, none, some, List, [], ◌∷◌, ◌++◌, between, length,
  if◌then◌else◌,
}
use request_o_matic.Exec.{
  Exception, Result, ok, raised, Exec, pure, throw, lift, attempt, ◌>>=◌, ◌>>◌, when,
}
use request_o_matic.Fingerprint.{normalize_fingerprint}
use request_o_matic.Interactivity.{
  Python, Deployment, Reply, acknowledged, errors, field, dict_get, dict_get_dict, or_dict, as_text,
  notify_slack, require_ban_client, ban_reason_block_id, ban_reason_action_id, reason_min_length,
  reason_max_length,
}
use request_o_matic.Interactivity.Click.{not_authorized_to_ban}
use request_o_matic.Json.{Json, Items, Members, null, string, array, object, arr, obj, is_true}
use request_o_matic.Moderators.{count_items}
use request_o_matic.Slack.Service.{post_ephemeral, update_message}
use request_o_matic.Text.{Text, text, is_given}

-- `json.loads(value or "{}")` under `except json.JSONDecodeError`: `none` is that exception
unfoldable pub read_context : Python → Json → Result (Option Json)
read_context py (string s) = ok (if is_given (some s) then py.loads s else py.loads (text "{}"))
read_context py v = if is_true v then raised Exception.type_error else ok (py.loads (text "{}"))

-- `len(value)`
count_members : Members → ℕ
count_members Members.end = 0
count_members (Members.member k v kvs) = suc (count_members kvs)

unfoldable pub length_of : Json → Result ℕ
unfolding count_members
length_of (string s) = ok (length s)
length_of (array vs) = ok (count_items vs)
length_of (object kvs) = ok (count_members kvs)
length_of v = raised Exception.type_error

-- `reason is None or not (REASON_MIN_LENGTH <= len(reason) <= REASON_MAX_LENGTH)`
abbrev pub in_range : Result ℕ → Result Bool
in_range (ok n) = ok (between reason_min_length reason_max_length n)
in_range (raised e) = raised e

unfoldable pub is_acceptable : Json → Result Bool
unfolding length_of
is_acceptable null = ok false
is_acceptable reason = in_range (length_of reason)

-- `f"{value}"`
abbrev shown : Python → Json → Text
shown py (string s) = s
shown py v = py.repr v

-- `_build_footer_block`
unfoldable pub footer_block : Python → Text → Json → Json
footer_block py user_id reason = obj (
    (text "type", string (text "context"))
    ∷ (
      text "elements",
      arr (
          obj (
            (text "type", string (text "mrkdwn"))
            ∷ (
              text "text",
              string (text "🚫 Banned by <@" ++ (user_id ++ (text "> — " ++ shown py reason))),
            )
            ∷ [])
          ∷ []),
    )
    ∷ [])

abbrev listed : Items → List Json
listed Items.nil = []
listed (Items.item v vs) = v ∷ listed vs

-- `_build_updated_blocks`
unfoldable pub updated_blocks : Python → Items → Text → Json → List Json
unfolding footer_block
updated_blocks py original user_id reason = listed original ++ footer_block py user_id reason ∷ []

-- `isinstance(original_blocks, list) and bool(original_blocks)`, with the list
abbrev pub annotatable : Json → Option Items
annotatable (array (Items.item v vs)) = some (Items.item v vs)
annotatable v = none

abbrev pub reason_length_message : Text
reason_length_message = text "Reason must be between 1 and 1000 characters."

-- What the modal carries, and who submitted it.
pub record Submission : Type 0 where
  pub user_id : Text
  pub fingerprint : Option Text
  pub channel : Json
  pub message_ts : Json
  pub original_blocks : Json

abbrev normalized_text : Json → Option Text
normalized_text v = normalize_fingerprint (as_text v)

unfoldable pub submission_of : Text → Json → Result Submission
submission_of user_id (object context) = ok (record {
  user_id = user_id;
  fingerprint = normalized_text (field (text "fingerprint") context);
  channel = field (text "channel") context;
  message_ts = field (text "message_ts") context;
  original_blocks = field (text "blocks") context;
})
submission_of user_id v = raised Exception.attribute_error

module _ (py : Python) (d : Deployment) (view : Json) (s : Submission) where
  abbrev pub tell_user : Text → Exec (Unit {0})
  tell_user message = notify_slack (post_ephemeral s.channel s.user_id message)

  abbrev pub annotate : Option Items → Json → Exec (Unit {0})
  annotate none reason = pure tt
  annotate (some original) reason =
      notify_slack
        (update_message s.channel s.message_ts (updated_blocks py original s.user_id reason))

  abbrev ack_suffix : Option Items → Text
  ack_suffix none = text " (The original post was too long to annotate, so it was left as-is.)"
  ack_suffix (some original) = []

  unfoldable pub announce : Json → Exec (Unit {0})
  unfolding notify_slack updated_blocks
  announce reason =
      tell_user
        (text "Banned. Reason: " ++ (shown py reason ++ ack_suffix (annotatable s.original_blocks)))
      >> annotate (annotatable s.original_blocks) reason

  -- The `try` around the ban.
  unfoldable pub after_ban : Json → Result Json → Exec Reply
  unfolding notify_slack announce
  after_ban reason (ok row) = when d.slack (announce reason) >> pure acknowledged
  after_ban reason (raised (Exception.ban_admin_client_error status body)) =
      when d.slack
        (tell_user (text "Ban failed -- Backend-Service rejected the request. Check the logs."))
      >> pure acknowledged
  after_ban reason (raised e) = throw e

  unfoldable pub ban_for : BanAdminClient → Text → Json → Exec Reply
  unfolding after_ban is_acceptable
  ban_for client fingerprint reason = lift (is_acceptable reason) >>= λ acceptable.
      if acceptable
      then (attempt (ban client fingerprint reason none none) >>= after_ban reason)
      else pure (errors ban_reason_block_id reason_length_message)

  -- `view.get("state", {}).get("values", {}).get(…, {}).get(…, {}).get("value")`
  unfoldable pub read_reason : Exec Json
  read_reason = do
    state ← lift (dict_get_dict (text "state") view)
    values ← lift (dict_get_dict (text "values") state)
    block ← lift (dict_get_dict ban_reason_block_id values)
    input ← lift (dict_get_dict ban_reason_action_id block)
    lift (dict_get (text "value") input)

  unfoldable pub ban_fingerprint : BanAdminClient → Option Text → Exec Reply
  unfolding read_reason ban_for
  ban_fingerprint client none = pure acknowledged
  ban_fingerprint client (some fingerprint) =
      if is_given (some fingerprint) && (is_true s.channel && is_true s.message_ts)
      then (read_reason >>= ban_for client fingerprint)
      else pure acknowledged

  unfoldable pub ban_authorized : BanAdminClient → AuthorizedUsers → Exec Reply
  unfolding notify_slack ban_fingerprint
  ban_authorized client authorized =
      if is_authorized_slack_user_in (string s.user_id) authorized.users
      then ban_fingerprint client s.fingerprint
      else (when (d.slack && is_true s.channel) (tell_user not_authorized_to_ban)
          >> pure acknowledged)

  unfoldable pub submit_ban : BanAdminClient → Exec Reply
  unfolding ban_authorized
  submit_ban client =
      resolve_authorized_users d.moderator_client d.slack_ban_authorized_users
      >>= ban_authorized client

module _ (py : Python) (d : Deployment) (payload : Members) where
  abbrev view : Json
  view = or_dict (field (text "view") payload)

  abbrev pub submit_in : BanAdminClient → Text → Option Json → Exec Reply
  submit_in client user_id none = pure acknowledged
  submit_in client user_id (some context) =
      lift (submission_of user_id context) >>= λ s. submit_ban py d view s client

  unfoldable pub submit_as : BanAdminClient → Option Text → Exec Reply
  unfolding read_context submission_of submit_ban
  submit_as client none = pure acknowledged
  submit_as client (some user_id) = do
    stored ← lift (dict_get (text "private_metadata") view)
    context ← lift (read_context py stored)
    submit_in client user_id context

  -- `_handle_ban_view_submission`
  unfoldable pub handle_ban_view_submission : Exec Reply
  unfolding require_ban_client submit_as
  handle_ban_view_submission = do
    client ← require_ban_client d.ban_client
    id ← lift (dict_get (text "id") (or_dict (field (text "user") payload)))
    submit_as client (as_text id)
