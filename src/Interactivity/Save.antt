-- ===== src/Interactivity/Save.antt =====
-- routers/slack_interactivity.py: the roster that a moderator saves.
use request_o_matic.Authorization.{
  AuthorizedUsers, resolve_authorized_users, is_authorized_slack_user_in,
}
use request_o_matic.Base.{
  Bool, false, ◌&&◌, Option, none, some, List, [], ◌∷◌, ◌==◌, is_nil, if◌then◌else◌,
}
use request_o_matic.Exec.{Exception, Result, ok, raised, Exec, pure, throw, lift, attempt, ◌>>=◌}
use request_o_matic.Interactivity.{
  Python, Deployment, Reply, acknowledged, errors, field, dict_get, or_dict, as_text, nested_dict,
  moderator_block_id, moderator_action_id,
}
use request_o_matic.Json.{Json, Items, Members, null, boolean, string, array, object, is_true}
use request_o_matic.Moderators.{ModeratorClient, replace_moderators}
use request_o_matic.Text.{Text, text, is_given}

-- `_roster_error`
abbrev pub roster_error : Text → Exec Reply
roster_error message = pure (errors moderator_block_id message)

-- a list of texts that are not empty
abbrev pub add_given : Json → Option (List Text) → Option (List Text)
add_given (string s) (some rest) = if is_given (some s) then some (s ∷ rest) else none
add_given v rest = none

unfoldable pub user_ids_in : Items → Option (List Text)
user_ids_in Items.nil = some []
user_ids_in (Items.item v vs) = add_given v (user_ids_in vs)

unfoldable pub user_ids : Json → Option (List Text)
unfolding user_ids_in
user_ids (array vs) = user_ids_in vs
user_ids v = none

-- `json.loads(value or "{}")`: what is no text is a `TypeError`, and is caught as well
unfoldable pub loads_context : Python → Json → Option Json
loads_context py (string s) = if is_given (some s) then py.loads s else py.loads (text "{}")
loads_context py v = if is_true v then none else py.loads (text "{}")

-- `context.get(key) if isinstance(context, dict) else None`
abbrev pub member_of : Text → Json → Json
member_of key (object kvs) = field key kvs
member_of key v = null

-- `value is True`
abbrev pub is_the_true : Json → Bool
is_the_true (boolean b) = b
is_the_true v = false

abbrev pub stale_form : Text
stale_form = text "This form is stale. Close it and run /request-mods again."

abbrev pub cannot_reach_roster : Text
cannot_reach_roster =
    text
      "Couldn't reach the moderator list just now, so this couldn't be saved. Nothing was changed -- try again in a moment."

abbrev pub opened_empty : Text
opened_empty =
    text
      "This list opened empty because Slack could not pre-select the current moderators, so saving it would remove everyone. Close this and run /request-mods again, or re-select the moderators you want."

abbrev pub changed_meanwhile : Text
changed_meanwhile =
    text
      "Someone else changed the moderator list while this was open. Close this and run /request-mods again to see the current list."

abbrev pub could_not_save : Text
could_not_save = text "Could not save the moderator list. Try again in a moment."

-- The `try` around the save.
unfoldable pub after_save : Result (List Text) → Exec Reply
after_save (ok saved) = pure acknowledged
after_save (raised (Exception.moderator_client_error status body)) =
    if status == 409 then roster_error changed_meanwhile else roster_error could_not_save
after_save (raised e) = throw e

module _ (py : Python) (d : Deployment) (payload : Members) where
  abbrev pub view : Json
  view = or_dict (field (text "view") payload)

  unfoldable pub save_expected : ModeratorClient → Text → List Text → Json → Exec Reply
  unfolding after_save
  save_expected client user_id selected context =
      elim (user_ids (member_of (text "moderators") context)) [
        | none ↦ roster_error stale_form
        | some expected ↦
            if is_nil selected && is_the_true (member_of (text "initial_users_dropped") context)
            then roster_error opened_empty
            else (attempt (replace_moderators client selected expected (some user_id))
                >>= after_save)
      ]

  unfoldable pub save_selected : ModeratorClient → Text → List Text → Exec Reply
  unfolding save_expected loads_context
  save_selected client user_id selected =
      lift (dict_get (text "private_metadata") view) >>= λ stored. elim (loads_context py stored) [
        | none ↦ roster_error stale_form
        | some context ↦ save_expected client user_id selected context
      ]

  abbrev pub selected_users : Json
  selected_users = field (text "selected_users") (
      nested_dict view
        (text "state" ∷ text "values" ∷ moderator_block_id ∷ moderator_action_id ∷ []))

  unfoldable pub save_with : Text → Option ModeratorClient → Exec Reply
  unfolding save_selected user_ids nested_dict
  save_with user_id none =
      roster_error (text "Moderator management is not configured. Set BS_INTERNAL_MODERATORS_URL.")
  save_with user_id (some client) = elim (user_ids selected_users) [
    | none ↦ roster_error (text "Could not read the selected users. Close this and try again.")
    | some selected ↦ save_selected client user_id selected
  ]

  unfoldable pub save_authorized : Text → AuthorizedUsers → Exec Reply
  unfolding save_with
  save_authorized user_id authorized =
      if is_authorized_slack_user_in (string user_id) authorized.users
      then save_with user_id d.moderator_client
      else if authorized.degraded
      then roster_error cannot_reach_roster
      else roster_error (text "You are not authorized to manage moderators.")

  unfoldable pub save_as : Option Text → Exec Reply
  unfolding save_authorized
  save_as none = roster_error (text "Could not identify the submitting user. Try again.")
  save_as (some user_id) =
      resolve_authorized_users d.moderator_client d.slack_ban_authorized_users
      >>= save_authorized user_id

  -- `_handle_moderator_view_submission`
  unfoldable pub handle_moderator_view_submission : Exec Reply
  unfolding save_as
  handle_moderator_view_submission =
      lift (dict_get (text "id") (or_dict (field (text "user") payload))) >>= λ id.
      save_as (as_text id)
