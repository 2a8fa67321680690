-- ===== src/Commands.antt =====
-- routers/slack_commands.py: the modal for the roster of moderators.
pub mod Slash
pub mod Answers
pub mod Calls
pub mod Closed
pub mod Session
use request_o_matic.Base.{
  ℕ, Bool, true, false, not, ◌&&◌, Option, none, some, List, [], ◌∷◌, ◌++◌, map, ltb, length,
  is_nil, is_some, if◌then◌else◌,
}
use request_o_matic.Exec.{Exception}
use request_o_matic.Interactivity.{
  Python, moderator_modal_callback_id, moderator_block_id, moderator_action_id,
  max_private_metadata_len,
}
use request_o_matic.Json.{Json, string, boolean, arr, obj}
use request_o_matic.Text.{Text, text, text_eq, contains, join, is_given}
use request_o_matic.Text.Order.{sorted_set}

-- The answers: a message in the body that the invoker alone sees, or an empty 200.
pub data CommandReply : Type 0 where
  ephemeral : (message : Text) → CommandReply
  opened : CommandReply

abbrev pub mods_command : Text
mods_command = text "/request-mods"

-- In microseconds: the deadline of Slack, and the time-out of `views.open`.
abbrev pub slash_command_budget : ℕ
slash_command_budget = 3000000

abbrev pub slack_view_open_budget : ℕ
slack_view_open_budget = 1200000

-- `_form_field`
abbrev pub form_field : Python → List ℕ → Text → Text
form_field py body name = elim (py.form_value body name) [ none ↦ [] | some v ↦ v ]

-- `f"{error}"`
abbrev shown : Python → Json → Text
shown py (string s) = s
shown py v = py.repr v

-- `str(exc)` of a `SlackPostError`
abbrev failure : Python → Text → Json → Text
failure py method reported = text "Slack " ++ (method ++ (text " failed: " ++ shown py reported))

unfoldable pub slack_message : Python → Exception → Option Text
slack_message py (Exception.slack_post_error message) = some message
slack_message py (Exception.slack_api_error method reported none) =
    some (failure py method reported)
slack_message py (Exception.slack_api_error method reported (some channel)) = some (
    failure py method reported
    ++ (text " (bot is not a member of channel "
        ++ (shown py channel ++ text "; invite it with /invite)")))
slack_message py e = none

-- `_is_initial_users_rejection`, by the text of the exception
unfoldable pub is_initial_users_rejection : Text → Bool
unfolding contains
is_initial_users_rejection message = contains (text "invalid_arguments") message

abbrev plain : Text → Json
plain t = obj ((text "type", string (text "plain_text")) ∷ (text "text", string t) ∷ [])

abbrev note_block : Text → Json
note_block t = obj (
    (text "type", string (text "context"))
    ∷ (
      text "elements",
      arr (obj ((text "type", string (text "mrkdwn")) ∷ (text "text", string t) ∷ []) ∷ []),
    )
    ∷ [])

abbrev pub texts : List Text → Json
texts ts = arr (map string ts)

-- The field is omitted for an empty roster, and on the retry.
abbrev initial_users : List Text → Option (List Text) → List (Text × Json)
initial_users moderators dropped =
    if not (is_nil moderators) && not (is_some dropped)
    then (text "initial_users", texts moderators) ∷ []
    else []

abbrev picker : List Text → Option (List Text) → Json
picker moderators dropped = obj (
    (text "type", string (text "multi_users_select"))
    ∷ (text "action_id", string moderator_action_id)
    ∷ (text "placeholder", plain (text "Choose moderators"))
    ∷ initial_users moderators dropped)

abbrev picker_block : List Text → Option (List Text) → Json
picker_block moderators dropped = obj (
    (text "type", string (text "input"))
    ∷ (text "block_id", string moderator_block_id)
    ∷ (text "optional", boolean true)
    ∷ (text "label", plain (text "Who can ban request-line abusers?"))
    ∷ (text "element", picker moderators dropped)
    ∷ [])

abbrev backticked : Text → Text
backticked user_id = text "`" ++ (user_id ++ text "`")

abbrev mentioned : Text → Text
mentioned user_id = text "<@" ++ (user_id ++ text ">")

abbrev dropped_blocks : Option (List Text) → List Json
dropped_blocks none = []
dropped_blocks (some []) = []
dropped_blocks (some (u ∷ us)) =
    note_block (
      text "Could not pre-select the current list (one of these accounts may be deactivated): "
      ++ (join (text ", ") (map backticked (u ∷ us))
          ++ text ". Re-select everyone who should stay before saving."))
    ∷ []

abbrev break_glass_blocks : List Text → List Json
break_glass_blocks [] = []
break_glass_blocks (u ∷ us) =
    note_block (
      text "Also authorized via break-glass, not editable here: "
      ++ (join (text ", ") (map mentioned (sorted_set (u ∷ us)))
          ++ text " (edit `SLACK_BAN_AUTHORIZED_USERS` in Railway)."))
    ∷ []

abbrev dropped_mark : Option (List Text) → List (Text × Json)
dropped_mark none = []
dropped_mark (some []) = []
dropped_mark (some (u ∷ us)) = (text "initial_users_dropped", boolean true) ∷ []

-- What the modal carries to the save.
unfoldable pub roster_context : List Text → Option (List Text) → Json
roster_context moderators dropped =
    obj ((text "moderators", texts moderators) ∷ dropped_mark dropped)

abbrev pub modal : Text → List Text → List Text → Option (List Text) → Json
modal private_metadata moderators break_glass dropped = obj (
    (text "type", string (text "modal"))
    ∷ (text "callback_id", string moderator_modal_callback_id)
    ∷ (text "title", plain (text "Request-line mods"))
    ∷ (text "submit", plain (text "Save"))
    ∷ (text "close", plain (text "Cancel"))
    ∷ (text "private_metadata", string private_metadata)
    ∷ (
      text "blocks",
      arr (
          picker_block moderators dropped
          ∷ (dropped_blocks dropped ++ break_glass_blocks break_glass)),
    )
    ∷ [])

-- `_build_roster_modal`, where `none` is the `ValueError` for a context that is too long
unfoldable pub roster_modal : Python → List Text → List Text → Option (List Text) → Option Json
unfolding roster_context sorted_set join
roster_modal py moderators break_glass dropped =
    let private_metadata = py.dumps (roster_context moderators dropped) in
    if ltb max_private_metadata_len (length private_metadata)
    then none
    else some (modal private_metadata moderators break_glass dropped)
