-- ===== src/Commands/Slash.antt =====
-- routers/slack_commands.py, `slack_commands`: the command itself, behind the check of the signature.
use request_o_matic.Authorization.{parse_authorized_users, is_authorized_slack_user_in}
use request_o_matic.Base.{ℕ, ◌-◌, Option, none, some, List, ◌++◌, ltb, is_nil, if◌then◌else◌}
use request_o_matic.Commands.{
  CommandReply, ephemeral, opened, mods_command, slash_command_budget, slack_view_open_budget,
  form_field, slack_message, is_initial_users_rejection, roster_modal,
}
use request_o_matic.Base.Int.{ℤ}
use request_o_matic.Exec.{
  Exception, Result, ok, raised, Call, Exec, pure, throw, attempt, ◌>>=◌, ◌>>◌,
}
use request_o_matic.Interactivity.{Python, Deployment}
use request_o_matic.Json.{Json, string}
use request_o_matic.Moderators.{ModeratorClient, list_moderators}
use request_o_matic.Signature.{Hmac, verify_slack_request}
use request_o_matic.Slack.Service.{open_view}
use request_o_matic.Text.{Text, text, text_eq}

abbrev pub say : Text → Exec CommandReply
say message = pure (ephemeral message)

abbrev pub could_not_open : Text
could_not_open = text "Couldn't open the moderator list. Try again."

abbrev pub no_time : Text
no_time =
    text
      "Couldn't open the moderator list -- Slack rejected the current selection and there wasn't time to retry. Run /request-mods again."

abbrev pub too_many : Text
too_many =
    text "The moderator list is too large to edit from Slack. Trim it in Backend-Service first."

abbrev pub unavailable : Text
unavailable = text "Moderator management is unavailable right now."

-- `_configuration_detail`: only someone on the allowlist is told what is missing.
unfoldable pub configuration_detail : Text → List Text → Text → Exec CommandReply
unfolding is_authorized_slack_user_in
configuration_detail user_id break_glass message =
    say (if is_authorized_slack_user_in (string user_id) break_glass then message else unavailable)

-- The two ends of the retry.
abbrev pub after_retry : Result (Unit {0}) → Exec CommandReply
after_retry (ok done) = pure opened
after_retry (raised e) = say could_not_open

-- How long the handler has run, in microseconds, when it has made these calls.
abbrev pub Elapsed : Type 0
Elapsed = List Call → ℕ

abbrev pub read_clock : Elapsed → Exec ℕ
read_clock elapsed w calls = (ok (elapsed calls), calls)

module _ (py : Python) (elapsed : Elapsed) (break_glass : List Text) (trigger_id : Text)
    (moderators : List Text) where
  abbrev pub view_or_raise : Option Json → Exec (Unit {0})
  view_or_raise none = throw Exception.value_error
  view_or_raise (some view) = open_view trigger_id view

  unfoldable pub open_without : Exec (Unit {0})
  unfolding roster_modal
  open_without = view_or_raise (roster_modal py moderators break_glass (some moderators))

  -- The retry, when the handler has run this long.
  unfoldable pub retry_after : ℕ → Exec CommandReply
  unfolding open_without
  retry_after used =
      if ltb (slash_command_budget - used) slack_view_open_budget
      then say no_time
      else (attempt open_without >>= after_retry)

  unfoldable pub retry_open : Exec CommandReply
  unfolding retry_after
  retry_open = read_clock elapsed >>= retry_after

  abbrev pub if_rejected : Option Text → Exec CommandReply
  if_rejected none = say could_not_open
  if_rejected (some message) =
      if is_initial_users_rejection message then retry_open else say could_not_open

  -- The handlers of the `try` around `views.open`.
  unfoldable pub after_open : Result (Unit {0}) → Exec CommandReply
  unfolding slack_message
  after_open (ok done) = pure opened
  after_open (raised e) = if_rejected (slack_message py e)

  abbrev pub open_with : Option Json → Exec CommandReply
  open_with none = say too_many
  open_with (some view) = attempt (open_view trigger_id view) >>= after_open

  unfoldable pub offer_roster : Exec CommandReply
  unfolding roster_modal after_open
  offer_roster = open_with (roster_modal py moderators break_glass none)

module _ (py : Python) (elapsed : Elapsed) (d : Deployment) (user_id trigger_id : Text) where
  abbrev pub allowlist : List Text
  allowlist = parse_authorized_users d.slack_ban_authorized_users

  unfoldable pub command_authorized : List Text → Exec CommandReply
  unfolding offer_roster
  command_authorized moderators =
      if d.slack
      then offer_roster py elapsed allowlist trigger_id moderators
      else say (
          text "Moderator management isn't set up on this deployment (`SLACK_BOT_TOKEN` is unset).")

  -- The `try` around the one read.
  unfoldable pub after_list : Result (List Text) → Exec CommandReply
  unfolding configuration_detail command_authorized
  after_list (ok moderators) =
      if is_authorized_slack_user_in (string user_id) (allowlist ++ moderators)
      then command_authorized moderators
      else say (text "You are not authorized to manage request-line moderators.")
  after_list (raised (Exception.moderator_client_error status body)) =
      configuration_detail user_id allowlist (
        text
          "Couldn't reach the moderator list just now. Try again in a moment -- banning still works.")
  after_list (raised e) = throw e

  unfoldable pub request_mods : Option ModeratorClient → Exec CommandReply
  unfolding configuration_detail after_list
  request_mods none = configuration_detail user_id allowlist (
      text
        "Moderator management isn't set up on this deployment (`BS_INTERNAL_MODERATORS_URL` is unset). Bans still work off the break-glass allowlist.")
  request_mods (some client) = attempt (list_moderators client) >>= after_list

module _ (py : Python) (elapsed : Elapsed) (d : Deployment) (body : List ℕ) where
  unfoldable pub slack_commands : Exec CommandReply
  unfolding request_mods
  slack_commands =
      if text_eq (form_field py body (text "command")) mods_command
      then if is_nil (form_field py body (text "trigger_id"))
        then say (text "Something went wrong opening the moderator list. Try again.")
        else request_mods py elapsed d (form_field py body (text "user_id"))
            (form_field py body (text "trigger_id")) d.moderator_client
      else say (text "Unknown command.")

  -- The route: the dependency on the signature comes before every other.
  unfoldable pub post_command :
      Hmac → Option Text → Option Text → Option Text → ℤ → Exec CommandReply
  unfolding verify_slack_request slack_commands
  post_command hmac secret timestamp signature now =
      verify_slack_request hmac secret timestamp signature now body >> slack_commands
