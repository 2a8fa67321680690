-- ===== src/Commands/Answers.antt =====
-- routers/slack_commands.py: how a command is answered.
use request_o_matic.Authorization.{is_authorized_slack_user_in}
use request_o_matic.Base.{ℕ, Option, none, some, List, ◌++◌, arith, is_nil, ltb, ◌-◌, if◌then◌else◌}
use request_o_matic.Commands.Slash.{
  configuration_detail, after_retry, retry_after, if_rejected, open_with, no_time, too_many,
  open_without, retry_open, after_open, offer_roster, allowlist, command_authorized, after_list,
  request_mods, slack_commands, say, could_not_open, Elapsed, read_clock,
}
use request_o_matic.Commands.{
  CommandReply, opened, roster_modal, slack_message, is_initial_users_rejection, form_field,
  mods_command, slack_view_open_budget, slash_command_budget,
}
use request_o_matic.Exec.Ensures.{
  Ensures, Outcome, Anything, Ensures->>=, Ensures-pure, Ensures-if, Ensures-attempt,
  Ensures-attempt_any,
}
use request_o_matic.Exec.{Exec, World, Result, ok, raised, Exception, ◌>>=◌, attempt}
use request_o_matic.Interactivity.{Python, Deployment}
use request_o_matic.Json.{Json, string}
use request_o_matic.Exec.Httpx.{IsHttpx}
use request_o_matic.Moderators.Funnel.{list_moderators-Refuses}
use request_o_matic.Moderators.Roster.{IsClientError}
use request_o_matic.Moderators.{ModeratorClient, list_moderators}
use request_o_matic.Slack.Service.{open_view}
use request_o_matic.Text.{Text, text, text_eq}

abbrev pub Answers : World → Exec CommandReply → Type 0
Answers w m = Ensures w (λ e. ⊥) Anything m

module _ {w : World} where
  say-Answers : (message : Text) → Answers w (say message)
  say-Answers message = Ensures-pure _ tt

  after_retry-Answers : (r : Result (Unit {0})) → Answers w (after_retry r)
  after_retry-Answers (ok done) = Ensures-pure opened tt
  after_retry-Answers (raised e) = say-Answers could_not_open

  module _ (py : Python) (elapsed : Elapsed) (break_glass : List Text) (trigger_id : Text)
      (moderators : List Text) where
    retry_after-Answers :
        (used : ℕ) → Answers w (retry_after py elapsed break_glass trigger_id moderators used)
    unfolding retry_after
    retry_after-Answers used =
        Ensures-if (ltb (slash_command_budget - used) slack_view_open_budget) (say no_time)
          (attempt (open_without py elapsed break_glass trigger_id moderators) >>= after_retry)
          (λ e. say-Answers no_time)
          (λ e.
            Ensures->>= {R = Anything} _ after_retry (Ensures-attempt_any _)
              (λ r t. after_retry-Answers r))

    retry_open-Answers : Answers w (retry_open py elapsed break_glass trigger_id moderators)
    unfolding retry_open
    retry_open-Answers =
        Ensures->>= {R = Anything} (read_clock elapsed) _ (record { at = λ calls. tt })
          (λ used t. retry_after-Answers used)

    after_open-Answers :
        (r : Result (Unit {0}))
        → Answers w (after_open py elapsed break_glass trigger_id moderators r)
    unfolding after_open
    after_open-Answers (ok done) = Ensures-pure opened tt
    after_open-Answers (raised e) = rejected (slack_message py e)
      where
        rejected :
            (o : Option Text)
            → Answers w (if_rejected py elapsed break_glass trigger_id moderators o)
        rejected none = say-Answers could_not_open
        rejected (some message) =
            Ensures-if (is_initial_users_rejection message) _ (say could_not_open)
              (λ e. retry_open-Answers) (λ e. say-Answers could_not_open)

    open_with-Answers :
        (o : Option Json) → Answers w (open_with py elapsed break_glass trigger_id moderators o)
    open_with-Answers none = say-Answers too_many
    open_with-Answers (some view) =
        Ensures->>= {R = Anything} _ (after_open py elapsed break_glass trigger_id moderators)
          (Ensures-attempt_any (open_view trigger_id view)) (λ r t. after_open-Answers r)

module _ {w : World} (py : Python) (elapsed : Elapsed) (d : Deployment) where
  module _ (user_id trigger_id : Text) where
    command_authorized-Answers :
        (moderators : List Text)
        → Answers w (command_authorized py elapsed d user_id trigger_id moderators)
    unfolding command_authorized offer_roster
    command_authorized-Answers moderators =
        Ensures-if d.slack
          (open_with py elapsed (allowlist py elapsed d user_id trigger_id) trigger_id moderators
            (roster_modal py moderators (allowlist py elapsed d user_id trigger_id) none))
          (say _) (λ e. open_with-Answers py elapsed _ trigger_id moderators _) (λ e. say-Answers _)

    configuration_detail-Answers :
        (users : List Text) (message : Text)
        → Answers w (configuration_detail user_id users message)
    unfolding configuration_detail
    configuration_detail-Answers users message = say-Answers _

    after_list-Answers :
        (r : Result (List Text))
        → Outcome IsClientError Anything r
        → Answers w (after_list py elapsed d user_id trigger_id r)
    unfolding after_list
    after_list-Answers (ok moderators) h =
        Ensures-if
          (is_authorized_slack_user_in (string user_id)
            (allowlist py elapsed d user_id trigger_id ++ moderators))
          (command_authorized py elapsed d user_id trigger_id moderators) (say _)
          (λ e. command_authorized-Answers moderators) (λ e. say-Answers _)
    after_list-Answers (raised (Exception.moderator_client_error status body)) h =
        configuration_detail-Answers _ _
    after_list-Answers (raised e) h = record { at = λ calls. ground (arith, h) }

    request_mods-Answers :
        IsHttpx w
        → (client : Option ModeratorClient)
        → Answers w (request_mods py elapsed d user_id trigger_id client)
    unfolding request_mods
    request_mods-Answers httpx none = configuration_detail-Answers _ _
    request_mods-Answers httpx (some c) =
        Ensures->>= (attempt (list_moderators c)) _
          (Ensures-attempt _ (record { at = λ calls. list_moderators-Refuses c httpx calls }))
          after_list-Answers

  -- Every command that passes the signature is answered with a 200: with a message, or with the modal
  -- opened. No answer of Backend-Service or Slack, and no failure of httpx in its own way or by a
  -- `ValueError`, makes it fail.
  pub slack_commands-Answers :
      IsHttpx w → (body : List ℕ) → Answers w (slack_commands py elapsed d body)
  unfolding slack_commands
  slack_commands-Answers httpx body =
      Ensures-if (text_eq (form_field py body (text "command")) mods_command)
        (if is_nil (form_field py body (text "trigger_id"))
          then say _
          else request_mods py elapsed d (form_field py body (text "user_id"))
              (form_field py body (text "trigger_id")) d.moderator_client)
        (say _)
        (λ e.
          Ensures-if (is_nil (form_field py body (text "trigger_id"))) (say _)
            (request_mods py elapsed d (form_field py body (text "user_id"))
              (form_field py body (text "trigger_id")) d.moderator_client)
            (λ e'. say-Answers _) (λ e'. request_mods-Answers _ _ httpx d.moderator_client))
        (λ e. say-Answers _)
