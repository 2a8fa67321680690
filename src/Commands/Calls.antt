-- ===== src/Commands/Calls.antt =====
-- routers/slack_commands.py: how often a command calls Backend-Service and Slack, and for whom.
use request_o_matic.Authorization.{is_authorized_slack_user_in}
use request_o_matic.Base.{
  ℕ, ◌+◌, ◌-◌, ◌≡◌, refl, Bool, true, false, Option, none, some, List, [], ◌∷◌, ◌++◌, arith, is_nil,
  ltb, if◌then◌else◌,
}
use request_o_matic.Commands.Slash.{
  configuration_detail, after_retry, retry_after, if_rejected, open_with, no_time, too_many,
  open_without, view_or_raise, retry_open, after_open, offer_roster, allowlist, command_authorized,
  after_list, request_mods, slack_commands, say, could_not_open, Elapsed, read_clock,
}
use request_o_matic.Commands.{
  opened, ephemeral, roster_modal, slack_message, is_initial_users_rejection, form_field,
  mods_command, slack_view_open_budget, slash_command_budget,
}
use request_o_matic.Exec.AtMost.{
  AtMost, AtMost->>=, AtMost-attempt, AtMost-if, AtMost-pure, AtMost-weaken,
}
use request_o_matic.Exec.{Result, ok, raised, Call, pure}
use request_o_matic.Interactivity.{Python, Deployment}
use request_o_matic.Json.{Json, string, obj}
use request_o_matic.Moderators.{ModeratorClient, list_moderators, headers}
use request_o_matic.Slack.Calls.{call_api-AtMost_any}
use request_o_matic.Slack.Service.{open_view}
use request_o_matic.Text.{Text, text, text_eq}

abbrev pub is_view_open : Call → Bool
is_view_open (Call.slack_api method payload) = text_eq (text "views.open") method
is_view_open c = false

abbrev pub is_roster_read : Call → Bool
is_roster_read (Call.roster_get headers) = true
is_roster_read c = false

-- All else: no ban, no change of the roster, no other method of Slack's.
abbrev pub is_foreign : Call → Bool
is_foreign (Call.slack_api method payload) =
    if text_eq (text "views.open") method then false else true
is_foreign (Call.roster_get headers) = false
is_foreign c = true

-- One bound for any kind of call: `v` for each `views.open`, and `r` for the read of the roster.
module _ (p : Call → Bool) (v r : ℕ)
    (opens : (trigger_id : Text) (view : Json) → AtMost p v (open_view trigger_id view))
    (reads : (c : ModeratorClient) → AtMost p r (list_moderators c)) where
  after_retry-AtMost : (o : Result (Unit {0})) → AtMost p 0 (after_retry o)
  after_retry-AtMost (ok done) = AtMost-pure opened
  after_retry-AtMost (raised e) = AtMost-pure (ephemeral could_not_open)

  say-AtMost : (n : ℕ) (message : Text) → AtMost p n (say message)
  say-AtMost n message = record { at = λ w calls. omega arith }

  module _ (py : Python) (elapsed : Elapsed) (break_glass : List Text) (trigger_id : Text)
      (moderators : List Text) where
    view_or_raise-AtMost :
        (o : Option Json)
        → AtMost p v (view_or_raise py elapsed break_glass trigger_id moderators o)
    view_or_raise-AtMost none = record { at = λ w calls. omega arith }
    view_or_raise-AtMost (some view) = opens trigger_id view

    retry_after-AtMost :
        (used : ℕ) → AtMost p v (retry_after py elapsed break_glass trigger_id moderators used)
    unfolding retry_after open_without
    retry_after-AtMost used =
        AtMost-if (ltb (slash_command_budget - used) slack_view_open_budget) (say no_time) _
          (say-AtMost v no_time)
          (AtMost-weaken (v + 0) v _
            (AtMost->>= v 0 _ _ (AtMost-attempt _ (view_or_raise-AtMost _)) after_retry-AtMost)
            (omega arith))

    retry_open-AtMost : AtMost p v (retry_open py elapsed break_glass trigger_id moderators)
    unfolding retry_open
    retry_open-AtMost =
        AtMost-weaken (0 + v) v _
          (AtMost->>= 0 v (read_clock elapsed)
            (retry_after py elapsed break_glass trigger_id moderators)
            (record { at = λ w calls. omega arith }) retry_after-AtMost)
          (omega arith)

    after_open-AtMost :
        (o : Result (Unit {0}))
        → AtMost p v (after_open py elapsed break_glass trigger_id moderators o)
    unfolding after_open
    after_open-AtMost (ok done) = record { at = λ w calls. omega arith }
    after_open-AtMost (raised e) = rejected (slack_message py e)
      where
        rejected :
            (o : Option Text)
            → AtMost p v (if_rejected py elapsed break_glass trigger_id moderators o)
        rejected none = say-AtMost v could_not_open
        rejected (some message) =
            AtMost-if (is_initial_users_rejection message) _ (say could_not_open) retry_open-AtMost
              (say-AtMost v could_not_open)

    open_with-AtMost :
        (o : Option Json)
        → AtMost p (v + v) (open_with py elapsed break_glass trigger_id moderators o)
    open_with-AtMost none = say-AtMost (v + v) too_many
    open_with-AtMost (some view) =
        AtMost->>= v v _ (after_open py elapsed break_glass trigger_id moderators)
          (AtMost-attempt _ (opens trigger_id view)) after_open-AtMost

  module _ (py : Python) (elapsed : Elapsed) (d : Deployment) where
    module _ (user_id trigger_id : Text) where
      configuration_detail-AtMost :
          (n : ℕ) (users : List Text) (message : Text)
          → AtMost p n (configuration_detail user_id users message)
      unfolding configuration_detail
      configuration_detail-AtMost n users message = say-AtMost n _

      after_list-AtMost :
          (o : Result (List Text)) → AtMost p (v + v) (after_list py elapsed d user_id trigger_id o)
      unfolding after_list command_authorized offer_roster
      after_list-AtMost (ok moderators) =
          let users = allowlist py elapsed d user_id trigger_id in
          AtMost-if (is_authorized_slack_user_in (string user_id) (users ++ moderators))
            (command_authorized py elapsed d user_id trigger_id moderators) (say _)
            (AtMost-if d.slack
              (open_with py elapsed users trigger_id moderators
                (roster_modal py moderators users none))
              (say _) (open_with-AtMost py elapsed users trigger_id moderators _) (say-AtMost _ _))
            (say-AtMost (v + v) _)
      after_list-AtMost (raised e) = record { at = λ w calls. ground arith }

      request_mods-AtMost :
          (client : Option ModeratorClient)
          → AtMost p (r + (v + v)) (request_mods py elapsed d user_id trigger_id client)
      unfolding request_mods
      request_mods-AtMost none = configuration_detail-AtMost _ _ _
      request_mods-AtMost (some c) =
          AtMost->>= r (v + v) _ (after_list py elapsed d user_id trigger_id)
            (AtMost-attempt _ (reads c)) after_list-AtMost

    slack_commands-AtMost :
        (body : List ℕ) → AtMost p (r + (v + v)) (slack_commands py elapsed d body)
    unfolding slack_commands
    slack_commands-AtMost body =
        AtMost-if (text_eq (form_field py body (text "command")) mods_command)
          (if is_nil (form_field py body (text "trigger_id"))
            then say _
            else request_mods py elapsed d (form_field py body (text "user_id"))
                (form_field py body (text "trigger_id")) d.moderator_client)
          (say _)
          (AtMost-if (is_nil (form_field py body (text "trigger_id"))) (say _)
            (request_mods py elapsed d (form_field py body (text "user_id"))
              (form_field py body (text "trigger_id")) d.moderator_client)
            (say-AtMost _ _) (request_mods-AtMost _ _ d.moderator_client))
          (say-AtMost _ _)

module _ (p : Call → Bool) where
  open_view-AtMost :
      (trigger_id : Text) (view : Json)
      → p (
          Call.slack_api
            (text "views.open")
            (obj ((text "trigger_id", string trigger_id) ∷ (text "view", view) ∷ [])))
        ≡ false
      → AtMost p 0 (open_view trigger_id view)
  unfolding open_view
  open_view-AtMost trigger_id view h =
      AtMost-weaken _ 0 _
        (AtMost->>= _ 0 _ (λ body. pure tt) (call_api-AtMost_any p (text "views.open") _ none)
          (λ body. AtMost-pure tt))
        (ground (arith, h))

  open_view-AtMost_one : (trigger_id : Text) (view : Json) → AtMost p 1 (open_view trigger_id view)
  unfolding open_view
  open_view-AtMost_one trigger_id view =
      AtMost-weaken _ 1 _
        (AtMost->>= _ 0 _ (λ body. pure tt) (call_api-AtMost_any p (text "views.open") _ none)
          (λ body. AtMost-pure tt))
        (ground arith)

  list_moderators-AtMost :
      (c : ModeratorClient)
      → AtMost p (if p (Call.roster_get (headers c)) then 1 else 0) (list_moderators c)
  unfolding list_moderators
  list_moderators-AtMost c = record { at = λ w calls. ground arith }

-- A command reads the roster at most once, calls `views.open` at most twice, and makes no other call:
-- it bans nobody, changes no roster and posts no message.
pub slack_commands-bounded :
    (py : Python) (elapsed : Elapsed) (d : Deployment) (body : List ℕ)
    → AtMost is_roster_read 1 (slack_commands py elapsed d body)
      × AtMost is_view_open 2 (slack_commands py elapsed d body)
      × AtMost is_foreign 0 (slack_commands py elapsed d body)
unfolding text text_eq
slack_commands-bounded py elapsed d body = (
  slack_commands-AtMost is_roster_read 0 1 (λ t v. open_view-AtMost is_roster_read t v refl)
      (list_moderators-AtMost is_roster_read) py elapsed d body,
  slack_commands-AtMost is_view_open 1 0 (open_view-AtMost_one is_view_open)
      (list_moderators-AtMost is_view_open) py elapsed d body,
  slack_commands-AtMost is_foreign 0 0 (λ t v. open_view-AtMost is_foreign t v refl)
      (list_moderators-AtMost is_foreign) py elapsed d body,
)
