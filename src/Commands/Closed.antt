-- ===== src/Commands/Closed.antt =====
-- routers/slack_commands.py: a command of someone who is not authorized opens nothing.
use request_o_matic.Authorization.{is_authorized_slack_user_in}
use request_o_matic.Base.{
  ℕ, ◌≤◌, ◌≡◌, Bool, true, false, Option, none, some, List, ◌∷◌, ◌++◌, arith, is_nil, if◌then◌else◌,
}
use request_o_matic.Commands.Calls.{is_view_open}
use request_o_matic.Commands.Slash.{
  Elapsed, after_list, allowlist, configuration_detail, request_mods, slack_commands,
}
use request_o_matic.Commands.{CommandReply, ephemeral, opened, form_field, mods_command}
use request_o_matic.Exec.{Call, Exec, World, Result, ok, raised}
use request_o_matic.Exec.AtMost.{count}
use request_o_matic.Exec.Ensures.{Outcome, Anything}
use request_o_matic.Interactivity.{Python, Deployment}
use request_o_matic.Json.{string}
use request_o_matic.Moderators.{ModeratorClient, list_moderators, read_roster, headers}
use request_o_matic.Text.{Text, text, text_eq}

abbrev pub IsMessage : CommandReply → Type 0
IsMessage (ephemeral message) = Unit {0}
IsMessage opened = ⊥

module _ (w : World) (calls : List Call) (py : Python) (elapsed : Elapsed) (d : Deployment)
    (user_id trigger_id : Text) where
  -- The allowlist does not name the user, and the roster does not either, if it could be read.
  abbrev pub IsUnnamed : Result (List Text) → Type 0
  IsUnnamed r =
      Outcome Anything
        (λ moderators.
          is_authorized_slack_user_in (string user_id)
            (allowlist py elapsed d user_id trigger_id ++ moderators)
          ≡ false)
        r

  -- Without the client there is no roster to show.
  abbrev pub Denied : Option ModeratorClient → Type 0
  Denied none = Unit {0}
  Denied (some c) = IsUnnamed (list_moderators c w calls).0

  -- No call of `views.open`, and no answer but a message.
  abbrev pub Unopened : Exec CommandReply → List Call → Type 0
  Unopened m before =
      (count is_view_open (m w before).1 ≤ count is_view_open calls)
      × Outcome Anything IsMessage (m w before).0

  after_list-Unopened :
      (r : Result (List Text)) (before : List Call)
      → count is_view_open before ≤ count is_view_open calls
      → IsUnnamed r
      → Unopened (after_list py elapsed d user_id trigger_id r) before
  unfolding after_list configuration_detail
  after_list-Unopened (ok moderators) before h unnamed = rw unnamed (h, tt)
  after_list-Unopened (raised e) before h unnamed = (ground (arith, h), ground arith)

  request_mods-Unopened :
      (client : Option ModeratorClient)
      → Denied client
      → Unopened (request_mods py elapsed d user_id trigger_id client) calls
  unfolding request_mods configuration_detail list_moderators
  request_mods-Unopened none h = (omega arith, tt)
  request_mods-Unopened (some c) h =
      after_list-Unopened (read_roster c (w.http calls (Call.roster_get (headers c))))
        (Call.roster_get (headers c) ∷ calls) (omega arith) h

-- A command of someone whom neither the allowlist nor the roster names, if the roster can be read, and
-- any command where it cannot, makes no call of `views.open`, and what it is answered with, if anything,
-- is a message: whatever the command, its fields, the deployment and the services are.
pub slack_commands_closed :
    (w : World) (calls : List Call) (py : Python) (elapsed : Elapsed) (d : Deployment)
    (body : List ℕ)
    → Denied w calls py elapsed d
        (form_field py body (text "user_id"))
        (form_field py body (text "trigger_id"))
        d.moderator_client
    → Unopened w calls py elapsed d
        (form_field py body (text "user_id"))
        (form_field py body (text "trigger_id"))
        (slack_commands py elapsed d body)
        calls
unfolding slack_commands
slack_commands_closed w calls py elapsed d body h =
    let user_id = form_field py body (text "user_id") in
    let trigger_id = form_field py body (text "trigger_id") in
    opens_if user_id trigger_id (text_eq (form_field py body (text "command")) mods_command) _ _
      (opens_if user_id trigger_id (is_nil trigger_id) _ _ (omega arith, tt)
        (request_mods-Unopened w calls py elapsed d user_id trigger_id d.moderator_client h))
      (omega arith, tt)
  where
    opens_if :
        (u t : Text) (b : Bool) (m k : Exec CommandReply)
        → Unopened w calls py elapsed d u t m calls
        → Unopened w calls py elapsed d u t k calls
        → Unopened w calls py elapsed d u t (if b then m else k) calls
    opens_if u t true m k h h' = h
    opens_if u t false m k h h' = h'
