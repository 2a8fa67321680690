-- ===== src/Callbacks.antt =====
-- Sample callbacks of Slack's, signed and not, and a theorem applied to each.
use mathlib.Core.Option.{none-ne-some}
use request_o_matic.Base.{
  ◌*◌, ◌≤◌, ◌≡◌, refl, ◌↔◌, true, Option, none, some, List, [], ◌∷◌, All, if◌then◌else◌,
}
use request_o_matic.Base.Int.{pos}
use request_o_matic.Commands.Answers.{Answers, slack_commands-Answers}
use request_o_matic.Commands.Calls.{
  is_roster_read, is_view_open, is_foreign, slack_commands-bounded,
}
use request_o_matic.Commands.Closed.{Denied, Unopened, slack_commands_closed}
use request_o_matic.Commands.Session.{IsCarried, decided, roster_session}
use request_o_matic.Commands.Slash.{Elapsed, post_command, slack_commands}
use request_o_matic.Commands.{texts, roster_modal, roster_context, modal, form_field}
use request_o_matic.Authorization.{
  resolve_authorized_users, is_authorized_slack_user_in, parse_authorized_users,
}
use request_o_matic.Exec.AtMost.{AtMost}
use request_o_matic.Exec.{Exception, ok, raised, World, ◌>>=◌}
use request_o_matic.Interactivity.Dispatch.{post_interactivity, slack_interactivity}
use request_o_matic.Interactivity.Once.{slack_interactivity-Writes}
use request_o_matic.Interactivity.Quiet.{is_write}
use request_o_matic.Interactivity.Save.{handle_moderator_view_submission, selected_users}
use request_o_matic.Interactivity.{
  Python, Deployment, dict_get, or_dict, field, moderator_block_id, moderator_action_id,
  nested_dict,
}
use request_o_matic.Json.{Json, Items, Members, string, array, obj, members, get, is_true}
use request_o_matic.Exec.Httpx.{IsHttpx}
use request_o_matic.Moderators.Roster.{IsUsable}
use request_o_matic.Moderators.{
  ModeratorClient, list_moderators, read_roster, extract_ids, row_ids, safe_json,
}
use request_o_matic.Signature.Gate.{IsTrusted, unsigned, unsigned_refused}
use request_o_matic.Signature.Window.{IsSigned, IsLatin, verify_slack_signature_iff, replay_bound}
use request_o_matic.Signature.{
  Hmac, verify_slack_signature, expected_signature, is_expected, int_of_text, skip_space,
  all_digits, more_digits, is_int_space, distance,
}
use request_o_matic.Text.Order.{has_text}
use request_o_matic.Text.Url.{utf8, utf8_char}
use request_o_matic.Text.{Text, text, text_eq, is_space}
use request_o_matic.UaGate.{digit_value}

abbrev hmac : Hmac
hmac key message = text "ab12"

IsLatin-hmac : IsLatin hmac
unfolding text
IsLatin-hmac key message = refl

abbrev secret : Option Text
secret = some (text "s")

abbrev timestamp : Option Text
timestamp = some (text "1700000000")

abbrev signature : Option Text
signature = some (text "v0=ab12")

verify_slack_signature_iff_example :
    (verify_slack_signature hmac secret timestamp [] signature (pos 1700000010) 300 ≡ true)
    ↔ IsSigned hmac secret timestamp [] signature (pos 1700000010) 300
verify_slack_signature_iff_example =
    verify_slack_signature_iff hmac secret timestamp [] signature (pos 1700000010) 300 IsLatin-hmac

verified_soon :
    verify_slack_signature hmac secret timestamp [] signature (pos 1700000010) 300 ≡ true
unfolding verify_slack_signature expected_signature is_expected int_of_text skip_space all_digits
    more_digits is_int_space digit_value text text_eq utf8 utf8_char is_space
verified_soon = refl

verified_late :
    verify_slack_signature hmac secret timestamp [] signature (pos 1700000299) 300 ≡ true
unfolding verify_slack_signature expected_signature is_expected int_of_text skip_space all_digits
    more_digits is_int_space digit_value text text_eq utf8 utf8_char is_space
verified_late = refl

replay_bound_example : distance (pos 1700000010) (pos 1700000299) ≤ 300 * 2
replay_bound_example =
    replay_bound hmac secret timestamp [] signature (pos 1700000010) (pos 1700000299) 300
      verified_soon verified_late

abbrev moderators : ModeratorClient
moderators = record { internal_key = text "k"; describe = λ e. text "down"; upper = λ s. s }

abbrev roster : List Text
roster = text "U1" ∷ text "U2" ∷ []

abbrev form : Text → Option Text
form name =
    if text_eq name (text "command")
    then some (text "/request-mods")
    else if text_eq name (text "user_id")
    then some (text "U1")
    else some (text "T1")

-- Its JSON carries the one context, of a roster that could not be pre-selected.
abbrev python : Python
python = record {
  loads = λ s. some (roster_context roster (some roster));
  dumps = λ v. text "{}";
  repr = λ v. text "value";
  form_value = λ body name. form name;
}

abbrev deployment : Deployment
deployment = record {
  slack = true;
  slack_ban_authorized_users = none;
  ban_client = none;
  moderator_client = some moderators;
}

abbrev elapsed : Elapsed
elapsed calls = 400000

abbrev down : World
down = record {
  http = λ calls c. raised Exception.connect_error;
  complete = λ calls c. ok none;
  deliver = λ calls c. ok tt;
}

IsHttpx-down : IsHttpx down
IsHttpx-down = record { http_raises = λ calls c. tt }

IsTrusted-none : ¬ IsTrusted hmac none timestamp signature (pos 1700000010) []
IsTrusted-none t = none-ne-some _ t.has_key

unsigned_refused_example :
    (post_interactivity python deployment hmac none timestamp signature (pos 1700000010) [] down []
      ≡ (raised unsigned, []))
    × (post_command python elapsed deployment [] hmac none timestamp signature
          (pos 1700000010)
          down
          []
        ≡ (raised unsigned, []))
unsigned_refused_example =
    unsigned_refused hmac none timestamp signature (pos 1700000010) [] python elapsed deployment
      down [] IsTrusted-none

slack_commands-Answers_example : Answers down (slack_commands python elapsed deployment [])
slack_commands-Answers_example = slack_commands-Answers python elapsed deployment IsHttpx-down []

slack_commands-bounded_example :
    AtMost is_roster_read 1 (slack_commands python elapsed deployment [])
    × AtMost is_view_open 2 (slack_commands python elapsed deployment [])
    × AtMost is_foreign 0 (slack_commands python elapsed deployment [])
slack_commands-bounded_example = slack_commands-bounded python elapsed deployment []

slack_interactivity-Writes_example : AtMost is_write 1 (slack_interactivity python deployment [])
slack_interactivity-Writes_example = slack_interactivity-Writes python deployment []

IsCarried-roster : IsCarried python (roster_context roster (some roster))
unfolding text
IsCarried-roster = record { is_text = refl; read_back = refl }

IsUsable-roster : All IsUsable roster
unfolding text
IsUsable-roster = (refl, (refl, tt))

abbrev retried : Json
retried = modal (text "{}") roster [] (some roster)

retried-fits : roster_modal python roster [] (some roster) ≡ some retried
unfolding roster_modal text
retried-fits = refl

-- What Slack sends when U1 saves the modal with U2 picked.
abbrev picked : List Text
picked = text "U2" ∷ []

abbrev saved_state : Json
saved_state = obj (
    (
      text "values",
      obj (
          (
            moderator_block_id,
            obj ((moderator_action_id, obj ((text "selected_users", texts picked) ∷ [])) ∷ []),
          )
          ∷ []),
    )
    ∷ [])

abbrev saved : Members
saved = members (
    (text "user", obj ((text "id", string (text "U1")) ∷ []))
    ∷ (
      text "view",
      obj ((text "private_metadata", string (text "{}")) ∷ (text "state", saved_state) ∷ []),
    )
    ∷ [])

saved-view :
    dict_get (text "private_metadata") (or_dict (field (text "view") saved))
    ≡ dict_get (text "private_metadata") retried
unfolding get is_true text text_eq
saved-view = refl

saved-user : dict_get (text "id") (or_dict (field (text "user") saved)) ≡ ok (string (text "U1"))
unfolding get is_true text text_eq
saved-user = refl

saved-selection : selected_users python deployment saved ≡ texts picked
unfolding nested_dict get is_true text text_eq
saved-selection = refl

picked-IsUsable : All IsUsable picked
unfolding text
picked-IsUsable = (refl, tt)

roster_session_example : handle_moderator_view_submission python deployment saved ≡ (
    resolve_authorized_users (some moderators) none
    >>= decided python roster []
        (some roster)
        IsCarried-roster
        IsUsable-roster
        deployment
        saved
        moderators
        (text "U1")
        picked)
roster_session_example =
    roster_session python roster [] (some roster) IsCarried-roster IsUsable-roster deployment saved
      moderators (text "U1") picked retried retried-fits saved-view saved-selection picked-IsUsable
      saved-user refl

-- A roster that does not name U1, whose command it is.
abbrev reply : Members
reply = members (
    (
      text "items",
      array (Items.item (obj ((text "slack_user_id", string (text "U2")) ∷ [])) Items.nil),
    )
    ∷ [])

abbrev up : World
up = record {
  http = λ calls c. ok (record {
    status = 200;
    json = some (Json.object reply);
    body_text = [];
    server_timing = none;
  });
  complete = λ calls c. ok none;
  deliver = λ calls c. ok tt;
}

Denied-U1 :
    Denied up [] python elapsed deployment
      (form_field python [] (text "user_id"))
      (form_field python [] (text "trigger_id"))
      (some moderators)
unfolding list_moderators read_roster safe_json extract_ids row_ids is_authorized_slack_user_in
    parse_authorized_users has_text get text text_eq
Denied-U1 = refl

slack_commands_closed_example :
    Unopened up [] python elapsed deployment
      (form_field python [] (text "user_id"))
      (form_field python [] (text "trigger_id"))
      (slack_commands python elapsed deployment [])
      []
slack_commands_closed_example = slack_commands_closed up [] python elapsed deployment [] Denied-U1
