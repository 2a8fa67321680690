-- ===== src/Examples.antt =====
-- Sample rosters, operators and callbacks, and a theorem applied to each.
use request_o_matic.Authorization.Closed.{
  is_authorized_slack_user_iff, resolve_fails_closed, IsResolved, entries_of,
}
use request_o_matic.Authorization.{
  is_authorized_slack_user_in, parse_authorized_users, given_entries, after_roster,
  resolve_authorized_users, is_authorized_slack_user,
}
use request_o_matic.BanAdmin.Guard.{routes_guarded, Reaches}
use request_o_matic.BanAdmin.Routes.{create_ban, delete_ban, get_bans}
use request_o_matic.BanAdmin.{BanAdminClient, headers, ban_payload, limit_param, cursor_param}
use request_o_matic.Base.{
  ◌≡◌, ◌↔◌, subst, refl, ◌&&◌, true, false, Option, none, some, List, [], ◌∷◌, ◌++◌, map, all,
  arith,
}
use request_o_matic.Exec.{Result, Response, Exception, Call, ok, raised, World}
use request_o_matic.Exec.Ensures.{Outcome}
use request_o_matic.BanAdmin.Told.{Tells, routes-IsTold}
use request_o_matic.Interactivity.Ban.{Submission, ban_for, is_acceptable, length_of}
use request_o_matic.Interactivity.Settled.{IsSlackApi, Acknowledges, ban_for-Acknowledges}
use request_o_matic.Interactivity.Closed.{interact_closed, Unchanged, Denied, sender}
use request_o_matic.Interactivity.Dispatch.{interact}
use request_o_matic.Interactivity.Landed.{save-Answers, Answers}
use request_o_matic.Interactivity.Save.{handle_moderator_view_submission}
use request_o_matic.Interactivity.{Python, Deployment, text_field, dict_get, or_dict, field}
use request_o_matic.Json.{
  boolean, object, Items, array, Members, string, obj, members, get, is_true, null,
}
use request_o_matic.Exec.Httpx.{IsHttpx, IsNetwork}
use request_o_matic.Moderators.Funnel.{Refuses, roster_calls_funnel}
use request_o_matic.Moderators.Envelope.{IsRoster, extract_ids_iff}
use request_o_matic.Moderators.Roster.{
  normalize_outcome, normalize_canonical, extract_ids_outcome, BoundedOutcome, is_usable,
}
use request_o_matic.Moderators.{
  is_unreachable, read_roster, ModeratorClient, normalize_slack_user_ids, extract_ids, row_ids,
  client_error, list_moderators, replace_moderators,
}
use request_o_matic.Slack.{ban_button_action_id}
use request_o_matic.BanCheck.{is_network_error}
use request_o_matic.Text.Ascending.{SameMembers}
use request_o_matic.Text.Order.{IsAscending, has_text}
use request_o_matic.Text.{Text, text, strip, is_given, split, lstrip, rstrip, text_eq, is_space}
use request_o_matic.Text.Url.{quote}

abbrev same : Text → Text
same s = s

abbrev ids : List Text
ids = text "U2" ∷ text "U1" ∷ text "U2" ∷ []

abbrev other_ids : List Text
other_ids = text "U1" ∷ text "U2" ∷ []

abbrev down : World
down = record {
  http = λ calls c. raised Exception.connect_error;
  complete = λ calls c. ok none;
  deliver = λ calls c. ok tt;
}

abbrev moderators : ModeratorClient
moderators = record { internal_key = text "k"; describe = λ e. text "down"; upper = same }

abbrev bans : BanAdminClient
bans = record { internal_key = text "k"; describe = λ e. text "down" }

abbrev csv : Option Text
csv = some (text "U1, U2")

abbrev python : Python
python = record {
  loads = λ s. some (obj []);
  dumps = λ v. text "{}";
  repr = λ v. text "value";
  form_value = λ body name. none;
}

abbrev deployment : Deployment
deployment = record {
  slack = true;
  slack_ban_authorized_users = csv;
  ban_client = some bans;
  moderator_client = some moderators;
}

-- A click on the ban button by U9, and a save of the roster by U1.
abbrev click : Members
click = members (
    (text "type", string (text "block_actions"))
    ∷ (text "user", obj ((text "id", string (text "U9")) ∷ []))
    ∷ (
      text "actions",
      array (Items.item (obj ((text "action_id", string ban_button_action_id) ∷ [])) Items.nil),
    )
    ∷ [])

abbrev save : Members
save = members (
    (text "user", obj ((text "id", string (text "U1")) ∷ []))
    ∷ (text "view", obj ((text "private_metadata", string (text "{}")) ∷ []))
    ∷ [])

normalize_outcome_example :
    Outcome
      (λ e. (e ≡ client_error 0 (text "malformed_user_ids")) × (all is_usable ids ≡ false))
      (λ roster.
        IsAscending roster × SameMembers roster (map same ids) × (all is_usable ids ≡ true))
      (normalize_slack_user_ids same ids)
normalize_outcome_example = normalize_outcome same ids

extract_ids_outcome_example : BoundedOutcome (extract_ids (obj ((text "items", null) ∷ [])))
extract_ids_outcome_example = extract_ids_outcome (obj ((text "items", null) ∷ []))

-- Two rows, of which the second has a field of its own before the member.
abbrev listed : Items
listed = Items.item (obj ((text "slack_user_id", string (text "U1")) ∷ [])) (
    Items.item (obj ((text "added_by", null) ∷ (text "slack_user_id", string (text "U2")) ∷ []))
      Items.nil)

extract_ids_iff_example :
    (extract_ids (obj ((text "items", array listed) ∷ [])) ≡ ok other_ids)
    ↔ IsRoster (obj ((text "items", array listed) ∷ [])) other_ids
extract_ids_iff_example = extract_ids_iff (obj ((text "items", array listed) ∷ [])) other_ids

read_listed : extract_ids (obj ((text "items", array listed) ∷ [])) ≡ ok other_ids
unfolding extract_ids row_ids get text text_eq
read_listed = refl

ids-usable : all is_usable ids ≡ true
unfolding text
ids-usable = refl

other_ids-usable : all is_usable other_ids ≡ true
unfolding text
other_ids-usable = refl

same_people : SameMembers (map same ids) (map same other_ids)
unfolding has_text
same_people w = ground arith

normalize_canonical_example :
    normalize_slack_user_ids same ids ≡ normalize_slack_user_ids same other_ids
normalize_canonical_example =
    normalize_canonical same ids other_ids ids-usable other_ids-usable same_people

is_authorized_slack_user_iff_example :
    is_authorized_slack_user (string (text "U2")) csv
    ≡ (is_given (some (text "U2")) && has_text (text "U2") (map strip (entries_of csv)))
is_authorized_slack_user_iff_example = is_authorized_slack_user_iff (text "U2") csv

IsHttpx-down : IsHttpx down
IsHttpx-down = record { http_raises = λ calls c. tt }

-- A world in which the URL of every service is malformed.
abbrev malformed : World
malformed = record down { http = λ calls c. raised Exception.invalid_url }

IsHttpx-malformed : IsHttpx malformed
IsHttpx-malformed = record { http_raises = λ calls c. tt }

roster_calls_funnel_example :
    Refuses (list_moderators moderators malformed []).0
    × Refuses (replace_moderators moderators ids other_ids none malformed []).0
roster_calls_funnel_example = roster_calls_funnel moderators IsHttpx-malformed [] ids other_ids none

resolve_fails_closed_example :
    Outcome
      (λ e. ⊥)
      (IsResolved down [] (some moderators) csv)
      (resolve_authorized_users (some moderators) csv down []).0
resolve_fails_closed_example = resolve_fails_closed IsHttpx-down [] (some moderators) csv

routes_guarded_example :
    Reaches
      (some (text "t"))
      (some (text "Bearer t"))
      (some bans)
      down
      []
      (create_ban
        (some (text "t"))
        (some (text "Bearer t"))
        (some bans)
        (text "f")
        (text "spam")
        none)
      (λ c. Call.ban_post (headers c) (ban_payload c (text "f") (string (text "spam")) none none))
    × Reaches
        (some (text "t"))
        (some (text "Bearer t"))
        (some bans)
        down
        []
        (delete_ban (some (text "t")) (some (text "Bearer t")) (some bans) (text "f"))
        (λ c. Call.ban_delete (headers c) (quote (text "f")))
    × Reaches
        (some (text "t"))
        (some (text "Bearer t"))
        (some bans)
        down
        []
        (get_bans (some (text "t")) (some (text "Bearer t")) (some bans) (some 5) none)
        (λ c. Call.ban_list (headers c) (limit_param c (some 5) ++ cursor_param c none))
routes_guarded_example =
    routes_guarded (some (text "t")) (some (text "Bearer t")) (some bans) down [] (text "f")
      (text "spam") none (some 5) none

click-Denied : Denied down [] python deployment click (sender click)
unfolding resolve_authorized_users list_moderators read_roster is_unreachable is_network_error
    after_roster is_authorized_slack_user_in parse_authorized_users given_entries has_text split
    strip lstrip rstrip is_space text text_eq text_field get
click-Denied = refl

interact_closed_example :
    Unchanged down [] python deployment click (interact python deployment click)
interact_closed_example = interact_closed down [] python deployment click click-Denied

save_modal :
    dict_get (text "private_metadata") (or_dict (field (text "view") save))
    ≡ ok (string (text "{}"))
unfolding get text text_eq is_true
save_modal = refl

save_user : dict_get (text "id") (or_dict (field (text "user") save)) ≡ ok (string (text "U1"))
unfolding get text text_eq is_true
save_user = refl

save-Answers_example : Answers down (handle_moderator_view_submission python deployment save)
save-Answers_example =
    save-Answers IsHttpx-down python deployment save (string (text "{}")) save_modal
      (string (text "U1")) save_user

-- Every service answers 200 with `{"ok": true}`.
abbrev up : World
up = record {
  http = λ calls c. ok (record {
    status = 200;
    json = some (obj ((text "ok", boolean true) ∷ []));
    body_text = [];
    server_timing = none;
  });
  complete = λ calls c. ok none;
  deliver = λ calls c. ok tt;
}

IsNetwork-up : IsNetwork up
IsNetwork-up = record { http_raises = λ calls c. tt }

abbrev CarriesObject : Result Response → Type 0
CarriesObject (ok r) = (body : Members) × (r.json ≡ some (object body))
CarriesObject (raised e) = Unit

IsSlackApi-up : IsSlackApi up
IsSlackApi-up = record {
  slack_answers = λ calls method payload r e success.
      subst CarriesObject e (members ((text "ok", boolean true) ∷ []), refl);
}

routes-IsTold_example :
    Tells IsHttpx-down (some (text "t")) (some (text "Bearer t")) (some bans) (
      create_ban
        (some (text "t"))
        (some (text "Bearer t"))
        (some bans)
        (text "f")
        (text "spam")
        none)
    × Tells IsHttpx-down
        (some (text "t"))
        (some (text "Bearer t"))
        (some bans)
        (delete_ban (some (text "t")) (some (text "Bearer t")) (some bans) (text "f"))
    × Tells IsHttpx-down
        (some (text "t"))
        (some (text "Bearer t"))
        (some bans)
        (get_bans (some (text "t")) (some (text "Bearer t")) (some bans) (some 5) none)
routes-IsTold_example =
    routes-IsTold IsHttpx-down (some (text "t")) (some (text "Bearer t")) (some bans) (text "f")
      (text "spam") none (some 5) none

abbrev submission : Submission
submission = record {
  user_id = text "U1";
  fingerprint = some (text "f");
  channel = string (text "C1");
  message_ts = string (text "1.2");
  original_blocks = null;
}

spam_is_acceptable : is_acceptable (string (text "spam")) ≡ ok true
unfolding is_acceptable length_of text
spam_is_acceptable = refl

ban_for-Acknowledges_example :
    Acknowledges IsNetwork-up IsSlackApi-up python deployment
      (obj [])
      submission
      (ban_for python deployment (obj []) submission bans (text "f") (string (text "spam")))
ban_for-Acknowledges_example =
    ban_for-Acknowledges IsNetwork-up IsSlackApi-up python deployment (obj []) submission bans
      (text "f") (string (text "spam")) spam_is_acceptable
