-- ===== src/Interactivity/OneSave.antt =====
-- routers/slack_interactivity.py: how often a save changes the roster.
use request_o_matic.Authorization.{
  AuthorizedUsers, resolve_authorized_users, is_authorized_slack_user_in,
}
use request_o_matic.Base.{Option, none, some, List, arith, if◌then◌else◌, ◌&&◌, is_nil}
use request_o_matic.Exec.AtMost.{AtMost-attempt, AtMost-if, AtMost-pure}
use request_o_matic.Exec.{Exec, Result, ok, raised, ◌>>=◌, lift, attempt}
use request_o_matic.Interactivity.Save.{
  handle_moderator_view_submission, save_as, save_authorized, save_with, save_selected,
  save_expected, after_save, user_ids, member_of, loads_context, selected_users, roster_error,
  stale_form, opened_empty, cannot_reach_roster, is_the_true,
}
use request_o_matic.Interactivity.{
  Python, Deployment, Reply, acknowledged, field, dict_get, or_dict, as_text,
}
use request_o_matic.Json.{Json, Members, string}
use request_o_matic.Moderators.{
  ModeratorClient, replace_moderators, put_roster, normalize_slack_user_ids,
}
use request_o_matic.Text.{Text, text}
use request_o_matic.Interactivity.Quiet.{
  Writes, after_quiet, then_quiet, lifted, quiet, resolve-Writes,
}

replace_moderators-Writes :
    (c : ModeratorClient) (wanted expected : List Text) (actor : Option Text)
    → Writes 1 (replace_moderators c wanted expected actor)
unfolding replace_moderators put_roster
replace_moderators-Writes c wanted expected actor =
    lifted 1 (normalize_slack_user_ids c.upper wanted)
      (λ us. lift (normalize_slack_user_ids c.upper expected) >>= λ vs. put_roster c us vs actor)
      (λ us.
        lifted 1 (normalize_slack_user_ids c.upper expected) (λ vs. put_roster c us vs actor)
          (λ vs. record { at = λ w calls. omega arith }))

after_save-Writes : (r : Result (List Text)) → Writes 0 (after_save r)
unfolding after_save
after_save-Writes (ok saved) = AtMost-pure acknowledged
after_save-Writes (raised e) = record { at = λ w calls. ground arith }

module _ (py : Python) (d : Deployment) (payload : Members) where
  save_expected-Writes :
      (c : ModeratorClient) (user_id : Text) (selected : List Text) (context : Json)
      → Writes 1 (save_expected py d payload c user_id selected context)
  unfolding save_expected
  save_expected-Writes c user_id selected context =
      elim (user_ids (member_of (text "moderators") context))
        as (λ o. Writes 1 (elim o as (λ x. Exec Reply) [
          | none ↦ roster_error stale_form
          | some expected ↦
              if is_nil selected && is_the_true (member_of (text "initial_users_dropped") context)
              then roster_error opened_empty
              else (attempt (replace_moderators c selected expected (some user_id)) >>= after_save)
        ])) [
          | none ↦ quiet 1 _
          | some expected ↦
              AtMost-if
                (is_nil selected && is_the_true (member_of (text "initial_users_dropped") context))
                (roster_error opened_empty)
                (attempt (replace_moderators c selected expected (some user_id)) >>= after_save)
                (quiet 1 _)
                (then_quiet 1 _ after_save
                  (AtMost-attempt _ (replace_moderators-Writes c selected expected (some user_id)))
                  after_save-Writes)
        ]

  save_selected-Writes :
      (c : ModeratorClient) (user_id : Text) (selected : List Text)
      → Writes 1 (save_selected py d payload c user_id selected)
  unfolding save_selected
  save_selected-Writes c user_id selected =
      lifted 1 (dict_get (text "private_metadata") (or_dict (field (text "view") payload)))
        (λ stored. opening (loads_context py stored))
        (λ stored. opening-Writes (loads_context py stored))
    where
      opening : Option Json → Exec Reply
      opening o = elim o [
        | none ↦ roster_error stale_form
        | some context ↦ save_expected py d payload c user_id selected context
      ]

      opening-Writes :
          (o : Option Json)
          → Writes 1 (elim o as (λ x. Exec Reply) [
            | none ↦ roster_error stale_form
            | some context ↦ save_expected py d payload c user_id selected context
          ])
      opening-Writes none = quiet 1 _
      opening-Writes (some context) = save_expected-Writes c user_id selected context

  save_with-Writes :
      (user_id : Text) (client : Option ModeratorClient)
      → Writes 1 (save_with py d payload user_id client)
  unfolding save_with
  save_with-Writes user_id none = quiet 1 _
  save_with-Writes user_id (some c) =
      elim (user_ids (selected_users py d payload))
        as (λ o. Writes 1 (elim o as (λ x. Exec Reply) [
          | none ↦
              roster_error (text "Could not read the selected users. Close this and try again.")
          | some selected ↦ save_selected py d payload c user_id selected
        ])) [ none ↦ quiet 1 _ | some selected ↦ save_selected-Writes c user_id selected ]

  save_authorized-Writes :
      (user_id : Text) (a : AuthorizedUsers) → Writes 1 (save_authorized py d payload user_id a)
  unfolding save_authorized
  save_authorized-Writes user_id a =
      AtMost-if (is_authorized_slack_user_in (string user_id) a.users)
        (save_with py d payload user_id d.moderator_client) _
        (save_with-Writes user_id d.moderator_client)
        (AtMost-if a.degraded (roster_error cannot_reach_roster) _ (quiet 1 _) (quiet 1 _))

  save_as-Writes : (id : Option Text) → Writes 1 (save_as py d payload id)
  unfolding save_as
  save_as-Writes none = quiet 1 _
  save_as-Writes (some user_id) =
      after_quiet 1 (resolve_authorized_users d.moderator_client d.slack_ban_authorized_users)
        (save_authorized py d payload user_id) (resolve-Writes _ _) (save_authorized-Writes user_id)

  pub handle_moderator-Writes : Writes 1 (handle_moderator_view_submission py d payload)
  unfolding handle_moderator_view_submission
  handle_moderator-Writes =
      lifted 1 (dict_get (text "id") (or_dict (field (text "user") payload)))
        (λ id. save_as py d payload (as_text id)) (λ id. save_as-Writes (as_text id))
