-- ===== src/Interactivity/Landed.antt =====
-- routers/slack_interactivity.py: what a moderator is told of a ban, and of a roster that is saved.
use request_o_matic.Base.{
  ◌≡◌, Option, none, some, List, arith, Option-cases, inl, inr, is_nil, ◌&&◌,
}
use request_o_matic.Exec.{Exec, World, Result, ok, raised, pure, lift}
use request_o_matic.Exec.Ensures.{
  Ensures, Outcome, Anything, Ensures->>=, Ensures-pure, Ensures-if, Ensures-lift, Ensures-attempt,
}
use request_o_matic.Interactivity.{
  Python, Deployment, Reply, acknowledged, errors, moderator_block_id, dict_get, or_dict, field,
  as_text,
}
use request_o_matic.Interactivity.Save.{
  is_the_true, opened_empty, cannot_reach_roster, roster_error, stale_form,
  handle_moderator_view_submission, user_ids, member_of, loads_context, selected_users, after_save,
  save_expected, save_selected, save_with, save_authorized, save_as,
}
use request_o_matic.Authorization.{
  is_authorized_slack_user_in, AuthorizedUsers, resolve_authorized_users,
}
use request_o_matic.Authorization.Closed.{resolve_fails_closed}
use request_o_matic.Json.{Json, Members, string}
use request_o_matic.Moderators.{ModeratorClient, replace_moderators}
use request_o_matic.Moderators.Roster.{IsClientError}
use request_o_matic.Exec.Httpx.{IsHttpx}
use request_o_matic.Moderators.Funnel.{roster_calls_funnel}
use request_o_matic.Text.{Text, text}

after_save-total :
    {w : World} (r : Result (List Text))
    → Outcome IsClientError Anything r
    → Ensures w (λ e. ⊥) Anything (after_save r)
unfolding after_save
after_save-total (ok saved) h = Ensures-pure acknowledged tt
after_save-total (raised e) h = record { at = λ calls. ground (arith, h) }

-- `m` answers, in the world `w`.
abbrev pub Answers : World → Exec Reply → Type 0
Answers w m = Ensures w (λ e. ⊥) Anything m

module _ {w : World} (httpx : IsHttpx w) (py : Python) (d : Deployment) (payload : Members) where
  roster_error-Answers : (message : Text) → Answers w (pure (errors moderator_block_id message))
  roster_error-Answers message = Ensures-pure _ tt

  resolve-Ensures :
      Ensures w
        (λ e. ⊥)
        Anything
        (resolve_authorized_users d.moderator_client d.slack_ban_authorized_users)
  resolve-Ensures = record {
    at = λ calls.
        forget _ _
          (resolve_fails_closed httpx calls d.moderator_client d.slack_ban_authorized_users);
  }
    where
      forget :
          (Q : AuthorizedUsers → Type 0) (r : Result AuthorizedUsers)
          → Outcome (λ e. ⊥) Q r
          → Outcome (λ e. ⊥) Anything r
      forget Q (ok a) h = tt
      forget Q (raised e) h = h

  replace-Ensures :
      (c : ModeratorClient) (wanted expected : List Text) (actor : Option Text)
      → Ensures w IsClientError Anything (replace_moderators c wanted expected actor)
  replace-Ensures c wanted expected actor = record {
    at = λ calls. (roster_calls_funnel c httpx calls wanted expected actor).1;
  }

  save_expected-Answers :
      (c : ModeratorClient) (user_id : Text) (selected : List Text) (context : Json)
      → Answers w (save_expected py d payload c user_id selected context)
  unfolding save_expected
  save_expected-Answers c user_id selected context =
      elim (Option-cases (user_ids (member_of (text "moderators") context))) [
        | inl stale ↦ rw (stale, save_expected) (roster_error-Answers _)
        | inr (expected, fresh) ↦
            rw (fresh, save_expected)
              (Ensures-if
                (is_nil selected && is_the_true (member_of (text "initial_users_dropped") context))
                (roster_error opened_empty) _ (λ e. roster_error-Answers opened_empty)
                (λ e.
                  Ensures->>= _ _
                    (Ensures-attempt _ (replace-Ensures c selected expected (some user_id)))
                    after_save-total))
      ]

  save_selected-Answers :
      (c : ModeratorClient) (user_id : Text) (selected : List Text) (stored : Json)
      → dict_get (text "private_metadata") (or_dict (field (text "view") payload)) ≡ ok stored
      → Answers w (save_selected py d payload c user_id selected)
  unfolding save_selected
  save_selected-Answers c user_id selected stored h =
      Ensures->>=
        (lift (dict_get (text "private_metadata") (or_dict (field (text "view") payload)))) _
        (Ensures-lift _ (rw h tt)) go
    where
      go :
          (stored : Json)
          → Unit {0}
          → Answers w (elim (loads_context py stored) [
            | none ↦ roster_error stale_form
            | some context ↦ save_expected py d payload c user_id selected context
          ])
      go stored t =
          elim (loads_context py stored)
            as (λ o. Answers w (elim o [
              | none ↦ roster_error stale_form
              | some context ↦ save_expected py d payload c user_id selected context
            ])) [
              | none ↦ roster_error-Answers _
              | some context ↦ save_expected-Answers c user_id selected context
            ]

  module _ (stored : Json)
      (modal : dict_get (text "private_metadata") (or_dict (field (text "view") payload))
        ≡ ok stored) where
    save_with-Answers :
        (user_id : Text) (client : Option ModeratorClient)
        → Answers w (save_with py d payload user_id client)
    unfolding save_with
    save_with-Answers user_id none = roster_error-Answers _
    save_with-Answers user_id (some c) =
        elim (Option-cases (user_ids (selected_users py d payload))) [
          | inl unread ↦ rw (unread, save_with) (roster_error-Answers _)
          | inr (selected, read) ↦
              rw (read, save_with) (save_selected-Answers c user_id selected stored modal)
        ]

    save_authorized-Answers :
        (user_id : Text) (a : AuthorizedUsers) → Answers w (save_authorized py d payload user_id a)
    unfolding save_authorized
    save_authorized-Answers user_id a =
        Ensures-if (is_authorized_slack_user_in (string user_id) a.users)
          (save_with py d payload user_id d.moderator_client) _
          (λ e. save_with-Answers user_id d.moderator_client)
          (λ e.
            Ensures-if a.degraded (roster_error cannot_reach_roster) _
              (λ e'. roster_error-Answers cannot_reach_roster) (λ e'. roster_error-Answers _))

    save_as-Answers : (id : Option Text) → Answers w (save_as py d payload id)
    unfolding save_as
    save_as-Answers none = roster_error-Answers _
    save_as-Answers (some user_id) =
        Ensures->>= _ _ resolve-Ensures (λ a t. save_authorized-Answers user_id a)

    -- A save of the roster always answers Slack: whatever Backend-Service replies, and however httpx
    -- fails, the modal is closed or kept open with a message. The payload's user and view are dicts,
    -- or empty, as Slack sends them, and httpx raises an `HTTPError`, an `InvalidURL` or a
    -- `ValueError`.
    pub save-Answers :
        (id : Json)
        → dict_get (text "id") (or_dict (field (text "user") payload)) ≡ ok id
        → Answers w (handle_moderator_view_submission py d payload)
    unfolding handle_moderator_view_submission
    save-Answers id h =
        Ensures->>= {R = Anything}
          (lift (dict_get (text "id") (or_dict (field (text "user") payload)))) _
          (Ensures-lift _ (rw h tt)) (λ sent t. save_as-Answers (as_text sent))
