-- ===== src/Interactivity/Closed.antt =====
-- routers/slack_interactivity.py: a callback of someone who is not authorized changes nothing.
use request_o_matic.Authorization.{
  AuthorizedUsers, resolve_authorized_users, is_authorized_slack_user_in,
}
use request_o_matic.Base.{
  ◌≤◌, ◌≡◌, Bool, true, false, Option, none, some, List, [], ◌∷◌, arith, if◌then◌else◌,
}
use request_o_matic.BanAdmin.{BanAdminClient}
use request_o_matic.Exec.{Call, Exec, World, Result, ok, raised, ◌>>=◌, pure, lift}
use request_o_matic.Exec.AtMost.{count, AtMost->>=, AtMost-if, AtMost-pure, AtMost-when}
use request_o_matic.Exec.Ensures.{Outcome, Anything}
use request_o_matic.Interactivity.{
  Python, Deployment, Reply, acknowledged, field, dict_get, or_dict, as_text, text_field,
  require_ban_client, inner, is_text, ban_modal_callback_id, moderator_modal_callback_id,
}
use request_o_matic.Interactivity.Ban.{
  handle_ban_view_submission, submit_as, submit_in, submit_ban, ban_authorized, Submission,
  submission_of, read_context,
}
use request_o_matic.Interactivity.Click.{
  handle_block_actions, click_ban, click_authorized, has_ban_action,
}
use request_o_matic.Interactivity.Dispatch.{interact, handle_view_submission, submitted}
use request_o_matic.Interactivity.Guarded.{
  is_guarded_call, Unguarded, after_resolve-Unguarded, tell-Unguarded, tell_user-Unguarded,
}
use request_o_matic.Interactivity.Save.{handle_moderator_view_submission, save_as, save_authorized}
use request_o_matic.Json.{
  Json, Items, get, is_true, Members, null, boolean, number, string, array, object, optional,
}
use request_o_matic.Text.{Text, text}

map_Outcome :
    {A : Type 0} {Q R : A → Type 0} (r : Result A)
    → ((a : A) → Q a → R a)
    → Outcome Anything Q r
    → Outcome Anything R r
map_Outcome (ok a) f q = f a q
map_Outcome (raised e) f q = tt

-- Who sent the callback: the text at `user.id`, or `null`.
abbrev pub sender : Members → Json
sender payload = optional (text_field payload (text "user") (text "id"))

module _ (w : World) (calls : List Call) (py : Python) (d : Deployment) (payload : Members) where
  -- What is found out about `id`: that it is not authorized, if anything is found out.
  abbrev pub Denied : Json → Type 0
  Denied id =
      Outcome Anything (λ a. is_authorized_slack_user_in id a.users ≡ false)
        (resolve_authorized_users d.moderator_client d.slack_ban_authorized_users w calls).0

  abbrev pub Unchanged : Exec Reply → Type 0
  Unchanged m = count is_guarded_call (m w calls).1 ≤ count is_guarded_call calls

  click_authorized-Unguarded :
      (a : AuthorizedUsers)
      → is_authorized_slack_user_in (sender payload) a.users ≡ false
      → Unguarded (click_authorized py d payload a)
  unfolding click_authorized
  click_authorized-Unguarded a h =
      rw h (AtMost->>= 0 0 _ _ (tell-Unguarded _ _ _ _) (λ _. AtMost-pure acknowledged))

  click_ban-Unchanged : Denied (sender payload) → Unchanged (click_ban py d payload)
  unfolding click_ban require_ban_client
  click_ban-Unchanged h =
      elim d.ban_client
        as (λ client. Unchanged (
          require_ban_client client >>= λ c.
          resolve_authorized_users d.moderator_client d.slack_ban_authorized_users
          >>= click_authorized py d payload)) [
            | none ↦ omega arith
            | some c ↦
                after_resolve-Unguarded w calls _ _ _ (map_Outcome _ click_authorized-Unguarded h)
          ]

  handle_block_actions-Unchanged :
      Denied (sender payload) → Unchanged (handle_block_actions py d payload)
  unfolding handle_block_actions
  handle_block_actions-Unchanged h =
      elim (has_ban_action payload)
        as (λ r.
          Unchanged
            (lift r >>= λ is_ban. if is_ban then click_ban py d payload else pure acknowledged)) [
              | ok true ↦ click_ban-Unchanged h
              | ok false ↦ omega arith
              | raised e ↦ omega arith
            ]

  save_authorized-Unguarded :
      (user_id : Text) (a : AuthorizedUsers)
      → is_authorized_slack_user_in (string user_id) a.users ≡ false
      → Unguarded (save_authorized py d payload user_id a)
  unfolding save_authorized
  save_authorized-Unguarded user_id a h =
      rw h (AtMost-if a.degraded _ _ (AtMost-pure _) (AtMost-pure _))

  save_as-Unchanged :
      (id : Option Text) → Denied (optional id) → Unchanged (save_as py d payload id)
  unfolding save_as
  save_as-Unchanged none h = omega arith
  save_as-Unchanged (some user_id) h =
      after_resolve-Unguarded w calls _ _ _ (map_Outcome _ (save_authorized-Unguarded user_id) h)

  module _ (view : Json) (s : Submission) where
    ban_authorized-Unguarded :
        (c : BanAdminClient) (a : AuthorizedUsers)
        → is_authorized_slack_user_in (string s.user_id) a.users ≡ false
        → Unguarded (ban_authorized py d view s c a)
    unfolding ban_authorized
    ban_authorized-Unguarded c a h = rw h (
        AtMost->>= 0 0 _ _ (AtMost-when _ _ (tell_user-Unguarded _ _ _))
          (λ _. AtMost-pure acknowledged))

    submit_ban-Unchanged :
        (c : BanAdminClient) → Denied (string s.user_id) → Unchanged (submit_ban py d view s c)
    unfolding submit_ban
    submit_ban-Unchanged c h =
        after_resolve-Unguarded w calls _ _ _ (map_Outcome _ (ban_authorized-Unguarded c) h)

  -- `(payload.get("user") or {}).get("id")`, then a handler of the text there.
  sent_by-Unchanged :
      (v : Json) (k : Option Text → Exec Reply)
      → ((id : Option Text) → Denied (optional id) → Unchanged (k id))
      → Denied (optional (inner (text "id") v))
      → Unchanged (lift (dict_get (text "id") (or_dict v)) >>= λ id. k (as_text id))
  unfolding get is_true
  sent_by-Unchanged (object Members.end) k h denied = h none denied
  sent_by-Unchanged (object (Members.member key u kvs)) k h denied =
      h (as_text (field (text "id") (Members.member key u kvs))) denied
  sent_by-Unchanged null k h denied = h none denied
  sent_by-Unchanged (number false literal) k h denied = h none denied
  sent_by-Unchanged (number true literal) k h denied = omega arith
  sent_by-Unchanged (boolean false) k h denied = h none denied
  sent_by-Unchanged (boolean true) k h denied = omega arith
  sent_by-Unchanged (string []) k h denied = h none denied
  sent_by-Unchanged (string (c ∷ s)) k h denied = omega arith
  sent_by-Unchanged (array Items.nil) k h denied = h none denied
  sent_by-Unchanged (array (Items.item u us)) k h denied = omega arith

  handle_moderator-Unchanged :
      Denied (sender payload) → Unchanged (handle_moderator_view_submission py d payload)
  unfolding handle_moderator_view_submission text_field
  handle_moderator-Unchanged h =
      sent_by-Unchanged (field (text "user") payload) (save_as py d payload) save_as-Unchanged h

  lift-Unchanged :
      {A : Type 0} (r : Result A) (k : A → Exec Reply)
      → ((a : A) → Unchanged (k a))
      → Unchanged (lift r >>= k)
  lift-Unchanged (ok a) k h = h a
  lift-Unchanged (raised e) k h = omega arith

  submit_in-Unchanged :
      (c : BanAdminClient) (user_id : Text) (context : Option Json)
      → Denied (string user_id)
      → Unchanged (submit_in py d payload c user_id context)
  unfolding submission_of
  submit_in-Unchanged c user_id none h = omega arith
  submit_in-Unchanged c user_id (some (object context)) h = submit_ban-Unchanged _ _ c h
  submit_in-Unchanged c user_id (some v) h = omega arith

  submit_as-Unchanged :
      (c : BanAdminClient) (id : Option Text)
      → Denied (optional id)
      → Unchanged (submit_as py d payload c id)
  unfolding submit_as
  submit_as-Unchanged c none h = omega arith
  submit_as-Unchanged c (some user_id) h =
      lift-Unchanged (dict_get (text "private_metadata") (or_dict (field (text "view") payload)))
        (λ stored.
          lift (read_context py stored) >>= λ context. submit_in py d payload c user_id context)
        (λ stored.
          lift-Unchanged (read_context py stored)
            (λ context. submit_in py d payload c user_id context)
            (λ context. submit_in-Unchanged c user_id context h))

  handle_ban-Unchanged :
      Denied (sender payload) → Unchanged (handle_ban_view_submission py d payload)
  unfolding handle_ban_view_submission require_ban_client text_field
  handle_ban-Unchanged h =
      elim d.ban_client
        as (λ client. Unchanged (
          require_ban_client client >>= λ c.
          lift (dict_get (text "id") (or_dict (field (text "user") payload))) >>= λ id.
          submit_as py d payload c (as_text id))) [
            | none ↦ omega arith
            | some c ↦
                sent_by-Unchanged (field (text "user") payload) (submit_as py d payload c)
                  (submit_as-Unchanged c) h
          ]

  if-Unchanged :
      (b : Bool) (m k : Exec Reply) → Unchanged m → Unchanged k → Unchanged (if b then m else k)
  if-Unchanged true m k h h' = h
  if-Unchanged false m k h h' = h'

  acknowledged-Unchanged : Unchanged (pure acknowledged)
  acknowledged-Unchanged = omega arith

  submitted-Unchanged :
      (callback_id : Json)
      → Denied (sender payload)
      → Unchanged (submitted py d payload callback_id)
  submitted-Unchanged callback_id h =
      if-Unchanged (is_text ban_modal_callback_id callback_id)
        (handle_ban_view_submission py d payload)
        (if is_text moderator_modal_callback_id callback_id
          then handle_moderator_view_submission py d payload
          else pure acknowledged)
        (handle_ban-Unchanged h)
        (if-Unchanged (is_text moderator_modal_callback_id callback_id)
          (handle_moderator_view_submission py d payload) (pure acknowledged)
          (handle_moderator-Unchanged h) acknowledged-Unchanged)

  handle_view_submission-Unchanged :
      Denied (sender payload) → Unchanged (handle_view_submission py d payload)
  unfolding handle_view_submission
  handle_view_submission-Unchanged h =
      lift-Unchanged (dict_get (text "callback_id") (or_dict (field (text "view") payload)))
        (submitted py d payload) (λ callback_id. submitted-Unchanged callback_id h)

  -- A callback of someone whom neither the allowlist nor the roster names posts no ban, replaces no
  -- roster and opens no modal, whatever else it carries and whatever the services answer.
  pub interact_closed : Denied (sender payload) → Unchanged (interact py d payload)
  unfolding interact
  interact_closed h =
      if-Unchanged (is_text (text "block_actions") (field (text "type") payload))
        (handle_block_actions py d payload)
        (if is_text (text "view_submission") (field (text "type") payload)
          then handle_view_submission py d payload
          else pure acknowledged)
        (handle_block_actions-Unchanged h)
        (if-Unchanged (is_text (text "view_submission") (field (text "type") payload))
          (handle_view_submission py d payload) (pure acknowledged)
          (handle_view_submission-Unchanged h) acknowledged-Unchanged)
