-- ===== src/Interactivity/Once.antt =====
-- routers/slack_interactivity.py: how much one callback changes.
use request_o_matic.Authorization.{
  AuthorizedUsers, resolve_authorized_users, is_authorized_slack_user_in,
}
use request_o_matic.BanAdmin.{BanAdminClient, ban}
use request_o_matic.Base.{ℕ, Option, none, some, List, arith, if◌then◌else◌, ◌&&◌}
use request_o_matic.Exec.AtMost.{
  AtMost, AtMost->>=, AtMost-attempt, AtMost-if, AtMost-pure, AtMost-when, AtMost-weaken,
}
use request_o_matic.Exec.{Result, ok, raised, Exception, ◌>>=◌, pure, lift, attempt}
use request_o_matic.Interactivity.Ban.{
  handle_ban_view_submission, submit_as, submit_in, submit_ban, ban_authorized, ban_fingerprint,
  ban_for, after_ban, announce, read_reason, tell_user, annotate, annotatable, Submission,
  submission_of, read_context, is_acceptable, reason_length_message,
}
use request_o_matic.Interactivity.Click.{handle_block_actions}
use request_o_matic.Interactivity.Dispatch.{
  slack_interactivity, interact_with, with_payload, interact, handle_view_submission, submitted,
}
use request_o_matic.Interactivity.Save.{handle_moderator_view_submission}
use request_o_matic.Interactivity.{
  Python, Deployment, acknowledged, errors, field, dict_get, or_dict, as_text, is_text,
  require_ban_client, ban_reason_block_id, ban_modal_callback_id, moderator_modal_callback_id,
}
use request_o_matic.Json.{
  Json, Items, Members, null, boolean, number, string, array, object, is_true,
}
use request_o_matic.Text.{Text, text, is_given}
use request_o_matic.Interactivity.Quiet.{
  is_write, Writes, after_quiet, then_quiet, lifted, quiet, resolve-Writes, notify-Writes,
  post_ephemeral-Writes, update_message-Writes, require_ban_client-Writes,
  handle_block_actions-Writes,
}
use request_o_matic.Interactivity.OneSave.{handle_moderator-Writes}

ban-Writes :
    (c : BanAdminClient) (fingerprint : Text) (reason : Json) (seconds : Option ℕ)
    (actor : Option Text)
    → Writes 1 (ban c fingerprint reason seconds actor)
unfolding ban
ban-Writes c fingerprint reason seconds actor = record { at = λ w calls. omega arith }

module _ (py : Python) (d : Deployment) (view : Json) (s : Submission) where
  tell_user-Writes : (said : Text) → Writes 0 (tell_user py d view s said)
  tell_user-Writes said = notify-Writes _ (post_ephemeral-Writes s.channel s.user_id said)

  annotate-Writes :
      (original : Option Items) (reason : Json) → Writes 0 (annotate py d view s original reason)
  annotate-Writes none reason = AtMost-pure tt
  annotate-Writes (some original) reason =
      notify-Writes _ (update_message-Writes s.channel s.message_ts _)

  announce-Writes : (reason : Json) → Writes 0 (announce py d view s reason)
  unfolding announce
  announce-Writes reason =
      AtMost->>= 0 0 _ (λ t. annotate py d view s (annotatable s.original_blocks) reason)
        (tell_user-Writes _) (λ t. annotate-Writes (annotatable s.original_blocks) reason)

  after_ban-Writes : (reason : Json) (r : Result Json) → Writes 0 (after_ban py d view s reason r)
  unfolding after_ban
  after_ban-Writes reason (ok row) =
      AtMost->>= 0 0 _ (λ t. pure acknowledged) (AtMost-when d.slack _ (announce-Writes reason))
        (λ t. AtMost-pure acknowledged)
  after_ban-Writes reason (raised (Exception.ban_admin_client_error status body)) =
      AtMost->>= 0 0 _ (λ t. pure acknowledged) (AtMost-when d.slack _ (tell_user-Writes _))
        (λ t. AtMost-pure acknowledged)
  after_ban-Writes reason (raised e) = record { at = λ w calls. ground arith }

  ban_for-Writes :
      (c : BanAdminClient) (fingerprint : Text) (reason : Json)
      → Writes 1 (ban_for py d view s c fingerprint reason)
  unfolding ban_for
  ban_for-Writes c fingerprint reason =
      let banning = attempt (ban c fingerprint reason none none) in
      lifted 1 (is_acceptable reason)
        (λ acceptable.
          if acceptable
          then (banning >>= after_ban py d view s reason)
          else pure (errors ban_reason_block_id reason_length_message))
        (λ acceptable.
          AtMost-if acceptable (banning >>= after_ban py d view s reason)
            (pure (errors ban_reason_block_id reason_length_message))
            (then_quiet 1 banning (after_ban py d view s reason)
              (AtMost-attempt _ (ban-Writes c fingerprint reason none none))
              (after_ban-Writes reason))
            (quiet 1 _))

  read_reason-Writes : Writes 0 (read_reason py d view s)
  unfolding read_reason
  read_reason-Writes = record { at = λ w calls. ground arith }

  ban_fingerprint-Writes :
      (c : BanAdminClient) (f : Option Text) → Writes 1 (ban_fingerprint py d view s c f)
  unfolding ban_fingerprint
  ban_fingerprint-Writes c none = quiet 1 _
  ban_fingerprint-Writes c (some f) =
      AtMost-if (is_given (some f) && (is_true s.channel && is_true s.message_ts))
        (read_reason py d view s >>= ban_for py d view s c f) (pure acknowledged)
        (after_quiet 1 (read_reason py d view s) (ban_for py d view s c f) read_reason-Writes
          (ban_for-Writes c f))
        (quiet 1 _)

  ban_authorized-Writes :
      (c : BanAdminClient) (a : AuthorizedUsers) → Writes 1 (ban_authorized py d view s c a)
  unfolding ban_authorized
  ban_authorized-Writes c a =
      AtMost-if (is_authorized_slack_user_in (string s.user_id) a.users)
        (ban_fingerprint py d view s c s.fingerprint) _ (ban_fingerprint-Writes c s.fingerprint)
        (after_quiet 1 _ (λ t. pure acknowledged) (AtMost-when _ _ (tell_user-Writes _))
          (λ t. quiet 1 acknowledged))

  submit_ban-Writes : (c : BanAdminClient) → Writes 1 (submit_ban py d view s c)
  unfolding submit_ban
  submit_ban-Writes c =
      after_quiet 1 (resolve_authorized_users d.moderator_client d.slack_ban_authorized_users)
        (ban_authorized py d view s c) (resolve-Writes _ _) (ban_authorized-Writes c)

module _ (py : Python) (d : Deployment) (payload : Members) where
  submit_in-Writes :
      (c : BanAdminClient) (user_id : Text) (context : Option Json)
      → Writes 1 (submit_in py d payload c user_id context)
  submit_in-Writes c user_id none = quiet 1 _
  submit_in-Writes c user_id (some context) =
      let view = or_dict (field (text "view") payload) in
      lifted 1 (submission_of user_id context) (λ s. submit_ban py d view s c)
        (λ s. submit_ban-Writes py d view s c)

  submit_as-Writes :
      (c : BanAdminClient) (id : Option Text) → Writes 1 (submit_as py d payload c id)
  unfolding submit_as
  submit_as-Writes c none = quiet 1 _
  submit_as-Writes c (some user_id) =
      lifted 1 (dict_get (text "private_metadata") (or_dict (field (text "view") payload)))
        (λ stored.
          lift (read_context py stored) >>= λ context. submit_in py d payload c user_id context)
        (λ stored.
          lifted 1 (read_context py stored) (λ context. submit_in py d payload c user_id context)
            (submit_in-Writes c user_id))

  handle_ban-Writes : Writes 1 (handle_ban_view_submission py d payload)
  unfolding handle_ban_view_submission
  handle_ban-Writes =
      let sent = dict_get (text "id") (or_dict (field (text "user") payload)) in
      after_quiet 1 (require_ban_client d.ban_client)
        (λ c. lift sent >>= λ id. submit_as py d payload c (as_text id))
        (require_ban_client-Writes py d payload d.ban_client)
        (λ c.
          lifted 1 sent (λ id. submit_as py d payload c (as_text id))
            (λ id. submit_as-Writes c (as_text id)))

  submitted-Writes : (callback_id : Json) → Writes 1 (submitted py d payload callback_id)
  submitted-Writes callback_id =
      AtMost-if (is_text ban_modal_callback_id callback_id)
        (handle_ban_view_submission py d payload)
        (if is_text moderator_modal_callback_id callback_id
          then handle_moderator_view_submission py d payload
          else pure acknowledged)
        handle_ban-Writes
        (AtMost-if (is_text moderator_modal_callback_id callback_id)
          (handle_moderator_view_submission py d payload) (pure acknowledged)
          (handle_moderator-Writes py d payload) (quiet 1 _))

  interact-Writes : Writes 1 (interact py d payload)
  unfolding interact handle_view_submission
  interact-Writes =
      let callback_id = dict_get (text "callback_id") (or_dict (field (text "view") payload)) in
      AtMost-if (is_text (text "block_actions") (field (text "type") payload))
        (handle_block_actions py d payload)
        (if is_text (text "view_submission") (field (text "type") payload)
          then (lift callback_id >>= submitted py d payload)
          else pure acknowledged)
        (AtMost-weaken 0 1 _ (handle_block_actions-Writes py d payload) (omega arith))
        (AtMost-if (is_text (text "view_submission") (field (text "type") payload))
          (lift callback_id >>= submitted py d payload) (pure acknowledged)
          (lifted 1 callback_id (submitted py d payload) submitted-Writes) (quiet 1 _))

-- One callback, whatever its body and whatever the services answer, posts one ban at most or replaces the
-- roster once at most, and never does both.
pub slack_interactivity-Writes :
    (py : Python) (d : Deployment) (body : List ℕ)
    → AtMost is_write 1 (slack_interactivity py d body)
unfolding slack_interactivity
slack_interactivity-Writes py d body = form (py.form_value body (text "payload"))
  where
    decoded : (o : Option Json) → Writes 1 (interact_with py d o)
    decoded none = record { at = λ w calls. omega arith }
    decoded (some (object payload)) = interact-Writes py d payload
    decoded (some null) = record { at = λ w calls. omega arith }
    decoded (some (boolean b)) = record { at = λ w calls. omega arith }
    decoded (some (number b l)) = record { at = λ w calls. omega arith }
    decoded (some (string t)) = record { at = λ w calls. omega arith }
    decoded (some (array vs)) = record { at = λ w calls. omega arith }

    form : (o : Option Text) → Writes 1 (with_payload py d o)
    form none = record { at = λ w calls. omega arith }
    form (some payload) = decoded (py.loads payload)
