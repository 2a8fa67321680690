-- ===== src/Interactivity/Dispatch.antt =====
-- routers/slack_interactivity.py: the one Request URL, behind the check of the signature.
use request_o_matic.Base.{Option, none, some, List, if◌then◌else◌, ℕ}
use request_o_matic.Exec.{Exception, Exec, pure, throw, lift, ◌>>=◌, ◌>>◌}
use request_o_matic.Interactivity.{
  Python, Deployment, Reply, acknowledged, field, dict_get, or_dict, is_text, ban_modal_callback_id,
  moderator_modal_callback_id,
}
use request_o_matic.Interactivity.Ban.{handle_ban_view_submission}
use request_o_matic.Interactivity.Click.{handle_block_actions}
use request_o_matic.Interactivity.Save.{handle_moderator_view_submission}
use request_o_matic.Json.{Json, Members, object}
use request_o_matic.Base.Int.{ℤ}
use request_o_matic.Signature.{Hmac, verify_slack_request}
use request_o_matic.Text.{Text, text}

abbrev bad_request : Text → Exec Reply
bad_request detail = throw (Exception.http_exception 400 detail)

module _ (py : Python) (d : Deployment) where
  abbrev pub submitted : Members → Json → Exec Reply
  submitted payload callback_id =
      if is_text ban_modal_callback_id callback_id
      then handle_ban_view_submission py d payload
      else if is_text moderator_modal_callback_id callback_id
      then handle_moderator_view_submission py d payload
      else pure acknowledged

  -- `_handle_view_submission`
  unfoldable pub handle_view_submission : Members → Exec Reply
  handle_view_submission payload =
      lift (dict_get (text "callback_id") (or_dict (field (text "view") payload)))
      >>= submitted payload

  unfoldable pub interact : Members → Exec Reply
  unfolding handle_view_submission
  interact payload =
      if is_text (text "block_actions") (field (text "type") payload)
      then handle_block_actions py d payload
      else if is_text (text "view_submission") (field (text "type") payload)
      then handle_view_submission payload
      else pure acknowledged

  abbrev pub interact_with : Option Json → Exec Reply
  interact_with (some (object payload)) = interact payload
  interact_with v = bad_request (text "Malformed payload")

  abbrev pub with_payload : Option Text → Exec Reply
  with_payload none = bad_request (text "Missing payload")
  with_payload (some payload) = interact_with (py.loads payload)

  -- `slack_interactivity`
  unfoldable pub slack_interactivity : List ℕ → Exec Reply
  unfolding interact
  slack_interactivity body = with_payload (py.form_value body (text "payload"))

  -- The route: the dependency on the signature comes before every other.
  unfoldable pub post_interactivity :
      Hmac → Option Text → Option Text → Option Text → ℤ → List ℕ → Exec Reply
  unfolding verify_slack_request slack_interactivity
  post_interactivity hmac secret timestamp signature now body =
      verify_slack_request hmac secret timestamp signature now body >> slack_interactivity body
