-- ===== src/Interactivity/Quiet.antt =====
-- routers/slack_interactivity.py: the calls that change something, and the handlers that make none of them.
use request_o_matic.Authorization.{
  AuthorizedUsers, resolve_authorized_users, is_authorized_slack_user_in, after_roster,
}
use request_o_matic.BanAdmin.{BanAdminClient}
use request_o_matic.Base.{
  ℕ, ◌+◌, refl, Bool, true, false, Option, none, some, List, arith, if◌then◌else◌,
}
use request_o_matic.Exec.AtMost.{
  AtMost, AtMost->>=, AtMost-attempt, AtMost-if, AtMost-lift, AtMost-pure, AtMost-when,
  AtMost-weaken,
}
use request_o_matic.Exec.{Call, Exec, Result, ok, raised, ◌>>=◌, pure, lift}
use request_o_matic.Interactivity.Click.{
  handle_block_actions, click_ban, click_authorized, has_ban_action, offer_modal, with_trigger,
  open_modal, tell, extract_fingerprint, show_modal, blocks_of, message, clicking_user,
}
use request_o_matic.Interactivity.Guarded.{notify-AtMost}
use request_o_matic.Interactivity.{
  Python, Deployment, acknowledged, field, dict_get, as_text, notify_slack, require_ban_client,
}
use request_o_matic.Json.{Json, Items, Members, string, optional}
use request_o_matic.Moderators.{ModeratorClient, list_moderators}
use request_o_matic.Slack.Calls.{call_api-AtMost_any}
use request_o_matic.Slack.Service.{open_view, post_ephemeral, update_message}
use request_o_matic.Text.{Text, text}

-- A ban, or a change of the roster.
abbrev pub is_write : Call → Bool
is_write (Call.ban_post headers payload) = true
is_write (Call.roster_put headers payload) = true
is_write c = false

abbrev pub Writes : {A : Type 0} → ℕ → Exec A → Type 0
Writes n m = AtMost is_write n m

-- One step that writes nothing, before the rest.
pub after_quiet :
    {A B : Type 0} (n : ℕ) (m : Exec A) (k : A → Exec B)
    → Writes 0 m
    → ((a : A) → Writes n (k a))
    → Writes n (m >>= k)
after_quiet n m k h g = AtMost-weaken (0 + n) n _ (AtMost->>= 0 n m k h g) (omega arith)

-- One write, before a rest that makes none.
pub then_quiet :
    {A B : Type 0} (n : ℕ) (m : Exec A) (k : A → Exec B)
    → Writes n m
    → ((a : A) → Writes 0 (k a))
    → Writes n (m >>= k)
then_quiet n m k h g = AtMost-weaken (n + 0) n _ (AtMost->>= n 0 m k h g) (omega arith)

pub lifted :
    {A B : Type 0} (n : ℕ) (r : Result A) (k : A → Exec B)
    → ((a : A) → Writes n (k a))
    → Writes n (lift r >>= k)
lifted n r k g = after_quiet n (lift r) k (AtMost-lift r) g

pub quiet : {A : Type 0} (n : ℕ) (a : A) → Writes n (pure a)
quiet n a = record { at = λ w calls. omega arith }

list_moderators-Writes : (c : ModeratorClient) → Writes 0 (list_moderators c)
unfolding list_moderators
list_moderators-Writes c = record { at = λ w calls. omega arith }

after_roster-Writes :
    (environment : List Text) (r : Result (List Text)) → Writes 0 (after_roster environment r)
unfolding after_roster
after_roster-Writes environment (ok stored) = record { at = λ w calls. omega arith }
after_roster-Writes environment (raised e) = record { at = λ w calls. ground arith }

pub resolve-Writes :
    (client : Option ModeratorClient) (csv : Option Text)
    → Writes 0 (resolve_authorized_users client csv)
unfolding resolve_authorized_users
resolve-Writes none csv = record { at = λ w calls. omega arith }
resolve-Writes (some c) csv =
    AtMost->>= 0 0 _ _ (AtMost-attempt _ (list_moderators-Writes c)) (after_roster-Writes _)

pub notify-Writes : (m : Exec (Unit {0})) → Writes 0 m → Writes 0 (notify_slack m)
notify-Writes m h = notify-AtMost is_write 0 m (λ s. refl) h

pub post_ephemeral-Writes :
    (channel : Json) (user said : Text) → Writes 0 (post_ephemeral channel user said)
unfolding post_ephemeral
post_ephemeral-Writes channel user said =
    AtMost->>= {p = is_write} 0 0 _ _ (call_api-AtMost_any is_write (text "chat.postEphemeral") _ _)
      (λ body. AtMost-pure tt)

pub update_message-Writes :
    (channel ts : Json) (blocks : List Json) → Writes 0 (update_message channel ts blocks)
unfolding update_message
update_message-Writes channel ts blocks =
    AtMost->>= {p = is_write} 0 0 _ _ (call_api-AtMost_any is_write (text "chat.update") _ _)
      (λ body. AtMost-pure tt)

open_view-Writes : (trigger_id : Text) (view : Json) → Writes 0 (open_view trigger_id view)
unfolding open_view
open_view-Writes trigger_id view =
    AtMost->>= {p = is_write} 0 0 _ _ (call_api-AtMost_any is_write (text "views.open") _ _)
      (λ body. AtMost-pure tt)

tell-Writes :
    (slack : Bool) (channel user : Option Text) (said : Text)
    → Writes 0 (tell slack channel user said)
unfolding tell
tell-Writes slack none user said = AtMost-pure tt
tell-Writes slack (some channel) none said = AtMost-pure tt
tell-Writes slack (some channel) (some user) said =
    AtMost-when _ _ (notify-Writes _ (post_ephemeral-Writes (string channel) user said))

module _ (py : Python) (d : Deployment) (payload : Members) where
  show_modal-Writes :
      (fingerprint : Text) (ts : Json) (trigger_id : Text) (blocks : Items)
      → Writes 0 (show_modal py d payload fingerprint ts trigger_id blocks)
  unfolding show_modal
  show_modal-Writes fingerprint ts trigger_id blocks =
      AtMost->>= 0 0 _ (λ t. pure acknowledged) (notify-Writes _ (open_view-Writes trigger_id _))
        (λ t. AtMost-pure acknowledged)

  open_modal-Writes :
      (fingerprint : Text) (ts : Json) (trigger_id : Text)
      → Writes 0 (open_modal py d payload fingerprint ts trigger_id)
  unfolding open_modal
  open_modal-Writes fingerprint ts trigger_id =
      let show = show_modal py d payload fingerprint ts trigger_id in
      lifted 0 (dict_get (text "blocks") (message py d payload))
        (λ shown. lift (blocks_of shown) >>= show)
        (λ shown. lifted 0 (blocks_of shown) show (show_modal-Writes fingerprint ts trigger_id))

  with_trigger-Writes :
      (fingerprint : Text) (ts : Json) (trigger_id : Option Text)
      → Writes 0 (with_trigger py d payload fingerprint ts trigger_id)
  with_trigger-Writes fingerprint ts none = AtMost-pure acknowledged
  with_trigger-Writes fingerprint ts (some t) = open_modal-Writes fingerprint ts t

  offer_modal-Writes : (f : Option Text) → Writes 0 (offer_modal py d payload f)
  unfolding offer_modal
  offer_modal-Writes none =
      AtMost->>= 0 0 _ (λ t. pure acknowledged) (tell-Writes d.slack _ _ _)
        (λ t. AtMost-pure acknowledged)
  offer_modal-Writes (some f) =
      AtMost-if d.slack
        (lift (dict_get (text "ts") (message py d payload)) >>= λ ts.
          with_trigger py d payload f ts (as_text (field (text "trigger_id") payload)))
        (pure acknowledged)
        (lifted 0 (dict_get (text "ts") (message py d payload)) _
          (λ ts. with_trigger-Writes f ts (as_text (field (text "trigger_id") payload))))
        (AtMost-pure acknowledged)

  click_authorized-Writes : (a : AuthorizedUsers) → Writes 0 (click_authorized py d payload a)
  unfolding click_authorized
  click_authorized-Writes a =
      AtMost-if (is_authorized_slack_user_in (optional (clicking_user py d payload)) a.users)
        (lift (extract_fingerprint (message py d payload)) >>= offer_modal py d payload) _
        (lifted 0 (extract_fingerprint (message py d payload)) (offer_modal py d payload)
          offer_modal-Writes)
        (AtMost->>= 0 0 _ (λ t. pure acknowledged) (tell-Writes d.slack _ _ _)
          (λ t. AtMost-pure acknowledged))

  pub require_ban_client-Writes :
      (client : Option BanAdminClient) → Writes 0 (require_ban_client client)
  unfolding require_ban_client
  require_ban_client-Writes none = record { at = λ w calls. omega arith }
  require_ban_client-Writes (some c) = AtMost-pure c

  click_ban-Writes : Writes 0 (click_ban py d payload)
  unfolding click_ban
  click_ban-Writes =
      AtMost->>= 0 0 (require_ban_client d.ban_client)
        (λ c.
          resolve_authorized_users d.moderator_client d.slack_ban_authorized_users
          >>= click_authorized py d payload)
        (require_ban_client-Writes d.ban_client)
        (λ c.
          AtMost->>= 0 0 (resolve_authorized_users d.moderator_client d.slack_ban_authorized_users)
            (click_authorized py d payload) (resolve-Writes _ _) click_authorized-Writes)

  pub handle_block_actions-Writes : Writes 0 (handle_block_actions py d payload)
  unfolding handle_block_actions
  handle_block_actions-Writes =
      lifted 0 (has_ban_action payload)
        (λ is_ban. if is_ban then click_ban py d payload else pure acknowledged)
        (λ is_ban.
          AtMost-if is_ban (click_ban py d payload) (pure acknowledged) click_ban-Writes
            (AtMost-pure acknowledged))
