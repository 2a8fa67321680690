-- ===== src/Interactivity/Settled.antt =====
-- routers/slack_interactivity.py: a ban that was sent is acknowledged, whatever Slack does then.
use request_o_matic.BanAdmin.{BanAdminClient, ban}
use request_o_matic.BanAdmin.Told.{IsBanError, ban-IsBanError}
use request_o_matic.Exec.Httpx.{IsHttpError, IsNetwork}
use request_o_matic.BanCheck.{is_network_error}
use request_o_matic.BanCheck.Caught.{is_network_error-IsHttpError}
use request_o_matic.Base.{◌≡◌, refl, true, Option, none, some, List, arith, between}
use request_o_matic.Exec.{
  Call, Exec, World, Result, ok, raised, Exception, Response, Severity, ◌>>=◌, pure, attempt, http,
}
use request_o_matic.Exec.Ensures.{
  Ensures, Outcome, Anything, Ensures->>=, Ensures-pure, Ensures-throw, Ensures-if, Ensures-attempt,
  Ensures-when, Ensures-note,
}
use request_o_matic.Interactivity.{
  Python, Deployment, Reply, acknowledged, notify_slack, after_notify, is_swallowed,
}
use request_o_matic.Interactivity.Ban.{
  Submission, announce, after_ban, ban_for, is_acceptable, tell_user, annotate, annotatable,
}
use request_o_matic.Json.{Json, Items, Members, object}
use request_o_matic.Slack.Service.{
  call_api, raise_for_status, decoded, require_ok, api_error, post_ephemeral, update_message,
  ignore,
}
use request_o_matic.Text.{Text}

-- A success of Slack's Web API carries a JSON object, as Slack documents it.
pub record IsSlackApi (w : World) : Type 0 where
  pub slack_answers :
      (calls : List Call) (method : Text) (payload : Json) (r : Response)
      → w.http calls (Call.slack_api method payload) ≡ ok r
      → between 200 299 r.status ≡ true
      → (body : Members) × (r.json ≡ some (object body))

abbrev Swallowed : Exception → Type 0
Swallowed e = is_swallowed e ≡ true

-- A reply of Slack's that `call_api` goes on with.
abbrev IsReply : Response → Type 0
IsReply r = between 200 299 r.status ≡ true → (body : Members) × (r.json ≡ some (object body))

abbrev IsObject : Json → Type 0
IsObject v = (body : Members) × (v ≡ object body)

-- The handler of a failed message catches every class below `HTTPError`, as the client of the bans does.
IsHttpError-Swallowed : (e : Exception) → IsHttpError e → Swallowed e
unfolding is_swallowed
IsHttpError-Swallowed (Exception.slack_post_error detail) h = absurd h
IsHttpError-Swallowed (Exception.slack_api_error method error channel) h = absurd h
IsHttpError-Swallowed e h = is_network_error-IsHttpError e h

module _ {w : World} where
  raise_for_status-Ensures :
      (r : Response)
      → Ensures w Swallowed (λ t. between 200 299 r.status ≡ true) (raise_for_status r)
  unfolding raise_for_status is_swallowed is_network_error
  raise_for_status-Ensures r =
      Ensures-if (between 200 299 r.status) (pure tt) _ (λ e. Ensures-pure tt e)
        (λ e. Ensures-throw _ refl)

  decoded-Ensures :
      (r : Response) (body : Members)
      → r.json ≡ some (object body)
      → Ensures w Swallowed IsObject (decoded r)
  decoded-Ensures r body e = rw e (Ensures-pure (object body) (body, refl))

  require_ok-Ensures :
      (method : Text) (channel : Option Json) (v : Json)
      → IsObject v
      → Ensures w Swallowed Anything (require_ok method channel v)
  unfolding require_ok api_error is_swallowed
  require_ok-Ensures method channel v (body, e) = rw e (record { at = λ calls. ground arith })

  notify_slack-Ensures :
      (m : Exec (Unit {0}))
      → Ensures w Swallowed Anything m
      → Ensures w (λ e. ⊥) Anything (notify_slack m)
  unfolding notify_slack
  notify_slack-Ensures m h = Ensures->>= (attempt m) after_notify (Ensures-attempt m h) after
    where
      after :
          (r : Result (Unit {0}))
          → Outcome Swallowed Anything r
          → Ensures w (λ e. ⊥) Anything (after_notify r)
      after (ok done) h = Ensures-pure tt tt
      after (raised e) h = rw h (Ensures-note (Call.logged Severity.error))

module _ {w : World} (network : IsNetwork w) (slack : IsSlackApi w) where
  http-Ensures :
      (method : Text) (payload : Json)
      → Ensures w Swallowed IsReply (http (Call.slack_api method payload))
  unfolding is_swallowed
  http-Ensures method payload = record {
    at = λ calls.
        answered calls (w.http calls (Call.slack_api method payload)) refl
          (network.http_raises calls (Call.slack_api method payload));
  }
    where
      answered :
          (calls : List Call) (r : Result Response)
          → w.http calls (Call.slack_api method payload) ≡ r
          → Outcome IsHttpError Anything r
          → Outcome Swallowed IsReply r
      answered calls (ok r) e h = slack.slack_answers calls method payload r e
      answered calls (raised x) e h = IsHttpError-Swallowed x h

  call_api-Ensures :
      (method : Text) (payload : Json) (channel : Option Json)
      → Ensures w Swallowed Anything (call_api method payload channel)
  unfolding call_api
  call_api-Ensures method payload channel =
      Ensures->>= _ _ (http-Ensures method payload) (λ r reply.
        Ensures->>= _ _ (raise_for_status-Ensures r) (λ t success.
          Ensures->>= _ _ (decoded-Ensures r (reply success).0 (reply success).1) (λ body shape.
            Ensures->>= {R = Anything} _ _ (require_ok-Ensures method channel body shape)
              (λ t' u. Ensures-pure body tt))))

  ignored-Ensures :
      (m : Exec Json) → Ensures w Swallowed Anything m → Ensures w Swallowed Anything (ignore m)
  ignored-Ensures m h =
      Ensures->>= {R = Anything} m (λ body. pure tt) h (λ body t. Ensures-pure tt tt)

  module _ (py : Python) (d : Deployment) (view : Json) (s : Submission) where
    tell_user-Ensures :
        (message : Text) → Ensures w (λ e. ⊥) Anything (tell_user py d view s message)
    unfolding post_ephemeral
    tell_user-Ensures message = notify_slack-Ensures _ (ignored-Ensures _ (call_api-Ensures _ _ _))

    annotate-Ensures :
        (original : Option Items) (reason : Json)
        → Ensures w (λ e. ⊥) Anything (annotate py d view s original reason)
    unfolding update_message
    annotate-Ensures none reason = Ensures-pure tt tt
    annotate-Ensures (some original) reason =
        notify_slack-Ensures _ (ignored-Ensures _ (call_api-Ensures _ _ _))

    announce-Ensures : (reason : Json) → Ensures w (λ e. ⊥) Anything (announce py d view s reason)
    unfolding announce
    announce-Ensures reason =
        Ensures->>= {R = Anything} _ _ (tell_user-Ensures _)
          (λ t u. annotate-Ensures (annotatable s.original_blocks) reason)

    abbrev pub Acknowledges : Exec Reply → Type 0
    Acknowledges m = Ensures w (λ e. ⊥) (λ reply. reply ≡ acknowledged) m

    then_acknowledged :
        (m : Exec (Unit {0}))
        → Ensures w (λ e. ⊥) Anything m
        → Acknowledges (m >>= λ t. pure acknowledged)
    then_acknowledged m h =
        Ensures->>= {R = Anything} m (λ t. pure acknowledged) h
          (λ t u. Ensures-pure acknowledged refl)

    after_ban-Acknowledges :
        (reason : Json) (r : Result Json)
        → Outcome IsBanError Anything r
        → Acknowledges (after_ban py d view s reason r)
    unfolding after_ban
    after_ban-Acknowledges reason (ok row) h =
        then_acknowledged _ (Ensures-when d.slack _ (announce-Ensures reason))
    after_ban-Acknowledges reason (raised (Exception.ban_admin_client_error status body)) h =
        then_acknowledged _ (Ensures-when d.slack _ (tell_user-Ensures _))
    after_ban-Acknowledges reason (raised e) h = record { at = λ calls. ground (arith, h) }

    -- A ban with an acceptable reason is acknowledged to Slack with an empty 200, whether Backend-
    -- Service takes it or refuses it and whatever becomes of the messages that follow: httpx raises an
    -- `HTTPError` or nothing, and a success of Slack's carries a JSON object.
    pub ban_for-Acknowledges :
        (c : BanAdminClient) (fingerprint : Text) (reason : Json)
        → is_acceptable reason ≡ ok true
        → Acknowledges (ban_for py d view s c fingerprint reason)
    unfolding ban_for
    ban_for-Acknowledges c fingerprint reason acceptable = rw acceptable (
        Ensures->>= _ _
          (Ensures-attempt (ban c fingerprint reason none none)
            (ban-IsBanError network c fingerprint reason none none))
          (after_ban-Acknowledges reason))
