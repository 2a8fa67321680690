-- ===== src/Slack/Calls.antt =====
-- How often the Slack service calls Slack.
use request_o_matic.Base.{ℕ, ◌+◌, Bool, true, false, Option, List, arith, if◌then◌else◌}
use request_o_matic.Exec.{Call, Response}
use request_o_matic.Exec.AtMost.{AtMost, AtMost->>=, AtMost-http, AtMost-pure, AtMost-weaken}
use request_o_matic.Json.{Json}
use request_o_matic.Slack.Service.{
  SlackService, call_api, post_blocks, raise_for_status, require_ok, decoded,
}
use request_o_matic.Text.{Text}

abbrev pub is_slack_call : Call → Bool
is_slack_call (Call.slack_webhook payload) = true
is_slack_call (Call.slack_api method payload) = true
is_slack_call c = false

pub call_api-AtMost :
    (method : Text) (payload : Json) (channel : Option Json)
    → AtMost is_slack_call 1 (call_api method payload channel)
unfolding call_api
call_api-AtMost method payload channel = record { at = λ w calls. ground arith }

pub post_blocks-AtMost :
    (s : SlackService) (blocks : List Json) (metadata : Option Json)
    (channel thread_ts : Option Text)
    → AtMost is_slack_call 1 (post_blocks s blocks metadata channel thread_ts)
unfolding post_blocks
post_blocks-AtMost s blocks metadata channel thread_ts = record { at = λ w calls. ground arith }

-- A method of the Web API makes its one call, whatever is counted.
module _ (p : Call → Bool) (method : Text) (payload : Json) (channel : Option Json) where
  abbrev pub one_call : ℕ
  one_call = if p (Call.slack_api method payload) then 1 else 0

  raise_for_status-AtMost : (r : Response) → AtMost p 0 (raise_for_status r)
  unfolding raise_for_status
  raise_for_status-AtMost r = record { at = λ w calls. ground arith }

  require_ok-AtMost : (body : Json) → AtMost p 0 (require_ok method channel body)
  unfolding require_ok
  require_ok-AtMost body = record { at = λ w calls. ground arith }

  decoded-AtMost : (r : Response) → AtMost p 0 (decoded r)
  decoded-AtMost r = record { at = λ w calls. ground arith }

  pub call_api-AtMost_any : AtMost p one_call (call_api method payload channel)
  unfolding call_api
  call_api-AtMost_any =
      AtMost-weaken (one_call + 0) one_call _
        (AtMost->>= one_call 0 _ _ (AtMost-http (Call.slack_api method payload)) (λ r.
          AtMost->>= 0 0 _ _ (raise_for_status-AtMost r) (λ _.
            AtMost->>= 0 0 _ _ (decoded-AtMost r)
              (λ body. AtMost->>= 0 0 _ _ (require_ok-AtMost body) (λ _. AtMost-pure body)))))
        (omega arith)
