-- ===== src/Request/Counts.antt =====
-- How often one request calls each service.
use request_o_matic.Base.{
  ℕ, refl, Bool, Option, none, some, List, [], ◌∷◌, arith, Option-cases, inl, inr, is_nil,
}
use request_o_matic.BanCheck.{check}
use request_o_matic.Exec.{Call, Exec, Result, ok, raised, Exception, throw}
use request_o_matic.Exec.AtMost.{AtMost, AtMost->>=, AtMost-attempt, AtMost-weaken, AtMost-if}
use request_o_matic.Json.{Json}
use request_o_matic.Lookup.Retries.{attempts-AtMost}
use request_o_matic.Lookup.{LookupClient, LookupResult, post_lookup, lookup}
use request_o_matic.Metadata.{
  LookupRequest, LookupResponse, ParsedRequest, LibraryItem, ReleaseMetadata,
}
use request_o_matic.Parser.{Library, parse_request}
use request_o_matic.Request.{Incoming, Services, UnifiedResponse}
use request_o_matic.Request.Admit.{admit, ua_gate, ban_gate}
use request_o_matic.Request.Handler.{
  parse_step, process, handle_request, after_parse, deliver_results, post_outcome,
  is_http_exception, severity_of, non_request, parsing_unavailable, answer_request,
}
use request_o_matic.Request.Notify.{post_to_slack, post_results_to_slack, post_degraded_to_slack}
use request_o_matic.Request.Search.{search, after_lookup, Findings, findings_of}
use request_o_matic.Slack.Calls.{is_slack_call, post_blocks-AtMost}
use request_o_matic.Slack.Service.{SlackService}
use request_o_matic.Text.{Text, text, strip}
use request_o_matic.Fingerprint.{normalize_fingerprint}
use request_o_matic.Slack.{build_slack_metadata}

abbrev Slackless : {A : Type 0} → Exec A → Type 0
Slackless m = AtMost is_slack_call 0 m

check-AtMost : (authorization raw : Option Text) → Slackless (check authorization raw)
unfolding check
check-AtMost authorization raw = record { at = λ w calls. ground arith }

ban_gate-AtMost :
    (sv : Services) (rq : Incoming) (normalized : Option Text)
    → Slackless (ban_gate sv rq normalized)
unfolding ban_gate
ban_gate-AtMost sv rq normalized = record {
  at = λ w calls. ground (arith, (check-AtMost rq.authorization normalized).at w calls);
}

ua_gate-AtMost :
    (sv : Services) (rq : Incoming) (normalized : Option Text)
    → Slackless (ua_gate sv rq normalized)
unfolding ua_gate
ua_gate-AtMost sv rq normalized = record { at = λ w calls. ground arith }

parse_step-AtMost : (library : Library) (rq : Incoming) → Slackless (parse_step library rq)
unfolding parse_step parse_request
parse_step-AtMost library rq = record { at = λ w calls. ground arith }

post_to_slack-AtMost :
    (s : SlackService) (blocks : List Json) (fingerprint : Option Text)
    → AtMost is_slack_call 1 (post_to_slack s blocks fingerprint)
unfolding post_to_slack
post_to_slack-AtMost s blocks fingerprint = record {
  at = λ w calls. ground (
    arith,
    (post_blocks-AtMost s blocks (build_slack_metadata fingerprint) none none).at w calls,
  );
}

post_results-AtMost :
    (s : Option SlackService) (message : Text) (parsed : ParsedRequest)
    (found : List (LibraryItem × Option ReleaseMetadata)) (context fingerprint : Option Text)
    → AtMost is_slack_call 1 (post_results_to_slack s message parsed found context fingerprint)
unfolding post_results_to_slack
post_results-AtMost none message parsed found context fingerprint = record {
  at = λ w calls. omega arith;
}
post_results-AtMost (some s) message parsed found context fingerprint =
    post_to_slack-AtMost s _ fingerprint

post_degraded-AtMost :
    (s : Option SlackService) (message : Text) (parsed : Option ParsedRequest) (remark : Text)
    (fingerprint : Option Text)
    → AtMost is_slack_call 1 (post_degraded_to_slack s message parsed remark fingerprint)
unfolding post_degraded_to_slack
post_degraded-AtMost none message parsed remark fingerprint = record { at = λ w calls. omega arith }
post_degraded-AtMost (some s) message parsed remark fingerprint =
    post_to_slack-AtMost s _ fingerprint

after_lookup-AtMost : (r : Result LookupResult) → Slackless (after_lookup r)
unfolding after_lookup
after_lookup-AtMost (ok r) = record { at = λ w calls. omega arith }
after_lookup-AtMost (raised e) = record { at = λ w calls. ground arith }

module _ (model_validate : Json → Option LookupResponse) where
  post_lookup-AtMost :
      (c : LookupClient) (request : LookupRequest) (skip : Bool)
      → Slackless (post_lookup model_validate c request skip)
  unfolding post_lookup
  post_lookup-AtMost c request skip = record { at = λ w calls. ground arith }

  search-AtMost :
      (sv : Services) (rq : Incoming) (parsed : ParsedRequest)
      → Slackless (search model_validate sv rq parsed)
  unfolding search lookup
  search-AtMost sv rq parsed = elim (Option-cases sv.lookup_client) [
    | inl missing ↦ rw (missing, search) (record { at = λ w calls. omega arith })
    | inr (c, found) ↦
        rw (found, search)
          (AtMost->>= 0 0 _ _
            (AtMost-attempt _ (
              AtMost-weaken _ 0 _
                (attempts-AtMost refl model_validate c _ rq.skip_cache 0
                  (post_lookup-AtMost c _ rq.skip_cache) c.max_attempts none)
                (omega arith)))
            after_lookup-AtMost)
  ]

module _ (sv : Services) (rq : Incoming) (normalized : Option Text) (degraded : Bool) where
  abbrev Posts : ℕ → Exec UnifiedResponse → Type 0
  Posts n m = AtMost is_slack_call n m

  parsing_unavailable-AtMost :
      (e : Exception) → Posts 1 (parsing_unavailable sv rq normalized degraded e)
  unfolding parsing_unavailable
  parsing_unavailable-AtMost e = record {
    at = λ w calls. ground (
      arith,
      (post_degraded-AtMost sv.slack rq.message none (text "Parsing unavailable")
            rq.x_device_fingerprint).at
          w (Call.record_api_call (text "slack") ∷ Call.logged (severity_of e) ∷ calls),
    );
  }

  non_request-AtMost :
      (parsed : ParsedRequest) → Posts 1 (non_request sv rq normalized degraded parsed)
  unfolding non_request
  non_request-AtMost parsed = record {
    at = λ w calls. ground (
      arith,
      (post_results-AtMost sv.slack rq.message parsed [] none rq.x_device_fingerprint).at w calls,
    );
  }

  post_outcome-AtMost :
      (f : Findings) (outcome : Result LookupResult)
      → AtMost is_slack_call 1 (post_outcome sv rq normalized degraded f outcome)
  unfolding post_outcome
  post_outcome-AtMost f (raised e) =
      post_degraded-AtMost sv.slack rq.message (some f.parsed) _ rq.x_device_fingerprint
  post_outcome-AtMost f (ok r) =
      post_results-AtMost sv.slack rq.message f.parsed f.items_with_artwork f.context
        rq.x_device_fingerprint

  deliver_results-AtMost :
      (f : Findings) (outcome : Result LookupResult)
      → Posts 1 (deliver_results sv rq normalized degraded f outcome)
  unfolding deliver_results
  deliver_results-AtMost f outcome = record {
    at = λ w calls.
        ground (
          arith,
          (post_outcome-AtMost f outcome).at w (Call.record_api_call (text "slack") ∷ calls),
        );
  }

  module _ (model_validate : Json → Option LookupResponse) where
    answer_request-AtMost :
        (parsed : ParsedRequest)
        → Posts 1 (answer_request sv rq normalized degraded model_validate parsed)
    unfolding answer_request
    answer_request-AtMost parsed =
        AtMost->>= 0 1 (search model_validate sv rq parsed)
          (λ outcome.
            deliver_results sv rq normalized degraded (findings_of parsed outcome) outcome)
          (search-AtMost model_validate sv rq parsed)
          (λ outcome. deliver_results-AtMost (findings_of parsed outcome) outcome)

    after_parse-AtMost :
        (r : Result ParsedRequest)
        → Posts 1 (after_parse sv rq normalized degraded model_validate r)
    unfolding after_parse
    after_parse-AtMost (raised e) =
        AtMost-if (is_http_exception e) (throw e) (parsing_unavailable sv rq normalized degraded e)
          (record { at = λ w calls. omega arith }) (parsing_unavailable-AtMost e)
    after_parse-AtMost (ok parsed) =
        AtMost-if parsed.is_request (answer_request sv rq normalized degraded model_validate parsed)
          (non_request sv rq normalized degraded parsed) (answer_request-AtMost parsed)
          (non_request-AtMost parsed)

module _ (library : Library) (model_validate : Json → Option LookupResponse) (sv : Services)
    (rq : Incoming) where
  admit-AtMost : (normalized : Option Text) → Slackless (admit sv rq normalized)
  unfolding admit
  admit-AtMost normalized =
      AtMost->>= 0 0 (ua_gate sv rq normalized) (λ _. ban_gate sv rq normalized)
        (ua_gate-AtMost sv rq normalized) (λ _. ban_gate-AtMost sv rq normalized)

  process-AtMost :
      (normalized : Option Text)
      → AtMost is_slack_call 1 (process library model_validate sv rq normalized)
  unfolding process
  process-AtMost normalized =
      AtMost->>= 0 1 (admit sv rq normalized) _ (admit-AtMost normalized) (λ degraded.
        AtMost->>= 0 1 (parse_step library rq) _ (parse_step-AtMost library rq)
          (λ r. after_parse-AtMost sv rq normalized degraded model_validate r))

  -- A request is posted to Slack at most once, whatever the services answer and however it ends.
  pub handle_request_posts_once :
      AtMost is_slack_call 1 (handle_request library model_validate sv rq)
  unfolding handle_request
  handle_request_posts_once =
      AtMost-if (is_nil (strip rq.message))
        (throw (Exception.http_exception 400 (text "Message cannot be empty")))
        (process library model_validate sv rq (normalize_fingerprint rq.x_device_fingerprint))
        (record { at = λ w calls. omega arith })
        (process-AtMost (normalize_fingerprint rq.x_device_fingerprint))
