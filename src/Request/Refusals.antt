-- ===== src/Request/Refusals.antt =====
-- After the refusals nothing raises their 403.
use request_o_matic.Base.{sym, ◌∙◌, Bool, true, false, Option, none, some, [], ◌∷◌, arith, not}
use request_o_matic.Exec.{
  Call, Exec, World, Result, ok, raised, Exception, pure, throw, ◌>>=◌, ◌>>◌, deliver, note, when,
}
use request_o_matic.Exec.Ensures.{
  Ensures, Outcome, Anything, Ensures->>=, Ensures-if, Ensures-weaken,
}
use request_o_matic.Json.{Json}
use request_o_matic.Lookup.{LookupResult}
use request_o_matic.Metadata.{LookupResponse, ParsedRequest}
use request_o_matic.Parser.Album.{extract_album_prefix}
use request_o_matic.Parser.{Library, parse_request, user_prompt, groq_message}
use request_o_matic.Request.{Incoming, Services, UnifiedResponse}
use request_o_matic.Request.Foreign.{
  NotHttp, NotBlocked, NotHttp-NotBlocked, IsForeign, Passes, search-Foreign, post_results-Passes,
  post_degraded-Passes, deliver-Passes,
}
use request_o_matic.Request.Handler.{
  parse_step, after_parse, deliver_results, post_outcome, non_request, parsing_unavailable,
  answer_request, is_http_exception, severity_of,
}
use request_o_matic.Request.Search.{search, Findings, findings_of}
use mathlib.Core.Bool.{false≢true}
use request_o_matic.Text.{Text, text}

module _ {w : World} (foreign : IsForeign w) where
  parse_step-Foreign :
      (library : Library) (rq : Incoming)
      → Ensures w NotBlocked (Outcome NotHttp Anything) (parse_step library rq)
  unfolding parse_step parse_request
  parse_step-Foreign library rq = record {
    at = λ calls. ground (
      arith,
      foreign.complete_foreign (Call.record_api_call (text "groq") ∷ calls) (
          Call.groq_chat (
            user_prompt
              (groq_message library rq.message (extract_album_prefix library.unicode rq.message)))),
    );
  }

  module _ (sv : Services) (rq : Incoming) (normalized : Option Text) (degraded : Bool) where
    post_outcome-Passes :
        (f : Findings) (outcome : Result LookupResult)
        → Passes foreign (post_outcome sv rq normalized degraded f outcome)
    unfolding post_outcome
    post_outcome-Passes f (raised e) =
        post_degraded-Passes foreign sv.slack rq.message (some f.parsed) _ rq.x_device_fingerprint
    post_outcome-Passes f (ok r) =
        post_results-Passes foreign sv.slack rq.message f.parsed f.items_with_artwork f.context
          rq.x_device_fingerprint

    -- an optional post, an optional delivery, a response
    finish-Passes :
        (post : Exec (Unit {0})) (b : Bool) (c : Call) (response : UnifiedResponse)
        → Passes foreign post
        → Passes foreign (post >> (when b (deliver c) >> pure response))
    finish-Passes post b c response h =
        Ensures->>= {P = NotBlocked} {Q = Anything} post (λ _. when b (deliver c) >> pure response)
          h
          (λ _ _.
            Ensures->>= {P = NotBlocked} {Q = Anything} (when b (deliver c)) (λ _. pure response)
              (deliver-Passes foreign b c) (λ _ _. record { at = λ calls. tt }))

    noted-Passes :
        (skip : Bool) (c : Call) (post : Exec (Unit {0}))
        → Passes foreign post
        → Passes foreign (when skip (note c >> post))
    noted-Passes true c post h = record { at = λ calls. h.at (c ∷ calls) }
    noted-Passes false c post h = record { at = λ calls. tt }

    when-Passes :
        (b : Bool) (post : Exec (Unit {0})) → Passes foreign post → Passes foreign (when b post)
    when-Passes true post h = h
    when-Passes false post h = record { at = λ calls. tt }

    parsing_unavailable-Passes :
        (e : Exception) → Passes foreign (parsing_unavailable sv rq normalized degraded e)
    unfolding parsing_unavailable
    parsing_unavailable-Passes e = record {
      at = λ calls.
          (finish-Passes _ sv.posthog _ _ (
              noted-Passes (not rq.skip_slack) (Call.record_api_call (text "slack")) _ (
                post_degraded-Passes foreign sv.slack rq.message none (text "Parsing unavailable")
                  rq.x_device_fingerprint))).at
            (Call.logged (severity_of e) ∷ calls);
    }

    non_request-Passes :
        (parsed : ParsedRequest) → Passes foreign (non_request sv rq normalized degraded parsed)
    unfolding non_request
    non_request-Passes parsed = finish-Passes _ sv.posthog _ _ (
        when-Passes (not rq.skip_slack) _
          (post_results-Passes foreign sv.slack rq.message parsed [] none rq.x_device_fingerprint))

    deliver_results-Passes :
        (f : Findings) (outcome : Result LookupResult)
        → Passes foreign (deliver_results sv rq normalized degraded f outcome)
    unfolding deliver_results
    deliver_results-Passes f outcome =
        finish-Passes _ sv.posthog _ _
          (noted-Passes (not rq.skip_slack) _ _ (post_outcome-Passes f outcome))

    module _ (model_validate : Json → Option LookupResponse) where
      answer_request-Passes :
          (parsed : ParsedRequest)
          → Passes foreign (answer_request sv rq normalized degraded model_validate parsed)
      unfolding answer_request
      answer_request-Passes parsed =
          Ensures->>= {P = NotBlocked} {Q = Anything} {R = Anything}
            (search model_validate sv rq parsed)
            (λ outcome.
              deliver_results sv rq normalized degraded (findings_of parsed outcome) outcome)
            (Ensures-weaken (search model_validate sv rq parsed) NotHttp-NotBlocked
              (search-Foreign foreign model_validate sv rq parsed))
            (λ outcome _. deliver_results-Passes (findings_of parsed outcome) outcome)

      pub after_parse-Passes :
          (r : Result ParsedRequest)
          → Outcome NotHttp Anything r
          → Passes foreign (after_parse sv rq normalized degraded model_validate r)
      unfolding after_parse
      after_parse-Passes (raised e) h =
          Ensures-if (is_http_exception e) (throw e)
            (parsing_unavailable sv rq normalized degraded e)
            (λ own. absurd (false≢true (sym h ∙ own))) (λ _. parsing_unavailable-Passes e)
      after_parse-Passes (ok parsed) _ =
          Ensures-if parsed.is_request
            (answer_request sv rq normalized degraded model_validate parsed)
            (non_request sv rq normalized degraded parsed) (λ _. answer_request-Passes parsed)
            (λ _. non_request-Passes parsed)

  pub parsed-Passes :
      (library : Library) (model_validate : Json → Option LookupResponse) (sv : Services)
      (rq : Incoming) (normalized : Option Text) (degraded : Bool)
      → Passes foreign
          (parse_step library rq >>= after_parse sv rq normalized degraded model_validate)
  parsed-Passes library model_validate sv rq normalized degraded =
      Ensures->>= {P = NotBlocked} {Q = Anything} (parse_step library rq) _
        (parse_step-Foreign library rq)
        (after_parse-Passes sv rq normalized degraded model_validate)
