-- ===== src/Request/Foreign.antt =====
-- What the code after the refusals can raise: the other services raise exceptions of their own
-- libraries, never fastapi's `HTTPException`.
use request_o_matic.Base.{
  ℕ, zero, suc, ◌≡◌, refl, ◌≢◌, Bool, true, false, Option, none, some, List, ◌∷◌, arith,
  Option-cases, inl, inr,
}
use request_o_matic.Exec.{
  Call, Exec, World, Result, ok, raised, Exception, attempt, ◌>>=◌, deliver, when,
}
use request_o_matic.Exec.Ensures.{Ensures, Outcome, Anything, Ensures->>=, Ensures-attempt}
use request_o_matic.Json.{Json}
use request_o_matic.Lookup.{
  LookupClient, LookupResult, attempts, post_lookup, lookup, retry_or_raise, lookup_headers,
}
use request_o_matic.Metadata.{
  LookupRequest, LookupResponse, ParsedRequest, LibraryItem, ReleaseMetadata,
}
use request_o_matic.Request.{Incoming, Services}
use request_o_matic.Request.Admit.{blocked}
use request_o_matic.Request.Handler.{is_http_exception}
use request_o_matic.Request.Notify.{post_to_slack, post_results_to_slack, post_degraded_to_slack}
use request_o_matic.Request.Search.{search, after_lookup}
use request_o_matic.Slack.Service.{SlackService}
use request_o_matic.Text.{Text}

abbrev pub NotHttp : Exception → Type 0
NotHttp e = is_http_exception e ≡ false

abbrev pub NotBlocked : Exception → Type 0
NotBlocked e = e ≢ blocked

-- httpx, the Groq client and PostHog's know nothing of fastapi.
pub record IsForeign (w : World) : Type 0 where
  pub http_foreign : (calls : List Call) (c : Call) → Outcome NotHttp Anything (w.http calls c)
  pub complete_foreign :
      (calls : List Call) (c : Call) → Outcome NotHttp Anything (w.complete calls c)
  pub deliver_foreign :
      (calls : List Call) (c : Call) → Outcome NotHttp Anything (w.deliver calls c)

pub NotHttp-NotBlocked : (e : Exception) → NotHttp e → NotBlocked e
NotHttp-NotBlocked e h = ground arith

module _ {w : World} (foreign : IsForeign w) where
  abbrev pub Foreign : {A : Type 0} → Exec A → Type 0
  Foreign m = Ensures w NotHttp Anything m

  module _ (model_validate : Json → Option LookupResponse) where
    post_lookup-Foreign :
        (c : LookupClient) (request : LookupRequest) (skip : Bool)
        → Foreign (post_lookup model_validate c request skip)
    unfolding post_lookup
    post_lookup-Foreign c request skip = record {
      at = λ calls.
          ground
            (arith, foreign.http_foreign calls (Call.lml_lookup request skip (lookup_headers c)));
    }

    abbrev IsNotHttp : Option Exception → Type 0
    IsNotHttp none = Unit
    IsNotHttp (some e) = NotHttp e

    retry_or_raise-Foreign :
        (left : ℕ) (again : Exception → Exec LookupResult)
        → ((e : Exception) → NotHttp e → Foreign (again e))
        → (r : Result LookupResult) → Outcome NotHttp Anything r
        → Foreign (retry_or_raise left again r)
    unfolding retry_or_raise
    retry_or_raise-Foreign left again h (ok r) _ = record { at = λ calls. tt }
    retry_or_raise-Foreign left again h (raised e) k = record {
      at = λ calls. ground (arith, (h e k).at calls, (h e k).at (Call.sleep ∷ calls));
    }

    attempts-Foreign :
        (c : LookupClient) (request : LookupRequest) (skip : Bool) (left : ℕ)
        (last : Option Exception)
        → IsNotHttp last
        → Foreign (attempts model_validate c request skip left last)
    unfolding attempts
    attempts-Foreign c request skip zero none _ = record { at = λ calls. refl }
    attempts-Foreign c request skip zero (some e) h = record { at = λ calls. h }
    attempts-Foreign c request skip (suc left) last _ =
        Ensures->>= {P = NotHttp} (attempt (post_lookup model_validate c request skip)) _
          (Ensures-attempt (post_lookup model_validate c request skip)
            (post_lookup-Foreign c request skip))
          (retry_or_raise-Foreign left _ (λ e h. attempts-Foreign c request skip left (some e) h))

    after_lookup-Foreign :
        (r : Result LookupResult) → Outcome NotHttp Anything r → Foreign (after_lookup r)
    unfolding after_lookup
    after_lookup-Foreign (ok r) _ = record { at = λ calls. tt }
    after_lookup-Foreign (raised e) h = record { at = λ calls. ground arith }

    search_with-Foreign :
        (c : LookupClient) (request : LookupRequest) (skip : Bool)
        → Foreign (attempt (lookup model_validate c request skip) >>= after_lookup)
    unfolding lookup
    search_with-Foreign c request skip =
        Ensures->>= {P = NotHttp} (attempt (lookup model_validate c request skip)) after_lookup
          (Ensures-attempt (lookup model_validate c request skip)
            (attempts-Foreign c request skip c.max_attempts none tt))
          after_lookup-Foreign

    pub search-Foreign :
        (sv : Services) (rq : Incoming) (parsed : ParsedRequest)
        → Foreign (search model_validate sv rq parsed)
    unfolding search
    search-Foreign sv rq parsed = elim (Option-cases sv.lookup_client) [
      | inl missing ↦ rw (missing, search) (record { at = λ calls. tt })
      | inr (c, found) ↦ rw (found, search) (search_with-Foreign c _ rq.skip_cache)
    ]

  abbrev pub Passes : {A : Type 0} → Exec A → Type 0
  Passes m = Ensures w NotBlocked Anything m

  post_to_slack-Passes :
      (s : SlackService) (blocks : List Json) (fingerprint : Option Text)
      → Passes (post_to_slack s blocks fingerprint)
  unfolding post_to_slack
  post_to_slack-Passes s blocks fingerprint = record { at = λ calls. ground arith }

  pub post_results-Passes :
      (s : Option SlackService) (message : Text) (parsed : ParsedRequest)
      (found : List (LibraryItem × Option ReleaseMetadata)) (context fingerprint : Option Text)
      → Passes (post_results_to_slack s message parsed found context fingerprint)
  unfolding post_results_to_slack
  post_results-Passes none message parsed found context fingerprint = record { at = λ calls. tt }
  post_results-Passes (some s) message parsed found context fingerprint =
      post_to_slack-Passes s _ fingerprint

  pub post_degraded-Passes :
      (s : Option SlackService) (message : Text) (parsed : Option ParsedRequest) (remark : Text)
      (fingerprint : Option Text)
      → Passes (post_degraded_to_slack s message parsed remark fingerprint)
  unfolding post_degraded_to_slack
  post_degraded-Passes none message parsed remark fingerprint = record { at = λ calls. tt }
  post_degraded-Passes (some s) message parsed remark fingerprint =
      post_to_slack-Passes s _ fingerprint

  pub deliver-Passes : (b : Bool) (c : Call) → Passes (when b (deliver c))
  deliver-Passes true c = record { at = λ calls. ground (arith, foreign.deliver_foreign calls c) }
  deliver-Passes false c = record { at = λ calls. tt }
