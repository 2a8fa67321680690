-- ===== src/Request/Refused.antt =====
-- routers/request.py, `handle_request`: the 403, from the first statement to the last.
use request_o_matic.Base.{
  ◌≡◌, refl, sym, ◌∙◌, ap, subst, ◌↔◌, true, false, Option, List, [], ◌∷◌, arith, is_nil, All,
}
use request_o_matic.BanCheck.Down.{is_down, is_unavailable, read_reply-is_down}
use request_o_matic.BanCheck.{BanCheckResult, ban_check_headers}
use request_o_matic.Exec.{Call, Exec, World, Result, ok, raised, resume}
use request_o_matic.Exec.Ensures.{Outcome, Anything}
use request_o_matic.Exec.Httpx.{IsHttpx}
use mathlib.Core.Bool.{false≢true}
use request_o_matic.Fingerprint.{normalize_fingerprint}
use request_o_matic.Fingerprint.Shape.{normalize_fingerprint_idem}
use request_o_matic.Json.{Json}
use request_o_matic.Metadata.{LookupResponse}
use request_o_matic.Parser.{Library}
use request_o_matic.Request.{Incoming, Services}
use request_o_matic.Request.Admit.{blocked, is_gated, admit, after_ban_check}
use request_o_matic.Request.Blocked.{
  IsQuiet, is_asked, IsRefused, admit_open, ban_gate_ask, admit-IsRefused, admit-blocked,
  admit-IsQuiet,
}
use request_o_matic.Request.Foreign.{NotBlocked, IsForeign, Passes}
use request_o_matic.Request.Handler.{process, handle_request}
use request_o_matic.Request.Refusals.{parsed-Passes}
use request_o_matic.Text.{Text, strip}

module _ (w : World) (sv : Services) (calls : List Call) where
  unavailable-passes :
      (v : Result BanCheckResult)
      → is_unavailable v ≡ true
      → after_ban_check sv v w calls ≡ (ok true, calls)
  unfolding after_ban_check
  unavailable-passes (ok r) h = absurd (false≢true h)
  unavailable-passes (raised e) h = ground (arith, h)

  passes-unavailable :
      (v : Result BanCheckResult)
      → after_ban_check sv v w calls ≡ (ok true, calls)
      → is_unavailable v ≡ true
  unfolding after_ban_check
  passes-unavailable (ok r) h = ground (arith, ap (λ p. p.0) h)
  passes-unavailable (raised e) h = ground (arith, ap (λ p. p.0) h)

-- When the gate is open and Backend-Service is asked, the refusals are over after that one call, and the
-- request goes on, marked as one whose ban check was degraded, exactly if the reply is down: httpx raised
-- an `HTTPError`, or the status is none of 200, 401 and 404, or it is 200 and the body is no JSON, or a
-- dict, a list or a text in which there is no `banned`. httpx raises what it documents.
pub fail_open :
    (w : World) (sv : Services) (rq : Incoming)
    → IsHttpx w
    → is_gated sv rq (normalize_fingerprint rq.x_device_fingerprint) ≡ false
    → is_asked w sv rq (normalize_fingerprint rq.x_device_fingerprint) ≡ true
    → (admit sv rq (normalize_fingerprint rq.x_device_fingerprint) w [] ≡ (
      ok true,
      Call.ban_check
            (ban_check_headers rq.authorization (normalize_fingerprint rq.x_device_fingerprint))
          ∷ [],
    ))
      ↔ (is_down (
            w.http [] (
              Call.ban_check (
                ban_check_headers rq.authorization
                  (normalize_fingerprint rq.x_device_fingerprint))))
          ≡ true)
fail_open w sv rq httpx open_gate asked =
    let normalized = normalize_fingerprint rq.x_device_fingerprint in
    let call = Call.ban_check (ban_check_headers rq.authorization normalized) in
    let settled =
      admit_open w sv rq normalized open_gate
      ∙ ban_gate_ask w sv rq normalized asked
          (normalize_fingerprint_idem rq.x_device_fingerprint) in
    let read = read_reply-is_down (w.http [] call) (httpx.http_raises [] call) in
    (
      λ h. sym read ∙ passes-unavailable w sv (call ∷ []) _ (sym settled ∙ h),
      λ down. settled ∙ unavailable-passes w sv (call ∷ []) _ (read ∙ down),
    )

module _ {w : World} (foreign : IsForeign w) {A B : Type 0} (f : A → Exec B)
    (passes : (a : A) → Passes foreign (f a)) where
  -- When what follows never refuses, the refusal is the first part's, and nothing follows it.
  resume-blocked :
      (r : Result A) (later : List Call)
      → (resume f w r later).0 ≡ raised blocked
      → (r ≡ raised blocked) × ((resume f w r later).1 ≡ later)
  resume-blocked (ok a) later h =
      absurd (subst (Outcome NotBlocked Anything) h ((passes a).at later) refl)
  resume-blocked (raised e) later h = (ground (arith, h), refl)

module _ (library : Library) (model_validate : Json → Option LookupResponse) (sv : Services)
    (rq : Incoming) where
  abbrev usable_fingerprint : Option Text
  usable_fingerprint = normalize_fingerprint rq.x_device_fingerprint

  handle-process :
      (w : World)
      → is_nil (strip rq.message) ≡ false
      → handle_request library model_validate sv rq w []
        ≡ process library model_validate sv rq usable_fingerprint w []
  unfolding handle_request
  handle-process w h = rw h

  handle-blocked :
      (w : World)
      → (handle_request library model_validate sv rq w []).0 ≡ raised blocked
      → is_nil (strip rq.message) ≡ false
  unfolding handle_request
  handle-blocked w h = ground (arith, h)

  module _ {w : World} (foreign : IsForeign w) where
    process-blocked :
        (process library model_validate sv rq usable_fingerprint w []).0 ≡ raised blocked
        → ((admit sv rq usable_fingerprint w []).0 ≡ raised blocked)
          × ((process library model_validate sv rq usable_fingerprint w []).1
              ≡ (admit sv rq usable_fingerprint w []).1)
    unfolding process
    process-blocked h =
        resume-blocked foreign _
          (parsed-Passes foreign library model_validate sv rq usable_fingerprint)
          (admit sv rq usable_fingerprint w []).0 _ h

    -- The handler answers "Request blocked" with 403 exactly when the message is not blank and either
    -- the User-Agent gate closes (it is on, the client is a strict one and sent no usable
    -- fingerprint) or Backend-Service was asked and reported the caller as banned. It holds when the
    -- HTTP client, Groq and PostHog raise no exception of fastapi's.
    pub blocked_iff :
        ((handle_request library model_validate sv rq w []).0 ≡ raised blocked)
        ↔ ((is_nil (strip rq.message) ≡ false) × IsRefused w sv rq usable_fingerprint)
    unfolding process
    blocked_iff = (forth, back)
      where
        forth :
            (handle_request library model_validate sv rq w []).0 ≡ raised blocked
            → (is_nil (strip rq.message) ≡ false) × IsRefused w sv rq usable_fingerprint
        forth h = (
          handle-blocked w h,
          admit-blocked w sv rq usable_fingerprint
              (normalize_fingerprint_idem rq.x_device_fingerprint) foreign
              (process-blocked (ap (λ p. p.0) (sym (handle-process w (handle-blocked w h))) ∙ h)).0,
        )

        back :
            ((is_nil (strip rq.message) ≡ false) × IsRefused w sv rq usable_fingerprint)
            → (handle_request library model_validate sv rq w []).0 ≡ raised blocked
        back (given, refused) =
            ap (λ p. p.0) (handle-process w given)
            ∙ rw (
                admit-IsRefused w sv rq usable_fingerprint
                  (normalize_fingerprint_idem rq.x_device_fingerprint) refused)

    -- A request that is answered with that 403 has reached neither Groq nor the search nor Slack:
    -- at most the ban check and the capture of the event were called. It holds under the same
    -- condition on the services.
    pub blocked-IsQuiet :
        (handle_request library model_validate sv rq w []).0 ≡ raised blocked
        → All IsQuiet (handle_request library model_validate sv rq w []).1
    blocked-IsQuiet h =
        let reached = handle-process w (handle-blocked w h) in
        subst (λ p. All IsQuiet p.1) (sym reached)
          (subst (All IsQuiet) (sym (process-blocked (ap (λ p. p.0) (sym reached) ∙ h)).1) (
            admit-IsQuiet w sv rq usable_fingerprint
              (normalize_fingerprint_idem rq.x_device_fingerprint)))
