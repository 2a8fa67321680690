-- ===== src/Lookup.antt =====
-- services/lookup_client.py: a lookup with retries on a failed connection only.
pub mod Retries
pub mod Rounds
use request_o_matic.Base.{
  ℕ, zero, suc, ◌-◌, Bool, true, false, Option, none, some, List, [], ◌∷◌, ◌++◌, ltb, if◌then◌else◌,
}
use request_o_matic.Exec.{
  Exception, Result, ok, raised, Headers, Response, Call, Exec, pure, throw, lift, attempt, ◌>>=◌,
  ◌>>◌, http, note, when,
}
use request_o_matic.Json.{Json}
use request_o_matic.Metadata.{LookupRequest, LookupResponse}
use request_o_matic.Slack.Service.{raise_for_status}
use request_o_matic.Text.{Text, text, is_given}

pub record LookupResult : Type 0 where
  pub response : LookupResponse
  pub server_timing : Option Text

-- `budget` is the text of `_effective_caller_budget_ms`.
pub record LookupClient : Type 0 where
  pub api_key : Option Text
  pub max_attempts : ℕ
  pub budget : Text

-- `_effective_caller_budget_ms`, from the time-out in whole milliseconds. The subtraction may stop
-- at 0, since the floor is above it.
unfoldable pub effective_caller_budget_ms : Option ℕ → ℕ → ℕ
effective_caller_budget_ms (some budget) timeout_ms = budget
effective_caller_budget_ms none timeout_ms =
    if ltb (timeout_ms - 200) 1000 then 1000 else timeout_ms - 200

abbrev auth_headers : Option Text → Headers
auth_headers none = []
auth_headers (some key) =
    if is_given (some key) then (text "Authorization", text "Bearer " ++ key) ∷ [] else []

unfoldable pub lookup_headers : LookupClient → Headers
lookup_headers c = auth_headers c.api_key ++ ((text "X-Caller-Budget-Ms", c.budget) ∷ [])

abbrev is_retryable : Exception → Bool
is_retryable Exception.connect_error = true
is_retryable e = false

-- `raise last_exc`, where `raise None` is a `TypeError`
abbrev raise_last : Option Exception → Exec LookupResult
raise_last none = throw Exception.type_error
raise_last (some e) = throw e

-- The `except` of one round, where `again` is the rest of the loop after it.
unfoldable pub retry_or_raise :
    ℕ → (Exception → Exec LookupResult) → Result LookupResult → Exec LookupResult
retry_or_raise left again (ok result) = pure result
retry_or_raise left again (raised e) =
    if is_retryable e then (when (ltb 0 left) (note Call.sleep) >> again e) else throw e

-- `LookupResponse.model_validate` is pydantic's: a refusal is a `ValueError`.
module _ (model_validate : Json → Option LookupResponse) where
  abbrev validated : Option Json → Result LookupResponse
  validated none = raised Exception.value_error
  validated (some body) = elim (model_validate body) [
    | none ↦ raised Exception.value_error
    | some response ↦ ok response
  ]

  unfoldable pub post_lookup : LookupClient → LookupRequest → Bool → Exec LookupResult
  unfolding raise_for_status
  post_lookup c request skip_cache = do
    reply ← http (Call.lml_lookup request skip_cache (lookup_headers c))
    raise_for_status reply
    response ← lift (validated reply.json)
    pure (record { response = response; server_timing = reply.server_timing })

  -- The rounds of `for attempt in range(1, max_attempts + 1)` that are left.
  unfoldable pub attempts :
      LookupClient → LookupRequest → Bool → ℕ → Option Exception → Exec LookupResult
  unfolding post_lookup retry_or_raise
  attempts c request skip_cache zero last = raise_last last
  attempts c request skip_cache (suc left) last =
      attempt (post_lookup c request skip_cache)
      >>= retry_or_raise left (λ e. attempts c request skip_cache left (some e))

  unfoldable pub lookup : LookupClient → LookupRequest → Bool → Exec LookupResult
  unfolding attempts
  lookup c request skip_cache = attempts c request skip_cache c.max_attempts none
