-- ===== src/Lookup/Rounds.antt =====
-- services/lookup_client.py: when the loop of `lookup` goes round again.
use request_o_matic.Base.{
  ℕ, zero, suc, ◌+◌, ◌≡◌, Bool, true, false, Option, none, some, List, [], ◌∷◌, arith, ltb, refl,
}
use request_o_matic.Exec.{Exception, Result, ok, raised, Call, Exec, World}
use request_o_matic.Exec.AtMost.{count}
use request_o_matic.Json.{Json}
use request_o_matic.Lookup.{
  LookupClient, LookupResult, post_lookup, attempts, lookup, retry_or_raise, lookup_headers,
}
use request_o_matic.Lookup.Retries.{is_lookup_call}
use request_o_matic.Metadata.{LookupRequest, LookupResponse}

abbrev pub is_connect_failure : Result LookupResult → Bool
is_connect_failure (raised Exception.connect_error) = true
is_connect_failure r = false

retry_settled :
    (left : ℕ) (again : Exception → Exec LookupResult) (w : World) (r : Result LookupResult)
    (calls : List Call)
    → is_connect_failure r ≡ false
    → retry_or_raise left again r w calls ≡ (r, calls)
unfolding retry_or_raise
retry_settled left again w (ok r) calls h = refl
retry_settled left again w (raised e) calls h = ground (arith, h)

module _ (model_validate : Json → Option LookupResponse) (c : LookupClient)
    (request : LookupRequest) (skip : Bool) (w : World) where
  module _
      (refused : (calls : List Call) (call : Call)
        → w.http calls call ≡ raised Exception.connect_error) where
    post_lookup-refused :
        (calls : List Call)
        → post_lookup model_validate c request skip w calls ≡ (
          raised Exception.connect_error,
          Call.lml_lookup request skip (lookup_headers c) ∷ calls,
        )
    unfolding post_lookup
    post_lookup-refused calls = rw (refused calls (Call.lml_lookup request skip (lookup_headers c)))

    abbrev IsRefusedAfter : ℕ → List Call → Result LookupResult × List Call → Type 0
    IsRefusedAfter n calls p =
        (p.0 ≡ raised Exception.connect_error)
        × (count is_lookup_call p.1 ≡ count is_lookup_call calls + n)

    attempts-refused :
        (left : ℕ) (calls : List Call)
        → IsRefusedAfter left calls
            (attempts model_validate c request skip left (some Exception.connect_error) w calls)
    unfolding attempts retry_or_raise
    attempts-refused zero calls = (refl, omega arith)
    attempts-refused (suc left) calls =
        let sent = Call.lml_lookup request skip (lookup_headers c) ∷ calls in
        rw (post_lookup-refused calls)
          (ground (arith, attempts-refused left sent, attempts-refused left (Call.sleep ∷ sent)))

    start-refused :
        (left : ℕ)
        → ltb 0 left ≡ true
        → IsRefusedAfter left [] (attempts model_validate c request skip left none w [])
    unfolding attempts
    start-refused zero h = absurd (ground arith)
    start-refused (suc left) h = attempts-refused (suc left) []

    -- When every connection fails, a lookup is tried exactly `max_attempts` times, if that is not 0,
    -- and then raises the connection error.
    pub lookup_exhausts :
        ltb 0 c.max_attempts ≡ true
        → ((lookup model_validate c request skip w []).0 ≡ raised Exception.connect_error)
          × (count is_lookup_call (lookup model_validate c request skip w []).1 ≡ c.max_attempts)
    unfolding lookup
    lookup_exhausts h =
        let (raises, counted) = start-refused c.max_attempts h in (raises, omega (arith, counted))

  -- When `max_attempts` is not 0, a lookup whose first round ends in anything but a failed
  -- connection is not tried again: it ends as that round did, with the same calls.
  pub lookup_settles :
      ltb 0 c.max_attempts ≡ true
      → is_connect_failure (post_lookup model_validate c request skip w []).0 ≡ false
      → lookup model_validate c request skip w [] ≡ post_lookup model_validate c request skip w []
  unfolding lookup attempts
  lookup_settles h settled = settle c.max_attempts h
    where
      settle :
          (left : ℕ)
          → ltb 0 left ≡ true
          → attempts model_validate c request skip left none w []
            ≡ post_lookup model_validate c request skip w []
      settle zero h = absurd (ground arith)
      settle (suc left) h = retry_settled left _ w _ _ settled
