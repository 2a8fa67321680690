-- ===== src/Lookup/Retries.antt =====
-- How often a lookup is tried.
use request_o_matic.Base.{
  ℕ, zero, suc, ◌+◌, ◌*◌, ◌≡◌, Bool, true, false, Option, none, some, arith, ◌∷◌, refl,
}
use request_o_matic.Exec.{Exception, Result, ok, raised, Call, Exec}
use request_o_matic.Exec.AtMost.{AtMost, AtMost->>=, AtMost-attempt, AtMost-weaken}
use request_o_matic.Json.{Json}
use request_o_matic.Lookup.{
  LookupClient, LookupResult, post_lookup, attempts, lookup, retry_or_raise,
}
use request_o_matic.Metadata.{LookupRequest, LookupResponse}

abbrev pub is_lookup_call : Call → Bool
is_lookup_call (Call.lml_lookup request skip_cache headers) = true
is_lookup_call c = false

-- A bound on the calls of one round bounds those of the loop; waiting is not counted.
module _ {p : Call → Bool} (wait : p Call.sleep ≡ false)
    (model_validate : Json → Option LookupResponse) (c : LookupClient) (request : LookupRequest)
    (skip : Bool) (k : ℕ) (round : AtMost p k (post_lookup model_validate c request skip)) where
  retry_or_raise-AtMost :
      (left n : ℕ) (again : Exception → Exec LookupResult)
      → ((e : Exception) → AtMost p n (again e))
      → (r : Result LookupResult) → AtMost p n (retry_or_raise left again r)
  unfolding retry_or_raise
  retry_or_raise-AtMost left n again h (ok r) = record { at = λ w calls. omega arith }
  retry_or_raise-AtMost left n again h (raised e) = record {
    at = λ w calls. ground (arith, (h e).at w calls, (h e).at w (Call.sleep ∷ calls));
  }

  pub attempts-AtMost :
      (left : ℕ) (last : Option Exception)
      → AtMost p (left * k) (attempts model_validate c request skip left last)
  unfolding attempts
  attempts-AtMost zero none = record { at = λ w calls. omega arith }
  attempts-AtMost zero (some e) = record { at = λ w calls. omega arith }
  attempts-AtMost (suc left) last =
      AtMost-weaken (k + left * k) (suc left * k) _
        (AtMost->>= k (left * k) _ _ (AtMost-attempt _ round)
          (retry_or_raise-AtMost left (left * k) _ (λ e. attempts-AtMost left (some e))))
        (omega arith)

post_lookup-once :
    (model_validate : Json → Option LookupResponse) (c : LookupClient) (request : LookupRequest)
    (skip : Bool)
    → AtMost is_lookup_call 1 (post_lookup model_validate c request skip)
unfolding post_lookup
post_lookup-once model_validate c request skip = record { at = λ w calls. ground arith }

-- A lookup makes at most `max_attempts` calls of library-metadata-lookup.
pub lookup_bound :
    (model_validate : Json → Option LookupResponse) (c : LookupClient) (request : LookupRequest)
    (skip : Bool)
    → AtMost is_lookup_call c.max_attempts (lookup model_validate c request skip)
unfolding lookup
lookup_bound model_validate c request skip =
    AtMost-weaken _ _ _
      (attempts-AtMost refl model_validate c request skip 1
        (post_lookup-once model_validate c request skip) c.max_attempts none)
      (omega arith)
