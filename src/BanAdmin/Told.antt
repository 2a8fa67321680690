-- ===== src/BanAdmin/Told.antt =====
-- routers/admin.py: what an operator is told when something fails.
use request_o_matic.BanAdmin.{
  BanAdminClient, ban, unban, list_bans, headers, ban_payload, limit_param, cursor_param, read_json,
  read_deleted, reached, safe_json,
}
use request_o_matic.BanAdmin.Routes.{
  create_ban, delete_ban, get_bans, require_admin_token, check_token, is_bearer, two_parts,
  operator_result, operator_status, map_upstream_error, get_ban_admin_client, route,
}
use request_o_matic.BanCheck.Caught.{is_network_error-IsHttpError}
use request_o_matic.BanCheck.{is_network_error}
use request_o_matic.Exec.Httpx.{IsHttpError, IsHttpx, IsNetwork, IsSendError, IsUnsent}
use request_o_matic.Base.{
  ℕ, ◌≡◌, refl, Bool, true, not, ◌&&◌, ◌||◌, Option, none, some, List, ◌++◌, arith, Bool-cases,
  Option-cases, inl, inr, is_nil, ltb, between, ◌==◌,
}
use request_o_matic.Exec.{
  Call, Exec, World, Result, ok, raised, Exception, Response, ◌>>=◌, attempt,
}
use request_o_matic.Exec.Ensures.{
  Ensures, Outcome, Anything, Ensures->>=, Ensures-pure, Ensures-throw, Ensures-if, Ensures-attempt,
}
use request_o_matic.Json.{Json, string}
use request_o_matic.Text.{Text}
use request_o_matic.Text.Url.{quote}

abbrev pub IsBanError : Exception → Type 0
IsBanError (Exception.ban_admin_client_error status body) = Unit {0}
IsBanError e = ⊥

-- The client's exception, or one of those that stop a request before it is sent: the client does not
-- catch the latter.
abbrev pub IsBanFailure : Exception → Type 0
IsBanFailure (Exception.ban_admin_client_error status body) = Unit {0}
IsBanFailure e = IsUnsent e

-- A status that does not speak of the hop to Backend-Service: 502, or less than 500 and none of the
-- three.
abbrev pub is_operators : ℕ → Bool
is_operators status =
    status == 502 || (ltb status 500 && not (status == 401 || (status == 403 || status == 429)))

-- The operator's own refusals are texts; what comes from Backend-Service is a dict. What stops the
-- request before it is sent leaves the route as it is.
abbrev pub IsTold : Exception → Type 0
IsTold (Exception.http_exception status detail) =
    (status == 401 || (status == 403 || status == 503)) ≡ true
IsTold (Exception.http_exception_json status detail) = is_operators status ≡ true
IsTold e = IsUnsent e

operator_status_lem : (status : ℕ) → is_operators (operator_status status) ≡ true
operator_status_lem status = ground arith

module _ {w : World} {A : Type 0} where
  operator_result-IsTold :
      (r : Result A)
      → Outcome IsBanFailure Anything r
      → Ensures w IsTold Anything (operator_result r)
  unfolding operator_result map_upstream_error
  operator_result-IsTold (ok a) h = Ensures-pure a tt
  operator_result-IsTold (raised (Exception.ban_admin_client_error status body)) h =
      Ensures-throw _ (operator_status_lem status)
  operator_result-IsTold (raised e) h = record { at = λ calls. ground (arith, h) }

reached-IsBanError :
    (c : BanAdminClient) (r : Result Response)
    → Outcome IsHttpError Anything r
    → Outcome IsBanError Anything (reached c r)
unfolding reached
reached-IsBanError c (ok r) h = tt
reached-IsBanError c (raised e) h = rw (is_network_error-IsHttpError e h) tt

reached-IsBanFailure :
    (c : BanAdminClient) (r : Result Response)
    → Outcome IsSendError Anything r
    → Outcome IsBanFailure Anything (reached c r)
unfolding reached is_network_error
reached-IsBanFailure c (ok r) h = tt
reached-IsBanFailure c (raised Exception.invalid_url) h = tt
reached-IsBanFailure c (raised Exception.value_error) h = tt
reached-IsBanFailure c (raised e) h = ground (arith, h, is_network_error-IsHttpError e h)

-- Reading a reply adds no failure but the client's own.
module _ (c : BanAdminClient) (P : Exception → Type 0)
    (own : (status : ℕ) (body : Json) → P (Exception.ban_admin_client_error status body)) where
  safe_json-fails : (r : Response) → Outcome P Anything (safe_json r)
  unfolding safe_json
  safe_json-fails r = elim (Option-cases r.json) [
    | inl missing ↦ rw missing (own _ _)
    | inr (body, there) ↦ rw there tt
  ]

  read_json-fails :
      (r : Result Response) → Outcome P Anything r → Outcome P Anything (read_json c r)
  unfolding read_json
  read_json-fails (raised e) h = h
  read_json-fails (ok r) h = elim (Bool-cases (between 200 299 r.status)) [
    | inl success ↦ rw success (safe_json-fails r)
    | inr failure ↦ rw failure (own _ _)
  ]

  read_deleted-fails :
      (r : Result Response) → Outcome P Anything r → Outcome P Anything (read_deleted c r)
  unfolding read_deleted
  read_deleted-fails (raised e) h = h
  read_deleted-fails (ok r) h = elim (Bool-cases (r.status == 204)) [
    | inl success ↦ rw success tt
    | inr failure ↦ rw failure (own _ _)
  ]

check_token-IsTold :
    {w : World} (token : Text) (authorization : Option Text)
    → Ensures w IsTold Anything (check_token token authorization)
unfolding check_token
check_token-IsTold token none = Ensures-throw _ refl
check_token-IsTold token (some authorization) =
    Ensures-if (is_nil authorization) _ _ (λ e. Ensures-throw _ refl)
      (λ e.
        Ensures-if (is_bearer token (two_parts authorization)) _ _ (λ e'. Ensures-pure tt tt)
          (λ e'. Ensures-throw _ refl))

require_admin_token-IsTold :
    {w : World} (token authorization : Option Text)
    → Ensures w IsTold Anything (require_admin_token token authorization)
unfolding require_admin_token
require_admin_token-IsTold none authorization = Ensures-throw _ refl
require_admin_token-IsTold (some token) authorization =
    Ensures-if (is_nil token) _ _ (λ e. Ensures-throw _ refl)
      (λ e. check_token-IsTold token authorization)

get_ban_admin_client-IsTold :
    {w : World} (configured : Option BanAdminClient)
    → Ensures w IsTold Anything (get_ban_admin_client configured)
get_ban_admin_client-IsTold none = Ensures-throw _ refl
get_ban_admin_client-IsTold (some c) = Ensures-pure c tt

-- When every request can be made up, a ban fails with the client's own exception alone.
pub ban-IsBanError :
    {w : World} (network : IsNetwork w) (c : BanAdminClient) (fingerprint : Text) (reason : Json)
    (seconds : Option ℕ) (actor : Option Text)
    → Ensures w IsBanError Anything (ban c fingerprint reason seconds actor)
unfolding ban
ban-IsBanError {w} network c fingerprint reason seconds actor = record {
  at = λ calls.
      let call = Call.ban_post (headers c) (ban_payload c fingerprint reason seconds actor) in
      read_json-fails c IsBanError (λ status body. tt) _
        (reached-IsBanError c (w.http calls call) (network.http_raises calls call));
}

module _ {w : World} (httpx : IsHttpx w) (c : BanAdminClient) (calls : List Call)
    (call : Call) where
  reply-IsBanFailure : Outcome IsBanFailure Anything (reached c (w.http calls call))
  reply-IsBanFailure = reached-IsBanFailure c (w.http calls call) (httpx.http_raises calls call)

  json-IsBanFailure : Outcome IsBanFailure Anything (read_json c (reached c (w.http calls call)))
  json-IsBanFailure = read_json-fails c IsBanFailure (λ status body. tt) _ reply-IsBanFailure

  deleted-IsBanFailure :
      Outcome IsBanFailure Anything (read_deleted c (reached c (w.http calls call)))
  deleted-IsBanFailure = read_deleted-fails c IsBanFailure (λ status body. tt) _ reply-IsBanFailure

module _ {w : World} (httpx : IsHttpx w) (token authorization : Option Text)
    (configured : Option BanAdminClient) where
  abbrev pub Tells : {A : Type 0} → Exec A → Type 0
  Tells m = Ensures w IsTold Anything m

  route-IsTold :
      {A : Type 0} (body : BanAdminClient → Exec A)
      → ((c : BanAdminClient) → Ensures w IsBanFailure Anything (body c))
      → Tells (route token authorization configured body)
  route-IsTold body h =
      Ensures->>= {R = Anything} (require_admin_token token authorization)
        (λ _. get_ban_admin_client configured >>= λ c. attempt (body c) >>= λ r. operator_result r)
        (require_admin_token-IsTold token authorization)
        (λ _ t.
          Ensures->>= {R = Anything} (get_ban_admin_client configured)
            (λ c. attempt (body c) >>= λ r. operator_result r)
            (get_ban_admin_client-IsTold configured)
            (λ c t'.
              Ensures->>= (attempt (body c)) (λ r. operator_result r)
                (Ensures-attempt (body c) (h c)) operator_result-IsTold))

  -- Whatever Backend-Service answers and however httpx fails, an operator's request fails in one of three
  -- ways: with 401, 403 or 503 for the operator's own token or the configuration; for Backend-Service,
  -- with 502 or a status under 500 other than 401, 403 and 429; or with the `InvalidURL` or the
  -- `ValueError` of a request that httpx cannot make up, which is not mapped. httpx raises an
  -- `HTTPError`, an `InvalidURL` or a `ValueError`.
  pub routes-IsTold :
      (fingerprint reason : Text) (seconds limit : Option ℕ) (cursor : Option Text)
      → Tells (create_ban token authorization configured fingerprint reason seconds)
        × Tells (delete_ban token authorization configured fingerprint)
        × Tells (get_bans token authorization configured limit cursor)
  unfolding create_ban delete_ban get_bans ban unban list_bans
  routes-IsTold fingerprint reason seconds limit cursor = (
    route-IsTold (λ c. ban c fingerprint (string reason) seconds none)
        (λ c. record {
          at = λ calls.
              json-IsBanFailure httpx c calls (
                Call.ban_post (headers c) (ban_payload c fingerprint (string reason) seconds none));
        }),
    route-IsTold (λ c. unban c fingerprint)
        (λ c. record {
          at = λ calls.
              deleted-IsBanFailure httpx c calls (Call.ban_delete (headers c) (quote fingerprint));
        }),
    route-IsTold (λ c. list_bans c limit cursor)
        (λ c. record {
          at = λ calls.
              json-IsBanFailure httpx c calls
                (Call.ban_list (headers c) (limit_param c limit ++ cursor_param c cursor));
        }),
  )
