-- ===== src/BanAdmin/Routes.antt =====
-- routers/admin.py and `require_admin_token` of core/dependencies.py: the operators' routes. The body
-- and the parameters are those that pydantic has validated.
use request_o_matic.Base.{
  ℕ, Bool, false, not, ◌&&◌, ◌||◌, Option, none, some, [], ◌∷◌, leb, ◌==◌, if◌then◌else◌, is_nil,
}
use request_o_matic.BanAdmin.{BanAdminClient, ban, unban, list_bans}
use request_o_matic.Exec.{Exception, Result, ok, raised, Exec, pure, throw, attempt, ◌>>=◌, ◌>>◌}
use request_o_matic.Json.{Json, string, natural, obj}
use request_o_matic.Text.Case.{lower}
use request_o_matic.Text.{Text, text, text_eq, strip, lstrip, span, is_space, is_given}

-- `_UPSTREAM_FAULT_4XX`
abbrev is_upstream_fault : ℕ → Bool
is_upstream_fault status = status == 401 || (status == 403 || status == 429)

abbrev upstream_detail : ℕ → Json → Json
upstream_detail status body =
    obj ((text "upstream_status", natural status) ∷ (text "upstream_body", body) ∷ [])

abbrev pub operator_status : ℕ → ℕ
operator_status status =
    if status == 0 || (leb 500 status || is_upstream_fault status) then 502 else status

-- `_map_upstream_error`
unfoldable pub map_upstream_error : ℕ → Json → Exception
map_upstream_error status body =
    Exception.http_exception_json (operator_status status) (upstream_detail status body)

module _ {A : Type 0} where
  -- `except BanAdminClientError`
  unfoldable pub operator_result : Result A → Exec A
  unfolding map_upstream_error
  operator_result (ok a) = pure a
  operator_result (raised (Exception.ban_admin_client_error status body)) =
      throw (map_upstream_error status body)
  operator_result (raised e) = throw e

-- `authorization.strip().split(None, 1)`, when it has two parts
unfoldable pub two_parts : Text → Option (Text × Text)
two_parts authorization =
    let (scheme, rest) = span (λ c. not (is_space c)) (strip authorization) in
    let token = lstrip rest in if is_given (some token) then some (scheme, token) else none

unfoldable pub is_bearer : Text → Option (Text × Text) → Bool
is_bearer admin_token none = false
is_bearer admin_token (some (scheme, token)) =
    text_eq (lower scheme) (text "bearer") && text_eq token admin_token

unfoldable pub check_token : Text → Option Text → Exec (Unit {0})
unfolding two_parts is_bearer
check_token admin_token none = throw (Exception.http_exception 401 (text "Missing authorization"))
check_token admin_token (some authorization) =
    if is_nil authorization
    then throw (Exception.http_exception 401 (text "Missing authorization"))
    else if is_bearer admin_token (two_parts authorization)
    then pure tt
    else throw (Exception.http_exception 403 (text "Invalid token"))

unfoldable pub require_admin_token : Option Text → Option Text → Exec (Unit {0})
unfolding check_token
require_admin_token none authorization =
    throw (Exception.http_exception 403 (text "Admin endpoint disabled (no ADMIN_TOKEN set)"))
require_admin_token (some admin_token) authorization =
    if is_nil admin_token
    then throw (Exception.http_exception 403 (text "Admin endpoint disabled (no ADMIN_TOKEN set)"))
    else check_token admin_token authorization

abbrev pub unconfigured : Exception
unconfigured =
    Exception.http_exception 503
      (text "Ban admin upstream not configured: set BS_INTERNAL_BANS_URL and BS_INTERNAL_KEY")

abbrev pub get_ban_admin_client : Option BanAdminClient → Exec BanAdminClient
get_ban_admin_client none = throw unconfigured
get_ban_admin_client (some client) = pure client

module _ (admin_token authorization : Option Text) (configured : Option BanAdminClient) where
  -- The dependencies of a route, then its body.
  abbrev pub route : {A : Type 0} → (BanAdminClient → Exec A) → Exec A
  route body = do
    require_admin_token admin_token authorization
    client ← get_ban_admin_client configured
    answer ← attempt (body client)
    operator_result answer

  unfoldable pub create_ban : Text → Text → Option ℕ → Exec Json
  unfolding require_admin_token operator_result
  create_ban fingerprint reason expires_in_seconds =
      route (λ client. ban client fingerprint (string reason) expires_in_seconds none)

  unfoldable pub delete_ban : Text → Exec (Unit {0})
  unfolding require_admin_token operator_result
  delete_ban fingerprint = route (λ client. unban client fingerprint)

  unfoldable pub get_bans : Option ℕ → Option Text → Exec Json
  unfolding require_admin_token operator_result
  get_bans limit cursor = route (λ client. list_bans client limit cursor)
