-- ===== src/Authorization.antt =====
-- services/slack_authorization.py: who may ban. A `frozenset` is a list that is read by membership.
pub mod Closed
use request_o_matic.Base.{
  Bool, true, false, ◌&&◌, Option, none, some, List, [], ◌∷◌, ◌++◌, map, if◌then◌else◌,
}
use request_o_matic.Exec.{Exception, Result, ok, raised, Exec, pure, throw, attempt, ◌>>=◌}
use request_o_matic.Json.{Json, string, optional}
use request_o_matic.Moderators.{ModeratorClient, list_moderators}
use request_o_matic.Text.{Text, text, split, strip, is_given}
use request_o_matic.Text.Order.{has_text}

pub record AuthorizedUsers : Type 0 where
  pub users : List Text
  pub degraded : Bool

-- `[entry.strip() for entry in entries if entry.strip()]`
unfoldable pub given_entries : List Text → List Text
given_entries [] = []
given_entries (entry ∷ entries) =
    if is_given (some (strip entry))
    then strip entry ∷ given_entries entries
    else given_entries entries

unfoldable pub parse_authorized_users : Option Text → List Text
unfolding given_entries
parse_authorized_users none = []
parse_authorized_users (some csv) =
    if is_given (some csv) then given_entries (split b',' csv) else []

-- `user_id` may be any JSON value.
unfoldable pub is_authorized_slack_user_in : Json → List Text → Bool
is_authorized_slack_user_in (string user_id) authorized =
    is_given (some user_id) && has_text user_id authorized
is_authorized_slack_user_in v authorized = false

unfoldable pub is_authorized_slack_user : Json → Option Text → Bool
unfolding is_authorized_slack_user_in parse_authorized_users
is_authorized_slack_user user_id allowlist_csv =
    is_authorized_slack_user_in user_id (parse_authorized_users allowlist_csv)

-- The `try` around the read of the roster.
unfoldable pub after_roster : List Text → Result (List Text) → Exec AuthorizedUsers
after_roster environment (ok stored) =
    pure (record { users = environment ++ stored; degraded = false })
after_roster environment (raised (Exception.moderator_client_error status body)) =
    pure (record { users = environment; degraded = true })
after_roster environment (raised e) = throw e

unfoldable pub resolve_authorized_users :
    Option ModeratorClient → Option Text → Exec AuthorizedUsers
unfolding after_roster
resolve_authorized_users none allowlist_csv =
    pure (record { users = parse_authorized_users allowlist_csv; degraded = true })
resolve_authorized_users (some client) allowlist_csv =
    attempt (list_moderators client) >>= after_roster (parse_authorized_users allowlist_csv)
