-- ===== src/Authorization/Closed.antt =====
-- services/slack_authorization.py: the set of those who may ban fails closed.
use request_o_matic.Base.{
  ◌≡◌, refl, ◌⊎◌, inl, inr, true, false, ◌&&◌, Option, none, some, List, [], ◌∷◌, ◌++◌, map, arith,
  Bool-cases,
}
use request_o_matic.Authorization.{
  AuthorizedUsers, given_entries, parse_authorized_users, is_authorized_slack_user, after_roster,
  resolve_authorized_users,
}
use request_o_matic.Exec.{Call, Result, ok, raised, World}
use request_o_matic.Exec.Ensures.{Outcome}
use request_o_matic.Moderators.{ModeratorClient, list_moderators, read_roster, headers}
use request_o_matic.Exec.Httpx.{IsHttpx}
use request_o_matic.Moderators.Funnel.{read_roster-Refuses, Refuses}
use request_o_matic.Text.{Text, text_eq, text_eq_iff, split, strip, lstrip, rstrip, is_given}
use request_o_matic.Text.Order.{has_text}
use request_o_matic.Json.{string}

has_text-given_entries :
    (u : Text) (entries : List Text)
    → has_text u (given_entries entries) ≡ (is_given (some u) && has_text u (map strip entries))
unfolding has_text given_entries
has_text-given_entries u [] = ground arith
has_text-given_entries u (e ∷ es) = elim (Bool-cases (is_given (some (strip e)))) [
  | inl given ↦
      rw (given, given_entries)
        (ground (arith, has_text-given_entries u es, text_eq_iff (strip e) u))
  | inr blank ↦
      rw (blank, given_entries)
        (ground (arith, has_text-given_entries u es, text_eq_iff (strip e) u))
]

abbrev pub entries_of : Option Text → List Text
entries_of none = []
entries_of (some csv) = split b',' csv

-- A user is on the allowlist exactly if the user's ID is not empty and is one of the entries between
-- the commas, but for the white space around the entry.
pub is_authorized_slack_user_iff :
    (user_id : Text) (allowlist_csv : Option Text)
    → is_authorized_slack_user (string user_id) allowlist_csv
      ≡ (is_given (some user_id) && has_text user_id (map strip (entries_of allowlist_csv)))
unfolding is_authorized_slack_user split strip lstrip rstrip has_text text_eq
is_authorized_slack_user_iff u none = refl
is_authorized_slack_user_iff [] (some []) = refl
is_authorized_slack_user_iff (c ∷ u) (some []) = refl
is_authorized_slack_user_iff u (some (d ∷ csv)) =
    ground (arith, has_text-given_entries u (split b',' (d ∷ csv)))

abbrev pub IsResolved :
    World → List Call → Option ModeratorClient → Option Text → AuthorizedUsers → Type 0
IsResolved w calls client csv a =
    ((a.degraded ≡ true) × (a.users ≡ parse_authorized_users csv))
    ⊎ ((c : ModeratorClient) × (stored : List Text) × (client ≡ some c)
        × (read_roster c (w.http calls (Call.roster_get (headers c))) ≡ ok stored)
        × (a.degraded ≡ false)
        × (a.users ≡ parse_authorized_users csv ++ stored))

found :
    (w : World) (calls : List Call) (c : ModeratorClient) (csv : Option Text)
    (r : Result (List Text)) (later : List Call)
    → read_roster c (w.http calls (Call.roster_get (headers c))) ≡ r
    → Refuses r
    → Outcome
        (λ e. ⊥)
        (IsResolved w calls (some c) csv)
        (after_roster (parse_authorized_users csv) r w later).0
unfolding after_roster
found w calls c csv (ok stored) later e h = inr (c, stored, refl, e, refl, refl)
found w calls c csv (raised x) later e h = ground (arith, h)

-- Finding out who may ban never fails, as long as httpx raises an `HTTPError`, an `InvalidURL` or a
-- `ValueError`. What is found is either the allowlist alone, marked as degraded, or the allowlist with
-- a roster that Backend-Service did send, and not marked.
pub resolve_fails_closed :
    {w : World} (httpx : IsHttpx w) (calls : List Call) (client : Option ModeratorClient)
    (allowlist_csv : Option Text)
    → Outcome
        (λ e. ⊥)
        (IsResolved w calls client allowlist_csv)
        (resolve_authorized_users client allowlist_csv w calls).0
unfolding resolve_authorized_users list_moderators
resolve_fails_closed httpx calls none csv = inl (refl, refl)
resolve_fails_closed {w} httpx calls (some c) csv =
    found w calls c csv (read_roster c (w.http calls (Call.roster_get (headers c)))) _ refl (
      read_roster-Refuses c (w.http calls (Call.roster_get (headers c)))
        (httpx.http_raises calls (Call.roster_get (headers c))))
