-- ===== src/Request.antt =====
-- routers/request.py: the types of `POST /request` and the properties of its telemetry. The
-- children hold the Slack posts, the refusals, the search and the handler.
pub mod Notify
pub mod Admit
pub mod Search
pub mod Handler
pub mod Counts
pub mod Foreign
pub mod Refusals
pub mod Blocked
pub mod Refused
pub mod Reconcile
use request_o_matic.Base.{ℕ, Bool, Option, none, some, List, [], ◌∷◌, ◌++◌, take, if◌then◌else◌}
use request_o_matic.Base.Int.{ℤ}
use request_o_matic.Exec.{Properties}
use request_o_matic.Json.{Json, boolean, optional, string}
use request_o_matic.Lookup.{LookupClient}
use request_o_matic.Metadata.{ParsedRequest, LibraryItem, ReleaseMetadata}
use request_o_matic.Slack.Service.{SlackService}
use request_o_matic.Text.{Text, text, is_given}
use mathlib.Core.Option

-- The body and the three headers that the handler reads.
pub record Incoming : Type 0 where
  pub message : Text
  pub skip_slack : Bool
  pub skip_cache : Bool
  pub authorization : Option Text
  pub x_device_fingerprint : Option Text
  pub user_agent : Option Text

-- The injected services: whether there is a PostHog and a ban-check client, the two clients whose
-- fields matter, the setting of the User-Agent gate, and what `get_cache_stats` returns.
pub record Services : Type 0 where
  pub slack : Option SlackService
  pub posthog : Bool
  pub lookup_client : Option LookupClient
  pub ban_check_client : Bool
  pub strict_fingerprint_for_known_clients : Bool
  pub cache_stats : Json

pub record UnifiedResponse : Type 0 where
  pub parsed : Option ParsedRequest
  pub artwork : Option ReleaseMetadata
  pub library_results : List LibraryItem
  pub result_artworks : List (Option ReleaseMetadata)
  pub search_type : Text
  pub song_not_found : Bool
  pub found_on_compilation : Bool
  pub context_message : Option Text
  pub cache_stats : Json
  pub degraded_mode : Option Text

abbrev pub degraded_parsing : Text
degraded_parsing = text "parsing_unavailable"

abbrev pub degraded_search : Text
degraded_search = text "search_unavailable"

abbrev pub degraded_ban_check : Text
degraded_ban_check = text "ban_check_unavailable"

abbrev pub user_agent_max_length : ℕ
user_agent_max_length = 128

unfoldable pub bounded_user_agent : Option Text → Option Text
bounded_user_agent user_agent = Option.map (take user_agent_max_length) user_agent

pub data Disposition : Type 0 where
  present malformed absent : Disposition

unfoldable pub fingerprint_disposition : Option Text → Option Text → Disposition
fingerprint_disposition raw (some normalized) = present
fingerprint_disposition (some raw) none = malformed
fingerprint_disposition none none = absent

abbrev pub is_present : Disposition → Bool
is_present present = Bool.true
is_present d = Bool.false

abbrev pub is_malformed : Disposition → Bool
is_malformed malformed = Bool.true
is_malformed d = Bool.false

unfoldable pub caller_properties : Option Text → Option Text → Option Text → Properties
unfolding bounded_user_agent fingerprint_disposition
caller_properties user_agent raw normalized =
    let disposition = fingerprint_disposition raw normalized in
    (text "user_agent", optional (bounded_user_agent user_agent))
    ∷ (text "has_fingerprint", boolean (is_present disposition))
    ∷ (text "fingerprint_malformed", boolean (is_malformed disposition))
    ∷ []

-- A property that is set only for a usable fingerprint: the normalized value, in full.
abbrev pub fingerprint_property : Option Text → Properties
fingerprint_property none = []
fingerprint_property (some f) =
    if is_given (some f) then (text "fingerprint", string f) ∷ [] else []
