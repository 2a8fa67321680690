-- ===== src/Request/Search.antt =====
-- routers/request.py: the call of library-metadata-lookup, and what the handler makes of the answer.
use request_o_matic.Base.{
  Bool, true, false, ◌&&◌, Option, none, some, List, [], ◌∷◌, map, is_nil, ltb, length,
  if◌then◌else◌,
}
use request_o_matic.Base.Int.{is_positive}
use request_o_matic.Exec.{Exception, Result, ok, raised, Exec, pure, throw, attempt, ◌>>=◌}
use request_o_matic.Json.{Json}
use request_o_matic.Lookup.{LookupResult, lookup}
use request_o_matic.Metadata.{
  ParsedRequest, LibraryItem, ReleaseMetadata, LookupRequest, LookupResultItem, LookupResponse,
}
use request_o_matic.Request.{Incoming, Services}
use request_o_matic.Request.Notify.{not_in_library_context}
use request_o_matic.Text.{Text, text, is_given}

-- `_LML_TRANSIENT_ERRORS`
unfoldable pub is_lml_transient : Exception → Bool
is_lml_transient (Exception.http_status_error status) = true
is_lml_transient Exception.connect_error = true
is_lml_transient Exception.timeout_exception = true
is_lml_transient e = false

abbrev lookup_request : ParsedRequest → Text → LookupRequest
lookup_request parsed message = record {
  artist = parsed.artist;
  song = parsed.song;
  album = parsed.album;
  raw_message = some message;
}

-- The answer, or `lookup_failure`; any other exception leaves the handler.
unfoldable pub after_lookup : Result LookupResult → Exec (Result LookupResult)
unfolding is_lml_transient
after_lookup (ok r) = pure (ok r)
after_lookup (raised e) = if is_lml_transient e then pure (raised e) else throw e

module _ (model_validate : Json → Option LookupResponse) where
  unfoldable pub search : Services → Incoming → ParsedRequest → Exec (Result LookupResult)
  unfolding after_lookup
  search sv rq parsed = elim sv.lookup_client [
    | none ↦ pure (raised Exception.runtime_error)
    | some c ↦
        attempt (lookup model_validate c (lookup_request parsed rq.message) rq.skip_cache)
        >>= after_lookup
  ]

-- The local variables of the handler after `if lookup_response is not None`.
pub record Findings : Type 0 where
  pub parsed : ParsedRequest
  pub items_with_artwork : List (LibraryItem × Option ReleaseMetadata)
  pub search_type : Text
  pub song_not_found : Bool
  pub found_on_compilation : Bool
  pub context : Option Text
  pub cache_stats_override : Option Json

unfoldable pub no_findings : ParsedRequest → Findings
no_findings parsed = record {
  parsed = parsed;
  items_with_artwork = [];
  search_type = text "none";
  song_not_found = false;
  found_on_compilation = false;
  context = none;
  cache_stats_override = none;
}

-- `[item for item in results if item.library_item.id > 0]`
unfoldable pub shelved : List LookupResultItem → List LookupResultItem
shelved [] = []
shelved (r ∷ rs) = if is_positive r.library_item.id then r ∷ shelved rs else shelved rs

abbrev pub results_of : LookupResponse → List LookupResultItem
results_of response = elim response.results [ none ↦ [] | some rs ↦ rs ]

abbrev pub with_artwork : LookupResultItem → LibraryItem × Option ReleaseMetadata
with_artwork r = (r.library_item, r.artwork)

abbrev pub truth : Option Bool → Bool
truth none = false
truth (some b) = b

unfoldable pub correct_artist : ParsedRequest → Option Text → ParsedRequest
correct_artist parsed corrected =
    if is_given corrected then record parsed { artist = corrected } else parsed

abbrev search_type_of : Option Text → Text
search_type_of none = text "none"
search_type_of (some t) = if is_given (some t) then t else text "none"

-- Whether the filter, and not the service, has emptied the list.
unfoldable pub is_emptied : List LookupResultItem → Bool
is_emptied received = ltb (length (shelved received)) (length received) && is_nil (shelved received)

unfoldable pub reconcile : ParsedRequest → LookupResponse → Findings
unfolding correct_artist is_emptied
reconcile parsed response =
    let corrected = correct_artist parsed response.corrected_artist in
    let received = results_of response in
    let emptied = is_emptied received in
    record {
      parsed = corrected;
      items_with_artwork = map with_artwork (shelved received);
      search_type = search_type_of response.search_type;
      song_not_found = if emptied then true else truth response.song_not_found;
      found_on_compilation = if emptied then false else truth response.found_on_compilation;
      context =
          if emptied
          then not_in_library_context corrected parsed.artist
          else response.context_message;
      cache_stats_override = response.cache_stats;
    }

unfoldable pub findings_of : ParsedRequest → Result LookupResult → Findings
unfolding reconcile no_findings
findings_of parsed (ok r) = reconcile parsed r.response
findings_of parsed (raised e) = no_findings parsed
