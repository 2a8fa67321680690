-- ===== src/Metadata.antt =====
-- models.py with the fields of generated/api_models.py that the program reads, and the parsed
-- request of services/parser.py.
use request_o_matic.Base.{Bool, Option, none, List}
use request_o_matic.Base.Int.{ℤ}
use request_o_matic.Json.{Json}
use request_o_matic.Text.{Text, is_given}

pub data MessageType : Type 0 where
  request dj_message feedback other : MessageType

pub record ParsedRequest : Type 0 where
  pub song : Option Text
  pub album : Option Text
  pub artist : Option Text
  pub is_request : Bool
  pub message_type : MessageType
  pub raw_message : Text

-- `LibraryCatalogItem`
pub record LibraryItem : Type 0 where
  pub id : ℤ
  pub title : Option Text
  pub artist : Option Text
  pub call_number : Text
  pub library_url : Text

-- `DiscogsMatchResult`
pub record ReleaseMetadata : Type 0 where
  pub release_url : Text
  pub artwork_url : Option Text
  pub bandcamp_url : Option Text
  pub spotify_url : Option Text
  pub apple_music_url : Option Text
  pub youtube_music_url : Option Text
  pub soundcloud_url : Option Text

pub record LookupRequest : Type 0 where
  pub artist : Option Text
  pub song : Option Text
  pub album : Option Text
  pub raw_message : Option Text

pub record LookupResultItem : Type 0 where
  pub library_item : LibraryItem
  pub artwork : Option ReleaseMetadata

-- `cache_stats` is the dict that `model_dump` makes of the statistics.
pub record LookupResponse : Type 0 where
  pub results : Option (List LookupResultItem)
  pub search_type : Option Text
  pub song_not_found : Option Bool
  pub found_on_compilation : Option Bool
  pub context_message : Option Text
  pub corrected_artist : Option Text
  pub cache_stats : Option Json

-- `or` on two values of type `str | None`.
abbrev pub or_else : Option Text → Option Text → Option Text
or_else a b = elim (is_given a) [ Bool.true ↦ a | Bool.false ↦ b ]

-- The first link that is given; Bandcamp comes first.
unfoldable pub preview_url : ReleaseMetadata → Option Text
preview_url m = or_else m.bandcamp_url (
    or_else m.spotify_url
      (or_else m.apple_music_url (or_else m.youtube_music_url (or_else m.soundcloud_url none))))
