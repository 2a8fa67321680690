-- ===== src/Listeners.antt =====
-- Sample messages of listeners, and a theorem applied to each.
use request_o_matic.Base.{◌≡◌, refl, Option, none, some, ◌||◌, between, is_nil, false}
use request_o_matic.Parser.Album.{
  Unicode, extract_album_prefix, lstrip_of, rstrip_of, any_word, polite_from, trim_politeness,
  first_token, collapse, drop_host, feedback_from, trim_feedback, normalize_platform_text,
  close_quote, match_quoted, split_quoted_album, is_declined, trimmed, unquoted, read_title,
  read_match,
}
use request_o_matic.Parser.Split.{IsDivision, match_album-IsDivision}
use request_o_matic.Parser.Kept.{IsKept, extract_album_prefix-IsKept}
use request_o_matic.Parser.Words.{
  AlbumMatch, has_newline, any_preposition, prep_token_prescreen, match_preposition,
  shortest_prefix, match_album, has_by, has_comma, is_request_shaped, drop_descriptor,
}
use request_o_matic.Text.Case.{lower, is_alike, after_literal}
use request_o_matic.Text.Order.{has_text}
use request_o_matic.Text.{Text, text, text_eq, is_space, lstrip, rstrip, strip, span}

abbrev ascii : Unicode
ascii = record {
  is_alnum = λ c. between b'0' b'9' c || (between b'a' b'z' c || between b'A' b'Z' c);
  casefold = lower;
}

unfoldable pre_pass : Text → Option (Text × Text)
unfolding extract_album_prefix lstrip_of rstrip_of any_word polite_from trim_politeness first_token
    collapse drop_host feedback_from trim_feedback normalize_platform_text close_quote match_quoted
    split_quoted_album is_declined trimmed unquoted read_title read_match has_newline
    any_preposition prep_token_prescreen match_preposition shortest_prefix match_album has_by
    has_comma is_request_shaped drop_descriptor is_alike after_literal has_text text_eq is_space
    lstrip rstrip strip span
pre_pass message = extract_album_prefix ascii message

polite :
    pre_pass (text "Moon Pix by cat power  OFF of the album doga please!")
    ≡ some (text "doga", text "Moon Pix by cat power")
unfolding pre_pass text
polite = refl

quoted :
    pre_pass (text "x by y off the album \"noise\" thanks for all")
    ≡ some (text "noise", text "x by y thanks for all")
unfolding pre_pass text
quoted = refl

streamed : pre_pass (text "x by y on YouTube.com") ≡ none
unfolding pre_pass text
streamed = refl

abbrev request : Text
request = text "moon pix by cat power off of doga"

abbrev division : AlbumMatch
division = record {
  prefix = text "moon pix by cat power";
  prep = text "off of";
  album = text "doga";
}

request-division : match_album request ≡ some division
unfolding match_album shortest_prefix match_preposition after_literal is_alike has_newline lstrip
    is_space text
request-division = refl

match_album-IsDivision_example : IsDivision request division × (is_nil division.prefix ≡ false)
match_album-IsDivision_example = match_album-IsDivision request division request-division

extract_album_prefix-IsKept_example : IsKept (extract_album_prefix ascii request)
extract_album_prefix-IsKept_example = extract_album_prefix-IsKept ascii request
