-- ===== src/Parser/Words.antt =====
-- services/parser.py: the patterns of the album pre-pass, each as a matcher. `\s` is `str.isspace`; `\w` is a
-- parameter, Python's `str.isalnum` with the underscore.
use request_o_matic.Base.{
  ℕ, Bool, true, false, not, ◌&&◌, ◌||◌, Option, none, some, List, [], ◌∷◌, ◌==◌, is_nil,
  if◌then◌else◌,
}
use request_o_matic.Text.Case.{after_literal}
use request_o_matic.Text.{Text, text, is_space, lstrip}

-- `.` matches no line feed.
unfoldable pub has_newline : Text → Bool
has_newline [] = false
has_newline (c ∷ s) = c == 10 || has_newline s

abbrev pub starts_blank : Text → Bool
starts_blank [] = false
starts_blank (c ∷ s) = is_space c

-- `SUPPORTED_ALBUM_PREPOSITIONS`
abbrev pub prepositions : List Text
prepositions = text "off of" ∷ text "off" ∷ text "from" ∷ text "on" ∷ []

abbrev blank_follows : Option Text → Bool
blank_follows none = false
blank_follows (some rest) = starts_blank rest

unfoldable pub any_preposition : List Text → Text → Bool
unfolding after_literal
any_preposition [] s = false
any_preposition (p ∷ ps) s = blank_follows (after_literal p s) || any_preposition ps s

-- `_PREP_TOKEN_PRESCREEN_RE.search`
unfoldable pub prep_token_prescreen : Text → Bool
unfolding any_preposition
prep_token_prescreen [] = false
prep_token_prescreen (c ∷ s) =
    (is_space c && any_preposition prepositions s) || prep_token_prescreen s

-- `\s+(?P<album>\S.*?)\s*$` after the preposition. The text has no white space at its end, so the album
-- is all that is left, and no line feed may stand in it.
abbrev pub album_after : Option Text → Option Text
album_after none = none
album_after (some rest) =
    let album = lstrip rest in
    if starts_blank rest && (not (is_nil album) && not (has_newline album))
    then some album
    else none

unfoldable pub match_preposition : List Text → Text → Option (Text × Text)
unfolding after_literal has_newline lstrip
match_preposition [] s = none
match_preposition (p ∷ ps) s =
    let later = match_preposition ps s in
    elim (album_after (after_literal p s)) [ none ↦ later | some album ↦ some (p, album) ]

-- What `_ALBUM_PREPOSITION_RE` captures.
pub record AlbumMatch : Type 0 where
  pub prefix : Text
  pub prep : Text
  pub album : Text

abbrev longer : ℕ → Option AlbumMatch → Option AlbumMatch
longer c none = none
longer c (some m) = some (record { prefix = c ∷ m.prefix; prep = m.prep; album = m.album })

abbrev pub prefixed : ℕ → Option AlbumMatch → Option AlbumMatch
prefixed c m = if c == 10 then none else longer c m

abbrev pub ends_here : Option (Text × Text) → Option AlbumMatch → Option AlbumMatch
ends_here none later = later
ends_here (some (prep, album)) later = some (record { prefix = []; prep = prep; album = album })

-- The shortest prefix that is followed by white space, a preposition and an album.
unfoldable pub shortest_prefix : Text → Option AlbumMatch
unfolding match_preposition
shortest_prefix [] = none
shortest_prefix (c ∷ s) =
    let later = prefixed c (shortest_prefix s) in
    if is_space c then ends_here (match_preposition prepositions (lstrip (c ∷ s))) later else later

-- `_ALBUM_PREPOSITION_RE.match`, whose prefix has one character at least
unfoldable pub match_album : Text → Option AlbumMatch
unfolding shortest_prefix
match_album [] = none
match_album (c ∷ s) = prefixed c (shortest_prefix s)

module _ (is_alnum : ℕ → Bool) where
  -- `\w`, and `\b` after a word character
  abbrev pub is_word : ℕ → Bool
  is_word c = is_alnum c || c == b'_'

  abbrev pub word_ends : Text → Bool
  word_ends [] = true
  word_ends (c ∷ s) = not (is_word c)

  abbrev ended : Option Text → Bool
  ended none = false
  ended (some rest) = word_ends rest

  -- `_ARTIST_BY_TOKEN_RE.search`, from a place that a word character stands before, or not
  unfoldable pub has_by : Bool → Text → Bool
  unfolding after_literal
  has_by inside [] = false
  has_by inside (c ∷ s) =
      (not inside && ended (after_literal (text "by") (c ∷ s))) || has_by (is_word c) s

  unfoldable pub has_comma : Text → Bool
  has_comma [] = false
  has_comma (c ∷ s) = c == b',' || has_comma s

  -- `_REQUEST_SIGNAL_RE.search`
  unfoldable pub is_request_shaped : Text → Bool
  unfolding has_by has_comma
  is_request_shaped s = has_by false s || has_comma s

  -- `\s+` before the rest of a pattern that begins with a letter
  abbrev spaced : Option Text → Option Text
  spaced none = none
  spaced (some rest) = if starts_blank rest then some (lstrip rest) else none

  abbrev literal : Text → Option Text → Option Text
  literal p none = none
  literal p (some s) = after_literal p s

  abbrev first_of : Option Text → Option Text → Option Text
  first_of none b = b
  first_of (some s) b = some s

  abbrev album_or_record : Option Text → Option Text
  album_or_record s =
      first_of (spaced (literal (text "album") s)) (spaced (literal (text "record") s))

  -- `album (?! \s+ of \b ) \s+`
  abbrev bare_album : Option Text → Option Text
  bare_album rest = if ended (literal (text "of") (spaced rest)) then none else spaced rest

  -- `_LEADING_ALBUM_DESCRIPTOR_RE.sub("", …)`
  unfoldable pub drop_descriptor : Text → Text
  unfolding after_literal
  drop_descriptor s =
      elim (first_of (album_or_record (spaced (after_literal (text "the") s)))
        (bare_album (after_literal (text "album") s))) [ none ↦ s | some rest ↦ rest ]
