-- ===== src/Parser/Album.antt =====
-- services/parser.py, `extract_album_prefix`: the album pre-pass. `str.isalnum` and `str.casefold` are
-- parameters.
use request_o_matic.Base.{
  ℕ, Bool, false, not, ◌&&◌, ◌||◌, Option, none, some, List, [], ◌∷◌, ◌++◌, ◌==◌, is_nil,
  if◌then◌else◌,
}
use request_o_matic.Parser.Words.{
  word_ends, has_by, is_request_shaped, drop_descriptor, prep_token_prescreen, AlbumMatch,
  match_album,
}
use request_o_matic.Text.Case.{lower, after_literal}
use request_o_matic.Text.Order.{has_text}
use request_o_matic.Text.{Text, text, text_eq, is_space, lstrip, strip, span}

-- What the pre-pass asks of Python's tables of Unicode.
pub record Unicode : Type 0 where
  pub is_alnum : ℕ → Bool
  pub casefold : Text → Text

abbrev is_one_of : Text → ℕ → Bool
is_one_of [] c = false
is_one_of (d ∷ ds) c = c == d || is_one_of ds c

-- `_QUOTE_FAMILIES`
abbrev double_quotes : Text
double_quotes = b'"' ∷ 0x201c ∷ 0x201d ∷ []

abbrev single_quotes : Text
single_quotes = 39 ∷ 0x2018 ∷ 0x2019 ∷ []

-- `s.lstrip(chars)` and `s.rstrip(chars)`
unfoldable pub lstrip_of : (ℕ → Bool) → Text → Text
lstrip_of p [] = []
lstrip_of p (c ∷ s) = if p c then lstrip_of p s else c ∷ s

unfoldable pub rstrip_of : (ℕ → Bool) → Text → Text
rstrip_of p [] = []
rstrip_of p (c ∷ s) = let r = rstrip_of p s in if p c && is_nil r then [] else c ∷ r

-- `[\s,.!?]`, `[.!?]` and `[.!?…]`
abbrev is_stop : ℕ → Bool
is_stop c = is_one_of (text ".!?") c

abbrev is_tail : ℕ → Bool
is_tail c = is_space c || (c == b',' || is_stop c)

abbrev is_sentence_end : ℕ → Bool
is_sentence_end c = is_stop c || c == 0x2026

abbrev politeness : List Text
politeness = text "please" ∷ text "thanks" ∷ text "thank you" ∷ text "thx" ∷ []

-- Whether one of the words stands here, and its rest passes.
unfoldable pub any_word : (Text → Bool) → List Text → Text → Bool
unfolding after_literal
any_word p [] s = false
any_word p (word ∷ words) s =
    let later = any_word p words s in
    elim (after_literal word s) [ none ↦ later | some rest ↦ p rest || later ]

-- `\s*[.!?]*\s*$`
abbrev is_polite_end : Text → Bool
is_polite_end rest = is_nil (lstrip (lstrip_of is_stop (lstrip rest)))

unfoldable pub polite_from : Text → Bool
unfolding lstrip_of any_word
polite_from [] = false
polite_from (c ∷ s) = is_tail c && any_word is_polite_end politeness (lstrip_of is_tail s)

-- `_TRAILING_POLITENESS_RE.sub("", …)`: the match ends the text
unfoldable pub trim_politeness : Text → Text
unfolding polite_from
trim_politeness [] = []
trim_politeness (c ∷ s) = if polite_from (c ∷ s) then [] else c ∷ trim_politeness s

-- `",.!?"`
abbrev pub is_punctuation : ℕ → Bool
is_punctuation c = c == b',' || is_stop c

abbrev idiom_heads : List Text
idiom_heads =
    text "the"
    ∷ text "air"
    ∷ text "vinyl"
    ∷ text "cd"
    ∷ text "wax"
    ∷ text "rotation"
    ∷ text "tape"
    ∷ text "blast"
    ∷ text "repeat"
    ∷ text "loop"
    ∷ text "shuffle"
    ∷ text "fire"
    ∷ text "point"
    ∷ text "hold"
    ∷ text "today"
    ∷ text "tonight"
    ∷ text "tomorrow"
    ∷ text "monday"
    ∷ text "tuesday"
    ∷ text "wednesday"
    ∷ text "thursday"
    ∷ text "friday"
    ∷ text "saturday"
    ∷ text "sunday"
    ∷ []

abbrev streaming_platforms : List Text
streaming_platforms =
    text "spotify"
    ∷ text "apple music"
    ∷ text "bandcamp"
    ∷ text "youtube"
    ∷ text "youtube music"
    ∷ text "soundcloud"
    ∷ text "deezer"
    ∷ []

-- `re.split(r"\s+", album, maxsplit=1)[0].lower().rstrip(",.!?")`
unfoldable pub first_token : Text → Text
unfolding span rstrip_of
first_token album =
    let (token, rest) = span (λ c. not (is_space c)) album in rstrip_of is_punctuation (lower token)

-- `re.sub(r"\s+", " ", …)`, at a place that white space stands before, or not
unfoldable pub collapse : Bool → Text → Text
collapse after_space [] = []
collapse after_space (c ∷ s) =
    let rest = collapse (is_space c) s in
    if is_space c then (if after_space then rest else 32 ∷ rest) else c ∷ rest

-- `re.sub(r"\.(?:com|co)$", "", …)`: there is no line feed at the end
unfoldable pub drop_host : Text → Text
unfolding text_eq
drop_host [] = []
drop_host (c ∷ s) =
    if text_eq (c ∷ s) (text ".com") || text_eq (c ∷ s) (text ".co") then [] else c ∷ drop_host s

abbrev pub is_head_idiom : Text → Bool
is_head_idiom album = has_text (first_token album) idiom_heads

module _ (u : Unicode) where
  -- A boundary, white space, a word of politeness, and its end.
  unfoldable pub feedback_from : Text → Bool
  unfolding lstrip_of any_word
  feedback_from [] = false
  feedback_from (c ∷ s) =
      (is_sentence_end c
        && any_word (word_ends u.is_alnum) politeness (lstrip (lstrip_of is_sentence_end s)))
      || (c == b','
          && any_word (word_ends u.is_alnum) politeness (lstrip (lstrip_of (λ d. d == b',') s)))

  -- `_TRAILING_FEEDBACK_RE.sub("", …)`
  unfoldable pub trim_feedback : Text → Text
  unfolding feedback_from
  trim_feedback [] = []
  trim_feedback (c ∷ s) = if feedback_from (c ∷ s) then [] else c ∷ trim_feedback s

  -- `_normalize_platform_text`
  unfoldable pub normalize_platform_text : Text → Text
  unfolding collapse drop_host rstrip_of strip
  normalize_platform_text album =
      strip
        (drop_host (strip (rstrip_of is_punctuation (u.casefold (strip (collapse false album))))))

  -- `.+?` up to a closing mark, and `.*`
  abbrev longer : ℕ → Option (Text × Text) → Option (Text × Text)
  longer c none = none
  longer c (some (title, rest)) = some (c ∷ title, rest)

  unfoldable pub close_quote : (ℕ → Bool) → Text → Option (Text × Text)
  close_quote is_mark [] = none
  close_quote is_mark (c ∷ s) =
      let later = longer c (close_quote is_mark s) in
      if is_mark c && word_ends u.is_alnum s then some ([], s) else later

  abbrev after_first : (ℕ → Bool) → Text → Option (Text × Text)
  after_first is_mark [] = none
  after_first is_mark (c ∷ s) = longer c (close_quote is_mark s)

  -- one pattern of `_QUOTED_ALBUM_RES`
  unfoldable pub match_quoted : (ℕ → Bool) → Text → Option (Text × Text)
  unfolding close_quote
  match_quoted is_mark [] = none
  match_quoted is_mark (c ∷ s) = if is_mark c then after_first is_mark s else none

  abbrev pub stripped : Text × Text → Option (Text × Text)
  stripped (title, rest) = if is_nil (strip title) then none else some (strip title, strip rest)

  abbrev pub first_match : Option (Text × Text) → Option (Text × Text) → Option (Text × Text)
  first_match (some m) later = stripped m
  first_match none none = none
  first_match none (some m) = stripped m

  -- `_split_quoted_album`
  unfoldable pub split_quoted_album : Text → Option (Text × Text)
  unfolding match_quoted
  split_quoted_album album =
      first_match (match_quoted (is_one_of double_quotes) album)
        (match_quoted (is_one_of single_quotes) album)

  abbrev is_quote : ℕ → Bool
  is_quote c = is_one_of double_quotes c || is_one_of single_quotes c

  -- The guards of an album that is not quoted, in order.
  unfoldable pub is_declined : Text → Text → Text → Bool
  unfolding first_token normalize_platform_text has_by is_request_shaped
  is_declined prefix prep album =
      (text_eq prep (text "off") && text_eq (lower album) (text "of"))
      || is_head_idiom album
      || has_text (normalize_platform_text album) streaming_platforms
      || (text_eq prep (text "on") && has_text (normalize_platform_text album) (text "tidal" ∷ []))
      || (has_by u.is_alnum false album && not (is_request_shaped u.is_alnum prefix))

  -- `f"{prefix} {remainder}".strip() if remainder else prefix`
  abbrev pub rejoined : Text → Text → Text
  rejoined prefix [] = prefix
  rejoined prefix (c ∷ remainder) = strip (prefix ++ (32 ∷ c ∷ remainder))

  unfoldable pub trimmed : Text → Text
  unfolding trim_feedback trim_politeness strip
  trimmed album = strip (trim_politeness (trim_feedback album))

  unfoldable pub unquoted : Text → Text → Text → Option (Text × Text)
  unfolding trimmed is_declined
  unquoted prefix prep album =
      if is_nil (trimmed album) || is_declined prefix prep (trimmed album)
      then none
      else some (trimmed album, prefix)

  abbrev pub quoted_or : Text → Text → Text → Option (Text × Text) → Option (Text × Text)
  quoted_or prefix prep album none = unquoted prefix prep album
  quoted_or prefix prep album (some (title, remainder)) = some (title, rejoined prefix remainder)

  -- From the album with its descriptor dropped.
  unfoldable pub read_title : Text → Text → Text → Option (Text × Text)
  unfolding split_quoted_album unquoted lstrip_of rstrip_of strip
  read_title prefix prep album =
      if is_nil album || is_nil (strip (rstrip_of is_quote (lstrip_of is_quote album)))
      then none
      else quoted_or prefix prep album (split_quoted_album album)

  unfoldable pub read_match : AlbumMatch → Option (Text × Text)
  unfolding is_request_shaped drop_descriptor read_title strip
  read_match m =
      if text_eq m.prep (text "from") && not (is_request_shaped u.is_alnum (strip m.prefix))
      then none
      else read_title (strip m.prefix) m.prep (strip (drop_descriptor u.is_alnum (strip m.album)))

  abbrev pub read_found : Option AlbumMatch → Option (Text × Text)
  read_found none = none
  read_found (some m) = read_match m

  unfoldable pub extract_album_prefix : Text → Option (Text × Text)
  unfolding prep_token_prescreen match_album read_match strip
  extract_album_prefix raw_message =
      if not (is_nil (strip raw_message)) && prep_token_prescreen (strip raw_message)
      then read_found (match_album (strip raw_message))
      else none
