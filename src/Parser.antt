-- ===== src/Parser.antt =====
-- services/parser.py, `parse_request`: the call of Groq and the reading of its answer. What the
-- section takes as an argument: the decoder of JSON, pydantic's validation and Python's Unicode tables.
pub mod Words
pub mod Album
pub mod Split
pub mod Kept
use request_o_matic.Base.{false, Option, none, some, ◌∷◌, ◌++◌}
use request_o_matic.Exec.{Exception, Result, ok, raised, Call, Exec, lift, ◌>>=◌, complete}
use request_o_matic.Json.{Json, null, boolean, string, object, Members, get}
use request_o_matic.Metadata.{ParsedRequest}
use request_o_matic.Parser.Album.{Unicode, extract_album_prefix}
use request_o_matic.Text.{Text, text}

pub record Library : Type 0 where
  -- what the album pre-pass asks of Unicode
  pub unicode : Unicode
  -- `json.loads`
  pub loads : Text → Option Json
  -- `ParsedRequest(song=…, album=…, artist=…, is_request=…, message_type=…, raw_message=…)`
  pub validate : (song album artist is_request message_type : Json) → Text → Option ParsedRequest

-- `USER_PROMPT_TEMPLATE`
abbrev pub user_prompt : Text → Text
user_prompt message = text "Parse this message:" ++ (10 ∷ 10 ∷ message)

-- `parsed.get(key, default)`
abbrev get_or : Text → Json → Members → Json
get_or key default fields = elim (get key fields) [ none ↦ default | some v ↦ v ]

module _ (library : Library) where
  open library use {unicode, loads, validate}

  abbrev pub groq_message : Text → Option (Text × Text) → Text
  groq_message message none = message
  groq_message message (some (album, rest)) = rest

  -- The album of the pre-pass goes before the answer's.
  abbrev album_of : Option (Text × Text) → Members → Json
  album_of none fields = get_or (text "album") null fields
  album_of (some (album, rest)) fields = string album

  abbrev or_value_error : Option ParsedRequest → Result ParsedRequest
  or_value_error none = raised Exception.value_error
  or_value_error (some parsed) = ok parsed

  unfoldable pub read_answer : Text → Option (Text × Text) → Json → Result ParsedRequest
  read_answer message pre_pass (object fields) = or_value_error (
      validate (get_or (text "song") null fields) (album_of pre_pass fields)
        (get_or (text "artist") null fields) (get_or (text "is_request") (boolean false) fields)
        (get_or (text "message_type") (string (text "other")) fields) message)
  read_answer message pre_pass v = raised Exception.attribute_error

  unfoldable pub read_content : Text → Option (Text × Text) → Option Text → Result ParsedRequest
  unfolding read_answer
  read_content message pre_pass none = raised Exception.value_error
  read_content message pre_pass (some content) = elim (loads content) [
    | none ↦ raised Exception.value_error
    | some answer ↦ read_answer message pre_pass answer
  ]

  unfoldable pub parse_request : Text → Exec ParsedRequest
  unfolding read_content extract_album_prefix
  parse_request message =
      let pre_pass = extract_album_prefix unicode message in
      do
        content ← complete (Call.groq_chat (user_prompt (groq_message message pre_pass)))
        lift (read_content message pre_pass content)
