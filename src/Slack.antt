-- ===== src/Slack.antt =====
-- services/slack.py: the blocks and the metadata of a Slack post.
pub mod Service
pub mod Calls
pub mod Providers
pub mod Transport
pub mod Accepted
use request_o_matic.Base.{
  Bool, true, false, Option, none, some, List, [], ◌∷◌, ◌++◌, map, if◌then◌else◌,
}
use request_o_matic.Fingerprint.{normalize_fingerprint}
use request_o_matic.Json.{Json, string, arr, obj}
use request_o_matic.Metadata.{LibraryItem, ReleaseMetadata, preview_url}
use request_o_matic.Text.{Text, text, is_given, join}

abbrev pub metadata_event_type : Text
metadata_event_type = text "request_posted"

abbrev pub ban_button_action_id : Text
ban_button_action_id = text "ban_requester"

abbrev mrkdwn : Text → Json
mrkdwn t = obj ((text "type", string (text "mrkdwn")) ∷ (text "text", string t) ∷ [])

abbrev pub section : Text → Json
section t = obj ((text "type", string (text "section")) ∷ (text "text", mrkdwn t) ∷ [])

abbrev pub context_block : Text → Json
context_block t =
    obj ((text "type", string (text "context")) ∷ (text "elements", arr (mrkdwn t ∷ [])) ∷ [])

-- `_build_ban_menu_block`
unfoldable pub ban_menu_block : Json
ban_menu_block = obj (
    (text "type", string (text "actions"))
    ∷ (
      text "elements",
      arr (
          obj (
            (text "type", string (text "overflow"))
            ∷ (text "action_id", string ban_button_action_id)
            ∷ (
              text "options",
              arr (
                  obj (
                    (
                      text "text",
                      obj (
                          (text "type", string (text "plain_text"))
                          ∷ (text "text", string (text "Ban requester"))
                          ∷ []),
                    )
                    ∷ (text "value", string (text "ban_requester"))
                    ∷ [])
                  ∷ []),
            )
            ∷ [])
          ∷ []),
    )
    ∷ [])

abbrev pub fingerprint_metadata : Text → Json
fingerprint_metadata f = obj (
    (text "event_type", string metadata_event_type)
    ∷ (text "event_payload", obj ((text "fingerprint", string f) ∷ []))
    ∷ [])

unfoldable pub build_slack_metadata : Option Text → Option Json
build_slack_metadata fingerprint = elim (normalize_fingerprint fingerprint) [
  | none ↦ none
  | some normalized ↦ some (fingerprint_metadata normalized)
]

unfoldable pub maybe_append_ban_button : List Json → Option Text → List Json
maybe_append_ban_button blocks fingerprint = elim (normalize_fingerprint fingerprint) [
  | none ↦ blocks
  | some normalized ↦ blocks ++ (ban_menu_block ∷ [])
]

-- `value or default`
abbrev or_text : Option Text → Text → Text
or_text o default = elim o [ none ↦ default | some t ↦ if is_given (some t) then t else default ]

-- `f"{value}"` on a `str | None`
abbrev shown : Option Text → Text
shown none = text "None"
shown (some t) = t

abbrev link : Text → Text → Text
link url label = text "<" ++ (url ++ (text "|" ++ (label ++ text ">")))

abbrev optional_link : Option Text → Text → List Text
optional_link none label = []
optional_link (some url) label = link url label ∷ []

unfoldable pub link_parts : LibraryItem → ReleaseMetadata → List Text
link_parts item artwork =
    link artwork.release_url (text "Discogs")
    ∷ ((if is_given (some item.library_url) then link item.library_url (text "WXYC") ∷ [] else [])
        ++ optional_link (preview_url artwork) (text "Preview"))

unfoldable pub link_lines : LibraryItem → Option ReleaseMetadata → List Text
unfolding link_parts
link_lines item none = []
link_lines item (some artwork) =
    if is_given (some artwork.release_url)
    then join (text " | ") (link_parts item artwork) ∷ []
    else []

unfoldable pub text_lines : LibraryItem → Option ReleaseMetadata → List Text
unfolding link_lines
text_lines item artwork =
    (text "*" ++ (or_text item.artist (text "Unknown Artist") ++ text "*"))
    ∷ or_text item.title (text "Unknown Title")
    ∷ (text "_" ++ (item.call_number ++ text "_"))
    ∷ link_lines item artwork

abbrev image : LibraryItem → Text → Json
image item url = obj (
    (text "type", string (text "image"))
    ∷ (text "image_url", string url)
    ∷ (text "alt_text", string (shown item.title ++ text " album cover"))
    ∷ [])

abbrev accessory : LibraryItem → Option Text → List (Text × Json)
accessory item none = []
accessory item (some url) =
    if is_given (some url) then (text "accessory", image item url) ∷ [] else []

abbrev artwork_accessory : LibraryItem → Option ReleaseMetadata → List (Text × Json)
artwork_accessory item none = []
artwork_accessory item (some artwork) = accessory item artwork.artwork_url

-- The block of one row.
unfoldable pub item_block : LibraryItem × Option ReleaseMetadata → Json
unfolding text_lines
item_block (item, artwork) = obj (
    (text "type", string (text "section"))
    ∷ (text "text", mrkdwn (join (10 ∷ []) (text_lines item artwork)))
    ∷ artwork_accessory item artwork)

abbrev bold : Text → Text
bold message = text "*" ++ (message ++ text "*")

abbrev context_sections : Option Text → List Json
context_sections none = []
context_sections (some context) = if is_given (some context) then section context ∷ [] else []

unfoldable pub build_slack_blocks :
    Text → List (LibraryItem × Option ReleaseMetadata) → Option Text → List Json
unfolding item_block
build_slack_blocks message items_with_artwork context =
    section (bold message) ∷ (context_sections context ++ map item_block items_with_artwork)

abbrev context_blocks : Option Text → List Json
context_blocks none = []
context_blocks (some context) = if is_given (some context) then context_block context ∷ [] else []

unfoldable pub build_simple_slack_blocks : Text → Option Text → List Json
build_simple_slack_blocks message context = section (bold message) ∷ context_blocks context
