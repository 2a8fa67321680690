-- ===== src/Fingerprint.antt =====
-- services/fingerprint.py: the shape that an `X-Device-Fingerprint` header must have.
pub mod Shape
use request_o_matic.Base.{
  ℕ, zero, suc, Bool, true, false, ◌&&◌, ◌||◌, Option, none, some, List, [], ◌∷◌, ◌==◌, between,
  if◌then◌else◌,
}
use request_o_matic.Text.{Text, strip}

-- `[0-9a-f]` under `re.IGNORECASE`
unfoldable pub is_hex : ℕ → Bool
is_hex c = between b'0' b'9' c || between b'a' b'f' c || between b'A' b'F' c

-- `[0-9a-f]{n}`, followed by what `rest` matches
unfoldable pub hex_run : ℕ → (Text → Bool) → Text → Bool
hex_run zero rest s = rest s
hex_run (suc n) rest [] = false
hex_run (suc n) rest (c ∷ s) = is_hex c && hex_run n rest s

unfoldable pub hyphen : (Text → Bool) → Text → Bool
hyphen rest [] = false
hyphen rest (c ∷ s) = c == b'-' && rest s

-- `$` also matches before a line feed that ends the text.
unfoldable pub at_end : Text → Bool
at_end [] = true
at_end (c ∷ []) = c == 10
at_end (c ∷ d ∷ s) = false

-- `_FINGERPRINT_RE.match`
unfoldable pub fingerprint_re : Text → Bool
fingerprint_re =
    hex_run 8
      (hyphen (hex_run 4 (hyphen (hex_run 4 (hyphen (hex_run 4 (hyphen (hex_run 12 at_end))))))))

unfoldable pub normalize_fingerprint : Option Text → Option Text
normalize_fingerprint none = none
normalize_fingerprint (some raw) =
    let candidate = strip raw in if fingerprint_re candidate then some candidate else none
