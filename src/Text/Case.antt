-- ===== src/Text/Case.antt =====
-- Case, for comparisons with texts of lower-case ASCII letters.
use request_o_matic.Base.{
  ℕ, ◌+◌, Bool, ◌&&◌, ◌||◌, Option, none, some, [], ◌∷◌, ◌==◌, map, between, if◌then◌else◌,
}
use request_o_matic.Text.{Text}

-- `.lower()`: the upper-case letters that lower to one of ASCII are those of ASCII, and the Kelvin sign.
abbrev pub lower_char : ℕ → ℕ
lower_char c = if between b'A' b'Z' c then c + 32 else if c == 0x212a then b'k' else c

abbrev pub lower : Text → Text
lower s = map lower_char s

-- A literal of a pattern under `re.IGNORECASE`: a letter also matches its capital, `k` the Kelvin sign and
-- `s` the long s.
unfoldable pub is_alike : ℕ → ℕ → Bool
is_alike p c =
    c == p
    || (between b'a' b'z' p && c + 32 == p)
    || (p == b'k' && c == 0x212a)
    || (p == b's' && c == 0x17f)

-- What follows a literal text, if the text begins with it.
unfoldable pub after_literal : Text → Text → Option Text
unfolding is_alike
after_literal [] s = some s
after_literal (p ∷ ps) [] = none
after_literal (p ∷ ps) (c ∷ s) =
    let rest = after_literal ps s in if is_alike p c then rest else none
