-- ===== src/Text/Url.antt =====
-- UTF-8, and `urllib.parse.quote(s, safe="")`. Lone surrogates, which Python refuses to encode, do not
-- occur: the texts come from HTTP headers and from JSON.
use Prim.Native.Nat.{◌/◌, ◌%◌}
use request_o_matic.Base.{
  ℕ, ◌+◌, Bool, ◌||◌, List, [], ◌∷◌, ◌++◌, ltb, ◌==◌, between, if◌then◌else◌,
}
use request_o_matic.Text.{Text}

unfoldable pub utf8_char : ℕ → List ℕ
utf8_char c =
    if ltb c 0x80
    then c ∷ []
    else if ltb c 0x800
    then (0xc0 + c / 64) ∷ (0x80 + c % 64) ∷ []
    else if ltb c 0x10000
    then (0xe0 + c / 4096) ∷ (0x80 + c / 64 % 64) ∷ (0x80 + c % 64) ∷ []
    else (0xf0 + c / 262144) ∷ (0x80 + c / 4096 % 64) ∷ (0x80 + c / 64 % 64) ∷ (0x80 + c % 64) ∷ []

unfoldable pub utf8 : Text → List ℕ
unfolding utf8_char
utf8 [] = []
utf8 (c ∷ s) = utf8_char c ++ utf8 s

-- `A-Z a-z 0-9 _ . - ~`
unfoldable pub is_unreserved : ℕ → Bool
is_unreserved b =
    between b'A' b'Z' b
    || between b'a' b'z' b
    || between b'0' b'9' b
    || b == b'_'
    || b == b'.'
    || b == b'-'
    || b == b'~'

abbrev hex_digit : ℕ → ℕ
hex_digit n = if ltb n 10 then 48 + n else 55 + n

unfoldable pub quote_bytes : List ℕ → Text
unfolding is_unreserved
quote_bytes [] = []
quote_bytes (b ∷ bs) =
    if is_unreserved b
    then b ∷ quote_bytes bs
    else b'%' ∷ hex_digit (b / 16) ∷ hex_digit (b % 16) ∷ quote_bytes bs

unfoldable pub quote : Text → Text
unfolding utf8 quote_bytes
quote s = quote_bytes (utf8 s)
