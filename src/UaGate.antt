-- ===== src/UaGate.antt =====
-- services/ua_gate.py: does a `User-Agent` claim a client that always sends its fingerprint?
pub mod Scan
pub mod Claim
use request_o_matic.Base.{
  ℕ, zero, suc, ◌+◌, ◌*◌, ◌-◌, Bool, true, false, ◌&&◌, ◌||◌, Option, none, some, List, [], ◌∷◌,
  map, ◌==◌, ltb, leb, between, length, if◌then◌else◌,
}
use request_o_matic.Text.{Text, text, text_eq, split, span, is_given}

-- `[A-Za-z0-9\-]`
unfoldable pub is_product_char : ℕ → Bool
is_product_char c = between b'A' b'Z' c || between b'a' b'z' c || between b'0' b'9' c || c == b'-'

-- The zeros of Unicode's decimal digits (category Nd); each is followed by its nine others.
abbrev digit_zeros : List ℕ
digit_zeros =
    0x30 ∷ 0x660 ∷ 0x6f0 ∷ 0x7c0 ∷ 0x966 ∷ 0x9e6 ∷ 0xa66 ∷ 0xae6 ∷ 0xb66 ∷ 0xbe6 ∷ 0xc66 ∷ 0xce6
    ∷ 0xd66 ∷ 0xde6 ∷ 0xe50 ∷ 0xed0 ∷ 0xf20 ∷ 0x1040 ∷ 0x1090 ∷ 0x17e0 ∷ 0x1810 ∷ 0x1946 ∷ 0x19d0
    ∷ 0x1a80 ∷ 0x1a90 ∷ 0x1b50 ∷ 0x1bb0 ∷ 0x1c40 ∷ 0x1c50 ∷ 0xa620 ∷ 0xa8d0 ∷ 0xa900 ∷ 0xa9d0
    ∷ 0xa9f0 ∷ 0xaa50 ∷ 0xabf0 ∷ 0xff10 ∷ 0x104a0 ∷ 0x10d30 ∷ 0x11066 ∷ 0x110f0 ∷ 0x11136 ∷ 0x111d0
    ∷ 0x112f0 ∷ 0x11450 ∷ 0x114d0 ∷ 0x11650 ∷ 0x116c0 ∷ 0x11730 ∷ 0x118e0 ∷ 0x11950 ∷ 0x11c50
    ∷ 0x11d50 ∷ 0x11da0 ∷ 0x11f50 ∷ 0x16a60 ∷ 0x16ac0 ∷ 0x16b50 ∷ 0x1d7ce ∷ 0x1d7d8 ∷ 0x1d7e2
    ∷ 0x1d7ec ∷ 0x1d7f6 ∷ 0x1e140 ∷ 0x1e2f0 ∷ 0x1e4f0 ∷ 0x1e950 ∷ 0x1fbf0 ∷ []

digit_from : List ℕ → ℕ → Option ℕ
digit_from [] c = none
digit_from (z ∷ zs) c = if between z (z + 9) c then some (c - z) else digit_from zs c

-- `\d` on a `str` pattern, with the value that `int` gives the digit
unfoldable pub digit_value : ℕ → Option ℕ
unfolding digit_from
digit_value c = digit_from digit_zeros c

unfoldable pub is_digit : ℕ → Bool
unfolding digit_value
is_digit c = elim (digit_value c) [ none ↦ false | some d ↦ true ]

-- what follows the first digit in `\d+(?:\.\d+)*`: the longest run of digits and of dots that a
-- digit follows
unfoldable pub version_run : Text → Text × Text
version_run [] = ([], [])
version_run (c ∷ []) = if is_digit c then (c ∷ [], []) else ([], c ∷ [])
version_run (c ∷ d ∷ s) =
    let (run, rest) = version_run (d ∷ s) in
    if is_digit c || (c == b'.' && is_digit d) then (c ∷ run, rest) else ([], c ∷ d ∷ s)

-- a product that ends here is a match if a slash and a digit follow
unfoldable pub close_product : Text → Text → Option (Text × Text) × Text
unfolding is_digit version_run
close_product product [] = (none, [])
close_product product (c ∷ []) = (none, c ∷ [])
close_product product (c ∷ d ∷ s) =
    let (version, rest) = version_run (d ∷ s) in
    if c == b'/' && is_digit d then (some (product, version), rest) else (none, c ∷ d ∷ s)

-- One round of `_PRODUCT_TOKEN_RE.findall`: the characters at which no match starts are passed.
unfoldable pub next_product : ℕ → Text → Option (Text × Text) × Text
unfolding is_product_char close_product span
next_product c s =
    let (run, rest) = span is_product_char s in
    if is_product_char c then close_product (c ∷ run) rest else (none, s)

abbrev pub found : Option (Text × Text) → List (Text × Text) → List (Text × Text)
found none later = later
found (some m) later = m ∷ later

-- on fuel: each round takes a character at least
unfoldable pub find_products : ℕ → Text → List (Text × Text)
unfolding next_product
find_products zero s = []
find_products (suc fuel) [] = []
find_products (suc fuel) (c ∷ s) =
    let (m, rest) = next_product c s in let later = find_products fuel rest in found m later

-- `int(part)`, which CPython refuses beyond 4300 digits
digits_value : ℕ → Text → Option ℕ
unfolding digit_value
digits_value acc [] = some acc
digits_value acc (c ∷ s) = elim (digit_value c) [
  | none ↦ none
  | some d ↦ digits_value (acc * 10 + d) s
]

int_of : Text → Option ℕ
unfolding digits_value
int_of part = if length part == 0 || ltb 4300 (length part) then none else digits_value 0 part

unfoldable pub ints_of : List Text → Option (List ℕ)
unfolding int_of
ints_of [] = some []
ints_of (p ∷ ps) =
    let rest = ints_of ps in
    elim (int_of p) [ none ↦ none | some n ↦ elim rest [ none ↦ none | some ns ↦ some (n ∷ ns) ] ]

-- `parsed >= minimum` on tuples
unfoldable pub tuple_ge : List ℕ → List ℕ → Bool
tuple_ge xs [] = true
tuple_ge [] (y ∷ ys) = false
tuple_ge (x ∷ xs) (y ∷ ys) = let rest = tuple_ge xs ys in if x == y then rest else ltb y x

-- `_STRICT_CLIENT_REGISTRY`
abbrev pub strict_minimum : Text → Option (List ℕ)
strict_minimum product = if text_eq product (text "WXYC-iOS") then some (3 ∷ 2 ∷ []) else none

unfoldable pub is_strict_version : Text → List ℕ → Bool
unfolding ints_of split tuple_ge
is_strict_version version minimum = elim (ints_of (split b'.' version)) [
  | none ↦ false
  | some parsed ↦ tuple_ge parsed minimum
]

unfoldable pub any_strict : List (Text × Text) → Bool
unfolding is_strict_version
any_strict [] = false
any_strict ((product, version) ∷ found) =
    let later = any_strict found in
    elim (strict_minimum product) [
      | none ↦ later
      | some minimum ↦ if is_strict_version version minimum then true else later
    ]

unfoldable pub is_known_strict_client : Option Text → Bool
unfolding any_strict find_products
is_known_strict_client none = false
is_known_strict_client (some user_agent) =
    if is_given (some user_agent)
    then any_strict (find_products (length user_agent) user_agent)
    else false
